-- ===== src/Menubar/Calls.antt =====
-- The other methods of ProxyController in internal/menubar/controller.go: StopTunnel, StartTunnel,
-- Stop and Restart, and what the goroutines of the proxy and of a tunnel do when their Serve ends.
use dockprox.Base.{
  Bool, true, false, not, ◌&&◌, ◌||◌, Option, none, some, List, [], ◌∷◌, Result, ok, err,
  if◌then◌else◌, is_some, fail_if, wrap,
}
use dockprox.Base.Text.{Text, text_eq, lookup}
use dockprox.Menubar.Tunnels.{Handle, Tunnels, is_bound, bind_tunnel, unbind_tunnel}
use dockprox.Menubar.Control.{
  stopped, failed, is_running, is_started, ControlError, not_running, unknown_tunnel, of_tunnel,
  stop_timeout, Run, Controller, Environment, start, sync,
}
use dockprox.Menubar.Connections.{update, set_conns, up_found}

abbrev pub set_stopped : Bool → Handle → Handle
set_stopped b h = record h { stopped = b }

abbrev pub set_tunnels : (Tunnels → Tunnels) → Controller → Controller
set_tunnels f c = record c { tunnels = f c.tunnels }

abbrev pub Outcome : Type 0
Outcome = Result ControlError (Unit {0}) × Controller

module _ (env : Environment) where
  unfoldable pub stop_found : Text → Controller → Option Handle → Outcome
  stop_found name c none = (err (unknown_tunnel name), c)
  stop_found name c (some h) = (
    wrap of_tunnel (unbind_tunnel (env.can_bind c.bound) env.closes (set_stopped true h)).0,
    set_tunnels
        (update name
          (λ t. (unbind_tunnel (env.can_bind c.bound) env.closes (set_stopped true t)).1))
        c,
  )

  unfoldable pub stop_tunnel : Text → Controller → Outcome
  stop_tunnel name c = stop_found name c (lookup name c.tunnels)

  -- A tunnel that is pinned to a connection is bound by the sync that follows its Up.
  unfoldable pub start_pinned : Text → Run → Handle → Option Text → Controller → Outcome
  start_pinned name r h none c = (
    wrap of_tunnel (bind_tunnel (env.can_bind c.bound) env.closes r.reg (set_stopped false h)).0,
    set_tunnels
        (update name
          (λ t. (bind_tunnel (env.can_bind c.bound) env.closes r.reg (set_stopped false t)).1))
        c,
  )
  start_pinned name r h (some upstream) c = (
    ok tt,
    sync env r.number (
        set_conns r (up_found env.answers (lookup upstream r.reg))
          (set_tunnels (update name (set_stopped false)) c)),
  )

  unfoldable pub start_found : Text → Run → Controller → Option Handle → Outcome
  start_found name r c none = (err (unknown_tunnel name), c)
  start_found name r c (some h) = start_pinned name r h h.conn c

  unfoldable pub start_run : Text → Controller → Option Run → Outcome
  start_run name c none = (err (unknown_tunnel name), c)
  start_run name c (some r) = start_found name r c (lookup name c.tunnels)

  unfoldable pub start_tunnel : Text → Controller → Outcome
  start_tunnel name c =
      if not (is_running c.state) then (err not_running, c) else start_run name c c.run

-- The proxy's goroutine gives up its address when it is done.
unfoldable pub without_text : Text → List Text → List Text
without_text t [] = []
without_text t (s ∷ ss) = let rest = without_text t ss in if text_eq s t then rest else s ∷ rest

-- The end of the proxy's goroutine after a cancel, which closes the listener: the state of a proxy
-- that was not yet running is left to Start.
unfoldable pub proxy_ended : Controller → Controller
proxy_ended c =
    if is_running c.state
    then record c { state = stopped; listen = []; bound = without_text c.listen c.bound }
    else c

-- Whether a tunnel has a listener whose Serve does not return in time.
unfoldable pub any_wedged : (Text → Bool) → Tunnels → Bool
any_wedged closes [] = false
any_wedged closes ((name, h) ∷ ts) = (is_bound h && not (closes h.name)) || any_wedged closes ts

-- A proxy whose Serve does not return in time still shows that it runs, at its address, though its
-- listener is closed and its run is gone.
unfoldable pub proxy_cancelled : (Text → Bool) → Controller → Controller
unfolding proxy_ended
proxy_cancelled proxy_closes c =
    if proxy_closes c.listen
    then proxy_ended c
    else record c { bound = without_text c.listen c.bound }

unfoldable pub stop : Environment → Controller → Outcome
unfolding proxy_cancelled
stop env c = if not (is_started c.state) then (ok tt, c) else (
  fail_if (not (env.proxy_closes c.listen) || any_wedged env.closes c.tunnels) stop_timeout,
  record (proxy_cancelled env.proxy_closes c) { tunnels = []; run = none },
)

-- An error of Stop, which is only that a goroutine takes too long, is no reason not to start.
unfoldable pub restart : Environment → Controller → Outcome
unfolding stop
restart env c = start env (stop env c).1

-- The listeners that are closed by a cancel of the run's context, in so far as their Serve returns.
unfoldable pub closed_all : (Text → Bool) → Tunnels → Tunnels
closed_all closes [] = []
closed_all closes ((name, h) ∷ ts) =
    (name, record h { srv = if closes h.name then none else h.srv }) ∷ closed_all closes ts

-- The proxy's Serve fails: on its own, every tunnel goes down with it, and the run is kept for
-- show; once it is cancelled, that is its end.
unfoldable pub proxy_failed : (Text → Bool) → ControlError → Controller → Controller
unfolding proxy_ended
proxy_failed closes e c =
    if is_running c.state && is_some c.run
    then record c {
      state = failed;
      listen = [];
      last_err = some e;
      tunnels = closed_all closes c.tunnels;
      bound = without_text c.listen c.bound;
    }
    else proxy_ended c

-- A tunnel's Serve fails on its own.
unfoldable pub tunnel_failed : Text → Controller → Controller
tunnel_failed name c = set_tunnels (update name (λ h. record h { srv = none })) c
