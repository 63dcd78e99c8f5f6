-- ===== src/Menubar/Steps.antt =====
-- What can happen to a ProxyController of internal/menubar/controller.go: a call of the menu bar, a
-- change of a connection, a sync, or the end of a goroutine, one after another.
use dockprox.Base.{ℕ, ◌≡◌, Bool, none, some, [], ok}
use dockprox.Base.Text.{Text}
use dockprox.Ssh.Client.{ConnState}
use dockprox.Menubar.Control.{stopped, ControlError, Run, Controller, Environment, start, sync}
use dockprox.Menubar.Connections.{
  update, set_conns, connect_upstream, disconnect_upstream, upstream_dropped, set_autoconnect,
}
use dockprox.Menubar.Calls.{
  stop_tunnel, start_tunnel, stop, restart, proxy_ended, proxy_failed, tunnel_failed,
}

-- `New`, and SetAutoconnect of a saved setting.
abbrev pub new_controller : Bool → Controller
new_controller manual_only = record {
  state = stopped;
  listen = [];
  tunnels = [];
  run = none;
  last_err = none;
  manual_only = manual_only;
  runs = 0;
  bound = [];
}

module _ (env : Environment) where
  pub data Step (c : Controller) : Controller → Type 0 where
    starts : Step c (start env c).1
    stops : Step c (stop env c).1
    restarts : Step c (restart env c).1
    syncs : (number : ℕ) → Step c (sync env number c)
    connects :
        (name : Text) {c' : Controller} → connect_upstream env.answers name c ≡ ok c' → Step c c'
    disconnects : (name : Text) {c' : Controller} → disconnect_upstream name c ≡ ok c' → Step c c'
    drops : (name : Text) (number : ℕ) → Step c (upstream_dropped name number c)
    sets_autoconnect : (on : Bool) → Step c (set_autoconnect on c)
    stops_tunnel : (name : Text) → Step c (stop_tunnel env name c).1
    starts_tunnel : (name : Text) → Step c (start_tunnel env name c).1
    -- A request, a probe or an approval changes what a connection shows.
    changes :
        (name : Text) (state : ConnState) (r : Run)
        → c.run ≡ some r
        → Step c (set_conns r (update name (λ conn. record conn { state = state })) c)
    proxy_fails : (e : ControlError) → Step c (proxy_failed env.closes e c)
    -- A Serve returns that a Stop has not waited for.
    proxy_ends : c.run ≡ none → Step c (proxy_ended c)
    tunnel_fails : (name : Text) → Step c (tunnel_failed name c)

  pub data Reach : Controller → Type 0 where
    begin : (manual_only : Bool) → Reach (new_controller manual_only)
    then_step : {c c' : Controller} → Reach c → Step c c' → Reach c'
