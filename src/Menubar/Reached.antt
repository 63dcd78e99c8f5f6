-- ===== src/Menubar/Reached.antt =====
-- The invariant of a ProxyController of internal/menubar/controller.go in every reachable state.
use dockprox.Base.{
  ◌≡◌, refl, inl, inr, true, false, ◌&&◌, Option, none, some, arith, Bool-cases, is_some,
  Option-cases, All-imp,
}
use dockprox.Base.Text.{Text, lookup}
use dockprox.Menubar.Tunnels.{Conn, Handle, unbind_tunnel, bind_tunnel}
use dockprox.Menubar.Control.{is_running, ControlError, Run, Controller, Environment}
use dockprox.Menubar.Connections.{update, upstream_dropped, up_found, set_autoconnect}
use dockprox.Menubar.Calls.{
  set_stopped, set_tunnels, stop_found, stop_tunnel, start_pinned, start_found, start_run,
  start_tunnel, stop, restart, closed_all, proxy_failed, tunnel_failed,
}
use dockprox.Menubar.Steps.{
  Step, starts, stops, restarts, syncs, connects, disconnects, drops, sets_autoconnect,
  stops_tunnel, starts_tunnel, changes, proxy_fails, proxy_ends, tunnel_fails, Reach, begin,
  then_step,
}
use dockprox.Menubar.Keeps.{
  Rests, Obeys, update-All, update-Follow, up_found-Follow, unbind_tunnel-Rests,
  bind_tunnel-stopped, closed_all-Rests,
}
use dockprox.Menubar.Sound.{
  IsSound, start-IsSound, proxy_ended-IsSound, stop-IsSound, set_conns-IsSound, set_tunnels-IsSound,
  run-IsRun,
}
use dockprox.Menubar.ConnectionsSound.{
  sync-IsSound, disconnect-IsSound, connect-IsSound, dropped_run-IsSound,
  set_autoconnect_run-IsSound,
}

module _ (env : Environment) where
  -- A change of one tunnel.
  update-IsSound :
      (name : Text) (f : Handle → Handle) (c : Controller)
      → ((t : Handle) → Obeys env.closes t → Obeys env.closes (f t))
      → (is_running c.state ≡ false → (t : Handle) → Rests env.closes t → Rests env.closes (f t))
      → IsSound env c
      → IsSound env (set_tunnels (update name f) c)
  update-IsSound name f c obeys rests h =
      set_tunnels-IsSound env (update name f) c
        (update-All (Obeys env.closes) name f c.tunnels obeys h.obeys)
        (λ q. update-All (Rests env.closes) name f c.tunnels (rests q) (h.quiet q).1)
        (unfold update in refl) h

  unbind-IsSound :
      (name : Text) (c : Controller)
      → IsSound env c
      → IsSound env (
          set_tunnels
            (update name
              (λ t. (unbind_tunnel (env.can_bind c.bound) env.closes (set_stopped true t)).1))
            c)
  unbind-IsSound name c h =
      let rests = λ (t : Handle).
        unbind_tunnel-Rests (env.can_bind c.bound) env.closes (set_stopped true t) in
      update-IsSound name
        (λ t. (unbind_tunnel (env.can_bind c.bound) env.closes (set_stopped true t)).1) c
        (λ t k e. rests t) (λ q t k. rests t) h

  stop_found-IsSound :
      (name : Text) (c : Controller) (o : Option Handle)
      → IsSound env c
      → IsSound env (stop_found env name c o).1
  unfolding stop_found
  stop_found-IsSound name c none h = h
  stop_found-IsSound name c (some t) h = unbind-IsSound name c h

  free-IsSound :
      (name : Text) (f : Handle → Handle) (c : Controller)
      → ((t : Handle) → (f t).stopped ≡ false)
      → is_running c.state ≡ true
      → IsSound env c
      → IsSound env (set_tunnels (update name f) c)
  free-IsSound name f c free up h =
      update-IsSound name f c (λ t k e. absurd (ground (arith, free t)))
        (λ q. absurd (ground arith)) h

  start_pinned-IsSound :
      (name : Text) (r : Run) (t : Handle) (o : Option Text) (c : Controller)
      → c.run ≡ some r
      → is_running c.state ≡ true
      → IsSound env c
      → IsSound env (start_pinned env name r t o c).1
  unfolding start_pinned
  start_pinned-IsSound name r t none c e up h =
      free-IsSound name
        (λ x. (bind_tunnel (env.can_bind c.bound) env.closes r.reg (set_stopped false x)).1) c
        (λ x. bind_tunnel-stopped (env.can_bind c.bound) env.closes r.reg (set_stopped false x)) up
        h
  start_pinned-IsSound name r t (some upstream) c e up h =
      let freed = free-IsSound name (set_stopped false) c (λ x. refl) up h in
      sync-IsSound env r.number _ (
        set_conns-IsSound env r (up_found env.answers (lookup upstream r.reg)) _
          (run-IsRun env c r h e)
          (up_found-Follow c.manual_only env.answers (lookup upstream r.reg) r.conns) freed)

  start_found-IsSound :
      (name : Text) (r : Run) (c : Controller) (o : Option Handle)
      → c.run ≡ some r
      → is_running c.state ≡ true
      → IsSound env c
      → IsSound env (start_found env name r c o).1
  unfolding start_found
  start_found-IsSound name r c none e up h = h
  start_found-IsSound name r c (some t) e up h = start_pinned-IsSound name r t t.conn c e up h

  start_run-IsSound :
      (name : Text) (c : Controller) (o : Option Run)
      → c.run ≡ o
      → is_running c.state ≡ true
      → IsSound env c
      → IsSound env (start_run env name c o).1
  unfolding start_run
  start_run-IsSound name c none e up h = h
  start_run-IsSound name c (some r) e up h =
      start_found-IsSound name r c (lookup name c.tunnels) e up h

  start_tunnel-IsSound :
      (name : Text) (c : Controller) → IsSound env c → IsSound env (start_tunnel env name c).1
  unfolding start_tunnel
  start_tunnel-IsSound name c h = elim (Bool-cases (is_running c.state)) [
    | inl e ↦ rw e (start_run-IsSound name c c.run refl e h)
    | inr e ↦ rw e h
  ]

  proxy_failed-IsSound :
      (e : ControlError) (c : Controller)
      → IsSound env c
      → IsSound env (proxy_failed env.closes e c)
  unfolding proxy_failed
  proxy_failed-IsSound x c h = elim (Bool-cases (is_running c.state && is_some c.run)) [
    | inr e ↦ rw e (
        proxy_ended-IsSound env c
          (λ up. elim (Option-cases c.run) [ inl f ↦ f | inr (r, f) ↦ absurd (ground arith) ]) h)
    | inl e ↦
        let rests = closed_all-Rests env.closes c.tunnels in
        rw e (record {
          settled = λ q. cc;
          run = λ q. absurd (cc);
          quiet = λ q. (refl, rests);
          reason = refl;
          of_run = h.of_run;
          obeys = All-imp (closed_all env.closes c.tunnels) (λ nt k q. k) rests;
        })
  ]

  tunnel_failed-IsSound :
      (name : Text) (c : Controller) → IsSound env c → IsSound env (tunnel_failed name c)
  unfolding tunnel_failed
  tunnel_failed-IsSound name c h =
      update-IsSound name (λ t. record t { srv = none }) c (λ t k q. inl refl) (λ q t k. inl refl) h

  Step-IsSound : (c c' : Controller) → Step env c c' → IsSound env c → IsSound env c'
  unfolding stop_tunnel upstream_dropped set_autoconnect restart
  Step-IsSound c c' starts h = start-IsSound env c h
  Step-IsSound c c' stops h = stop-IsSound env c h
  Step-IsSound c c' restarts h = start-IsSound env (stop env c).1 (stop-IsSound env c h)
  Step-IsSound c c' (syncs number) h = sync-IsSound env number c h
  Step-IsSound c c' (connects name e) h = connect-IsSound env name c c' e h
  Step-IsSound c c' (disconnects name e) h = disconnect-IsSound env name c c' e h
  Step-IsSound c c' (drops name number) h = dropped_run-IsSound env name number c c.run refl h
  Step-IsSound c c' (sets_autoconnect on) h = set_autoconnect_run-IsSound env on c c.run refl h
  Step-IsSound c c' (stops_tunnel name) h = stop_found-IsSound name c (lookup name c.tunnels) h
  Step-IsSound c c' (starts_tunnel name) h = start_tunnel-IsSound name c h
  Step-IsSound c c' (changes name state r e) h =
      let f = λ (conn : Conn). record conn { state = state } in
      set_conns-IsSound env r (update name f) c (run-IsRun env c r h e)
        (update-Follow c.manual_only name f r.conns (λ x. refl)) h
  Step-IsSound c c' (proxy_fails e) h = proxy_failed-IsSound e c h
  Step-IsSound c c' (proxy_ends gone) h = proxy_ended-IsSound env c (λ up. gone) h
  Step-IsSound c c' (tunnel_fails name) h = tunnel_failed-IsSound name c h

  -- In every state that calls, syncs, changes of connections and ends of goroutines lead to, in
  -- whichever order: a call never leaves the proxy starting; while it is running there is a run,
  -- but after a Stop that has not waited for its Serve to return, when there are neither a run nor
  -- tunnels; while it is not, it shows no address and no tunnel has a listener but one whose Serve
  -- does not return; an error is kept exactly in the failed state; the run's configuration is
  -- consistent; every connection follows the autoconnect setting; and no tunnel that is stopped has
  -- a listener but one whose Serve does not return.
  pub reached-IsSound : (c : Controller) → Reach env c → IsSound env c
  reached-IsSound c (begin manual_only) = record {
    settled = λ q. cc;
    run = λ q. cc;
    quiet = λ q. (refl, tt);
    reason = refl;
    of_run = tt;
    obeys = tt;
  }
  reached-IsSound c (then_step {c = before} r step) =
      Step-IsSound before c step (reached-IsSound before r)
