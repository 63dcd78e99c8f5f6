-- ===== src/Menubar/ConnectionsSound.antt =====
-- Syncs and changes of connections keep the invariant of a ProxyController of
-- internal/menubar/controller.go.
use dockprox.Base.{
  ℕ, ◌≡◌, refl, ap, inl, inr, Bool, not, ◌&&◌, Option, none, some, arith, ok, ◌==◌, Bool-cases,
  >>=-eq-ok,
}
use dockprox.Base.Text.{Text, lookup}
use dockprox.Menubar.Tunnels.{Conn, Conns, sync_all}
use dockprox.Menubar.Control.{is_running, Run, Controller, Environment, sync_run, sync}
use dockprox.Menubar.Connections.{
  update, down_conn, dependents, found_conn, conn_run, conn, set_conns, down_dependents,
  disconnect_upstream, dropped_run, up_found, connect_upstream, set_autoconnect_run,
}
use dockprox.Menubar.Keeps.{
  Follow, update-Follow, down_all-Follow, up_found-Follow, apply_autoconnect-Follow, sync_all-Obeys,
}
use dockprox.Menubar.Sound.{IsSound, set_conns-IsSound, set_tunnels-IsSound, run-IsRun}

found_conn-run : (name : Text) (r r' : Run) (o : Option Conn) → found_conn name r o ≡ ok r' → r ≡ r'
unfolding found_conn
found_conn-run name r r' none e = cc
found_conn-run name r r' (some x) e = ground arith

conn_run-run : (name : Text) (o : Option Run) (r : Run) → conn_run name o ≡ ok r → o ≡ some r
unfolding conn_run
conn_run-run name none r e = cc
conn_run-run name (some x) r e = ap some (found_conn-run name x r (lookup name x.conns) e)

module _ (env : Environment) where
  sync_run-IsSound :
      (c : Controller) (number : ℕ) (o : Option Run)
      → IsSound env c
      → IsSound env (sync_run env c number o)
  unfolding sync_run
  sync_run-IsSound c number none h = h
  sync_run-IsSound c number (some r) h = elim (Bool-cases (is_running c.state)) [
    | inr e ↦ rw e h
    | inl e ↦ elim (Bool-cases (r.number == number)) [
      | inr n ↦ rw (e, n) h
      | inl n ↦
          rw (e, n)
            (set_tunnels-IsSound env (sync_all (env.can_bind c.bound) env.closes r.conns r.reg) c
              (sync_all-Obeys (env.can_bind c.bound) env.closes r.conns r.reg c.tunnels h.obeys)
              (λ q. absurd (ground arith)) (unfold sync_all in refl) h)
    ]
  ]

  pub sync-IsSound : (number : ℕ) (c : Controller) → IsSound env c → IsSound env (sync env number c)
  unfolding sync
  sync-IsSound number c h = sync_run-IsSound c number c.run h

  down_dependents-Follow :
      (b : Bool) (name : Text) (r : Run) (conns : Conns)
      → Follow b conns
      → Follow b (down_dependents name r conns)
  unfolding down_dependents
  down_dependents-Follow b name r conns h =
      down_all-Follow b (dependents name r.cfg.upstreams) conns h

  pub conn-run : (name : Text) (c : Controller) (r : Run) → conn name c ≡ ok r → c.run ≡ some r
  unfolding conn
  conn-run name c r e = conn_run-run name c.run r (ground arith)

  pub disconnect-IsSound :
      (name : Text) (c c' : Controller)
      → disconnect_upstream name c ≡ ok c'
      → IsSound env c
      → IsSound env c'
  unfolding disconnect_upstream
  disconnect-IsSound name c c' e h =
      let (r, f, g) = >>=-eq-ok (conn name c) _ e in
      let change = λ (conns : Conns). down_dependents name r (update name down_conn conns) in
      let same : set_conns r change c ≡ c' = ground arith in
      rw (← same) (
        set_conns-IsSound env r change c (run-IsRun env c r h (conn-run name c r f))
          (λ k.
            down_dependents-Follow c.manual_only name r _ (
              update-Follow c.manual_only name down_conn r.conns (unfold down_conn in λ x. refl) k))
          h)

  pub connect-IsSound :
      (name : Text) (c c' : Controller)
      → connect_upstream env.answers name c ≡ ok c'
      → IsSound env c
      → IsSound env c'
  unfolding connect_upstream
  connect-IsSound name c c' e h =
      let (r, f, g) = >>=-eq-ok (conn name c) _ e in
      let change = up_found env.answers (lookup name r.reg) in
      let same : set_conns r change c ≡ c' = ground arith in
      rw (← same) (
        set_conns-IsSound env r change c (run-IsRun env c r h (conn-run name c r f))
          (up_found-Follow c.manual_only env.answers (lookup name r.reg) r.conns) h)

  pub dropped_run-IsSound :
      (name : Text) (number : ℕ) (c : Controller) (o : Option Run)
      → c.run ≡ o
      → IsSound env c
      → IsSound env (dropped_run name number c o)
  unfolding dropped_run
  dropped_run-IsSound name number c none e h = h
  dropped_run-IsSound name number c (some r) e h =
      elim (Bool-cases (is_running c.state && (r.number == number))) [
        | inr n ↦ rw n h
        | inl n ↦ rw n (
            set_conns-IsSound env r (down_dependents name r) c (run-IsRun env c r h e)
              (down_dependents-Follow c.manual_only name r r.conns) h)
      ]

  pub set_autoconnect_run-IsSound :
      (on : Bool) (c : Controller) (o : Option Run)
      → c.run ≡ o
      → IsSound env c
      → IsSound env (set_autoconnect_run on (record c { manual_only = not on }) o)
  unfolding set_autoconnect_run
  set_autoconnect_run-IsSound on c none e h = record {
    settled = h.settled;
    run = h.run;
    quiet = h.quiet;
    reason = h.reason;
    of_run = rw e tt;
    obeys = h.obeys;
  }
  set_autoconnect_run-IsSound on c (some r) e h = record {
    settled = h.settled;
    run = λ q. inl refl;
    quiet = h.quiet;
    reason = h.reason;
    of_run = ((run-IsRun env c r h e).0, apply_autoconnect-Follow (not on) r.conns);
    obeys = h.obeys;
  }
