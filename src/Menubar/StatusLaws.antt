-- ===== src/Menubar/StatusLaws.antt =====
-- What a click on a tunnel's row of internal/menubar/tunnelrow.go does to the tunnel.
use dockprox.Base.{
  ◌≡◌, refl, ap, ◌∙◌, inl, inr, Bool, true, false, not, none, some, List, [], ◌∷◌, arith, ok, err,
  if◌then◌else◌, Bool-cases,
}
use dockprox.Base.Text.{Text, text_eq, lookup}
use dockprox.Routing.Pick
use dockprox.Menubar.Tunnels.{Handle, is_bound, opened, bind_tunnel, unbind_tunnel}
use dockprox.Menubar.Control.{is_running, not_running, Run, Controller, Environment}
use dockprox.Menubar.Connections.{update}
use dockprox.Menubar.Calls.{
  Outcome, set_stopped, stop_found, stop_tunnel, start_pinned, start_found, start_run, start_tunnel,
}
use dockprox.Menubar.SyncLaws.{synced, opens-eq}
use dockprox.Menubar.Status.{tunnel_status, TunnelAction, starts_it, stops_it, tunnel_row}

some_inj {ℓ} : {V : Type ℓ} {v w : V} → some v ≡ some w → v ≡ w
some_inj e = ground arith

second_if {ℓ κ} :
    {A : Type ℓ} {B : Type κ} (b : Bool) (x y : A × B) → b ≡ false → (if b then x else y).1 ≡ y.1
second_if true x y e = cc
second_if false x y e = refl

unbind_tunnel-bound :
    (can_bind closes : Text → Bool) (h : Handle)
    → is_bound h ≡ true
    → closes h.name ≡ true
    → (unbind_tunnel can_bind closes h).1 ≡ record h { srv = none }
unfolding unbind_tunnel
unbind_tunnel-bound can_bind closes h bound c = ground arith

-- A map that is changed at a key has there the changed value.
lookup-update {ℓ} :
    {V : Type ℓ} (k : Text) (f : V → V) (m : List (Text × V)) (v : V)
    → lookup k m ≡ some v
    → lookup k (update k f m) ≡ some (f v)
unfolding lookup update
lookup-update k f [] v e = cc
lookup-update k f ((j, w) ∷ m) v e = elim (Bool-cases (text_eq j k)) [
  | inl same ↦
      let w-v : w ≡ v = some_inj (rw same at e) in rw (same, same) (ap (λ x. some (f x)) w-v)
  | inr other ↦ rw (other, other) (lookup-update k f m v (rw other at e))
]

-- What the row's action calls.
abbrev pub click : Environment → TunnelAction → Text → Controller → Outcome
click env starts_it name c = start_tunnel env name c
click env stops_it name c = stop_tunnel env name c

row-action :
    (resolved : Text → Text) (name : Text) (h : Handle)
    → (tunnel_row (tunnel_status resolved (name, h))).2
      ≡ (if is_bound h then stops_it else starts_it)
unfolding tunnel_row tunnel_status
row-action resolved name h = ground arith

module _ (env : Environment) (c : Controller) (r : Run) (name : Text) (h : Handle) where
  -- The listener after a click: none if there was one, else the one that opens.
  abbrev pub after_click : Bool → Handle
  after_click true = record h { stopped = true; srv = none }
  after_click false = record h {
    stopped = false;
    srv = synced true none (Pick.new (env.can_bind c.bound) r.reg h.listener);
  }

  clicks-stop :
      lookup name c.tunnels ≡ some h
      → env.closes h.name ≡ true
      → is_bound h ≡ true
      → lookup name (stop_tunnel env name c).1.tunnels ≡ some (after_click true)
  unfolding stop_tunnel stop_found
  clicks-stop found closes bound =
      let freed =
        unbind_tunnel-bound (env.can_bind c.bound) env.closes (set_stopped true h) bound closes in
      rw found (
        lookup-update name
          (λ t. (unbind_tunnel (env.can_bind c.bound) env.closes (set_stopped true t)).1) c.tunnels
          h found
        ∙ ap some freed)

  clicks-start :
      lookup name c.tunnels ≡ some h
      → c.run ≡ some r
      → is_running c.state ≡ true
      → is_bound h ≡ false
      → h.conn ≡ none
      → lookup name (start_tunnel env name c).1.tunnels ≡ some (after_click false)
  unfolding start_tunnel start_run start_found start_pinned bind_tunnel
  clicks-start found runs up unbound free =
      let bare : h.srv ≡ none = ground arith in
      let free_now = set_stopped false h in
      let opening = Pick.new (env.can_bind c.bound) r.reg h.listener in
      let bound_now =
        second_if (is_bound free_now) (ok tt, free_now)
          (opened (env.can_bind c.bound) env.closes free_now opening) unbound
        ∙ opens-eq (env.can_bind c.bound) env.closes r.conns r.reg free_now opening bare in
      let begins =
        second_if (not (is_running c.state)) (err not_running, c) (start_run env name c c.run)
          (ground arith) in
      let goes =
        ap (start_run env name c) runs
        ∙ ap (start_found env name r c) found
        ∙ ap (λ o. start_pinned env name r h o c) free in
      ap (λ (x : Controller). lookup name x.tunnels) (begins ∙ ap (λ (x : Outcome). x.1) goes)
      ∙ lookup-update name
          (λ t. (bind_tunnel (env.can_bind c.bound) env.closes r.reg (set_stopped false t)).1)
          c.tunnels h found
      ∙ ap some bound_now

  clicked :
      (bound : Bool)
      → is_bound h ≡ bound
      → lookup name c.tunnels ≡ some h
      → c.run ≡ some r
      → is_running c.state ≡ true
      → env.closes h.name ≡ true
      → h.conn ≡ none
      → lookup name (click env (if bound then stops_it else starts_it) name c).1.tunnels
        ≡ some (after_click bound)
  clicked true bound found runs up closes free = clicks-stop found closes bound
  clicked false bound found runs up closes free = clicks-start found runs up bound free

  -- The action of a row agrees with the tunnel: a click on the row of a tunnel that is pinned to no
  -- connection and whose listener closes in time, while the proxy runs, takes its listener away if
  -- it has one, and marks it stopped; and marks it not stopped and opens its listener, as far as
  -- that opens, if it has none.
  pub click-row :
      lookup name c.tunnels ≡ some h
      → c.run ≡ some r
      → is_running c.state ≡ true
      → env.closes h.name ≡ true
      → h.conn ≡ none
      → lookup name
          (click env (tunnel_row (tunnel_status env.resolved (name, h))).2 name c).1.tunnels
        ≡ some (after_click (is_bound h))
  click-row found runs up closes free =
      rw (row-action env.resolved name h) (clicked (is_bound h) refl found runs up closes free)
