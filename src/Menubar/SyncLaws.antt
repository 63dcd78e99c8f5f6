-- ===== src/Menubar/SyncLaws.antt =====
-- What the syncTunnels of internal/menubar/controller.go leaves of the tunnels.
use dockprox.Base.{
  ◌≡◌, refl, sym, Bool, true, false, not, ◌&&◌, Option, none, some, [], ◌∷◌, map, arith, Result, ok,
  err, All,
}
use dockprox.Base.Text.{Text, lookup}
use mathlib.Core.Path.{ap₂}
use dockprox.Routing.Dialers.{Dialers}
use dockprox.Routing.Pick.{ListenError, Server}
use dockprox.Routing.Pick
use dockprox.Menubar.Tunnels.{
  Conns, Handle, Tunnels, is_up, is_bound, follow, action, opened, bind_tunnel, unbind_tunnel,
  unbind_marked, bind_marked, sync_tunnel, sync_all,
}

-- A tunnel that is to listen: its upstream is connected and it is not stopped.
abbrev pub wanted : Conns → Handle → Text → Bool
wanted conns h upstream = is_up (lookup upstream conns) && not h.stopped

-- The listener of a tunnel after a sync: none where it is not wanted, else the one that it has or
-- the one that opens.
abbrev pub synced : Bool → Option Server → Result ListenError Server → Option Server
synced false srv r = none
synced true (some s) r = some s
synced true none (ok s) = some s
synced true none (err e) = none

module _ (can_bind closes : Text → Bool) (conns : Conns) (reg : Dialers) where
  abbrev marked : Bool → Handle → Handle
  marked up h =
      let a = follow up h.stopped (is_bound h) in
      bind_marked can_bind closes reg a (unbind_marked can_bind closes a h)

  pub opens-eq :
      (h : Handle) (r : Result ListenError Server)
      → h.srv ≡ none
      → (opened can_bind closes h r).1 ≡ record h { srv = synced true none r }
  unfolding opened
  opens-eq h (ok s) e = refl
  opens-eq h (err x) e = rw (sym e) refl

  marked-eq :
      (h : Handle) (up stopped : Bool) (srv : Option Server)
      → h.stopped ≡ stopped
      → h.srv ≡ srv
      → closes h.name ≡ true
      → marked up h
        ≡ record h { srv = synced (up && not stopped) srv (Pick.new can_bind reg h.listener) }
  unfolding follow bind_marked unbind_marked unbind_tunnel bind_tunnel
  marked-eq h true false (some x) s v c = ground arith
  marked-eq h true true (some x) s v c = ground arith
  marked-eq h false false (some x) s v c = ground arith
  marked-eq h false true (some x) s v c = ground arith
  marked-eq h true false none s v c =
      ground (arith, opens-eq h (Pick.new can_bind reg h.listener) v)
  marked-eq h true true none s v c = ground arith
  marked-eq h false false none s v c = ground arith
  marked-eq h false true none s v c = ground arith

  -- A tunnel after a sync: one that is pinned to no connection is left alone.
  abbrev pub synced_tunnel : Handle → Option Text → Handle
  synced_tunnel h none = h
  synced_tunnel h (some upstream) = record h {
    srv = synced (wanted conns h upstream) h.srv (Pick.new can_bind reg h.listener);
  }

  sync_tunnel-synced :
      (h : Handle) (o : Option Text)
      → closes h.name ≡ true
      → (let a = action conns h o in
          bind_marked can_bind closes reg a (unbind_marked can_bind closes a h))
        ≡ synced_tunnel h o
  unfolding action bind_marked unbind_marked
  sync_tunnel-synced h none c = refl
  sync_tunnel-synced h (some upstream) c =
      marked-eq h (is_up (lookup upstream conns)) h.stopped h.srv refl refl c

  -- Where every listener closes in time, a sync leaves each tunnel that is pinned to a connection
  -- with a listener exactly while that upstream is connected and the tunnel is not stopped, as far
  -- as the listener opens, and all else as it was.
  pub sync_all-synced :
      (ts : Tunnels)
      → All (λ nh. closes nh.1.name ≡ true) ts
      → sync_all can_bind closes conns reg ts ≡ map (λ nh. (nh.0, synced_tunnel nh.1 nh.1.conn)) ts
  unfolding sync_all sync_tunnel
  sync_all-synced [] c = refl
  sync_all-synced ((name, h) ∷ ts) (c, cs) =
      ap₂ (λ t rest. (name, t) ∷ rest) (sync_tunnel-synced h h.conn c) (sync_all-synced ts cs)

-- A tunnel whose upstream is not connected has no listener after a sync.
pub synced_tunnel-down :
    (can_bind closes : Text → Bool) (conns : Conns) (reg : Dialers) (h : Handle) (upstream : Text)
    → h.conn ≡ some upstream
    → is_up (lookup upstream conns) ≡ false
    → (synced_tunnel can_bind closes conns reg h h.conn).srv ≡ none
synced_tunnel-down can_bind closes conns reg h upstream e d = rw (e, d) refl
