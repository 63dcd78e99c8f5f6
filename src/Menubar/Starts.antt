-- ===== src/Menubar/Starts.antt =====
-- What ProxyController.Start of internal/menubar/controller.go leaves.
use dockprox.Base.{
  ◌≡◌, refl, inl, inr, Bool, false, not, none, some, List, [], ◌∷◌, arith, Result, ok, err,
  if◌then◌else◌, Bool-cases, is_some, wrap, >>=-eq-ok, >>-eq-ok, wrap-eq-ok,
}
use dockprox.Base.Text.{Text, lookup}
use dockprox.Match.Compile
use dockprox.Config.Schema.{Listener}
use dockprox.Config.Validate.{Upstreams}
use dockprox.Routing.Built.{IsMap}
use dockprox.Config.Sound.{match_rules, known_upstreams}
use dockprox.Routing.Dialers.{Dialers, new_registry}
use dockprox.Routing.Pick
use dockprox.Menubar.Tunnels.{
  Handle, Tunnels, TunnelError, not_opened, is_bound, has_connection, new_handle, build_tunnel,
  build_tunnels,
}
use dockprox.Menubar.Pinned.{pinned_to, new_registry-pinned}
use dockprox.Menubar.Sound.{prepare-IsConsistent}
use dockprox.Menubar.Control.{
  Run, running, failed, is_started, ControlError, no_registry, no_matcher, no_server, Controller,
  Environment, Built, fail, load, bind_proxy, prepare, run_built, start_prepared, start,
}

-- The tunnel of a listener listens from the start exactly if it is pinned to no upstream with a
-- connection.
abbrev pub IsFresh : Upstreams → Listener → Text × Handle → Type 0
IsFresh ups l (name, h) =
    (name ≡ l.listen)
    × (h.listener ≡ l)
    × (h.conn ≡ pinned_to ups l)
    × (is_bound h ≡ not (is_some (pinned_to ups l)))
    × (h.stopped ≡ false)

-- One tunnel for each listener, in their order.
abbrev pub AreFresh : Upstreams → List Listener → Tunnels → Type 0
AreFresh ups [] [] = Unit
AreFresh ups [] (nh ∷ ts) = ⊥
AreFresh ups (l ∷ ls) [] = ⊥
AreFresh ups (l ∷ ls) (nh ∷ ts) = IsFresh ups l nh × AreFresh ups ls ts

module _ (can_bind closes : Text → Bool) (ups : Upstreams) (reg : Dialers)
    (held : (l : Listener)
      → (if has_connection (lookup l.upstream reg) then some l.upstream else none)
        ≡ pinned_to ups l) where
  build_tunnel-IsFresh :
      (l : Listener) (h : Handle)
      → build_tunnel can_bind closes reg l ≡ ok h
      → IsFresh ups l (l.listen, h)
  unfolding build_tunnel new_handle
  build_tunnel-IsFresh l h e = elim (Bool-cases (has_connection (lookup l.upstream reg))) [
    | inl c ↦
        let pinned = held l in
        let same : new_handle can_bind closes reg l ≡ h = ground arith in
        rw (← same, ← pinned, c) (refl, refl, refl, refl, refl)
    | inr c ↦
        let (s, f, g) =
          >>=-eq-ok (wrap (not_opened l.listen) (Pick.new can_bind reg l)) _ (rw c at e) in
        let same : record (new_handle can_bind closes reg l) { srv = some s } ≡ h = ground arith in
        let pinned = held l in rw (← same, ← pinned, c) (refl, refl, refl, refl, refl)
  ]

  build_tunnels-AreFresh :
      (ls : List Listener) (ts : Tunnels)
      → build_tunnels can_bind closes reg ls ≡ ok ts
      → AreFresh ups ls ts
  unfolding build_tunnels
  build_tunnels-AreFresh [] ts e = let same : [] ≡ ts = ground arith in rw (← same) tt
  build_tunnels-AreFresh (l ∷ ls) ts e =
      let (h, f, e1) = >>=-eq-ok (build_tunnel can_bind closes reg l) _ e in
      let (rest, g, e2) = >>=-eq-ok (build_tunnels can_bind closes reg ls) _ e1 in
      let same : (l.listen, h) ∷ rest ≡ ts = ground arith in
      rw (← same) (build_tunnel-IsFresh l h f, build_tunnels-AreFresh ls rest g)

module _ (env : Environment) where
  -- What Start returns, and what it leaves of a controller that had bound `bound`.
  abbrev pub IsStarted : List Text → Result ControlError (Unit {0}) → Controller → Type 0
  IsStarted bound (err e) c =
      (c.state ≡ failed)
      × (c.last_err ≡ some e)
      × (c.listen ≡ [])
      × (c.tunnels ≡ [])
      × (c.run ≡ none)
  IsStarted bound (ok u) c =
      (b : Built) × (prepare env bound ≡ ok b)
      × (c.state ≡ running)
      × (c.last_err ≡ none)
      × (c.listen ≡ env.resolved b.cfg.listen)
      × ((r : Run) × (c.run ≡ some r) × (r.reg ≡ b.reg) × (r.cfg ≡ b.cfg))
      × AreFresh b.cfg.upstreams b.cfg.listeners c.tunnels

  -- The names of the upstreams are the keys of a map.
  abbrev pub HasKeys : List Text → Type 0
  HasKeys bound = (b : Built) → prepare env bound ≡ ok b → IsMap b.cfg.upstreams

  prepare-built :
      (bound : List Text) (b : Built)
      → prepare env bound ≡ ok b
      → new_registry env.machine b.cfg.upstreams ≡ ok b.reg
  unfolding prepare
  prepare-built bound b e =
      let (cfg, f, e1) = >>=-eq-ok (load env env.file) _ e in
      let (reg, g, e2) =
        >>=-eq-ok (wrap no_registry (new_registry env.machine cfg.upstreams)) _ e1 in
      let (m, g', e3) =
        >>=-eq-ok (wrap no_matcher (Compile.new (match_rules cfg) (known_upstreams cfg))) _ e2 in
      let (_, e4) = >>-eq-ok (bind_proxy env bound cfg.listen) _ e3 in
      let same : cfg ≡ b.cfg = ground arith in
      let same' : reg ≡ b.reg = ground arith in
      rw (← same, ← same') (wrap-eq-ok no_registry (new_registry env.machine cfg.upstreams) g)

  run_built-IsStarted :
      (bound : List Text) (b : Built) (r : Result TunnelError Tunnels) (c : Controller)
      → prepare env bound ≡ ok b
      → c.last_err ≡ none
      → ((ts : Tunnels) → r ≡ ok ts → AreFresh b.cfg.upstreams b.cfg.listeners ts)
      → IsStarted bound (run_built env b r c).0 (run_built env b r c).1
  unfolding run_built fail
  run_built-IsStarted bound b (err e) c p clear fresh = (refl, refl, refl, refl, refl)
  run_built-IsStarted bound b (ok ts) c p clear fresh =
      (b, p, refl, clear, refl, (_, refl, refl, refl), fresh ts refl)

  start_prepared-IsStarted :
      (bound : List Text) (r : Result ControlError Built) (c : Controller)
      → HasKeys bound
      → prepare env bound ≡ r
      → c.last_err ≡ none
      → IsStarted bound (start_prepared env r c).0 (start_prepared env r c).1
  unfolding start_prepared fail
  start_prepared-IsStarted bound (err e) c keys p clear = (refl, refl, refl, refl, refl)
  start_prepared-IsStarted bound (ok b) c keys p clear = run_built-IsStarted bound b _ c p clear (
      build_tunnels-AreFresh (env.can_bind (env.resolved b.cfg.listen ∷ c.bound)) env.closes
        b.cfg.upstreams b.reg
        (new_registry-pinned env.machine b.cfg.upstreams b.reg (keys b p)
          (prepare-IsConsistent env bound b p).vias (prepare-built bound b p))
        b.cfg.listeners)

  -- Start on a controller that is not started and whose configuration names its upstreams as a map
  -- does, on every branch: an error leaves it failed with that error, with neither a run, tunnels
  -- nor an address that it shows; without one it runs with the registry and the configuration that
  -- it has built and loaded, and shows the address that the proxy's own listener has, with one
  -- tunnel for each listener in their order, none of them stopped, which listens already unless it
  -- is pinned to an upstream that is an ssh or openconnect one by the configuration.
  pub start-IsStarted :
      (c : Controller)
      → is_started c.state ≡ false
      → HasKeys c.bound
      → IsStarted c.bound (start env c).0 (start env c).1
  unfolding start
  start-IsStarted c n keys =
      rw n (start_prepared-IsStarted c.bound (prepare env c.bound) _ keys refl refl)

  bind_proxy-taken :
      (bound : List Text) (listen : Text)
      → env.can_bind bound listen ≡ false
      → bind_proxy env bound listen ≡ err (no_server listen)
  unfolding bind_proxy
  bind_proxy-taken bound listen e = rw e refl

  -- Another preparation of the same configuration, with its address taken.
  prepare-taken :
      (bound bound' : List Text) (b : Built)
      → prepare env bound ≡ ok b
      → env.can_bind bound' b.cfg.listen ≡ false
      → prepare env bound' ≡ err (no_server b.cfg.listen)
  unfolding prepare
  prepare-taken bound bound' b e taken =
      let (cfg, f, e1) = >>=-eq-ok (load env env.file) _ e in
      let (reg, g, e2) =
        >>=-eq-ok (wrap no_registry (new_registry env.machine cfg.upstreams)) _ e1 in
      let (m, g', e3) =
        >>=-eq-ok (wrap no_matcher (Compile.new (match_rules cfg) (known_upstreams cfg))) _ e2 in
      let (_, e4) = >>-eq-ok (bind_proxy env bound cfg.listen) _ e3 in
      let same : b.cfg.listen ≡ cfg.listen = ground arith in
      rw (f, g, g', same, bind_proxy-taken bound' cfg.listen (rw same at taken)) refl

  -- A Start that fails at a tunnel has bound the proxy's own address and does not give it up: as
  -- long as an address that the process has bound cannot be bound again, the next Start of the same
  -- configuration fails at that address, though nothing runs.
  pub start-start :
      (c : Controller) (b : Built) (e : TunnelError)
      → is_started c.state ≡ false
      → prepare env c.bound ≡ ok b
      → build_tunnels
          (env.can_bind (env.resolved b.cfg.listen ∷ c.bound))
          env.closes
          b.reg
          b.cfg.listeners
        ≡ err e
      → env.can_bind (env.resolved b.cfg.listen ∷ c.bound) b.cfg.listen ≡ false
      → (start env (start env c).1).0 ≡ err (no_server b.cfg.listen)
  unfolding start start_prepared run_built fail
  start-start c b e n p f taken =
      rw (n, p, f) (rw (prepare-taken c.bound (env.resolved b.cfg.listen ∷ c.bound) b p taken) refl)
