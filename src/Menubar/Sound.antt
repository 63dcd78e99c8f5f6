-- ===== src/Menubar/Sound.antt =====
-- An invariant of a ProxyController of internal/menubar/controller.go, and that Start and Stop keep
-- it.
use dockprox.Base.{
  ◌≡◌, refl, ◌∙◌, ◌≢◌, ◌⊎◌, inl, inr, Bool, true, false, Option, none, some, List, [], ◌∷◌, arith,
  Result, ok, err, Bool-cases, is_some, All, wrap, >>=-eq-ok, >>-eq-ok, wrap-eq-ok,
}
use dockprox.Base.Text.{Text}
use mathlib.Core.Path.{subst}
use dockprox.Config.Schema.{Config}
use dockprox.Config.Load.{Koanf, finalize}
use dockprox.Config.LoadSound.{finalize_iff}
use dockprox.Config.Sound.{IsConsistent, match_rules, known_upstreams}
use dockprox.Match.Compile
use dockprox.Routing.Dialers.{new_registry}
use dockprox.Menubar.Tunnels.{Conns, Tunnels, TunnelError}
use dockprox.Menubar.Control.{
  State, stopped, starting, running, failed, is_running, is_started, ControlError, not_loaded,
  no_registry, no_matcher, Run, Controller, Environment, Built, fail, conn_names, load, bind_proxy,
  prepare, run_built, start_prepared, start,
}
use dockprox.Menubar.Connections.{set_conns}
use dockprox.Menubar.Calls.{set_tunnels, proxy_ended, proxy_cancelled, stop}
use dockprox.Menubar.Keeps.{Follow, Rests, Obeys, new_conns-Follow, build_tunnels-Obeys}

abbrev pub is_failed : State → Bool
is_failed failed = true
is_failed s = false

running_facts : (s : State) → is_running s ≡ true → (is_started s ≡ true) × (is_failed s ≡ false)
running_facts running e = (refl, refl)
running_facts stopped e = cc
running_facts starting e = cc
running_facts failed e = cc

not_started : (s : State) → is_running s ≡ false → s ≢ starting → is_started s ≡ false
not_started running e n = cc
not_started stopped e n = refl
not_started starting e n = absurd (n refl)
not_started failed e n = refl

module _ (env : Environment) where
  -- What the invariant says of the run, if there is one.
  abbrev pub IsRun : Bool → Option Run → Type 0
  IsRun manual_only none = Unit
  IsRun manual_only (some r) = IsConsistent env.parse_url r.cfg × Follow manual_only r.conns

  -- While the proxy runs it has a run, unless a Stop has not waited for its Serve.
  abbrev pub Held : Controller → Type 0
  Held c =
      (is_some c.run ≡ true)
      ⊎ ((c.run ≡ none) × (c.tunnels ≡ []) × (env.proxy_closes c.listen ≡ false))

  pub record IsSound (c : Controller) : Type 0 where
    pub settled : c.state ≢ starting
    pub run : is_running c.state ≡ true → Held c
    pub quiet :
        is_running c.state ≡ false → (c.listen ≡ []) × All (λ nh. Rests env.closes nh.1) c.tunnels
    pub reason : is_some c.last_err ≡ is_failed c.state
    pub of_run : IsRun c.manual_only c.run
    pub obeys : All (λ nh. Obeys env.closes nh.1) c.tunnels

  pub fail-IsSound : (e : ControlError) (c : Controller) → IsSound (fail e c)
  unfolding fail
  fail-IsSound e c = record {
    settled = λ q. cc;
    run = λ q. cc;
    quiet = λ q. (refl, tt);
    reason = refl;
    of_run = tt;
    obeys = tt;
  }

  load-IsConsistent :
      (o : Option Koanf) (cfg : Config) → load env o ≡ ok cfg → IsConsistent env.parse_url cfg
  unfolding load
  load-IsConsistent none cfg e = cc
  load-IsConsistent (some k) cfg e =
      ((finalize_iff env.parse_url k cfg).0
        (wrap-eq-ok not_loaded (finalize env.parse_url k) e)).consistent

  pub prepare-IsConsistent :
      (bound : List Text) (b : Built) → prepare env bound ≡ ok b → IsConsistent env.parse_url b.cfg
  unfolding prepare
  prepare-IsConsistent bound b e =
      let (cfg, f, e1) = >>=-eq-ok (load env env.file) _ e in
      let (reg, g, e2) =
        >>=-eq-ok (wrap no_registry (new_registry env.machine cfg.upstreams)) _ e1 in
      let (m, g', e3) =
        >>=-eq-ok (wrap no_matcher (Compile.new (match_rules cfg) (known_upstreams cfg))) _ e2 in
      let (_, e4) = >>-eq-ok (bind_proxy env bound cfg.listen) _ e3 in
      let same : cfg ≡ b.cfg = ground arith in rw (← same) (load-IsConsistent env.file cfg f)

  run_built-IsSound :
      (b : Built) (r : Result TunnelError Tunnels) (c : Controller)
      → IsConsistent env.parse_url b.cfg
      → c.last_err ≡ none
      → ((ts : Tunnels) → r ≡ ok ts → All (λ nh. Obeys env.closes nh.1) ts)
      → IsSound (run_built env b r c).1
  unfolding run_built
  run_built-IsSound b (err e) c good clear obey = fail-IsSound _ _
  run_built-IsSound b (ok ts) c good clear obey = record {
    settled = λ q. cc;
    run = λ q. inl refl;
    quiet = λ q. absurd (cc);
    reason = rw clear refl;
    of_run = (good, new_conns-Follow c.manual_only b.reg (conn_names b.cfg.upstreams));
    obeys = obey ts refl;
  }

  start_prepared-IsSound :
      (r : Result ControlError Built) (c : Controller)
      → ((b : Built) → r ≡ ok b → IsConsistent env.parse_url b.cfg)
      → c.last_err ≡ none
      → IsSound (start_prepared env r c).1
  unfolding start_prepared
  start_prepared-IsSound (err e) c good clear = fail-IsSound e c
  start_prepared-IsSound (ok b) c good clear = run_built-IsSound b _ c (good b refl) clear (λ ts q.
      build_tunnels-Obeys (env.can_bind (env.resolved b.cfg.listen ∷ c.bound)) env.closes b.reg
        b.cfg.listeners ts q)

  pub start-IsSound : (c : Controller) → IsSound c → IsSound (start env c).1
  unfolding start
  start-IsSound c h = elim (Bool-cases (is_started c.state)) [
    | inl e ↦ rw e h
    | inr e ↦
        rw e (start_prepared-IsSound (prepare env c.bound) _ (prepare-IsConsistent c.bound) refl)
  ]

  -- What is left of a proxy that ends.
  ended-IsSound :
      (c : Controller) (bound : List Text)
      → is_running c.state ≡ true
      → IsSound c
      → IsSound (record c { state = stopped; listen = []; tunnels = []; run = none; bound = bound })
  ended-IsSound c bound e h = record {
    settled = λ q. cc;
    run = λ q. absurd (cc);
    quiet = λ q. (refl, tt);
    reason = h.reason ∙ (running_facts c.state e).1;
    of_run = tt;
    obeys = tt;
  }

  pub proxy_ended-IsSound :
      (c : Controller)
      → (is_running c.state ≡ true → c.run ≡ none)
      → IsSound c
      → IsSound (proxy_ended c)
  unfolding proxy_ended
  proxy_ended-IsSound c gone h = elim (Bool-cases (is_running c.state)) [
    | inr e ↦ rw e h
    | inl e ↦ elim (h.run e) [
      | inl held ↦ absurd (ground (arith, gone e))
      | inr (freed, bare, wedged) ↦ rw e (record {
        settled = λ q. cc;
        run = λ q. absurd (cc);
        quiet = λ q. (refl, rw bare tt);
        reason = h.reason ∙ (running_facts c.state e).1;
        of_run = rw freed tt;
        obeys = h.obeys;
      })
    ]
  ]

  pub stop-IsSound : (c : Controller) → IsSound c → IsSound (stop env c).1
  unfolding stop proxy_cancelled proxy_ended
  stop-IsSound c h = elim (Bool-cases (is_running c.state)) [
    | inr e ↦ rw (not_started c.state e h.settled) h
    | inl e ↦ rw (running_facts c.state e).0 (elim (Bool-cases (env.proxy_closes c.listen)) [
      | inl closes ↦ rw (closes, e) (ended-IsSound c _ e h)
      | inr wedged ↦ rw wedged (record {
        settled = h.settled;
        run = λ q. inr (refl, refl, wedged);
        quiet = λ q. absurd (ground arith);
        reason = h.reason;
        of_run = tt;
        obeys = tt;
      })
    ])
  ]

  -- A change of the connections alone.
  pub set_conns-IsSound :
      (r : Run) (f : Conns → Conns) (c : Controller)
      → IsRun c.manual_only (some r)
      → (Follow c.manual_only r.conns → Follow c.manual_only (f r.conns))
      → IsSound c
      → IsSound (set_conns r f c)
  set_conns-IsSound r f c (good, follows) keep h = record {
    settled = h.settled;
    run = λ q. inl refl;
    quiet = h.quiet;
    reason = h.reason;
    of_run = (good, keep follows);
    obeys = h.obeys;
  }

  -- A change of the tunnels alone.
  pub set_tunnels-IsSound :
      (f : Tunnels → Tunnels) (c : Controller)
      → All (λ nh. Obeys env.closes nh.1) (f c.tunnels)
      → (is_running c.state ≡ false → All (λ nh. Rests env.closes nh.1) (f c.tunnels))
      → (f [] ≡ [])
      → IsSound c
      → IsSound (set_tunnels f c)
  set_tunnels-IsSound f c obeys rests empty h = record {
    settled = h.settled;
    run = λ q. elim (h.run q) [
      | inl held ↦ inl held
      | inr (freed, bare, wedged) ↦ inr (freed, rw bare empty, wedged)
    ];
    quiet = λ q. ((h.quiet q).0, rests q);
    reason = h.reason;
    of_run = h.of_run;
    obeys = obeys;
  }

  pub run-IsRun :
      (c : Controller) (r : Run) → IsSound c → c.run ≡ some r → IsRun c.manual_only (some r)
  run-IsRun c r h e = subst (λ o. IsRun c.manual_only o) e h.of_run
