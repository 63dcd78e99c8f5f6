-- ===== src/Config/Sound.antt =====
-- Config.Validate of pkg/config/validate.go accepts exactly the consistent configurations, and the
-- matcher compiles the rules of those.
use dockprox.Base.{
  ℕ, ◌≡◌, refl, ap, ◌∙◌, ◌↔◌, inl, inr, true, false, not, Option, List, [], ◌∷◌, map, arith, Result,
  ok, Bool-cases, is_some, All, All-imp, Distinct, All-always, ◌>>=◌, fail_if, wrap, for_each,
  for_each_at, >>=-eq-ok, >>-eq-ok, wrap-eq-ok, for_each-eq-ok, for_each_at-eq-ok, for_each-of_All,
  for_each_at-of_All,
}
use dockprox.Base.Text.{Text, is_empty, lookup}
use dockprox.Base.HostPort.{split_host_port}
use dockprox.Match.Host.{validate_pattern}
use dockprox.Match.Accept.{IsPattern, IsAccepted, validate_pattern_iff, new_ok}
use dockprox.Match.Compile.{Matcher, new}
use dockprox.Match.Compile
use dockprox.Config.Schema.{Upstream, Rule, Config}
use dockprox.Config.Upstreams.{Url, contains_text, validate_upstream}
use dockprox.Config.UpstreamSound.{IsUpstream, validate_upstream_iff, split_host_port-ne}
use dockprox.Config.Validate.{
  ConfigError, Upstreams, bad_listen, bad_upstream, log_levels, check_rule, check_listeners,
  check_vias, holds_connection, check_referenced, validate,
}
use dockprox.Config.ListenerSound.{
  Splits, IsListener, addresses, AreNew, AreNew-Distinct, Distinct-AreNew, check_listeners-ok,
  check_listeners-refer_all, refer_all,
}
use dockprox.Config.References.{
  HasVia, check_vias-ok, check_vias-refer_vias, IsReferenced, collected, collected-IsReferenced,
  Holds,
}

abbrev pub HasKnownUpstream : Upstreams → Rule → Type 0
HasKnownUpstream ups r = IsPattern r.match × (is_some (lookup r.upstream ups) ≡ true)

check_rule-HasKnownUpstream :
    (ups : Upstreams) (i : ℕ) (r : Rule) → check_rule ups i r ≡ ok tt → HasKnownUpstream ups r
unfolding check_rule
check_rule-HasKnownUpstream ups i r e =
    ((validate_pattern_iff r.match).0 (unfold validate_pattern in ground arith), ground arith)

HasKnownUpstream-check_rule :
    (ups : Upstreams) (i : ℕ) (r : Rule) → HasKnownUpstream ups r → check_rule ups i r ≡ ok tt
unfolding check_rule
HasKnownUpstream-check_rule ups i r (p, k) =
    let valid = (validate_pattern_iff r.match).1 p in unfold validate_pattern in ground arith

check_referenced_iff :
    (referenced : List Text) (nu : Text × Upstream)
    → (check_referenced referenced nu ≡ ok tt)
      ↔ (holds_connection nu.1 ≡ true → Holds referenced nu.0)
unfolding check_referenced
check_referenced_iff referenced (name, u) = elim (Bool-cases (contains_text referenced name)) [
  | inl yes_it_is ↦ (λ e h. yes_it_is, λ h. ground arith)
  | inr it_is_not ↦ (
    λ e h. absurd (ground arith),
    λ h. elim (Bool-cases (holds_connection u)) [
      | inl held ↦ absurd (ground (arith, h held))
      | inr free ↦ ground arith
    ],
  )
]

module _ (parse_url : Text → Option Url) where
  pub record IsConsistent (c : Config) : Type 0 where
    pub listen : Splits c.listen
    pub log_level : contains_text log_levels c.log_level ≡ true
    pub upstreams : All (λ nu. IsUpstream parse_url nu.1) c.upstreams
    pub rules : All (HasKnownUpstream c.upstreams) c.rules
    pub listeners : All (IsListener c.upstreams) c.listeners
    pub distinct : Distinct (addresses c.listeners)
    pub vias : All (λ nu. HasVia c.upstreams nu.1) c.upstreams
    pub referenced : All (λ nu. holds_connection nu.1 ≡ true → IsReferenced c nu.0) c.upstreams

  abbrev check_upstream : Text × Upstream → Result ConfigError (Unit {0})
  check_upstream nu = wrap (bad_upstream nu.0) (validate_upstream parse_url nu.1)

  abbrev RefersWell : Config → List Text → Type 0
  RefersWell c out = for_each (check_referenced out) c.upstreams ≡ ok tt

  -- The names that the last loop reads.
  check_loops :
      (c : Config)
      → (do
        referenced ← check_listeners c.upstreams [] 0 (map (λ r. r.upstream) c.rules) c.listeners
        referenced' ← check_vias c.upstreams referenced c.upstreams
        for_each (check_referenced referenced') c.upstreams)
        ≡ ok tt
      → All (IsListener c.upstreams) c.listeners
        × AreNew [] c.listeners
        × All (λ nu. HasVia c.upstreams nu.1) c.upstreams
        × RefersWell c (collected c)
  check_loops c e =
      let rs = map (λ r. r.upstream) c.rules in
      let (out, f, e') = >>=-eq-ok (check_listeners c.upstreams [] 0 rs c.listeners) _ e in
      let (out', g, h) = >>=-eq-ok (check_vias c.upstreams out c.upstreams) _ e' in
      let (listeners, new) = check_listeners-ok c.upstreams [] 0 rs out c.listeners f in
      let vias = check_vias-ok c.upstreams out out' c.upstreams g in
      let same = check_listeners-refer_all c.upstreams [] 0 rs c.listeners listeners new in
      let same' = check_vias-refer_vias c.upstreams (refer_all c.listeners rs) c.upstreams vias in
      (listeners, new, vias, rw (same, same') at e)

  validate-IsConsistent : (c : Config) → validate parse_url c ≡ ok tt → IsConsistent c
  unfolding validate
  validate-IsConsistent c e =
      let (nonempty, e1) = >>-eq-ok (fail_if (is_empty c.listen) _) _ e in
      let ((host, port), f, e2) = >>=-eq-ok (wrap bad_listen (split_host_port c.listen)) _ e1 in
      let (level, e3) = >>-eq-ok (fail_if (not (contains_text log_levels c.log_level)) _) _ e2 in
      let (ups, e4) = >>-eq-ok (for_each check_upstream c.upstreams) _ e3 in
      let (rules, e5) = >>-eq-ok (for_each_at 0 (check_rule c.upstreams) c.rules) _ e4 in
      let (listeners, new, vias, refers) = check_loops c e5 in
      record {
        listen = (host, port, wrap-eq-ok _ _ f);
        log_level = ground arith;
        upstreams =
            All-imp c.upstreams
              (λ nu h. (validate_upstream_iff parse_url nu.1).0 (wrap-eq-ok _ _ h))
              (for_each-eq-ok check_upstream c.upstreams ups);
        rules =
            All-imp c.rules (λ r h. check_rule-HasKnownUpstream c.upstreams h.0 r h.1)
              (for_each_at-eq-ok 0 (check_rule c.upstreams) c.rules rules);
        listeners = listeners;
        distinct = (AreNew-Distinct [] c.listeners new).1;
        vias = vias;
        referenced =
            All-imp c.upstreams
              (λ nu h held.
                (collected-IsReferenced c nu.0).0
                  ((check_referenced_iff (collected c) nu).0 h held))
              (for_each-eq-ok (check_referenced (collected c)) c.upstreams refers);
      }

  IsConsistent-validate : (c : Config) → IsConsistent c → validate parse_url c ≡ ok tt
  unfolding validate
  IsConsistent-validate c h =
      let (host, port, f) = h.listen in
      let set = split_host_port-ne c.listen (host, port) f in
      let nonempty : is_empty c.listen ≡ false = ground arith in
      let ups = for_each-of_All check_upstream c.upstreams (
        All-imp c.upstreams
          (λ nu k. ap (wrap (bad_upstream nu.0)) ((validate_upstream_iff parse_url nu.1).1 k))
          h.upstreams) in
      let rules =
        for_each_at-of_All 0 (check_rule c.upstreams) c.rules
          (All-imp c.rules (λ r k i. HasKnownUpstream-check_rule c.upstreams i r k) h.rules) in
      let new =
        Distinct-AreNew [] c.listeners (All-always c.listeners (λ l. unfold contains_text in refl))
          h.distinct in
      let rs = map (λ r. r.upstream) c.rules in
      let listeners = check_listeners-refer_all c.upstreams [] 0 rs c.listeners h.listeners new in
      let vias = check_vias-refer_vias c.upstreams (refer_all c.listeners rs) c.upstreams h.vias in
      let refers = for_each-of_All (check_referenced (collected c)) c.upstreams (
        All-imp c.upstreams
          (λ nu k.
            (check_referenced_iff (collected c) nu).1
              (λ held. (collected-IsReferenced c nu.0).1 (k held)))
          h.referenced) in
      rw (nonempty, f, h.log_level, ups, rules, listeners, vias) refers

  -- Config.Validate accepts a configuration exactly when its addresses split, its log level is one
  -- that is known, every upstream has the fields of its type and no other type's, every rule has a
  -- valid pattern and a known upstream, the listeners are well formed at distinct addresses, no
  -- `via` leads to an ssh upstream or to none, and a rule, a listener or a `via` uses each upstream
  -- that holds a connection.
  pub validate_iff : (c : Config) → (validate parse_url c ≡ ok tt) ↔ IsConsistent c
  validate_iff c = (validate-IsConsistent c, IsConsistent-validate c)

-- The rules and the upstream names as ProxyController.Start and runServe hand them to match.New.
unfoldable pub match_rules : Config → List Compile.Rule
match_rules c = map (λ r. record { pattern = r.match; upstream = r.upstream }) c.rules

unfoldable pub known_upstreams : Config → List (Text × Unit {0})
known_upstreams c = map (λ nu. (nu.0, tt)) c.upstreams

lookup-known :
    (k : Text) (ups : Upstreams)
    → is_some (lookup k (map (λ nu. (nu.0, tt {0})) ups)) ≡ is_some (lookup k ups)
unfolding lookup
lookup-known k [] = refl
lookup-known k ((n, u) ∷ ups) = ground (arith, lookup-known k ups)

match_rules-IsAccepted :
    (c : Config) (rules : List Rule)
    → All (HasKnownUpstream c.upstreams) rules
    → All
        (IsAccepted (known_upstreams c))
        (map (λ r. record { pattern = r.match; upstream = r.upstream }) rules)
unfolding known_upstreams
match_rules-IsAccepted c [] h = tt
match_rules-IsAccepted c (r ∷ rules) ((p, k), h) =
    ((p, lookup-known r.upstream c.upstreams ∙ k), match_rules-IsAccepted c rules h)

-- Two checks of the rules agree: match.New compiles the rules of every configuration that
-- Config.Validate accepts.
pub validate-new :
    (parse_url : Text → Option Url) (c : Config)
    → validate parse_url c ≡ ok tt
    → (m : Matcher) × (new (match_rules c) (known_upstreams c) ≡ ok m)
unfolding match_rules
validate-new parse_url c e =
    new_ok (match_rules c) (known_upstreams c)
      (match_rules-IsAccepted c c.rules ((validate_iff parse_url c).0 e).rules)
