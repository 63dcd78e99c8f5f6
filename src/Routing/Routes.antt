-- ===== src/Routing/Routes.antt =====
-- The routing of a host: the rules of a configuration that Config.Validate accepts, the matcher of
-- pkg/match and the registry of pkg/upstream together.
use dockprox.Base.{
  ◌≡◌, refl, sym, inl, inr, true, Option, none, some, List, [], ◌∷◌, map, arith, ok, is_some,
  Option-cases, All,
}
use dockprox.Base.Text.{Text, lookup}
use dockprox.Match.Host.{host_key}
use dockprox.Match.Compile.{Rule, Matcher, new}
use dockprox.Match.First.{first}
use dockprox.Match.Spec.{Matches, FirstOf, nothing, here, later}
use dockprox.Match.Refine.{first-FirstOf}
use dockprox.Config.Schema.{Config, Upstream}
use dockprox.Config.Upstreams.{Url}
use dockprox.Config.Validate.{Upstreams, validate}
use dockprox.Config.Sound.{HasKnownUpstream, validate_iff, match_rules, known_upstreams}
use dockprox.Config.Schema
use dockprox.Routing.Dialers.{Dialer, Dialers, Machine, new_registry}
use dockprox.Routing.Built.{intended, IsMap}
use dockprox.Routing.Registry.{Serves, new_registry-Serves}
use dockprox.Routing.Pick.{direct, routed, pick}

FirstOf-All :
    {A : Type 0} (P Q : A → Type 0) (xs : List A) (x : A) {r : Option A}
    → FirstOf P xs r
    → r ≡ some x
    → All Q xs
    → Q x
FirstOf-All P Q [] x nothing e h = cc
FirstOf-All P Q (y ∷ ys) x (here p) e (h, hs) = let y' : y ≡ x = ground arith in rw (sym y') h
FirstOf-All P Q (y ∷ ys) x (later n f) e (h, hs) = FirstOf-All P Q ys x f e hs

match_rules-Known :
    (c : Config) (rules : List Schema.Rule)
    → All (HasKnownUpstream c.upstreams) rules
    → All
        (λ (r : Rule). is_some (lookup r.upstream c.upstreams) ≡ true)
        (map (λ (r : Schema.Rule). record { pattern = r.match; upstream = r.upstream }) rules)
match_rules-Known c [] h = tt
match_rules-Known c (r ∷ rules) ((p, k), hs) = (k, match_rules-Known c rules hs)

-- The dialer of a rule's upstream, or the direct one.
abbrev pub Chosen : Upstreams → Option Rule → Dialer → Type 0
Chosen ups none d = d ≡ direct
Chosen ups (some r) d =
    (u : Upstream) × (lookup r.upstream ups ≡ some u) × (intended ups r.upstream u ≡ some d)

-- The first of the configuration's rules whose pattern matches the host chooses the dialer.
abbrev pub IsRouted : Config → Text → Dialer → Type 0
IsRouted c host d =
    (r : Option Rule) × FirstOf (λ (q : Rule). Matches q.pattern (host_key host)) (match_rules c) r
    × Chosen c.upstreams r d

routed-Chosen :
    (machine : Machine) (ups : Upstreams) (reg : Dialers)
    → ((name : Text) → Serves machine ups reg name (lookup name ups))
    → (o : Option Rule) → ((r : Rule) → o ≡ some r → is_some (lookup r.upstream ups) ≡ true)
    → Chosen ups o (routed reg o)
unfolding routed
routed-Chosen machine ups reg serves none known = refl
routed-Chosen machine ups reg serves (some r) known = elim (Option-cases (lookup r.upstream ups)) [
  | inl e ↦ absurd (ground (arith, known r refl))
  | inr (u, e) ↦ let (d, f, g) = (rw e at (serves r.upstream)) in (u, e, rw f g)
]

-- Without a pinned dialer a host is dialled as the first rule that matches it says, directly when
-- none does: the upstream of a rule is never missing from the registry, so no host that a rule
-- matches is dialled directly for that reason.
pub pick-IsRouted :
    (parse_url : Text → Option Url) (machine : Machine) (c : Config) (reg : Dialers) (m : Matcher)
    → IsMap c.upstreams
    → validate parse_url c ≡ ok tt
    → new_registry machine c.upstreams ≡ ok reg
    → new (match_rules c) (known_upstreams c) ≡ ok m
    → (host : Text) → IsRouted c host (pick none m reg host)
unfolding pick match_rules
pick-IsRouted parse_url machine c reg m keys valid built compiled host =
    let consistent = (validate_iff parse_url c).0 valid in
    let firsts = first-FirstOf (match_rules c) (known_upstreams c) m host compiled in
    let serves = new_registry-Serves machine c.upstreams reg keys consistent.vias built in
    (
      first m host,
      firsts,
      routed-Chosen machine c.upstreams reg serves (first m host)
          (λ r e. FirstOf-All _ _ _ r firsts e (match_rules-Known c c.rules consistent.rules)),
    )
