-- ===== src/Match/Refine.antt =====
-- What New builds from the rules is what a walk over the rules in their order finds.
use dockprox.Base.{
  ℕ, suc, ◌<◌, ◌≡◌, refl, sym, ◌∙◌, inl, inr, Bool, true, false, Option, none, some, List, [], ◌∷◌,
  ◌++◌, arith, ok, if◌then◌else◌, Bool-cases, is_some, length, get_elem?, find, length-append,
  All-append, All-imp, Result-cases,
}
use dockprox.Base.Text.{Text, to_lower, lookup}
use mathlib.Core.List.{append-nil, append_assoc}
use dockprox.Match.Host.{host_key}
use dockprox.Match.Compile.{
  Rule, Matcher, no_rules, is_wildcard, add_exact, check_rule, add_rule, new_from, new,
}
use dockprox.Match.First.{best_index, rule_at, first}
use dockprox.Match.Spec.{Matches, FirstOf, find-FirstOf, rule_matches, rule_matches_iff}
use dockprox.Match.Order.{
  IsBelow, SuffixesBelow, ExactBelow, index_from, or_else?, or_else?-none, best_index-add_rule,
}

ExactBelow-suc :
    (n : ℕ) (p : Text) (exact : List (Text × ℕ))
    → ExactBelow n exact
    → ExactBelow (suc n) (add_exact p n exact)
ExactBelow-suc n p exact b =
    let wider : ExactBelow (suc n) exact = All-imp exact (λ e k. omega arith) b in
    elim (Bool-cases (is_some (lookup p exact))) [
      | inl e ↦ rw e wider
      | inr e ↦ rw e (All-append (λ f. f.1 < suc n) exact _ wider (omega arith))
    ]

IsBelow-suc : (n : ℕ) (r : Rule) (m : Matcher) → IsBelow n m → IsBelow (suc n) (add_rule n r m)
unfolding add_rule
IsBelow-suc n r m b =
    let wider : SuffixesBelow (suc n) m.suffix = All-imp m.suffix (λ s k. omega arith) b.suffixes in
    elim (Bool-cases (is_wildcard (to_lower r.pattern))) [
      | inl e ↦ rw e (record {
        suffixes = All-append (λ s. s.rule_idx < suc n) m.suffix _ wider (omega arith);
        exacts = All-imp m.exact (λ f k. omega arith) b.exacts;
      })
      | inr e ↦ rw e (record {
        suffixes = wider;
        exacts = ExactBelow-suc n (to_lower r.pattern) m.exact b.exacts;
      })
    ]

rules-add_rule : (n : ℕ) (r : Rule) (m : Matcher) → (add_rule n r m).rules ≡ m.rules ++ r ∷ []
unfolding add_rule
rules-add_rule n r m = ground arith

or_else?-if :
    (o : Option ℕ) (b : Bool) (n : ℕ) (k : Option ℕ)
    → or_else? (or_else? o (if b then some n else none)) k ≡ or_else? o (if b then some n else k)
or_else?-if none true n k = refl
or_else?-if none false n k = refl
or_else?-if (some j) b n k = refl

module _ (known : List (Text × Unit {0})) where
  -- A loop that returns has passed the checks of its first rule.
  new_from-cons :
      (n : ℕ) (r : Rule) (rules : List Rule) (m m' : Matcher)
      → new_from n known (r ∷ rules) m ≡ ok m'
      → new_from (suc n) known rules (add_rule n r m) ≡ ok m'
  unfolding new_from
  new_from-cons n r rules m m' e = elim (Result-cases (check_rule n known r)) [
    | inl (a, f) ↦ rw f at e
    | inr (x, f) ↦ cc
  ]

  rules-new_from :
      (n : ℕ) (rules : List Rule) (m m' : Matcher)
      → new_from n known rules m ≡ ok m'
      → m'.rules ≡ m.rules ++ rules
  unfolding new_from
  rules-new_from n [] m m' e = ground (arith, append-nil m.rules)
  rules-new_from n (r ∷ rules) m m' e =
      rules-new_from (suc n) rules (add_rule n r m) m' (new_from-cons n r rules m m' e)
      ∙ rw (rules-add_rule, append_assoc) refl

  best_index-new_from :
      (n : ℕ) (h : Text) (rules : List Rule) (m m' : Matcher)
      → IsBelow n m
      → new_from n known rules m ≡ ok m'
      → best_index m' h ≡ or_else? (best_index m h) (index_from h n rules)
  best_index-new_from n h [] m m' b e =
      let same : m ≡ m' = unfold new_from in ground (arith, e) in
      rw (← same) (or_else?-none (best_index m h))
  best_index-new_from n h (r ∷ rules) m m' b e =
      best_index-new_from (suc n) h rules (add_rule n r m) m' (IsBelow-suc n r m b)
        (new_from-cons n r rules m m' e)
      ∙ rw (best_index-add_rule n h r m b)
          (or_else?-if (best_index m h) (rule_matches h r) n (index_from h (suc n) rules))

get_elem?-middle :
    (pre : List Rule) (r : Rule) (rs : List Rule) → get_elem? (pre ++ r ∷ rs) (length pre) ≡ some r
get_elem?-middle [] r rs = refl
get_elem?-middle (q ∷ pre) r rs = get_elem?-middle pre r rs

rule_at-index_from :
    (h : Text) (pre rules : List Rule)
    → rule_at (pre ++ rules) (index_from h (length pre) rules) ≡ find (rule_matches h) rules
rule_at-index_from h pre [] = refl
rule_at-index_from h pre (r ∷ rules) = elim (Bool-cases (rule_matches h r)) [
  | inl e ↦ rw e (get_elem?-middle pre r rules)
  | inr e ↦
      let ih = rule_at-index_from h (pre ++ r ∷ []) rules in
      let len : length (pre ++ r ∷ []) ≡ suc (length pre) =
        omega (arith, length-append pre (r ∷ [])) in
      rw e (rw (len, append_assoc) at ih)
]

first_lem :
    (m : Matcher) (host : Text) → first m host ≡ rule_at m.rules (best_index m (host_key host))
unfolding first
first_lem m host = refl

new_lem :
    (rules : List Rule) (known : List (Text × Unit {0}))
    → new rules known ≡ new_from 0 known rules no_rules
unfolding new
new_lem rules known = refl

best_index-no_rules : (h : Text) → best_index no_rules h ≡ none
unfolding best_index lookup
best_index-no_rules h = refl

first-find :
    (rules : List Rule) (known : List (Text × Unit {0})) (m : Matcher) (host : Text)
    → new rules known ≡ ok m
    → first m host ≡ find (rule_matches (host_key host)) rules
first-find rules known m host e =
    let built : new_from 0 known rules no_rules ≡ ok m = sym (new_lem rules known) ∙ e in
    let below : IsBelow 0 no_rules = omega arith in
    let best = best_index-new_from known 0 (host_key host) rules no_rules m below built in
    first_lem m host
    ∙ rw (best, best_index-no_rules, rules-new_from known 0 rules no_rules m built)
        (rule_at-index_from (host_key host) [] rules)

-- For rules that New accepts, First returns the first rule in their order whose pattern matches the
-- host (lowered, without its port), and none exactly when no pattern does.
pub first-FirstOf :
    (rules : List Rule) (known : List (Text × Unit {0})) (m : Matcher) (host : Text)
    → new rules known ≡ ok m
    → FirstOf (λ r. Matches r.pattern (host_key host)) rules (first m host)
first-FirstOf rules known m host e =
    rw (first-find rules known m host e) (find-FirstOf _ _ (rule_matches_iff (host_key host)) rules)
