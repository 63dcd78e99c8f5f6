-- ===== src/Match/Order.antt =====
-- The compiled matcher finds the same rule as a walk over the rules in their order.
use dockprox.Base.{
  ℕ, suc, ◌<◌, ◌≡◌, refl, ◌∙◌, inl, inr, true, Option, none, some, List, [], ◌∷◌, ◌++◌, arith, ltb,
  if◌then◌else◌, Bool-cases, Option-cases, drop, All,
}
use dockprox.Base.Text.{Text, text_eq, text_eq_iff, has_suffix, to_lower, lookup}
use dockprox.Match.Compile.{Rule, SuffixRule, Matcher, is_wildcard, add_exact, add_rule}
use dockprox.Match.First.{scan_step, scan, best_index}
use dockprox.Match.Spec.{rule_matches}

-- Every index that a matcher holds is below `n`.
abbrev pub SuffixesBelow : ℕ → List SuffixRule → Type 0
SuffixesBelow n = All (λ s. s.rule_idx < n)

abbrev pub ExactBelow : ℕ → List (Text × ℕ) → Type 0
ExactBelow n = All (λ e. e.1 < n)

abbrev BestBelow : ℕ → Option ℕ → Type 0
BestBelow n none = Unit
BestBelow n (some i) = i < n

lookup-Below :
    (n : ℕ) (h : Text) (exact : List (Text × ℕ)) → ExactBelow n exact → BestBelow n (lookup h exact)
unfolding lookup
lookup-Below n h [] b = tt
lookup-Below n h ((p, i) ∷ exact) (b, bs) = ground (arith, lookup-Below n h exact bs)

scan-Below :
    (n : ℕ) (h : Text) (best : Option ℕ) (ss : List SuffixRule)
    → SuffixesBelow n ss
    → BestBelow n best
    → BestBelow n (scan h best ss)
unfolding scan
scan-Below n h best [] b k = k
scan-Below n h none (s ∷ ss) (b, bs) k = elim (Bool-cases (has_suffix s.suffix h)) [
  | inl e ↦ rw e (scan-Below n h (some s.rule_idx) ss bs b)
  | inr e ↦ rw e (scan-Below n h none ss bs tt)
]
scan-Below n h (some j) (s ∷ ss) (b, bs) k = elim (Bool-cases (has_suffix s.suffix h)) [
  | inl e ↦ rw e (elim (Bool-cases (ltb s.rule_idx j)) [
    | inl f ↦ rw f (scan-Below n h (some s.rule_idx) ss bs b)
    | inr f ↦ rw f (scan-Below n h (some j) ss bs k)
  ])
  | inr e ↦ rw e (scan-Below n h (some j) ss bs k)
]

scan-append :
    (h : Text) (best : Option ℕ) (ss ts : List SuffixRule)
    → scan h best (ss ++ ts) ≡ scan h (scan h best ss) ts
unfolding scan
scan-append h best [] ts = refl
scan-append h best (s ∷ ss) ts = scan-append h (scan_step h best s) ss ts

abbrev or_else : Option ℕ → ℕ → Option ℕ
or_else none i = some i
or_else (some j) i = some j

scan-some : (h : Text) (i : ℕ) (ss : List SuffixRule) → (j : ℕ) × (scan h (some i) ss ≡ some j)
unfolding scan
scan-some h i [] = (i, refl)
scan-some h i (s ∷ ss) = elim (Bool-cases (has_suffix s.suffix h)) [
  | inl e ↦ rw e (elim (Bool-cases (ltb s.rule_idx i)) [
    | inl f ↦ rw f (scan-some h s.rule_idx ss)
    | inr f ↦ rw f (scan-some h i ss)
  ])
  | inr e ↦ rw e (scan-some h i ss)
]

-- A later exact match changes the result only where nothing matched.
scan-or_else :
    (h : Text) (i : ℕ) (ss : List SuffixRule)
    → SuffixesBelow i ss
    → scan h (some i) ss ≡ or_else (scan h none ss) i
unfolding scan
scan-or_else h i [] b = refl
scan-or_else h i (s ∷ ss) (b, bs) = elim (Bool-cases (has_suffix s.suffix h)) [
  | inl e ↦
      let (j, q) = scan-some h s.rule_idx ss in
      let less : ltb s.rule_idx i ≡ true = ground arith in rw (e, less, q) refl
  | inr e ↦ rw e (scan-or_else h i ss bs)
]

lookup-append :
    (h p : Text) (i : ℕ) (exact : List (Text × ℕ))
    → lookup h (exact ++ (p, i) ∷ [])
      ≡ elim (lookup h exact) [ some j ↦ some j | none ↦ if text_eq p h then some i else none ]
unfolding lookup
lookup-append h p i [] = refl
lookup-append h p i ((q, j) ∷ exact) = elim (Bool-cases (text_eq q h)) [
  | inl e ↦ rw e refl
  | inr e ↦ rw e (lookup-append h p i exact)
]

-- The index of the first rule that matches, counted from `i`.
abbrev pub index_from : Text → ℕ → List Rule → Option ℕ
index_from h i [] = none
index_from h i (r ∷ rs) = if rule_matches h r then some i else index_from h (suc i) rs

abbrev pub or_else? : Option ℕ → Option ℕ → Option ℕ
or_else? none k = k
or_else? (some j) k = some j

pub record IsBelow (n : ℕ) (m : Matcher) : Type 0 where
  pub suffixes : SuffixesBelow n m.suffix
  pub exacts : ExactBelow n m.exact

best_index-Below : (n : ℕ) (h : Text) (m : Matcher) → IsBelow n m → BestBelow n (best_index m h)
unfolding best_index
best_index-Below n h m b =
    scan-Below n h (lookup h m.exact) m.suffix b.suffixes (lookup-Below n h m.exact b.exacts)

-- A suffix rule that is scanned last counts only where nothing matched before.
scan_step-last :
    (n : ℕ) (h suffix : Text) (best : Option ℕ)
    → BestBelow n best
    → scan_step h best (record { suffix = suffix; rule_idx = n })
      ≡ or_else? best (if has_suffix suffix h then some n else none)
scan_step-last n h suffix none b = ground arith
scan_step-last n h suffix (some j) b = ground arith

lookup-add_exact :
    (n : ℕ) (h p : Text) (exact : List (Text × ℕ))
    → lookup h (add_exact p n exact)
      ≡ or_else? (lookup h exact) (if text_eq p h then some n else none)
lookup-add_exact n h p exact = elim (Bool-cases (text_eq p h)) [
  | inl e ↦
      let same : p ≡ h = (text_eq_iff p h).0 e in
      rw same (ground (arith, lookup-append h h n exact, (text_eq_iff h h).1 refl))
  | inr e ↦ ground (arith, lookup-append h p n exact)
]

or_else?-or_else : (o : Option ℕ) (n : ℕ) → or_else o n ≡ or_else? o (some n)
or_else?-or_else none n = refl
or_else?-or_else (some j) n = refl

pub or_else?-none : (o : Option ℕ) → o ≡ or_else? o none
or_else?-none none = refl
or_else?-none (some j) = refl

scan-add_exact :
    (n : ℕ) (h p : Text) (exact : List (Text × ℕ)) (ss : List SuffixRule)
    → SuffixesBelow n ss
    → scan h (lookup h (add_exact p n exact)) ss
      ≡ or_else? (scan h (lookup h exact) ss) (if text_eq p h then some n else none)
scan-add_exact n h p exact ss b = elim (Option-cases (lookup h exact)) [
  | inl e ↦ elim (Bool-cases (text_eq p h)) [
    | inl f ↦
        rw (lookup-add_exact, e, f) (scan-or_else h n ss b ∙ or_else?-or_else (scan h none ss) n)
    | inr f ↦ rw (lookup-add_exact, e, f) (or_else?-none (scan h none ss))
  ]
  | inr (j, e) ↦ let (k, q) = scan-some h j ss in rw (lookup-add_exact, e, q) refl
]

-- Adding rule `n` to a matcher of the rules before it changes the result only where none matched.
pub best_index-add_rule :
    (n : ℕ) (h : Text) (r : Rule) (m : Matcher)
    → IsBelow n m
    → best_index (add_rule n r m) h
      ≡ or_else? (best_index m h) (if rule_matches h r then some n else none)
best_index-add_rule n h r m b = elim (Bool-cases (is_wildcard (to_lower r.pattern))) [
  | inl e ↦
      unfold best_index add_rule rule_matches in
      rw (e, scan-append)
        (scan_step-last n h (drop 1 (to_lower r.pattern)) _ (best_index-Below n h m b))
  | inr e ↦
      unfold best_index add_rule rule_matches in
      rw e (scan-add_exact n h (to_lower r.pattern) m.exact m.suffix b.suffixes)
]
