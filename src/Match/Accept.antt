-- ===== src/Match/Accept.antt =====
-- Which rules New of pkg/match/match.go accepts, and which one its error names.
use dockprox.Base.{
  ℕ, suc, ◌+◌, ◌≤◌, ◌≡◌, refl, sym, ap, ◌≢◌, ◌↔◌, inl, inr, true, none, List, [], ◌∷◌, ◌++◌, arith,
  Result, ok, err, ◌==◌, Bool-cases, is_some, Option-cases, length, All, Result-cases,
}
use dockprox.Base.Text.{Text, codes, has_prefix, count_byte, lookup}
use dockprox.Base.TextLaws.{Lacks, count_byte-Lacks, has_prefix→append, has_prefix-append}
use dockprox.Match.Host.{PatternError, validate_pattern}
use dockprox.Match.Compile.{
  Rule, Matcher, RuleError, bad_pattern, unknown_upstream, no_rules, check_rule, add_rule, new_from,
  new,
}

-- A pattern with no wildcard, or with one that leads and is followed by a dot.
pub data IsPattern : Text → Type 0 where
  plain : {p : Text} → p ≢ [] → Lacks b'*' p → IsPattern p
  leading : {p : Text} (rest : Text) → Lacks b'*' rest → p ≡ b'*' ∷ b'.' ∷ rest → IsPattern p

abbrev pub IsAccepted : List (Text × Unit {0}) → Rule → Type 0
IsAccepted known r = IsPattern r.pattern × (is_some (lookup r.upstream known) ≡ true)

count_byte-leading :
    (rest : Text) → count_byte b'*' (b'*' ∷ b'.' ∷ rest) ≡ suc (count_byte b'*' rest)
unfolding count_byte
count_byte-leading rest = omega arith

-- One leading wildcard and no other.
wild→IsPattern : (p : Text) → has_prefix (codes "*.") p ≡ true → count_byte b'*' p ≤ 1 → IsPattern p
wild→IsPattern p h c =
    let (rest, q) = has_prefix→append (codes "*.") p h in
    let same : count_byte b'*' (b'*' ∷ b'.' ∷ rest) ≡ count_byte b'*' p = ap (count_byte b'*') q in
    leading rest ((count_byte-Lacks b'*' rest).0 (omega (arith, same, count_byte-leading rest)))
      (sym q)

validate_pattern→IsPattern : (p : Text) → validate_pattern p ≡ ok tt → IsPattern p
unfolding validate_pattern
validate_pattern→IsPattern [] e = cc
validate_pattern→IsPattern (a ∷ p) e = elim (Bool-cases (count_byte b'*' (a ∷ p) == 0)) [
  | inl z ↦ plain (λ q. cc) ((count_byte-Lacks b'*' (a ∷ p)).0 (ground arith))
  | inr n ↦ wild→IsPattern (a ∷ p) (ground arith) (ground arith)
]

IsPattern→validate_pattern : (p : Text) → IsPattern p → validate_pattern p ≡ ok tt
unfolding validate_pattern
IsPattern→validate_pattern [] (plain n h) = absurd (n refl)
IsPattern→validate_pattern (a ∷ p) (plain n h) = rw ((count_byte-Lacks b'*' (a ∷ p)).1 h) refl
IsPattern→validate_pattern p (leading rest h e) =
    let none_left = (count_byte-Lacks b'*' rest).1 h in
    rw e (rw (count_byte-leading rest, none_left, has_prefix-append (codes "*.") rest) refl)

pub validate_pattern_iff : (p : Text) → (validate_pattern p ≡ ok tt) ↔ IsPattern p
validate_pattern_iff p = (validate_pattern→IsPattern p, IsPattern→validate_pattern p)

module _ (known : List (Text × Unit {0})) where
  check_rule_iff : (i : ℕ) (r : Rule) → (check_rule i known r ≡ ok tt) ↔ IsAccepted known r
  check_rule_iff i r = (
    λ e. (
      (validate_pattern_iff r.pattern).0 (unfold check_rule in ground arith),
      unfold check_rule in ground arith,
    ),
    λ (v, k). let w = (validate_pattern_iff r.pattern).1 v in unfold check_rule in ground arith,
  )

  new_from_ok :
      (i : ℕ) (rules : List Rule) (m : Matcher)
      → All (IsAccepted known) rules
      → (m' : Matcher) × (new_from i known rules m ≡ ok m')
  unfolding new_from
  new_from_ok i [] m h = (m, refl)
  new_from_ok i (r ∷ rules) m (a, h) =
      rw ((check_rule_iff i r).1 a) (new_from_ok (suc i) rules (add_rule i r m) h)

  -- The error of the first refused rule, number `i`.
  pub data RefusedAs (i : ℕ) (r : Rule) (e : RuleError) : Type 0 where
    pattern :
        (x : PatternError)
        → ¬ IsPattern r.pattern
        → validate_pattern r.pattern ≡ err x
        → e ≡ bad_pattern i x
        → RefusedAs i r e
    upstream :
        IsPattern r.pattern
        → lookup r.upstream known ≡ none
        → e ≡ unknown_upstream i r.upstream
        → RefusedAs i r e

  -- The loop from rule `i` stops at a refused rule, behind rules that are accepted.
  pub data StopsAt (i : ℕ) (rules : List Rule) (e : RuleError) : Type 0 where
    stops :
        (pre : List Rule) (r : Rule) (post : List Rule)
        → rules ≡ pre ++ r ∷ post
        → All (IsAccepted known) pre
        → RefusedAs (i + length pre) r e
        → StopsAt i rules e

  abbrev pub Outcome : ℕ → List Rule → Result RuleError Matcher → Type 0
  Outcome i rules (ok m) = All (IsAccepted known) rules
  Outcome i rules (err e) = StopsAt i rules e

  check_rule-RefusedAs :
      (i : ℕ) (r : Rule) (e : RuleError) → check_rule i known r ≡ err e → RefusedAs i r e
  unfolding check_rule
  check_rule-RefusedAs i r e h = elim (Result-cases (validate_pattern r.pattern)) [
    | inl (u, v) ↦ elim (Option-cases (lookup r.upstream known)) [
      | inl n ↦ upstream ((validate_pattern_iff r.pattern).0 v) n (ground arith)
      | inr (a, s) ↦ absurd (ground arith)
    ]
    | inr (x, v) ↦
        pattern x (λ p. let w = (validate_pattern_iff r.pattern).1 p in cc) v (ground arith)
  ]

  StopsAt-cons :
      (i : ℕ) (r : Rule) (rules : List Rule) (e : RuleError)
      → IsAccepted known r
      → StopsAt (suc i) rules e
      → StopsAt i (r ∷ rules) e
  StopsAt-cons i r rules e a (stops pre q post f h x) =
      stops (r ∷ pre) q post (ap (λ l. r ∷ l) f) (a, h)
        (let same : suc i + length pre ≡ i + length (r ∷ pre) = omega arith in rw (← same) x)

  Outcome-cons :
      (i : ℕ) (r : Rule) (rules : List Rule) (x : Result RuleError Matcher)
      → IsAccepted known r
      → Outcome (suc i) rules x
      → Outcome i (r ∷ rules) x
  Outcome-cons i r rules (ok m) a h = (a, h)
  Outcome-cons i r rules (err e) a h = StopsAt-cons i r rules e a h

  new_from-Outcome :
      (i : ℕ) (rules : List Rule) (m : Matcher) → Outcome i rules (new_from i known rules m)
  unfolding new_from
  new_from-Outcome i [] m = tt
  new_from-Outcome i (r ∷ rules) m = elim (Result-cases (check_rule i known r)) [
    | inl (u, a) ↦ rw a (
        Outcome-cons i r rules _ ((check_rule_iff i r).0 a)
          (new_from-Outcome (suc i) rules (add_rule i r m)))
    | inr (e, x) ↦ rw x (
        stops [] r rules refl tt
          (let same : i ≡ i + 0 = omega arith in rw (← same) (check_rule-RefusedAs i r e x)))
  ]

-- Rules that are all accepted compile.
pub new_ok :
    (rules : List Rule) (known : List (Text × Unit {0}))
    → All (IsAccepted known) rules
    → (m : Matcher) × (new rules known ≡ ok m)
unfolding new
new_ok rules known h = new_from_ok known 0 rules no_rules h

-- New returns a matcher only if every rule has a pattern with at most one wildcard, leading and
-- followed by a dot, and a known upstream; otherwise its error is that of the first rule that has
-- not, by its index, with every rule before it in order.
pub new-Outcome :
    (rules : List Rule) (known : List (Text × Unit {0})) → Outcome known 0 rules (new rules known)
unfolding new
new-Outcome rules known = new_from-Outcome known 0 rules no_rules
