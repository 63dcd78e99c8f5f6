-- ===== src/Match/Spec.antt =====
-- What it means for a rule's pattern to match a host, and for a rule to be the first that does.
use dockprox.Base.{
  ℕ, ◌≡◌, refl, ◌↔◌, inl, inr, Bool, true, false, Option, none, some, List, [], ◌∷◌, ◌++◌, arith,
  leb, ◌==◌, if◌then◌else◌, Bool-cases, drop, find,
}
use dockprox.Base.Text.{
  Text, codes, text_eq, text_eq_iff, has_prefix, has_suffix, lower_byte, to_lower,
}
use dockprox.Base.TextLaws.{has_suffix_iff}
use dockprox.Match.Compile.{Rule}

-- A host as First looks it up: an exact pattern is the host, a wildcard's "*" stands for any text.
pub data Matches (pattern host : Text) : Type 0 where
  exact : has_prefix (codes "*.") pattern ≡ false → to_lower pattern ≡ host → Matches pattern host
  wildcard :
      has_prefix (codes "*.") pattern ≡ true
      → (front : Text) → front ++ drop 1 (to_lower pattern) ≡ host
      → Matches pattern host

-- The result is the first element that satisfies `P`, or none does.
pub data FirstOf {ℓ κ} {A : Type ℓ} (P : A → Type κ) : List A → Option A → Type (ℓ ⊔ κ) where
  nothing : FirstOf P [] none
  here : {x : A} {xs : List A} → P x → FirstOf P (x ∷ xs) (some x)
  later : {x : A} {xs : List A} {r : Option A} → ¬ P x → FirstOf P xs r → FirstOf P (x ∷ xs) r

-- A test that decides `P` finds the first element that satisfies it.
pub find-FirstOf {ℓ κ} :
    {A : Type ℓ} (P : A → Type κ) (p : A → Bool)
    → ((x : A) → (p x ≡ true) ↔ P x)
    → (xs : List A) → FirstOf P xs (find p xs)
find-FirstOf P p h [] = nothing
find-FirstOf P p h (x ∷ xs) = elim (Bool-cases (p x)) [
  | inl e ↦ rw e (here ((h x).0 e))
  | inr e ↦ rw e (later (λ q. cc ((h x).1 q)) (find-FirstOf P p h xs))
]

-- The same test as `Matches`, by the functions of package strings.
unfoldable pub rule_matches : Text → Rule → Bool
rule_matches h r =
    if has_prefix (codes "*.") (to_lower r.pattern)
    then has_suffix (drop 1 (to_lower r.pattern)) h
    else text_eq (to_lower r.pattern) h

wildcard_inv :
    {p h : Text}
    → has_prefix (codes "*.") p ≡ true
    → Matches p h
    → (front : Text) × (front ++ drop 1 (to_lower p) ≡ h)
wildcard_inv e (exact f k) = cc
wildcard_inv e (wildcard f front k) = (front, k)

exact_inv : {p h : Text} → has_prefix (codes "*.") p ≡ false → Matches p h → to_lower p ≡ h
exact_inv e (exact f k) = k
exact_inv e (wildcard f front k) = cc

lower_byte-star : (c d : ℕ) → leb 97 d ≡ false → leb 65 d ≡ false → (lower_byte c == d) ≡ (c == d)
unfolding lower_byte
lower_byte-star c d p q = ground arith

-- Lowering a pattern keeps its wildcard.
pub has_prefix-to_lower :
    (p : Text) → has_prefix (codes "*.") (to_lower p) ≡ has_prefix (codes "*.") p
unfolding has_prefix to_lower
has_prefix-to_lower [] = refl
has_prefix-to_lower (a ∷ []) = ground (arith, lower_byte-star a b'*')
has_prefix-to_lower (a ∷ b ∷ p) = ground (arith, lower_byte-star a b'*', lower_byte-star b b'.')

-- The test decides the relation.
pub rule_matches_iff : (h : Text) (r : Rule) → (rule_matches h r ≡ true) ↔ Matches r.pattern h
unfolding rule_matches
rule_matches_iff h r = elim (Bool-cases (has_prefix (codes "*.") r.pattern)) [
  | inl e ↦
      rw (has_prefix-to_lower r.pattern, e)
        (
          λ k. let (front, f) = (has_suffix_iff _ h).0 k in wildcard e front f,
          λ m. (has_suffix_iff _ h).1 (wildcard_inv e m),
        )
  | inr e ↦
      rw (has_prefix-to_lower r.pattern, e)
        (λ k. exact e ((text_eq_iff _ h).0 k), λ m. (text_eq_iff _ h).1 (exact_inv e m))
]
