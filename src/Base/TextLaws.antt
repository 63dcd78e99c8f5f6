-- ===== src/Base/TextLaws.antt =====
-- Laws of the text functions that the components' proofs share.
use Prim.Native.Nat.{ℕ, ◌<◌}
use mathlib.Core.Path.{◌≡◌, refl, sym, ap, ◌∙◌}
use mathlib.Core.Bool.{true}
use mathlib.Core.Logic.{◌↔◌, ◌≢◌, ◌⊎◌}
use mathlib.Core.Option.{none, some}
use mathlib.Core.List.{[], ◌∷◌, ◌++◌, reverse, reverse-append, reverse-reverse}
use native.Mathlib.Omega.{arith}
use dockprox.Base.Lists.{All}
use dockprox.Base.Text.{
  Text, has_prefix, has_suffix, count_byte, cut_first, cut_last, to_lower, lower_byte,
}

pub has_prefix→append : (p t : Text) → has_prefix p t ≡ true → (rest : Text) × (p ++ rest ≡ t)
unfolding has_prefix
has_prefix→append [] t h = (t, refl)
has_prefix→append (a ∷ p) [] h = cc
has_prefix→append (a ∷ p) (b ∷ t) h =
    let same : a ≡ b = ground arith in
    let (rest, e) = has_prefix→append p t (ground arith) in (rest, cc)

pub has_prefix-append : (p rest : Text) → has_prefix p (p ++ rest) ≡ true
unfolding has_prefix
has_prefix-append [] rest = refl
has_prefix-append (a ∷ p) rest = ground (arith, has_prefix-append p rest)

-- A text has a suffix exactly when it ends in it.
pub has_suffix_iff : (s t : Text) → (has_suffix s t ≡ true) ↔ ((front : Text) × (front ++ s ≡ t))
unfolding has_suffix
has_suffix_iff s t = (
  λ h.
      let (rest, e) = has_prefix→append (reverse s) (reverse t) h in
      (
        reverse rest,
        sym (reverse-append (reverse s) rest ∙ ap (λ x. reverse rest ++ x) (reverse-reverse s))
            ∙ ap reverse e
            ∙ reverse-reverse t,
      ),
  λ (front, e). rw (← e, reverse-append) (has_prefix-append (reverse s) (reverse front)),
)

-- The byte does not occur in the text.
abbrev pub Lacks : ℕ → Text → Type 0
Lacks c t = All (λ b. b ≢ c) t

pub cut_last-Lacks : (c : ℕ) (t : Text) → Lacks c t → cut_last c t ≡ none
unfolding cut_last
cut_last-Lacks c [] h = refl
cut_last-Lacks c (b ∷ t) (n, h) = rw (cut_last-Lacks c t h) (ground arith)

-- The last occurrence is the one that the byte does not follow.
pub cut_last-append :
    (c : ℕ) (pre post : Text) → Lacks c post → cut_last c (pre ++ c ∷ post) ≡ some (pre, post)
unfolding cut_last
cut_last-append c [] post h = rw (cut_last-Lacks c post h) (ground arith)
cut_last-append c (b ∷ pre) post h = rw (cut_last-append c pre post h) refl

-- The first occurrence is the one that the byte does not precede.
pub cut_first-append :
    (c : ℕ) (pre post : Text) → Lacks c pre → cut_first c (pre ++ c ∷ post) ≡ some (pre, post)
unfolding cut_first
cut_first-append c [] post h = ground arith
cut_first-append c (b ∷ pre) post (n, h) = rw (cut_first-append c pre post h) (ground arith)

pub count_byte-Lacks : (c : ℕ) (t : Text) → (count_byte c t ≡ 0) ↔ Lacks c t
unfolding count_byte
count_byte-Lacks c [] = (λ e. tt, λ h. refl)
count_byte-Lacks c (b ∷ t) = (
  λ e. (ground arith, (count_byte-Lacks c t).0 (ground arith)),
  λ (n, h). ground (arith, (count_byte-Lacks c t).1 h),
)

pub to_lower-append : (s t : Text) → to_lower (s ++ t) ≡ to_lower s ++ to_lower t
unfolding to_lower
to_lower-append [] t = refl
to_lower-append (c ∷ s) t = ap (λ x. lower_byte c ∷ x) (to_lower-append s t)

-- The byte is no letter.
abbrev pub IsSymbol : ℕ → Type 0
IsSymbol c = (c < 65) ⊎ ((90 < c) × (c < 97))

-- Lowering neither makes nor removes such a byte.
pub to_lower-Lacks : (c : ℕ) (t : Text) → IsSymbol c → Lacks c t → Lacks c (to_lower t)
unfolding to_lower lower_byte
to_lower-Lacks c [] k h = tt
to_lower-Lacks c (b ∷ t) k (n, h) = (ground arith, to_lower-Lacks c t k h)
