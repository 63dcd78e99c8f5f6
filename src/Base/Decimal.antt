-- ===== src/Base/Decimal.antt =====
-- strconv.Itoa and strconv.Atoi on the bytes of a decimal number.
use Prim.Native.Nat.{ℕ, zero, suc, ◌+◌, ◌-◌, ◌*◌, ◌/◌, ◌%◌, ◌≤◌, ◌<◌, ◌^◌}
use mathlib.Core.Path.{◌≡◌, refl, ap, ◌∙◌}
use mathlib.Core.Bool.{Bool, ◌&&◌}
use mathlib.Core.Logic.{◌≢◌, inl, inr}
use mathlib.Core.List.{[], ◌∷◌, ◌++◌}
use mathlib.Core.Option.{Option, none, some}
use native.Mathlib.Omega.{arith}
use dockprox.Base.Tests.{leb, ltb, ◌==◌, if◌then◌else◌, Bool-cases}
use dockprox.Base.Text.{Text}
use dockprox.Base.Lists.{All, All-append}
use dockprox.Base.Int.{ℤ, pos, negsuc}

is_digit : ℕ → Bool
is_digit c = leb b'0' c && leb c b'9'

-- The digits read so far are worth `acc`.
value_from : ℕ → Text → Option ℕ
unfolding is_digit
value_from acc [] = some acc
value_from acc (c ∷ t) =
    let rest = value_from (acc * 10 + (c - b'0')) t in if is_digit c then rest else none

parse_digits : Text → Option ℕ
unfolding value_from
parse_digits [] = none
parse_digits (c ∷ t) = value_from 0 (c ∷ t)

-- The bounds of a 64-bit `int`.
positive : Option ℕ → Option ℤ
positive none = none
positive (some n) = if ltb n (2 ^ 63) then some (pos n) else none

negative : Option ℕ → Option ℤ
negative none = none
negative (some zero) = some (pos 0)
negative (some (suc n)) = if ltb n (2 ^ 63) then some (negsuc n) else none

unfoldable pub atoi : Text → Option ℤ
unfolding positive negative parse_digits
atoi [] = none
atoi (c ∷ t) =
    if c == b'-'
    then negative (parse_digits t)
    else if c == b'+'
    then positive (parse_digits t)
    else positive (parse_digits (c ∷ t))

itoa_from : ℕ → ℕ → Text
itoa_from zero n = []
itoa_from (suc f) n =
    let more = itoa_from f (n / 10) ++ (b'0' + n % 10) ∷ [] in
    if ltb n 10 then (b'0' + n) ∷ [] else more

-- Each round divides by ten, so `n + 1` rounds are enough.
unfoldable pub itoa : ℕ → Text
unfolding itoa_from
itoa n = itoa_from (suc n) n

value_from-append :
    (acc : ℕ) (t : Text) (d v : ℕ)
    → d < 10
    → value_from acc t ≡ some v
    → value_from acc (t ++ (b'0' + d) ∷ []) ≡ some (v * 10 + d)
unfolding value_from
value_from-append acc [] d v h e = ground arith
value_from-append acc (c ∷ t) d v h e =
    ground (arith, value_from-append (acc * 10 + (c - b'0')) t d v h)

append-ne : (t : Text) (c : ℕ) → t ++ c ∷ [] ≢ []
append-ne [] c e = cc
append-ne (d ∷ t) c e = cc

value_from-digit : (n : ℕ) → n < 10 → value_from 0 ((b'0' + n) ∷ []) ≡ some n
unfolding value_from
value_from-digit n h = ground arith

value_from-itoa_from : (f n : ℕ) → n < f → value_from 0 (itoa_from f n) ≡ some n
unfolding itoa_from
value_from-itoa_from zero n h = elim h [ ]
value_from-itoa_from (suc f) n h = elim (Bool-cases (ltb n 10)) [
  | inl small ↦ rw small (value_from-digit n (ground arith))
  | inr big ↦
      let ih = value_from-itoa_from f (n / 10) (ground arith) in
      let whole : n / 10 * 10 + n % 10 ≡ n = omega arith in
      rw big (
        value_from-append 0 (itoa_from f (n / 10)) (n % 10) (n / 10) (omega arith) ih
        ∙ ap some whole)
]

abbrev pub IsDigit : ℕ → Type 0
IsDigit c = (b'0' ≤ c) × (c ≤ b'9')

itoa_from-IsDigit : (f n : ℕ) → All IsDigit (itoa_from f n)
unfolding itoa_from
itoa_from-IsDigit zero n = tt
itoa_from-IsDigit (suc f) n = elim (Bool-cases (ltb n 10)) [
  | inl small ↦ rw small ((omega arith, ground arith), tt)
  | inr big ↦ rw big (
      All-append IsDigit (itoa_from f (n / 10)) _ (itoa_from-IsDigit f (n / 10))
        ((omega arith, omega arith), tt))
]

pub itoa-IsDigit : (n : ℕ) → All IsDigit (itoa n)
itoa-IsDigit n = unfold itoa in itoa_from-IsDigit (suc n) n

atoi_of_IsDigit :
    (t : Text) (n : ℕ)
    → All IsDigit t
    → n < 2 ^ 63
    → value_from 0 t ≡ some n
    → t ≢ []
    → atoi t ≡ some (pos n)
unfolding atoi
atoi_of_IsDigit [] n h k e ne = absurd (ne refl)
atoi_of_IsDigit (c ∷ t) n h k e ne = rw (e, positive) (ground arith)

itoa_from-ne : (f n : ℕ) → itoa_from (suc f) n ≢ []
unfolding itoa_from
itoa_from-ne f n e = elim (Bool-cases (ltb n 10)) [
  | inl small ↦ cc (rw small at e)
  | inr big ↦ append-ne (itoa_from f (n / 10)) (b'0' + n % 10) (rw big at e)
]

-- A number that fits an `int` reads back.
pub atoi-itoa : (n : ℕ) → n < 2 ^ 63 → atoi (itoa n) ≡ some (pos n)
atoi-itoa n h =
    unfold itoa in
    atoi_of_IsDigit (itoa_from (suc n) n) n (itoa_from-IsDigit (suc n) n) h
      (value_from-itoa_from (suc n) n (omega arith)) (itoa_from-ne n n)
