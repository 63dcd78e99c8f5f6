-- ===== src/Base/Results.antt =====
-- Go's pair of a value and an error: a value, or an error of type `E`.
use mathlib.Core.Path.{◌≡◌, refl}
use Prim.Native.Nat.{ℕ, suc}
use mathlib.Core.Bool.{Bool, true, false}
use mathlib.Core.List.{List, [], ◌∷◌}
use native.Mathlib.Omega.{arith}
use dockprox.Base.Lists.{All}
use mathlib.Core.Logic.{◌⊎◌, inl, inr}

pub data Result {ℓ κ} (E : Type κ) (A : Type ℓ) : Type (ℓ ⊔ κ) where
  ok : A → Result E A
  err : E → Result E A

infixl 5 ◌>>=◌ ◌>>◌
abbrev pub ◌>>=◌ {ℓ κ μ} :
    {E : Type κ} {A : Type ℓ} {B : Type μ} → Result E A → (A → Result E B) → Result E B
err e >>= next = err e
ok value >>= next = next value

abbrev pub ◌>>◌ {ℓ κ} : {E : Type κ} {B : Type ℓ} → Result E (Unit {0}) → Result E B → Result E B
check >> next = check >>= λ done. next

-- `if test { return err }`.
abbrev pub fail_if {κ} : {E : Type κ} → Bool → E → Result E (Unit {0})
fail_if true e = err e
fail_if false e = ok tt

-- `errors.Wrap`: the error is carried in a larger one.
abbrev pub wrap {ℓ κ μ} : {E : Type κ} {F : Type μ} {A : Type ℓ} → (E → F) → Result E A → Result F A
wrap f (ok a) = ok a
wrap f (err e) = err (f e)

pub Result-cases {ℓ κ} :
    {E : Type κ} {A : Type ℓ} (r : Result E A) → ((a : A) × (r ≡ ok a)) ⊎ ((e : E) × (r ≡ err e))
Result-cases (ok a) = inl (a, refl)
Result-cases (err e) = inr (e, refl)

-- `for _, x := range xs { if err := f(x); err != nil { return err } }`.
abbrev pub for_each {ℓ κ} :
    {E : Type κ} {A : Type ℓ} → (A → Result E (Unit {0})) → List A → Result E (Unit {0})
for_each f [] = ok tt
for_each f (x ∷ xs) = f x >> for_each f xs

-- The same with the index of each element, from `i`.
abbrev pub for_each_at {ℓ κ} :
    {E : Type κ} {A : Type ℓ} → ℕ → (ℕ → A → Result E (Unit {0})) → List A → Result E (Unit {0})
for_each_at i f [] = ok tt
for_each_at i f (x ∷ xs) = f i x >> for_each_at (suc i) f xs

-- A sequence that returns a value has done so at each of its steps.
pub >>=-eq-ok {μ ℓ κ} :
    {B : Type μ} {A : Type ℓ} {E : Type κ} (first : Result E A) (next : A → Result E B) {out : B}
    → (first >>= next) ≡ ok out
    → (mid : A) × (first ≡ ok mid) × (next mid ≡ ok out)
>>=-eq-ok (ok mid) next e = (mid, refl, e)
>>=-eq-ok (err x) next e = cc

pub >>-eq-ok {ℓ κ} :
    {E : Type κ} {B : Type ℓ} (m : Result E (Unit {0})) (k : Result E B) {b : B}
    → (m >> k) ≡ ok b
    → (m ≡ ok tt) × (k ≡ ok b)
>>-eq-ok (ok tt) k h = (refl, h)
>>-eq-ok (err e) k h = cc

pub fail_if-eq-ok {κ} : {E : Type κ} (b : Bool) (e : E) → fail_if b e ≡ ok tt → b ≡ false
fail_if-eq-ok true e h = cc
fail_if-eq-ok false e h = refl

pub wrap-eq-ok {ℓ κ μ} :
    {E : Type κ} {F : Type μ} {A : Type ℓ} (f : E → F) (r : Result E A) {a : A}
    → wrap f r ≡ ok a
    → r ≡ ok a
wrap-eq-ok f (ok a) h = ground arith
wrap-eq-ok f (err e) h = cc

pub for_each-eq-ok {ℓ κ} :
    {E : Type κ} {A : Type ℓ} (f : A → Result E (Unit {0})) (xs : List A)
    → for_each f xs ≡ ok tt
    → All (λ x. f x ≡ ok tt) xs
for_each-eq-ok f [] h = tt
for_each-eq-ok f (x ∷ xs) h =
    let (p, q) = >>-eq-ok (f x) (for_each f xs) h in (p, for_each-eq-ok f xs q)

-- Every element passes, at some index.
pub for_each_at-eq-ok {ℓ κ} :
    {E : Type κ} {A : Type ℓ} (i : ℕ) (f : ℕ → A → Result E (Unit {0})) (xs : List A)
    → for_each_at i f xs ≡ ok tt
    → All (λ x. (j : ℕ) × (f j x ≡ ok tt)) xs
for_each_at-eq-ok i f [] h = tt
for_each_at-eq-ok i f (x ∷ xs) h =
    let (p, q) = >>-eq-ok (f i x) (for_each_at (suc i) f xs) h in
    ((i, p), for_each_at-eq-ok (suc i) f xs q)

pub for_each-of_All {ℓ κ} :
    {E : Type κ} {A : Type ℓ} (f : A → Result E (Unit {0})) (xs : List A)
    → All (λ x. f x ≡ ok tt) xs
    → for_each f xs ≡ ok tt
for_each-of_All f [] h = refl
for_each-of_All f (x ∷ xs) (h, hs) = rw h (for_each-of_All f xs hs)

pub for_each_at-of_All {ℓ κ} :
    {E : Type κ} {A : Type ℓ} (i : ℕ) (f : ℕ → A → Result E (Unit {0})) (xs : List A)
    → All (λ x. (j : ℕ) → f j x ≡ ok tt) xs
    → for_each_at i f xs ≡ ok tt
for_each_at-of_All i f [] h = refl
for_each_at-of_All i f (x ∷ xs) (h, hs) = rw (h i) (for_each_at-of_All (suc i) f xs hs)
