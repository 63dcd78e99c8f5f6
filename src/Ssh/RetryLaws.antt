-- ===== src/Ssh/RetryLaws.antt =====
-- The retry of DialContext of pkg/sshclient/client.go.
use dockprox.Base.{
  ℕ, suc, ◌+◌, ◌≤◌, ◌≢◌, inl, inr, Bool, true, false, List, [], ◌∷◌, arith, Result, ok, err,
  Bool-cases, Result-cases,
}
use dockprox.Base.Text.{Text}
use dockprox.Ssh.Retry.{
  OpenError, refused, lost, Event, got, opened, forgot, out_of_fuel, Dialled, after_open, after_get,
  dial_loop, dial_context,
}

-- How many connections were asked for.
unfoldable pub gets : List Event → ℕ
gets [] = 0
gets (got r ∷ h) = suc (gets h)
gets (opened id r ∷ h) = gets h
gets (forgot id ∷ h) = gets h

-- A connection is forgotten only right behind a channel that was lost on it.
pub data IsOrderly (before : List Event) : List Event → Type 0 where
  start : IsOrderly before before
  asks : {h : List Event} (r : Result Text ℕ) → IsOrderly before h → IsOrderly before (got r ∷ h)
  opens :
      {h : List Event} (id : ℕ) (r : Result OpenError ℕ)
      → IsOrderly before h
      → IsOrderly before (opened id r ∷ h)
  forgets :
      {h : List Event} (id : ℕ)
      → IsOrderly before (opened id (err lost) ∷ h)
      → IsOrderly before (forgot id ∷ opened id (err lost) ∷ h)

-- What a dial that began behind `before` gives: it has come to an end, with at most `n` connections
-- asked for.
abbrev pub IsSettled : ℕ → List Event → Dialled → Type 0
IsSettled n before (r, h) = (r ≢ err out_of_fuel) × (gets h ≤ n + gets before) × IsOrderly before h

module _ (get : List Event → Result Text ℕ) (open_channel : List Event → ℕ → Result OpenError ℕ)
    (is_done : List Event → Bool) where
  -- The retry does not ask the rest of the loop.
  last_open-IsSettled :
      (loop : List Event → Dialled) (n id : ℕ) (before h : List Event) (r : Result OpenError ℕ)
      → gets h ≤ n + gets before
      → IsOrderly before h
      → IsSettled n before (after_open get open_channel is_done loop true id h r)
  unfolding after_open
  last_open-IsSettled loop n id before h (ok conn) k o = ((λ q. cc), k, o)
  last_open-IsSettled loop n id before h (err refused) k o = ((λ q. cc), k, o)
  last_open-IsSettled loop n id before h (err lost) k o = ((λ q. cc), k, o)

  retry-IsSettled :
      (n : ℕ) (before h : List Event)
      → gets h ≤ n + gets before
      → IsOrderly before h
      → IsSettled (suc n) before (dial_loop get open_channel is_done 1 true h)
  unfolding dial_loop after_get gets
  retry-IsSettled n before h k o = elim (Result-cases (get h)) [
    | inr (e, f) ↦ rw f ((λ q. cc), omega (arith, k), asks _ o)
    | inl (id, f) ↦ rw f (
        last_open-IsSettled _ (suc n) id before
          (opened id (open_channel (got (ok id) ∷ h) id) ∷ got (ok id) ∷ h)
          (open_channel (got (ok id) ∷ h) id) (omega (arith, k)) (opens id _ (asks _ o)))
  ]

  first_open-IsSettled :
      (id : ℕ) (before h : List Event) (r : Result OpenError ℕ)
      → gets h ≤ 1 + gets before
      → IsOrderly before h
      → IsSettled 2 before (
          after_open get open_channel is_done
            (dial_loop get open_channel is_done 1 true)
            false
            id
            (opened id r ∷ h)
            r)
  unfolding after_open gets
  first_open-IsSettled id before h (ok conn) k o = ((λ q. cc), omega (arith, k), opens id _ o)
  first_open-IsSettled id before h (err refused) k o = ((λ q. cc), omega (arith, k), opens id _ o)
  first_open-IsSettled id before h (err lost) k o =
      elim (Bool-cases (is_done (opened id (err lost) ∷ h))) [
        | inl y ↦ rw y ((λ q. cc), omega (arith, k), opens id _ o)
        | inr n ↦ rw n (
            retry-IsSettled 1 before (forgot id ∷ opened id (err lost) ∷ h) k
              (forgets id (opens id _ o)))
      ]

  -- DialContext comes to an end after at most two connections, and forgets one only right behind a
  -- channel that was lost on it, never for a refused one.
  pub dial_context-IsSettled :
      (before : List Event) → IsSettled 2 before (dial_context get open_channel is_done before)
  unfolding dial_context dial_loop after_get gets
  dial_context-IsSettled before = elim (Result-cases (get before)) [
    | inr (e, f) ↦ rw f ((λ q. cc), omega arith, asks _ start)
    | inl (id, f) ↦ rw f (
        first_open-IsSettled id before (got (ok id) ∷ before)
          (open_channel (got (ok id) ∷ before) id) (omega arith) (asks _ start))
  ]
