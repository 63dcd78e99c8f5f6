-- ===== src/Ssh/Retry.antt =====
-- DialContext of pkg/sshclient/client.go. What `get` and the opening of a channel give, and whether
-- the caller's context is done, depends on all that has happened, which other goroutines share.
use dockprox.Base.{ℕ, zero, suc, Bool, true, false, ◌||◌, List, ◌∷◌, Result, ok, err, if◌then◌else◌}
use dockprox.Base.Text.{Text}

-- Why a channel does not open: the server refuses it (ssh.OpenChannelError), or the connection
-- fails.
pub data OpenError : Type 0 where
  refused lost : OpenError

pub data Event : Type 0 where
  got : Result Text ℕ → Event
  opened : ℕ → Result OpenError ℕ → Event
  forgot : ℕ → Event

pub data DialFailure : Type 0 where
  no_connection : Text → DialFailure
  no_channel : OpenError → DialFailure
  out_of_fuel : DialFailure

abbrev pub Dialled : Type 0
Dialled = Result DialFailure ℕ × List Event

abbrev pub is_refusal : OpenError → Bool
is_refusal refused = true
is_refusal lost = false

module _ (get : List Event → Result Text ℕ) (open_channel : List Event → ℕ → Result OpenError ℕ)
    (is_done : List Event → Bool) where
  -- The events are the latest first. `loop` is the rest of the loop.
  unfoldable pub after_open :
      (List Event → Dialled) → Bool → ℕ → List Event → Result OpenError ℕ → Dialled
  after_open loop retry id h (ok conn) = (ok conn, h)
  after_open loop retry id h (err e) =
      if is_refusal e || retry || is_done h then (err (no_channel e), h) else loop (forgot id ∷ h)

  unfoldable pub after_get : (List Event → Dialled) → Bool → List Event → Result Text ℕ → Dialled
  after_get loop retry h (err e) = (err (no_connection e), h)
  after_get loop retry h (ok id) =
      after_open loop retry id (opened id (open_channel h id) ∷ h) (open_channel h id)

  -- The loop, on fuel; its second round is the retry.
  unfoldable pub dial_loop : ℕ → Bool → List Event → Dialled
  dial_loop zero retry h = (err out_of_fuel, h)
  dial_loop (suc n) retry h = after_get (dial_loop n true) retry (got (get h) ∷ h) (get h)

  unfoldable pub dial_context : List Event → Dialled
  dial_context h = dial_loop 2 false h
