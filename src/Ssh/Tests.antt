-- ===== src/Ssh/Tests.antt =====
-- A dial of a Client that Down cancels, and one that is retried.
use dockprox.Base.{
  ℕ, ◌≡◌, refl, Bool, true, false, none, List, [], ◌∷◌, arith, Result, ok, err, ◌==◌, if◌then◌else◌,
  length, All,
}
use dockprox.Base.Text.{Text, codes}
use dockprox.Ssh.Client.{
  new_client, unknown, disconnected, connecting, enter, enter_unheld, enter_unconnected,
  shared_error, refused, set_abort, set_state, dial_failed, hold, down,
}
use dockprox.Ssh.Steps.{
  World, start, free, Reaches, Step, phase_after, entering, publishing, cancelled,
}
use dockprox.Ssh.Invariant.{IsSafe}
use dockprox.Ssh.Safety.{reached-IsSafe, held_closed}
use dockprox.Ssh.Retry.{
  Event, OpenError, lost, got, opened, forgot, dial_context, dial_loop, after_get, after_open,
}
use dockprox.Ssh.RetryLaws.{IsSettled, dial_context-IsSettled}
use dockprox.Ssh.Attempt.{
  Attempt, new_attempt, adds, signs, signed, abort, run, long_ago, call, add, sign_start, extend,
  set_deadlines,
}
use dockprox.Ssh.AttemptLaws.{run-expired}

-- The dial has begun, Down has cancelled it, it has failed, and Down is through.
abbrev ended : World
ended = record start {
  client = record new_client { held = true; changes = unknown ∷ disconnected ∷ connecting ∷ [] };
}

ended_reached : Reaches start ended
unfolding enter enter_unheld enter_unconnected shared_error set_abort set_state dial_failed hold
    down phase_after entering publishing cancelled
ended_reached =
    Reaches.next
      (Reaches.next
        (Reaches.next
          (Reaches.next
            (Reaches.next (Reaches.next Reaches.here (Step.get_enters false 0 (omega arith) refl))
              (Step.get_publishes refl))
            Step.down_holds)
          (Step.down_aborts 0 refl))
        (Step.dial_fails true (codes "cancelled") refl))
      (Step.down_closes 0 refl refl)

reached-IsSafe_example : IsSafe ended
reached-IsSafe_example = reached-IsSafe ended_reached

held_closed_example :
    (free ≡ free)
    × (ended.client.cli ≡ none)
    × ((id : ℕ) → ended.is_open id ≡ false)
    × (enter false 0 ended.client ≡ (refused, ended.client))
held_closed_example = held_closed ended false 0 ended_reached refl refl

abbrev steady : List Event → Result Text ℕ
steady h = ok (length h)

-- The first connection has died unnoticed.
abbrev first_dead : List Event → ℕ → Result OpenError ℕ
first_dead h id = if id == 0 then err lost else ok 7

abbrev patient : List Event → Bool
patient h = false

retried :
    dial_context steady first_dead patient []
    ≡ (ok 7, opened 3 (ok 7) ∷ got (ok 3) ∷ forgot 0 ∷ opened 0 (err lost) ∷ got (ok 0) ∷ [])
unfolding dial_context dial_loop after_get after_open
retried = refl

dial_context-IsSettled_example : IsSettled 2 [] (dial_context steady first_dead patient [])
dial_context-IsSettled_example = dial_context-IsSettled steady first_dead patient []

-- The agent asks three seconds into a dial, which is then given a minute.
abbrev asked : Attempt
asked = run (adds ∷ signs 103 ∷ []) (new_attempt 15 60 100)

asked_deadlines : (asked.conns ≡ 163 ∷ []) × (asked.deadline ≡ 163)
unfolding run new_attempt call add sign_start extend set_deadlines
asked_deadlines = (refl, refl)

run-expired_example :
    All (λ c. c ≡ asked.deadline) asked.conns
    × All (λ c. c ≡ long_ago) (run (adds ∷ signed 110 ∷ []) (abort asked)).conns
run-expired_example = run-expired 15 60 100 (adds ∷ signs 103 ∷ []) (adds ∷ signed 110 ∷ [])
