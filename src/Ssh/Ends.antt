-- ===== src/Ssh/Ends.antt =====
-- The invariant through what ends a connection of pkg/sshclient/client.go, and through
-- MarkConnecting.
use dockprox.Base.{
  ℕ, ◌≡◌, refl, sym, inl, inr, Bool, true, false, ◌||◌, none, arith, if◌then◌else◌, Bool-cases,
}
use dockprox.Ssh.Client.{
  unknown, disconnected, connecting, Client, set_state, mark_connecting, down, close, is_current,
  forget,
}
use dockprox.Ssh.Steps.{free, World, without_current}
use dockprox.Ssh.Invariant.{
  set_state-eq, latest-changed, IsSafe, with_state, idle, without_current-false,
}

-- A closed connection that is the client's is the only one.
forgotten_closed :
    (w : World) (id : ℕ)
    → w.is_open id ≡ false
    → is_current w.client id ≡ true
    → IsSafe w
    → (j : ℕ) → w.is_open j ≡ false
unfolding is_current
forgotten_closed w id d y h j = elim (Bool-cases (w.is_open j)) [
  | inr c ↦ c
  | inl o ↦ let is_j = (rw (h.owned j o) at y) in let same : j ≡ id = ground arith in absurd (cc)
]

checked_forget-IsSafe :
    (w : World) (id : ℕ) (b : Bool)
    → is_current w.client id ≡ b
    → w.is_open id ≡ false
    → w.phase ≡ free
    → IsSafe w
    → IsSafe (record w {
      client = if b then set_state disconnected (record w.client { cli = none }) else w.client;
    })
checked_forget-IsSafe w id false y d e h = h
checked_forget-IsSafe w id true y d e h =
    let c : Client = record w.client { cli = none } in
    rw (set_state-eq disconnected c) (
      idle _ e refl (ground (arith, h.published)) (forgotten_closed w id d y h) (λ q. ground arith)
        (sym (latest-changed disconnected c h.announced)))

pub forgets-IsSafe :
    (w : World) (id : ℕ)
    → w.is_open id ≡ false
    → w.phase ≡ free
    → IsSafe w
    → IsSafe (record w { client = forget id w.client })
unfolding forget
forgets-IsSafe w id d e h = checked_forget-IsSafe w id (is_current w.client id) refl d e h

pub down-IsSafe :
    (w : World) (n : ℕ)
    → w.phase ≡ free
    → IsSafe w
    → IsSafe (record w {
      client = down w.client;
      is_open = without_current w.client.cli w.is_open;
      closing = n;
    })
unfolding down
down-IsSafe w n e h =
    let c : Client = record w.client { cli = none; last_err = none } in
    rw (set_state-eq unknown c) (
      idle _ e refl (ground (arith, h.published))
        (without_current-false w.client.cli w.is_open h.owned) (λ q. ground arith)
        (sym (latest-changed unknown c h.announced)))

pub close-IsSafe :
    (w : World)
    → w.phase ≡ free
    → IsSafe w
    → IsSafe
        (record w { client = close w.client; is_open = without_current w.client.cli w.is_open })
unfolding close
close-IsSafe w e h = rw (set_state-eq disconnected w.client) (
    idle _ e refl (ground (arith, h.published))
      (without_current-false w.client.cli w.is_open h.owned) (λ q. ground arith)
      (sym (latest-changed disconnected w.client h.announced)))

checked_mark-IsSafe :
    (w : World) (b : Bool)
    → IsSafe w
    → IsSafe (record w { client = if b then w.client else set_state connecting w.client })
checked_mark-IsSafe w true h = h
checked_mark-IsSafe w false h = with_state w connecting (λ q. absurd (ground arith)) h

pub marks-IsSafe : (w : World) → IsSafe w → IsSafe (record w { client = mark_connecting w.client })
unfolding mark_connecting
marks-IsSafe w h = checked_mark-IsSafe w (w.client.held || w.client.manual_only) h
