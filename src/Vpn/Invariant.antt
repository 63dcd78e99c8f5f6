-- ===== src/Vpn/Invariant.antt =====
-- The invariant of a Client of pkg/openconnect/client.go, its processes and the calls that use it.
use dockprox.Base.{
  ℕ, ◌+◌, ◌≤◌, ◌<◌, ◌≡◌, refl, sym, ◌∙◌, ◌≢◌, inl, inr, Bool, true, false, ◌||◌, Option, none, some,
  ◌==◌, Bool-cases, is_some,
}
use dockprox.Ssh.Client.{ConnState, iota}
use dockprox.Vpn.Client.{VpnClient, set_state}
use dockprox.Vpn.Steps.{
  unborn, is_live, by_start, by_down, by_close, Phase, free, entered, starting, answered, stopping,
  World,
}

-- The process that whoever has the mutex has, or that the client has.
abbrev pub holder : Phase → Option ℕ → Option ℕ
holder free p = p
holder entered p = none
holder (starting o b) p = o
holder (answered id) p = some id
holder (stopping s id) p = some id

-- A start is made only without a process; Down and Close stop the client's.
abbrev pub Agrees : Phase → Option ℕ → Type 0
Agrees free p = Unit {0}
Agrees entered p = p ≡ none
Agrees (starting o b) p = p ≡ none
Agrees (answered id) p = p ≡ none
Agrees (stopping (by_start b) id) p = p ≡ none
Agrees (stopping by_down id) p = p ≡ some id
Agrees (stopping by_close id) p = p ≡ some id

-- A start that has published its cancel.
abbrev pub has_start : Phase → Bool
has_start free = false
has_start entered = false
has_start (starting o b) = true
has_start (answered id) = true
has_start (stopping (by_start b) id) = true
has_start (stopping by_down id) = false
has_start (stopping by_close id) = false

-- A call of `get` has the mutex.
abbrev pub is_getting : Phase → Bool
is_getting entered = true
is_getting p = has_start p

abbrev pub downs_inside : Phase → ℕ
downs_inside (stopping by_down id) = 1
downs_inside p = 0

abbrev pub closes_inside : Phase → ℕ
closes_inside (stopping by_close id) = 1
closes_inside p = 0

-- The calls of Down, and of Close, that have begun and not yet done what they do.
abbrev pub pending_downs : World → ℕ
pending_downs w = w.aborting + w.closing + downs_inside w.phase

abbrev pub pending_closes : World → ℕ
pending_closes w = w.ending + closes_inside w.phase

pub record IsSafe (w : World) : Type 0 where
  pub owned : (id : ℕ) → is_live (w.procs id) ≡ true → holder w.phase w.client.proc ≡ some id
  pub agrees : Agrees w.phase w.client.proc
  pub born : (id : ℕ) → holder w.phase w.client.proc ≡ some id → w.procs id ≢ unborn
  pub fresh : (id : ℕ) → w.next ≤ id → w.procs id ≡ unborn
  pub settled :
      w.client.held ≡ true
      → (has_start w.phase || is_some w.client.proc) ≡ true
      → 0 < pending_downs w
  pub ended :
      w.client.closed ≡ true
      → (is_getting w.phase || is_some w.client.proc) ≡ true
      → 0 < pending_closes w

-- A change of the shown state is none of the rest.
pub set_state-kept :
    (s : ConnState) (c : VpnClient)
    → ((set_state s c).proc ≡ c.proc)
      × ((set_state s c).held ≡ c.held)
      × ((set_state s c).closed ≡ c.closed)
unfolding set_state
set_state-kept s c = elim (Bool-cases (iota c.state == iota s)) [
  | inl e ↦ rw e (refl, refl, refl)
  | inr e ↦ rw e (refl, refl, refl)
]

-- What a state depends on but for its processes: `v` has the process, the mutex and the calls of
-- `w`.
pub record Alike (w v : World) : Type 0 where
  pub phase : v.phase ≡ w.phase
  pub proc : v.client.proc ≡ w.client.proc
  pub held : v.client.held ≡ true → w.client.held ≡ true
  pub closed : v.client.closed ≡ w.client.closed
  pub aborting : v.aborting ≡ w.aborting
  pub closing : v.closing ≡ w.closing
  pub ending : v.ending ≡ w.ending
  pub next : v.next ≡ w.next
  -- A process may go on to its end.
  pub lives : (id : ℕ) → is_live (v.procs id) ≡ true → is_live (w.procs id) ≡ true
  pub births :
      (id : ℕ)
      → (v.procs id ≡ unborn → w.procs id ≡ unborn) × (w.procs id ≡ unborn → v.procs id ≡ unborn)

pub alike-IsSafe : (w v : World) → Alike w v → IsSafe w → IsSafe v
alike-IsSafe w v a h = record {
  owned = λ id q. rw (a.phase, a.proc) (h.owned id (a.lives id q));
  agrees = rw (a.phase, a.proc) h.agrees;
  born = λ id q e. h.born id (rw (a.phase, a.proc) at q) ((a.births id).0 e);
  fresh = λ id q. (a.births id).1 (h.fresh id (rw a.next at q));
  settled = λ q k.
      let old = h.settled (a.held q) (rw (a.phase, a.proc) at k) in
      rw (a.aborting, a.closing, a.phase) old;
  ended = λ q k.
      let old = h.ended (sym a.closed ∙ q) (rw (a.phase, a.proc) at k) in
      rw (a.ending, a.phase) old;
}
