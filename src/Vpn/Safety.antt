-- ===== src/Vpn/Safety.antt =====
-- What holds of a Client of pkg/openconnect/client.go however its users interleave.
use dockprox.Base.{
  ℕ, ◌<◌, ◌≡◌, refl, sym, ◌∙◌, ◌≢◌, ◌⊎◌, inl, inr, Bool, true, false, not, ◌&&◌, ◌||◌, Option, none,
  some, arith, Bool-cases, is_some,
}
use dockprox.Vpn.Ends.{
  connects-IsSafe, spawns-IsSafe, goes_on-Alike, down_holds-IsSafe, down_aborts-IsSafe,
  down_entered-IsSafe, close_entered-IsSafe, close_cancels-IsSafe,
}
use dockprox.Ssh.Client.{disconnected}
use dockprox.Vpn.Client.{set_state, set_autoconnect, release}
use dockprox.Vpn.Steps.{
  exited, announced, gone, is_live, by_start, by_down, by_close, Phase, free, entered, starting,
  answered, stopping, World, start, if_dropped, Step, Reaches, here, next_step,
}
use dockprox.Vpn.Invariant.{
  has_start, is_getting, pending_downs, pending_closes, IsSafe, set_state-kept, alike-IsSafe,
}
use dockprox.Vpn.Moves.{moved-IsSafe}
use dockprox.Vpn.Calls.{
  enters-IsSafe, publishes-IsSafe, cancels-IsSafe, start_fails-IsSafe, start_exits-IsSafe,
  answers-IsSafe, start_stops-IsSafe, stop_returns-IsSafe,
}

Step-IsSafe : (w v : World) → Step w v → IsSafe w → IsSafe v
unfolding release set_autoconnect
Step-IsSafe w v (Step.get_enters explicit queued late p) h = enters-IsSafe w explicit queued p h
Step-IsSafe w v (Step.get_publishes p) h = publishes-IsSafe w p h
Step-IsSafe w v Step.caller_cancels h = cancels-IsSafe w h
Step-IsSafe w v (Step.start_fails b e p) h = start_fails-IsSafe w b e p h
Step-IsSafe w v (Step.spawns b p still) h = spawns-IsSafe w b p h
Step-IsSafe w v (Step.answers id b p) h = answers-IsSafe w id b p h
Step-IsSafe w v (Step.connects id p) h = connects-IsSafe w id p h
Step-IsSafe w v (Step.start_exits id b e p over) h = start_exits-IsSafe w id b e p over h
Step-IsSafe w v (Step.start_stops id b p) h = start_stops-IsSafe w id b p h
Step-IsSafe w v (Step.stop_returns s id e p over) h = stop_returns-IsSafe w s id e p over h
Step-IsSafe w v (Step.exits id e) h =
    alike-IsSafe w v
      (goes_on-Alike w id (exited (w.up id && not (w.asked id) && not w.client.closed)) w.client
        w.drops (λ q. cc) (λ q. cc) (λ q. rw e refl) refl refl refl)
      h
Step-IsSafe w v (Step.announces id d e) h =
    let kept = set_state-kept disconnected w.client in
    alike-IsSafe w v
      (goes_on-Alike w id (announced d) (set_state disconnected w.client) w.drops (λ q. cc)
        (λ q. cc) (λ q. rw e refl) kept.0 kept.1 kept.2)
      h
Step-IsSafe w v (Step.finishes id d e) h =
    alike-IsSafe w v
      (goes_on-Alike w id gone w.client (if_dropped d id w.drops) (λ q. cc) (λ q. cc)
        (λ q. rw e refl) refl refl refl)
      h
Step-IsSafe w v Step.up_releases h =
    moved-IsSafe w v refl refl (λ id live q. q) h.agrees (λ id q. q) (λ q k. absurd (cc)) h.ended h
Step-IsSafe w v Step.down_holds h = down_holds-IsSafe w h
Step-IsSafe w v (Step.down_aborts n e) h = down_aborts-IsSafe w n e h
Step-IsSafe w v (Step.down_enters n e p) h = down_entered-IsSafe w n w.client.proc refl p h
Step-IsSafe w v Step.close_cancels h = close_cancels-IsSafe w h
Step-IsSafe w v (Step.close_enters n e p) h = close_entered-IsSafe w n w.client.proc refl p h
Step-IsSafe w v (Step.switches on) h =
    moved-IsSafe w v refl refl (λ id live q. q) h.agrees (λ id q. q) h.settled h.ended h
Step-IsSafe w v Step.time_passes h =
    moved-IsSafe w v refl refl (λ id live q. q) h.agrees (λ id q. q) h.settled h.ended h

start-IsSafe : IsSafe start
start-IsSafe = record {
  owned = λ id q. absurd (cc);
  agrees = tt;
  born = λ id q. absurd (cc);
  fresh = λ id q. refl;
  settled = λ q. absurd (cc);
  ended = λ q. absurd (cc);
}

pub reaches-IsSafe : (w : World) → Reaches start w → IsSafe w
reaches-IsSafe w here = start-IsSafe
reaches-IsSafe w (next_step {u = u} r s) = Step-IsSafe u w s (reaches-IsSafe u r)

-- However Get, Up, Down and Close interleave with the processes and their ends, no two processes
-- are there at a time.
pub one_process :
    (w : World) (i j : ℕ)
    → Reaches start w
    → is_live (w.procs i) ≡ true
    → is_live (w.procs j) ≡ true
    → i ≡ j
one_process w i j r a b =
    let h = reaches-IsSafe w r in
    let e : some i ≡ some j = sym (h.owned i a) ∙ h.owned j b in ground arith

not_true : {b : Bool} → (b ≢ true) → b ≡ false
not_true {b} n = elim (Bool-cases b) [ inl e ↦ absurd (n e) | inr e ↦ e ]

or_false : {a b : Bool} → (a || b) ≡ false → (a ≡ false) × (b ≡ false)
or_false {a} {b} e = ground arith

no_value : {o : Option ℕ} → is_some o ≡ false → o ≡ none
no_value {o} e = ground arith

not_getting : (p : Phase) → is_getting p ≡ false → has_start p ≡ false
not_getting free e = refl
not_getting entered e = cc
not_getting (starting o b) e = e
not_getting (answered id) e = e
not_getting (stopping s id) e = e

-- Who has no start, no process and nothing to stop has none that lives.
idle-dead :
    (w : World) (p : Phase) (id : ℕ)
    → w.phase ≡ p
    → IsSafe w
    → has_start p ≡ false
    → w.client.proc ≡ none
    → is_live (w.procs id) ≢ true
idle-dead w free id e h idle empty live =
    absurd (ground (arith, rw (e, empty) at (h.owned id live)))
idle-dead w entered id e h idle empty live = absurd (ground (arith, rw e at (h.owned id live)))
idle-dead w (starting o b) id e h idle empty live = cc
idle-dead w (answered j) id e h idle empty live = cc
idle-dead w (stopping (by_start b) j) id e h idle empty live = cc
idle-dead w (stopping by_down j) id e h idle empty live =
    absurd (ground (arith, empty, rw e at h.agrees))
idle-dead w (stopping by_close j) id e h idle empty live =
    absurd (ground (arith, empty, rw e at h.agrees))

0-pos : (n : ℕ) → n ≡ 0 → 0 < n → ⊥
0-pos n e h = omega arith

-- However Get, Up, Down and Close interleave with the processes and their ends: once every call of
-- Down is through, and until the next Up, no process lives, and once every call of Close is
-- through, none does for good.
pub held_stopped :
    (w : World) (id : ℕ)
    → Reaches start w
    → ((w.client.held ≡ true) × (pending_downs w ≡ 0))
      ⊎ ((w.client.closed ≡ true) × (pending_closes w ≡ 0))
    → is_live (w.procs id) ≡ false
held_stopped w id r (inl (held, through)) =
    let h = reaches-IsSafe w r in
    let quiet = not_true λ busy. 0-pos (pending_downs w) through (h.settled held busy) in
    not_true (idle-dead w w.phase id refl h (or_false quiet).0 (no_value (or_false quiet).1))
held_stopped w id r (inr (closed, through)) =
    let h = reaches-IsSafe w r in
    let quiet = not_true λ busy. 0-pos (pending_closes w) through (h.ended closed busy) in
    not_true (
      idle-dead w w.phase id refl h (not_getting w.phase (or_false quiet).0)
        (no_value (or_false quiet).1))
