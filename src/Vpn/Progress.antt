-- ===== src/Vpn/Progress.antt =====
-- That a call which uses a Client of pkg/openconnect/client.go can always give up the mutex.
use dockprox.Base.{ℕ, ◌≡◌, refl, ◌∙◌, ◌≢◌, Bool, true, false, not, ◌&&◌, Option, none, some, []}
use dockprox.Ssh.Client.{disconnected}
use dockprox.Vpn.Client.{VpnClient, set_state, set_abort}
use dockprox.Vpn.Steps.{
  Life, unborn, alive, exited, announced, gone, Stopper, by_start, by_down, by_close, Phase, free,
  entered, starting, answered, stopping, World, start, put, publishing, asking, after_stop, Step,
  Reaches,
}
use dockprox.Vpn.Invariant.{IsSafe}
use dockprox.Vpn.Ends.{put-same}
use dockprox.Vpn.Asked.{IsAsked, Reaches-IsAsked}
use dockprox.Vpn.Safety.{reaches-IsSafe}

-- The steps of the call that has the mutex and of a process that was asked to end.
abbrev pub IsOwn : {u v : World} → Step u v → Type 0
IsOwn (Step.get_publishes e) = Unit
IsOwn (Step.start_fails b e p) = Unit
IsOwn (Step.connects id e) = Unit
IsOwn (Step.start_stops id b e) = Unit
IsOwn (Step.stop_returns s id e p g) = Unit
IsOwn {u = u} (Step.exits id e) = u.asked id ≡ true
IsOwn {u = u} (Step.announces id d e) = u.asked id ≡ true
IsOwn {u = u} (Step.finishes id d e) = u.asked id ≡ true
IsOwn s = ⊥

-- The states that a sequence of such steps leads to.
pub data Yields (w : World) : World → Type 0 where
  begin : Yields w w
  then_own : {u v : World} → Yields w u → (s : Step u v) → IsOwn s → Yields w v

trans : {u v w : World} → Yields u v → Yields v w → Yields u w
trans r begin = r
trans r (then_own s t o) = then_own (trans r s) t o

-- The states that go on from `w`, with its mutex, and in which the process has ended.
Ended : World → ℕ → Type 0
Ended w id = (v : World) × Yields w v × (v.phase ≡ w.phase) × (v.procs id ≡ gone)

finishing :
    (w : World) (id : ℕ) (d : Bool) → w.asked id ≡ true → w.procs id ≡ announced d → Ended w id
unfolding Ended
finishing w id d a e = (_, then_own begin (Step.finishes id d e) a, refl, put-same id gone w.procs)

announcing :
    (w : World) (id : ℕ) (d : Bool) → w.asked id ≡ true → w.procs id ≡ exited d → Ended w id
unfolding Ended
announcing w id d a e =
    let mid = record w {
      client = set_state disconnected w.client;
      procs = put id (announced d) w.procs;
    } in
    let (v, r, p, over) = finishing mid id d a (put-same id (announced d) w.procs) in
    (v, trans (then_own begin (Step.announces id d e) a) r, p, over)

exiting : (w : World) (id : ℕ) → w.asked id ≡ true → w.procs id ≡ alive → Ended w id
unfolding Ended
exiting w id a e =
    let d = w.up id && not (w.asked id) && not w.client.closed in
    let mid = record w { procs = put id (exited d) w.procs } in
    let (v, r, p, over) = announcing mid id d a (put-same id (exited d) w.procs) in
    (v, trans (then_own begin (Step.exits id e) a) r, p, over)

ending :
    (w : World) (id : ℕ) (l : Life) → w.asked id ≡ true → w.procs id ≡ l → l ≢ unborn → Ended w id
unfolding Ended
ending w id unborn a e n = absurd (n refl)
ending w id alive a e n = exiting w id a e
ending w id (exited d) a e n = announcing w id d a e
ending w id (announced d) a e n = finishing w id d a e
ending w id gone a e n = (w, begin, refl, e)

Freed : World → Type 0
Freed w = (v : World) × Yields w v × (v.phase ≡ free)

after_stop-free : (s : Stopper) (w : World) → (after_stop s [] w).phase ≡ free
unfolding after_stop
after_stop-free (by_start b) w = refl
after_stop-free by_down w = refl
after_stop-free by_close w = refl

stopping-Freed :
    (w : World) (s : Stopper) (id : ℕ)
    → w.phase ≡ stopping s id
    → w.asked id ≡ true
    → w.procs id ≢ unborn
    → Freed w
unfolding Ended Freed
stopping-Freed w s id p a born =
    let (v, r, q, over) = ending w id (w.procs id) a refl born in
    (after_stop s [] v, then_own r (Step.stop_returns s id [] (q ∙ p) over) tt, after_stop-free s v)

starting-Freed :
    (w : World) (o : Option ℕ) (b : Bool)
    → w.phase ≡ starting o b
    → ((id : ℕ) → o ≡ some id → w.procs id ≢ unborn)
    → Freed w
unfolding Freed asking
starting-Freed w none b p born = (_, then_own begin (Step.start_fails b [] p) tt, refl)
starting-Freed w (some id) b p born =
    let (v, r, q) =
      stopping-Freed (record w { phase = stopping (by_start b) id; asked = put id true w.asked })
        (by_start b) id refl (put-same id true w.asked) (born id refl) in
    (v, trans (then_own begin (Step.start_stops id b p) tt) r, q)

published-Freed : (w : World) (o : Option VpnClient) → Freed (publishing o w)
unfolding publishing Freed
published-Freed w none = (_, begin, refl)
published-Freed w (some c) = (_, then_own begin (Step.start_fails false [] refl) tt, refl)

freed : (w : World) (p : Phase) → w.phase ≡ p → IsSafe w → IsAsked w → Freed w
unfolding Freed
freed w free e h asks = (w, begin, e)
freed w entered e h asks =
    let (v, r, q) = published-Freed w (set_abort w.client) in
    (v, trans (then_own begin (Step.get_publishes e) tt) r, q)
freed w (starting o b) e h asks = starting-Freed w o b e (λ id q. h.born id (rw e q))
freed w (answered id) e h asks = (_, then_own begin (Step.connects id e) tt, refl)
freed w (stopping s id) e h asks = stopping-Freed w s id e (asks s id e) (h.born id (rw e refl))

-- Nobody has to keep the mutex: from every state that is reached it can be free again by steps of
-- the call that has it and the end of its process alone, and that process ends only after the call
-- has asked it to.
pub can_free : (w : World) → Reaches start w → (v : World) × Yields w v × (v.phase ≡ free)
unfolding Freed
can_free w r = freed w w.phase refl (reaches-IsSafe w r) (Reaches-IsAsked w r)
