-- ===== src/Vpn/Ends.antt =====
-- More steps of the calls that use a Client of pkg/openconnect/client.go, and of the goroutines
-- that wait for its processes, keep the invariant.
use dockprox.Base.{
  ℕ, suc, ◌≡◌, refl, sym, ◌∙◌, ◌≢◌, inl, inr, Bool, true, false, Option, none, some, List, arith,
  ◌==◌, if◌then◌else◌, Bool-cases,
}
use dockprox.Ssh.Client.{unknown, connected, disconnected}
use dockprox.Vpn.Client.{VpnClient, set_state, start_done, hold, down, close, cancel_all}
use dockprox.Vpn.Steps.{
  Life, unborn, alive, is_live, by_down, by_close, free, starting, answered, stopping, World, put,
  cancelled, asking, down_entered, close_entered,
}
use dockprox.Vpn.Invariant.{IsSafe, set_state-kept, Alike}
use dockprox.Vpn.Moves.{holds, moved-IsSafe, emptied-IsSafe, none-dead, if_intro}
use dockprox.Vpn.Calls.{cancels-IsSafe}

pub connects-IsSafe :
    (w : World) (id : ℕ)
    → w.phase ≡ answered id
    → IsSafe w
    → IsSafe (record w { client = start_done id w.client; phase = free })
unfolding start_done
connects-IsSafe w id p h =
    let done = record w.client { proc = some id; last_err = none; abort = false } in
    let kept = set_state-kept connected done in
    let mine : holds w ≡ some id = rw p refl in
    moved-IsSafe w (record w { client = set_state connected done; phase = free }) refl refl
      (λ j live q. kept.0 ∙ sym mine ∙ q) tt (λ j q. mine ∙ sym kept.0 ∙ q)
      (λ q k. rw p at (h.settled (sym kept.1 ∙ q) (rw p refl)))
      (λ q k. rw p at (h.ended (sym kept.2 ∙ q) (rw p refl))) h

pub put-same {ℓ} : {A : Type ℓ} (id : ℕ) (a : A) (f : ℕ → A) → put id a f id ≡ a
put-same id a f = let e : (id == id) ≡ true = ground arith in rw e refl

put-other {ℓ} : {A : Type ℓ} (id j : ℕ) (a : A) (f : ℕ → A) → (j == id) ≡ false → put id a f j ≡ f j
put-other id j a f e = rw e refl

pub spawns-IsSafe :
    (w : World) (b : Bool)
    → w.phase ≡ starting none b
    → IsSafe w
    → IsSafe (record w {
      phase = starting (some w.next) b;
      procs = put w.next alive w.procs;
      next = suc w.next;
    })
spawns-IsSafe w b p h = record {
  owned = λ id q. elim (Bool-cases (id == w.next)) [
    | inl same ↦ ground arith
    | inr other ↦
        let none_has : none ≡ some id = rw p at (h.owned id (rw other at q)) in absurd (cc)
  ];
  agrees = rw p at h.agrees;
  born = λ id q e.
      let same : w.next ≡ id = ground arith in
      let alive_now : alive ≡ unborn = sym (put-same w.next alive w.procs) ∙ rw (← same) at e in
      absurd (cc);
  fresh = λ id q.
      let other : (id == w.next) ≡ false = ground arith in rw other (h.fresh id (omega arith));
  settled = λ q k. rw p at (h.settled q (rw p refl));
  ended = λ q k. rw p at (h.ended q (rw p refl));
}

-- A process goes on to its end.
pub goes_on-Alike :
    (w : World) (id : ℕ) (l : Life) (c : VpnClient) (drops : List ℕ)
    → w.procs id ≢ unborn
    → l ≢ unborn
    → (is_live l ≡ true → is_live (w.procs id) ≡ true)
    → c.proc ≡ w.client.proc
    → c.held ≡ w.client.held
    → c.closed ≡ w.client.closed
    → Alike w (record w { client = c; procs = put id l w.procs; drops = drops })
goes_on-Alike w id l c drops known born live proc held closed = record {
  phase = refl;
  proc = proc;
  held = λ q. sym held ∙ q;
  closed = closed;
  aborting = refl;
  closing = refl;
  ending = refl;
  next = refl;
  lives = λ j.
      if_intro (λ x. is_live x ≡ true → is_live (w.procs j) ≡ true) (j == id) l (w.procs j)
        (λ same q. let e : j ≡ id = ground arith in rw e (live q)) (λ other q. q);
  births = λ j.
      if_intro (λ x. (x ≡ unborn → w.procs j ≡ unborn) × (w.procs j ≡ unborn → x ≡ unborn))
        (j == id) l (w.procs j)
        (λ same.
          let e : j ≡ id = ground arith in (λ q. absurd (born q), λ q. absurd (known (rw e at q))))
        (λ other. (λ q. q, λ q. q));
}

pub down_holds-IsSafe :
    (w : World) → IsSafe w → IsSafe (record w { client = hold w.client; aborting = suc w.aborting })
unfolding hold
down_holds-IsSafe w h =
    moved-IsSafe w (record w { client = hold w.client; aborting = suc w.aborting }) refl refl
      (λ id live q. q) h.agrees (λ id q. q) (λ q k. omega arith) h.ended h

-- The call of Down goes on to wait for the mutex.
waits-IsSafe :
    (w : World) (n : ℕ)
    → w.aborting ≡ suc n
    → IsSafe w
    → IsSafe (record w { aborting = n; closing = suc w.closing })
waits-IsSafe w n e h =
    moved-IsSafe w (record w { aborting = n; closing = suc w.closing }) refl refl (λ id live q. q)
      h.agrees (λ id q. q) (λ q k. omega arith) h.ended h

pub down_aborts-IsSafe :
    (w : World) (n : ℕ)
    → w.aborting ≡ suc n
    → IsSafe w
    → IsSafe (record w {
      phase = if w.client.abort then cancelled w.phase else w.phase;
      aborting = n;
      closing = suc w.closing;
    })
down_aborts-IsSafe w n e h =
    let waits = record w { aborting = n; closing = suc w.closing } in
    if_intro (λ p. IsSafe (record waits { phase = p })) w.client.abort (cancelled w.phase) w.phase
      (λ on. cancels-IsSafe waits (waits-IsSafe w n e h)) (λ off. waits-IsSafe w n e h)

-- Down and Close with the mutex.
pub down_entered-IsSafe :
    (w : World) (n : ℕ) (o : Option ℕ)
    → w.client.proc ≡ o
    → w.phase ≡ free
    → IsSafe w
    → IsSafe (down_entered o (record w { closing = n }))
unfolding down_entered down asking
down_entered-IsSafe w n none e p h =
    emptied-IsSafe w (record w { client = down w.client; closing = n }) refl refl p
      (set_state-kept unknown _).0 (none-dead w (rw p e)) h
down_entered-IsSafe w n (some id) e p h =
    moved-IsSafe w
      (record w { closing = n; phase = stopping by_down id; asked = put id true w.asked }) refl refl
      (λ j live q. sym e ∙ rw p at q) e (λ j q. rw p (e ∙ q)) (λ q k. omega arith)
      (λ q k. rw p at (h.ended q (rw p k))) h

pub close_entered-IsSafe :
    (w : World) (n : ℕ) (o : Option ℕ)
    → w.client.proc ≡ o
    → w.phase ≡ free
    → IsSafe w
    → IsSafe (close_entered o (record w { ending = n }))
unfolding close_entered close asking
close_entered-IsSafe w n none e p h =
    emptied-IsSafe w (record w { client = close w.client; ending = n }) refl refl p
      (set_state-kept disconnected _).0 (none-dead w (rw p e)) h
close_entered-IsSafe w n (some id) e p h =
    moved-IsSafe w
      (record w { ending = n; phase = stopping by_close id; asked = put id true w.asked }) refl refl
      (λ j live q. sym e ∙ rw p at q) e (λ j q. rw p (e ∙ q))
      (λ q k. rw p at (h.settled q (rw p k))) (λ q k. omega arith) h

pub close_cancels-IsSafe :
    (w : World)
    → IsSafe w
    → IsSafe (record w { client = cancel_all w.client; ending = suc w.ending })
unfolding cancel_all
close_cancels-IsSafe w h =
    moved-IsSafe w (record w { client = cancel_all w.client; ending = suc w.ending }) refl refl
      (λ id live q. q) h.agrees (λ id q. q) h.settled (λ q k. omega arith) h
