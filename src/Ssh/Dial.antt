-- ===== src/Ssh/Dial.antt =====
-- The invariant through a `get` of pkg/sshclient/client.go: its entry, its dial and that dial's
-- end.
use dockprox.Base.{
  ℕ, suc, ◌≡◌, refl, sym, ◌∙◌, inl, inr, Bool, true, false, Option, none, some, arith, ◌==◌,
  if◌then◌else◌, Bool-cases,
}
use dockprox.Base.Text.{Text}
use dockprox.Ssh.Client.{
  connected, disconnected, connecting, Client, set_state, Entry, refused, reused, shared, must_dial,
  enter_unconnected, enter_unheld, enter, set_abort, dial_failed, dial_done,
}
use dockprox.Ssh.Steps.{
  Phase, free, entered, dialing, World, phase_after, entering, publishing, cancelled,
}
use dockprox.Ssh.Invariant.{
  busy, in_dial, runs_on, set_state-eq, latest-changed, IsSafe, with_state, idle, none_open,
}

-- The mutex is taken or given up without a dial, by a call that Down has not forestalled.
undialled :
    (w : World) (p : Phase)
    → w.phase ≡ free
    → in_dial p ≡ false
    → w.client.cli ≡ none
    → w.client.held ≡ false
    → IsSafe w
    → IsSafe (record w { phase = p })
undialled w p e n c f h = record {
  alone = λ q. c;
  owned = h.owned;
  settling = λ q k. absurd (ground arith);
  heard = λ q k. absurd (ground arith);
  published = ground (arith, h.published);
  shown = h.shown;
  announced = h.announced;
}

entry-in_dial : (e : Entry) → in_dial (phase_after e) ≡ false
unfolding phase_after
entry-in_dial refused = refl
entry-in_dial (reused id) = refl
entry-in_dial (shared e) = refl
entry-in_dial must_dial = refl

unheld-IsSafe :
    (w : World) (explicit : Bool) (queued : ℕ) (o : Option ℕ)
    → w.client.cli ≡ o
    → w.client.held ≡ false
    → w.phase ≡ free
    → IsSafe w
    → IsSafe (entering (enter_unheld explicit queued w.client o) w)
unfolding entering enter_unheld phase_after
unheld-IsSafe w explicit queued (some id) c f e h =
    rw (sym e) (with_state w connected (λ q. rw c refl) h)
unheld-IsSafe w explicit queued none c f e h =
    undialled w (phase_after (enter_unconnected explicit queued w.client)) e
      (entry-in_dial (enter_unconnected explicit queued w.client)) c f h

-- The two tests of `held`.
checked-IsSafe :
    (w : World) (explicit : Bool) (queued : ℕ) (b : Bool)
    → w.client.held ≡ b
    → w.phase ≡ free
    → IsSafe w
    → IsSafe (
        entering
          (if b then (refused, w.client) else enter_unheld explicit queued w.client w.client.cli)
          w)
unfolding entering phase_after
checked-IsSafe w explicit queued true held e h = rw (sym e) h
checked-IsSafe w explicit queued false f e h =
    unheld-IsSafe w explicit queued w.client.cli refl f e h

pub enters-IsSafe :
    (w : World) (explicit : Bool) (queued : ℕ)
    → w.phase ≡ free
    → IsSafe w
    → IsSafe (entering (enter explicit queued w.client) w)
unfolding enter
enters-IsSafe w explicit queued e h = checked-IsSafe w explicit queued w.client.held refl e h

published-IsSafe :
    (w : World) (b : Bool)
    → w.client.held ≡ b
    → w.phase ≡ entered
    → IsSafe w
    → IsSafe (
        publishing
          (if b then none else some (set_state connecting (record w.client { abort = true })))
          w)
unfolding publishing
published-IsSafe w true held e h =
    let c : w.client.cli ≡ none = h.alone (rw e refl) in
    idle (record w { phase = free }) refl c (ground (arith, h.published)) (none_open w h c)
      (λ q. ground (arith, h.shown q)) h.announced
published-IsSafe w false f e h =
    let c : w.client.cli ≡ none = h.alone (rw e refl) in
    let c' : Client = record w.client { abort = true } in
    rw (set_state-eq connecting c') (record {
      alone = λ q. c;
      owned = h.owned;
      settling = λ q k. absurd (ground arith);
      heard = λ q k. absurd (ground arith);
      published = refl;
      shown = λ q. absurd (ground arith);
      announced = sym (latest-changed connecting c' h.announced);
    })

pub publishes-IsSafe :
    (w : World) → w.phase ≡ entered → IsSafe w → IsSafe (publishing (set_abort w.client) w)
unfolding set_abort
publishes-IsSafe w e h = published-IsSafe w w.client.held refl e h

pub fails-IsSafe :
    (w : World) (b : Bool) (e : Text)
    → w.phase ≡ dialing b
    → IsSafe w
    → IsSafe (record w { client = dial_failed b e w.now w.client; phase = free })
unfolding dial_failed
fails-IsSafe w b e d h =
    let c : w.client.cli ≡ none = h.alone (rw d refl) in
    let said = sym (latest-changed disconnected w.client h.announced) in
    rw (set_state-eq disconnected w.client) (elim (Bool-cases b) [
      | inl y ↦ rw y (idle _ refl c refl (none_open w h c) (λ q. ground arith) said)
      | inr n ↦ rw n (idle _ refl c refl (none_open w h c) (λ q. ground arith) said)
    ])

pub connects-IsSafe :
    (w : World) (b : Bool)
    → w.phase ≡ dialing b
    → IsSafe w
    → IsSafe (record w {
      client = dial_done w.next w.client;
      phase = free;
      is_open = λ j. if j == w.next then true else w.is_open j;
      next = suc w.next;
    })
unfolding dial_done
connects-IsSafe w b e h =
    let c : w.client.cli ≡ none = h.alone (rw e refl) in
    let c' : Client = record w.client { cli = some w.next; last_err = none; abort = false } in
    rw (set_state-eq connected c') (record {
      alone = λ q. absurd (ground arith);
      owned = λ id q. ground (arith, none_open w h c id);
      settling = λ q k. h.settling q (rw e refl);
      heard = λ q k. absurd (ground arith);
      published = refl;
      shown = λ q. refl;
      announced = sym (latest-changed connected c' h.announced);
    })

-- What a cancel does to a dial whose cancel is published exactly while it is in flight.
cancelled-facts :
    (a : Bool) (p : Phase)
    → a ≡ in_dial p
    → let p' = (if a then cancelled p else p) in
      (busy p' ≡ busy p) × (in_dial p' ≡ in_dial p) × (runs_on p' ≡ false)
unfolding cancelled
cancelled-facts a free e = rw e (refl, refl, refl)
cancelled-facts a entered e = rw e (refl, refl, refl)
cancelled-facts a (dialing b) e = rw e (refl, refl, refl)

pub aborts-IsSafe :
    (w : World) (n : ℕ)
    → w.aborting ≡ suc n
    → IsSafe w
    → IsSafe (record w {
      phase = if w.client.abort then cancelled w.phase else w.phase;
      aborting = n;
      closing = suc w.closing;
    })
aborts-IsSafe w n e h =
    let (same_busy, same_dial, stopped) = cancelled-facts w.client.abort w.phase h.published in
    record {
      alone = λ q. h.alone (sym same_busy ∙ q);
      owned = h.owned;
      settling = λ q k. omega arith;
      heard = λ q k. absurd (cc);
      published = h.published ∙ sym same_dial;
      shown = h.shown;
      announced = h.announced;
    }
