-- ===== src/Vpn/Calls.antt =====
-- The steps of the calls that use a Client of pkg/openconnect/client.go keep the invariant.
use dockprox.Base.{
  ℕ, ◌≡◌, refl, sym, ◌∙◌, ◌⊎◌, inl, inr, Bool, true, false, Option, none, some, arith,
}
use dockprox.Base.Text.{Text}
use dockprox.Ssh.Client.{connected, disconnected, connecting, unknown}
use dockprox.Vpn.Client.{
  VpnClient, set_state, Entry, enter_proc, enter, set_abort, start_failed, down, close,
}
use dockprox.Vpn.Steps.{
  gone, is_gone, Stopper, by_start, by_down, by_close, free, entered, starting, answered, stopping,
  World, put, cancelled, phase_after, entering, publishing, asking, after_stop,
}
use dockprox.Vpn.Invariant.{IsSafe, set_state-kept}
use dockprox.Vpn.Moves.{
  holds, entering-IsSafe, on-IsSafe, emptied-IsSafe, failed-proc, none-dead, gone-dead,
  gone-not_live, cancelled-same, cancelled-Agrees, if_intro, Stays, Leaves,
}

-- What `get` finds with the mutex.
abbrev Enters : World → Entry × VpnClient → Type 0
Enters w r =
    (r.1.held ≡ w.client.held) × (r.1.closed ≡ w.client.closed) × (Stays w r.0 r.1 ⊎ Leaves w r.1)

enter_proc-Enters :
    (w : World) (explicit : Bool) (queued : ℕ) (o : Option ℕ)
    → w.phase ≡ free
    → w.client.closed ≡ false
    → w.client.proc ≡ o
    → Enters w (enter_proc (λ id. is_gone (w.procs id)) explicit queued w.client o)
unfolding enter_proc phase_after
enter_proc-Enters w explicit queued none p still e =
    (refl, refl, inr (e, still, none-dead w (rw p e)))
enter_proc-Enters w explicit queued (some id) p still e =
    if_intro (Enters w) (is_gone (w.procs id)) _ _
      (λ over.
        (refl, refl, inr (refl, still, gone-dead w id (rw p e) (gone-not_live (w.procs id) over))))
      (λ runs. let kept = set_state-kept connected w.client in (kept.1, kept.2, inl (refl, kept.0)))

enter-Enters :
    (w : World) (explicit : Bool) (queued : ℕ)
    → w.phase ≡ free
    → Enters w (enter (λ id. is_gone (w.procs id)) explicit queued w.client)
unfolding enter phase_after
enter-Enters w explicit queued p =
    if_intro (Enters w) w.client.closed _ _ (λ shut. (refl, refl, inl (refl, refl)))
      (λ still. enter_proc-Enters w explicit queued w.client.proc p still refl)

pub enters-IsSafe :
    (w : World) (explicit : Bool) (queued : ℕ)
    → w.phase ≡ free
    → IsSafe w
    → IsSafe (entering (enter (λ id. is_gone (w.procs id)) explicit queued w.client) w)
enters-IsSafe w explicit queued p h =
    let (held, closed, how) = enter-Enters w explicit queued p in
    entering-IsSafe w _ _ p held closed how h

pub publishes-IsSafe :
    (w : World) → w.phase ≡ entered → IsSafe w → IsSafe (publishing (set_abort w.client) w)
unfolding publishing set_abort
publishes-IsSafe w p h =
    let empty : w.client.proc ≡ none = rw p at h.agrees in
    let nobody : holds w ≡ none = rw p refl in
    let aborts = record w.client { abort = true } in
    let kept = set_state-kept connecting aborts in
    if_intro (λ o. IsSafe (publishing o w)) w.client.held none (some (set_state connecting aborts))
      (λ held.
        emptied-IsSafe w (record w { phase = free }) refl refl refl empty (none-dead w nobody) h)
      (λ free_now.
        on-IsSafe w (set_state connecting aborts) (starting none false) w.up w.asked kept.0 kept.1
          kept.2 (sym nobody) empty (λ q. absurd (ground arith)) (rw p refl) (rw p refl) (rw p refl)
          h)

pub cancels-IsSafe : (w : World) → IsSafe w → IsSafe (record w { phase = cancelled w.phase })
cancels-IsSafe w h =
    let (same, starts, gets, downs, closes) = cancelled-same w.phase w.client.proc in
    on-IsSafe w w.client (cancelled w.phase) w.up w.asked refl refl refl same
      (cancelled-Agrees w.phase w.client.proc h.agrees) (λ q. starts) gets downs closes h

pub start_fails-IsSafe :
    (w : World) (b : Bool) (e : Text)
    → w.phase ≡ starting none b
    → IsSafe w
    → IsSafe (record w { client = start_failed b e w.now w.client; phase = free })
start_fails-IsSafe w b e p h =
    let empty : w.client.proc ≡ none = rw p at h.agrees in
    emptied-IsSafe w _ refl refl refl (failed-proc b e w.now w.client ∙ empty)
      (none-dead w (rw p refl)) h

pub start_exits-IsSafe :
    (w : World) (id : ℕ) (b : Bool) (e : Text)
    → w.phase ≡ starting (some id) b
    → w.procs id ≡ gone
    → IsSafe w
    → IsSafe (record w { client = start_failed b e w.now w.client; phase = free })
start_exits-IsSafe w id b e p over h =
    let empty : w.client.proc ≡ none = rw p at h.agrees in
    emptied-IsSafe w _ refl refl refl (failed-proc b e w.now w.client ∙ empty)
      (gone-dead w id (rw p refl) (rw over refl)) h

pub answers-IsSafe :
    (w : World) (id : ℕ) (b : Bool)
    → w.phase ≡ starting (some id) b
    → IsSafe w
    → IsSafe (record w { phase = answered id; up = put id true w.up })
answers-IsSafe w id b p h =
    on-IsSafe w w.client (answered id) (put id true w.up) w.asked refl refl refl (rw p refl)
      (rw p at h.agrees) (λ q. rw p refl) (rw p refl) (rw p refl) (rw p refl) h

pub start_stops-IsSafe :
    (w : World) (id : ℕ) (b : Bool)
    → w.phase ≡ starting (some id) b
    → IsSafe w
    → IsSafe (asking (by_start b) id w)
unfolding asking
start_stops-IsSafe w id b p h =
    on-IsSafe w w.client (stopping (by_start b) id) w.up (put id true w.asked) refl refl refl
      (rw p refl) (rw p at h.agrees) (λ q. rw p refl) (rw p refl) (rw p refl) (rw p refl) h

pub stop_returns-IsSafe :
    (w : World) (s : Stopper) (id : ℕ) (e : Text)
    → w.phase ≡ stopping s id
    → w.procs id ≡ gone
    → IsSafe w
    → IsSafe (after_stop s e w)
unfolding after_stop down close
stop_returns-IsSafe w (by_start b) id e p over h =
    let empty : w.client.proc ≡ none = rw p at h.agrees in
    emptied-IsSafe w _ refl refl refl (failed-proc b e w.now w.client ∙ empty)
      (gone-dead w id (rw p refl) (rw over refl)) h
stop_returns-IsSafe w by_down id e p over h =
    emptied-IsSafe w _ refl refl refl (set_state-kept unknown _).0
      (gone-dead w id (rw p refl) (rw over refl)) h
stop_returns-IsSafe w by_close id e p over h =
    emptied-IsSafe w _ refl refl refl (set_state-kept disconnected _).0
      (gone-dead w id (rw p refl) (rw over refl)) h
