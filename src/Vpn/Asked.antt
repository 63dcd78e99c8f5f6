-- ===== src/Vpn/Asked.antt =====
-- Who waits in `stop` of pkg/openconnect/client.go has asked its process to end.
use dockprox.Base.{ℕ, ◌≡◌, ◌≢◌, inl, inr, true, Option, none, some, arith, Bool-cases}
use dockprox.Base.Text.{Text}
use dockprox.Vpn.Client.{
  VpnClient, must_start, is_closed, refused, reused, shared, Entry, set_abort,
}
use dockprox.Vpn.Steps.{
  Stopper, by_start, by_down, by_close, Phase, free, entered, starting, answered, stopping, World,
  start, phase_after, entering, publishing, cancelled, asking, down_entered, close_entered,
  after_stop, Step, get_enters, get_publishes, caller_cancels, start_fails, spawns, answers,
  connects, start_exits, start_stops, stop_returns, exits, announces, finishes, up_releases,
  down_holds, down_aborts, down_enters, close_cancels, close_enters, switches, time_passes, Reaches,
  here, next_step,
}
use dockprox.Vpn.Ends.{put-same}

-- `asked` is set before the signal is sent.
abbrev pub IsAsked : World → Type 0
IsAsked w = (s : Stopper) (id : ℕ) → w.phase ≡ stopping s id → w.asked id ≡ true

phase_after-ne : (e : Entry) (s : Stopper) (id : ℕ) → phase_after e ≢ stopping s id
unfolding phase_after
phase_after-ne must_start s id q = cc
phase_after-ne refused s id q = cc
phase_after-ne is_closed s id q = cc
phase_after-ne (reused j) s id q = cc
phase_after-ne (shared j) s id q = cc

cancelled-stopping :
    (p : Phase) (s : Stopper) (id : ℕ)
    → cancelled p ≡ stopping s id
    → (s' : Stopper) × (p ≡ stopping s' id)
unfolding cancelled
cancelled-stopping free s id q = cc
cancelled-stopping entered s id q = cc
cancelled-stopping (starting o b) s id q = cc
cancelled-stopping (answered j) s id q = cc
cancelled-stopping (stopping (by_start b) j) s id q = (by_start b, ground arith)
cancelled-stopping (stopping by_down j) s id q = (by_down, ground arith)
cancelled-stopping (stopping by_close j) s id q = (by_close, ground arith)

asking-IsAsked : (t : Stopper) (j : ℕ) (w : World) → IsAsked (asking t j w)
unfolding asking
asking-IsAsked t j w s id q =
    let same : j ≡ id = ground arith in rw (← same) (put-same j true w.asked)

publishing-IsAsked : (o : Option VpnClient) (w : World) → IsAsked (publishing o w)
unfolding publishing
publishing-IsAsked none w s id q = cc
publishing-IsAsked (some c) w s id q = cc

cancelled-IsAsked :
    (w : World) (s : Stopper) (id : ℕ)
    → IsAsked w
    → cancelled w.phase ≡ stopping s id
    → w.asked id ≡ true
cancelled-IsAsked w s id h q = let (s', e) = cancelled-stopping w.phase s id q in h s' id e

down_entered-IsAsked : (o : Option ℕ) (w : World) → w.phase ≡ free → IsAsked (down_entered o w)
unfolding down_entered
down_entered-IsAsked none w e = λ s id q. absurd (ground arith)
down_entered-IsAsked (some j) w e = asking-IsAsked by_down j w

close_entered-IsAsked : (o : Option ℕ) (w : World) → w.phase ≡ free → IsAsked (close_entered o w)
unfolding close_entered
close_entered-IsAsked none w e = λ s id q. absurd (ground arith)
close_entered-IsAsked (some j) w e = asking-IsAsked by_close j w

after_stop-IsAsked : (t : Stopper) (e : Text) (w : World) → IsAsked (after_stop t e w)
unfolding after_stop
after_stop-IsAsked (by_start b) e w s id q = cc
after_stop-IsAsked by_down e w s id q = cc
after_stop-IsAsked by_close e w s id q = cc

Step-IsAsked : (w v : World) → Step w v → IsAsked w → IsAsked v
unfolding entering
Step-IsAsked w v (get_enters explicit queued l e) h = λ s id q. absurd (phase_after-ne _ s id q)
Step-IsAsked w v (get_publishes e) h = publishing-IsAsked (set_abort w.client) w
Step-IsAsked w v caller_cancels h = λ s id q. cancelled-IsAsked w s id h q
Step-IsAsked w v (start_fails b e p) h = λ s id q. cc
Step-IsAsked w v (spawns b e c) h = λ s id q. cc
Step-IsAsked w v (answers j b e) h = λ s id q. cc
Step-IsAsked w v (connects j e) h = λ s id q. cc
Step-IsAsked w v (start_exits j b t e g) h = λ s id q. cc
Step-IsAsked w v (start_stops j b e) h = asking-IsAsked (by_start b) j w
Step-IsAsked w v (stop_returns t j e p g) h = after_stop-IsAsked t e w
Step-IsAsked w v (exits j e) h = h
Step-IsAsked w v (announces j d e) h = h
Step-IsAsked w v (finishes j d e) h = h
Step-IsAsked w v up_releases h = h
Step-IsAsked w v down_holds h = h
Step-IsAsked w v (down_aborts n e) h = λ s id q. elim (Bool-cases w.client.abort) [
  | inl a ↦ cancelled-IsAsked w s id h (rw a at q)
  | inr a ↦ h s id (rw a at q)
]
Step-IsAsked w v (down_enters n e p) h =
    down_entered-IsAsked w.client.proc (record w { closing = n }) p
Step-IsAsked w v close_cancels h = h
Step-IsAsked w v (close_enters n e p) h =
    close_entered-IsAsked w.client.proc (record w { ending = n }) p
Step-IsAsked w v (switches on) h = h
Step-IsAsked w v time_passes h = h

pub Reaches-IsAsked : (w : World) → Reaches start w → IsAsked w
Reaches-IsAsked w here = λ s id q. cc
Reaches-IsAsked w (next_step {u = u} r step) = Step-IsAsked u w step (Reaches-IsAsked u r)
