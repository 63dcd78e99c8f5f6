-- ===== src/Ssh/Safety.antt =====
-- What holds of a Client of pkg/sshclient/client.go however its users interleave.
use dockprox.Base.{
  ℕ, ◌+◌, ◌≡◌, refl, inl, inr, Bool, true, false, ◌||◌, Option, none, some, arith, if◌then◌else◌,
  Bool-cases, is_some,
}
use dockprox.Ssh.Client.{
  connecting, awaiting_approval, Client, set_autoconnect, refused, shared_error, enter_unconnected,
  enter_unheld, enter, set_abort, release, hold,
}
use dockprox.Ssh.Steps.{
  Phase, free, entered, dialing, World, start, phase_after, entering, publishing, cancelled, Step,
  Reaches,
}
use dockprox.Ssh.Invariant.{busy, IsSafe, with_state, none_open}
use dockprox.Ssh.Dial.{
  enters-IsSafe, publishes-IsSafe, fails-IsSafe, connects-IsSafe, aborts-IsSafe,
}
use dockprox.Ssh.Ends.{forgets-IsSafe, down-IsSafe, close-IsSafe, marks-IsSafe}

Step-IsSafe : {w v : World} → IsSafe w → Step w v → IsSafe v
unfolding entering publishing cancelled phase_after enter enter_unheld enter_unconnected
    shared_error set_abort release hold
Step-IsSafe h (Step.get_enters explicit queued q e) = enters-IsSafe _ explicit queued e h
Step-IsSafe h (Step.get_publishes e) = publishes-IsSafe _ e h
Step-IsSafe h (Step.caller_cancels b e) = record {
  alone = λ q. h.alone (ground arith);
  owned = h.owned;
  settling = λ q k. h.settling q (ground arith);
  heard = λ q k. cc;
  published = ground (arith, h.published);
  shown = h.shown;
  announced = h.announced;
}
Step-IsSafe {w} h (Step.agent_asks b e) =
    with_state w awaiting_approval (λ q. absurd (ground arith)) h
Step-IsSafe {w} h (Step.agent_answers b e) = with_state w connecting (λ q. absurd (ground arith)) h
Step-IsSafe h (Step.dial_fails b e d) = fails-IsSafe _ b e d h
Step-IsSafe h (Step.dial_connects b e) = connects-IsSafe _ b e h
Step-IsSafe h Step.up_releases = record {
  alone = h.alone;
  owned = h.owned;
  settling = λ q k. cc;
  heard = λ q k. cc;
  published = h.published;
  shown = h.shown;
  announced = h.announced;
}
Step-IsSafe h Step.down_holds = record {
  alone = h.alone;
  owned = h.owned;
  settling = λ q k. ground arith;
  heard = λ q k. ground arith;
  published = h.published;
  shown = h.shown;
  announced = h.announced;
}
Step-IsSafe h (Step.down_aborts n e) = aborts-IsSafe _ n e h
Step-IsSafe h (Step.down_closes n e f) = down-IsSafe _ n f h
Step-IsSafe h (Step.close_closes e) = close-IsSafe _ e h
Step-IsSafe h (Step.connection_closes id) = record {
  alone = h.alone;
  owned = λ j q. h.owned j (ground arith);
  settling = h.settling;
  heard = h.heard;
  published = h.published;
  shown = h.shown;
  announced = h.announced;
}
Step-IsSafe h (Step.forgets id d e) = forgets-IsSafe _ id d e h
Step-IsSafe h Step.marks = marks-IsSafe _ h
Step-IsSafe h (Step.switches on) =
    unfold set_autoconnect in
    record {
      alone = h.alone;
      owned = h.owned;
      settling = h.settling;
      heard = h.heard;
      published = h.published;
      shown = h.shown;
      announced = h.announced;
    }
Step-IsSafe h Step.time_passes = record {
  alone = h.alone;
  owned = h.owned;
  settling = h.settling;
  heard = h.heard;
  published = h.published;
  shown = h.shown;
  announced = h.announced;
}

start-IsSafe : IsSafe start
start-IsSafe = record {
  alone = λ q. refl;
  owned = λ id q. absurd (ground arith);
  settling = λ q k. absurd (ground arith);
  heard = λ q k. absurd (ground arith);
  published = refl;
  shown = λ q. absurd (ground arith);
  announced = refl;
}

-- However the calls of a new client interleave: at most one connection is open and it is the
-- client's, none while a dial is under way; while Down holds the connection, a dial or a connection
-- is one that a pending Down will close, and an uncancelled dial one that a pending Down will
-- cancel; the state is connected only with a connection, and is the one last announced.
pub reached-IsSafe : {w : World} → Reaches start w → IsSafe w
reached-IsSafe Reaches.here = start-IsSafe
reached-IsSafe (Reaches.next before step) = Step-IsSafe (reached-IsSafe before) step

not_busy : (p : Phase) → busy p ≡ false → p ≡ free
not_busy free e = refl
not_busy entered e = cc
not_busy (dialing b) e = cc

unconnected : (o : Option ℕ) → is_some o ≡ false → o ≡ none
unconnected none e = refl
unconnected (some id) e = cc

refused_held :
    (c : Client) (explicit : Bool) (queued : ℕ) (b : Bool)
    → b ≡ true
    → (if b then (refused, c) else enter_unheld explicit queued c c.cli) ≡ (refused, c)
refused_held c explicit queued b e = rw e refl

-- Once every call of Down is through, and until Up releases it, a held client is disconnected for
-- good: nobody dials, no connection is open, and a `get` is refused.
pub held_closed :
    (w : World) (explicit : Bool) (queued : ℕ)
    → Reaches start w
    → w.client.held ≡ true
    → w.aborting + w.closing ≡ 0
    → (w.phase ≡ free)
      × (w.client.cli ≡ none)
      × ((id : ℕ) → w.is_open id ≡ false)
      × (enter explicit queued w.client ≡ (refused, w.client))
unfolding enter
held_closed w explicit queued r held through =
    let h = reached-IsSafe r in
    let quiet : (busy w.phase || is_some w.client.cli) ≡ false =
      elim (Bool-cases (busy w.phase || is_some w.client.cli)) [
        | inl b ↦ let more = h.settling held b in absurd (omega arith)
        | inr n ↦ n
      ] in
    let c : w.client.cli ≡ none = unconnected w.client.cli (ground arith) in
    (
      not_busy w.phase (ground arith),
      c,
      none_open w h c,
      refused_held w.client explicit queued w.client.held held,
    )
