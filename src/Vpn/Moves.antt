-- ===== src/Vpn/Moves.antt =====
-- The moves that the steps of a Client of pkg/openconnect/client.go are made of keep the invariant.
use dockprox.Base.{
  ℕ, ◌<◌, ◌≡◌, refl, sym, ◌∙◌, ◌≢◌, ◌⊎◌, inl, inr, Bool, true, false, ◌||◌, Option, none, some,
  arith, if◌then◌else◌, is_some,
}
use dockprox.Base.Text.{Text}
use dockprox.Ssh.Client.{disconnected}
use dockprox.Vpn.Client.{
  VpnClient, Entry, is_closed, refused, reused, shared, must_start, start_failed,
}
use dockprox.Vpn.Steps.{
  Life, unborn, alive, gone, exited, announced, is_gone, is_live, by_start, by_down, by_close,
  Phase, free, entered, starting, answered, stopping, World, cancelled, phase_after, entering,
}
use dockprox.Vpn.Invariant.{
  holder, Agrees, has_start, is_getting, downs_inside, closes_inside, pending_downs, pending_closes,
  IsSafe, set_state-kept,
}

abbrev pub holds : World → Option ℕ
holds w = holder w.phase w.client.proc

-- A step that leaves the processes alone.
pub moved-IsSafe :
    (w v : World)
    → v.procs ≡ w.procs
    → v.next ≡ w.next
    → ((id : ℕ) → is_live (w.procs id) ≡ true → holds w ≡ some id → holds v ≡ some id)
    → Agrees v.phase v.client.proc
    → ((id : ℕ) → holds v ≡ some id → holds w ≡ some id)
    → (v.client.held ≡ true
        → (has_start v.phase || is_some v.client.proc) ≡ true
        → 0 < pending_downs v)
    → (v.client.closed ≡ true
        → (is_getting v.phase || is_some v.client.proc) ≡ true
        → 0 < pending_closes v)
    → IsSafe w
    → IsSafe v
moved-IsSafe w v procs next forth agrees back settled ended h = record {
  owned = λ id q. let live = rw procs at q in forth id live (h.owned id live);
  agrees = agrees;
  born = λ id q. rw procs (h.born id (back id q));
  fresh = λ id q. rw procs (h.fresh id (rw next at q));
  settled = settled;
  ended = ended;
}

-- What `get` does when it has the mutex: it leaves the client as it is, or drops its dead process.
abbrev pub Stays : World → Entry → VpnClient → Type 0
Stays w e c = (phase_after e ≡ free) × (c.proc ≡ w.client.proc)

abbrev pub Leaves : World → VpnClient → Type 0
Leaves w c =
    (c.proc ≡ none)
    × (c.closed ≡ false)
    × ((id : ℕ) → is_live (w.procs id) ≡ true → holds w ≢ some id)

phase_after-cases : (e : Entry) → (phase_after e ≡ free) ⊎ (phase_after e ≡ entered)
unfolding phase_after
phase_after-cases must_start = inr refl
phase_after-cases is_closed = inl refl
phase_after-cases refused = inl refl
phase_after-cases (reused id) = inl refl
phase_after-cases (shared e) = inl refl

pub entering-IsSafe :
    (w : World) (e : Entry) (c : VpnClient)
    → w.phase ≡ free
    → c.held ≡ w.client.held
    → c.closed ≡ w.client.closed
    → Stays w e c ⊎ Leaves w c
    → IsSafe w
    → IsSafe (entering (e, c) w)
unfolding entering
entering-IsSafe w e c p held closed (inl (stays, proc)) h =
    moved-IsSafe w (record w { client = c; phase = phase_after e }) refl refl
      (λ id live q. rw (stays, proc) (rw p at q)) (rw stays tt)
      (λ id q. rw p (rw (stays, proc) at q))
      (λ q k.
        let old = h.settled (sym held ∙ q) (rw p (rw (stays, proc) at k)) in rw stays (rw p at old))
      (λ q k.
        let old = h.ended (sym closed ∙ q) (rw p (rw (stays, proc) at k)) in rw stays (rw p at old))
      h
entering-IsSafe w e c p held closed (inr (empty, open_still, dead)) h = elim (phase_after-cases e) [
  | inl is_free ↦
      moved-IsSafe w (record w { client = c; phase = phase_after e }) refl refl
        (λ id live q. absurd (dead id live q)) (rw is_free tt)
        (λ id q. absurd (ground (arith, rw (is_free, empty) at q)))
        (λ q k. absurd (ground (arith, rw (is_free, empty) at k))) (λ q k. absurd (ground arith)) h
  | inr is_entered ↦
      moved-IsSafe w (record w { client = c; phase = phase_after e }) refl refl
        (λ id live q. absurd (dead id live q)) (rw is_entered empty)
        (λ id q. absurd (ground (arith, rw is_entered at q)))
        (λ q k. absurd (ground (arith, rw (is_entered, empty) at k))) (λ q k. absurd (ground arith))
        h
]

-- A step of the call that has the mutex, which goes on with the same process.
pub on-IsSafe :
    (w : World) (c : VpnClient) (p : Phase) (up asked : ℕ → Bool)
    → c.proc ≡ w.client.proc
    → c.held ≡ w.client.held
    → c.closed ≡ w.client.closed
    → holder p w.client.proc ≡ holds w
    → Agrees p w.client.proc
    → (w.client.held ≡ true → has_start p ≡ has_start w.phase)
    → is_getting p ≡ is_getting w.phase
    → downs_inside p ≡ downs_inside w.phase
    → closes_inside p ≡ closes_inside w.phase
    → IsSafe w
    → IsSafe (record w { client = c; phase = p; up = up; asked = asked })
on-IsSafe w c p up asked proc held closed same agrees starts gets downs closes h =
    moved-IsSafe w (record w { client = c; phase = p; up = up; asked = asked }) refl refl
      (λ id live q. rw proc (same ∙ q)) (rw proc agrees) (λ id q. sym same ∙ rw proc at q)
      (λ q k. let held' = sym held ∙ q in rw downs (h.settled held' (rw (starts held', proc) at k)))
      (λ q k. rw closes (h.ended (sym closed ∙ q) (rw (gets, proc) at k))) h

-- A step after which the mutex is free and there is no process.
pub emptied-IsSafe :
    (w v : World)
    → v.procs ≡ w.procs
    → v.next ≡ w.next
    → v.phase ≡ free
    → v.client.proc ≡ none
    → ((id : ℕ) → is_live (w.procs id) ≡ true → holds w ≢ some id)
    → IsSafe w
    → IsSafe v
emptied-IsSafe w v procs next is_free empty dead h =
    moved-IsSafe w v procs next (λ id live q. absurd (dead id live q)) (rw is_free tt)
      (λ id q. absurd (ground (arith, rw (is_free, empty) at q)))
      (λ q k. absurd (ground (arith, rw (is_free, empty) at k)))
      (λ q k. absurd (ground (arith, rw (is_free, empty) at k))) h

pub failed-proc :
    (b : Bool) (e : Text) (now : ℕ) (c : VpnClient) → (start_failed b e now c).proc ≡ c.proc
unfolding start_failed
failed-proc true e now c = (set_state-kept disconnected c).0
failed-proc false e now c = (set_state-kept disconnected c).0

-- Nobody has a process.
pub none-dead :
    (w : World) → holds w ≡ none → (id : ℕ) → is_live (w.procs id) ≡ true → holds w ≢ some id
none-dead w n id live q = absurd (ground arith)

-- The one that somebody has is dead.
pub gone-dead :
    (w : World) (g : ℕ)
    → holds w ≡ some g
    → is_live (w.procs g) ≡ false
    → (id : ℕ) → is_live (w.procs id) ≡ true
    → holds w ≢ some id
gone-dead w g has dead id live q =
    let same : g ≡ id = ground arith in absurd (ground (arith, rw same at dead))

pub gone-not_live : (l : Life) → is_gone l ≡ true → is_live l ≡ false
gone-not_live gone e = refl
gone-not_live unborn e = cc
gone-not_live alive e = cc
gone-not_live (exited d) e = cc
gone-not_live (announced d) e = cc

pub cancelled-same :
    (p : Phase) (o : Option ℕ)
    → (holder (cancelled p) o ≡ holder p o)
      × (has_start (cancelled p) ≡ has_start p)
      × (is_getting (cancelled p) ≡ is_getting p)
      × (downs_inside (cancelled p) ≡ downs_inside p)
      × (closes_inside (cancelled p) ≡ closes_inside p)
unfolding cancelled
cancelled-same free o = (refl, refl, refl, refl, refl)
cancelled-same entered o = (refl, refl, refl, refl, refl)
cancelled-same (starting q b) o = (refl, refl, refl, refl, refl)
cancelled-same (answered id) o = (refl, refl, refl, refl, refl)
cancelled-same (stopping (by_start b) id) o = (refl, refl, refl, refl, refl)
cancelled-same (stopping by_down id) o = (refl, refl, refl, refl, refl)
cancelled-same (stopping by_close id) o = (refl, refl, refl, refl, refl)

pub cancelled-Agrees : (p : Phase) (o : Option ℕ) → Agrees p o → Agrees (cancelled p) o
unfolding cancelled
cancelled-Agrees free o a = a
cancelled-Agrees entered o a = a
cancelled-Agrees (starting q b) o a = a
cancelled-Agrees (answered id) o a = a
cancelled-Agrees (stopping (by_start b) id) o a = a
cancelled-Agrees (stopping by_down id) o a = a
cancelled-Agrees (stopping by_close id) o a = a

pub if_intro {ℓ} :
    {A : Type ℓ} (P : A → Type 0) (b : Bool) (x y : A)
    → (b ≡ true → P x)
    → (b ≡ false → P y)
    → P (if b then x else y)
if_intro P true x y f g = f refl
if_intro P false x y f g = g refl
