-- ===== src/Menubar/ApprovalLaws.antt =====
-- The hooks of internal/menubar/controller.go and the count of internal/menubar/foreground.go
-- together.
use dockprox.Base.{
  ℕ, zero, suc, ◌+◌, ◌-◌, ◌<◌, ◌≡◌, refl, ◌∙◌, Bool, true, false, not, List, [], ◌∷◌, arith,
  if◌then◌else◌, All,
}
use dockprox.Ssh.Client.{ConnState, unknown, connected, connecting, disconnected, awaiting_approval}
use dockprox.Menubar.Approval.{
  Hook, changed_bool, is_pending, state_changed, Foreground, Activation, busy, already_active,
  asked, activate, set_pending, tell, Menu, change, changes, new_menu,
}

abbrev pub one_if : Bool → ℕ
one_if true = 1
one_if false = 0

-- The upstreams that wait for an approval.
abbrev pub waiting : List Hook → ℕ
waiting [] = 0
waiting (h ∷ hs) = one_if h.pending + waiting hs

-- A hook has told each edge once: what it told last is where it stands, and before that the
-- opposite.
abbrev pub Alternates : Bool → List Bool → Type 0
Alternates b [] = b ≡ false
Alternates b (t ∷ ts) = (t ≡ b) × Alternates (not b) ts

-- The states of so many upstreams, none of them dialed.
abbrev pub new_states : ℕ → List ConnState
new_states zero = []
new_states (suc n) = unknown ∷ new_states n

abbrev pub set_state : ℕ → ConnState → List ConnState → List ConnState
set_state i s [] = []
set_state zero s (t ∷ ts) = s ∷ ts
set_state (suc i) s (t ∷ ts) = t ∷ set_state i s ts

-- The states that the changes lead to.
abbrev pub last_states : List (ℕ × ConnState × Activation) → List ConnState → List ConnState
last_states [] ss = ss
last_states ((i, s, a) ∷ events) ss = last_states events (set_state i s ss)

abbrev pub awaits : ConnState → Bool
awaits awaiting_approval = true
awaits unknown = false
awaits connected = false
awaits connecting = false
awaits disconnected = false

-- How many upstreams wait for an approval.
abbrev pub awaiting : List ConnState → ℕ
awaiting [] = 0
awaiting (s ∷ ss) = one_if (awaits s) + awaiting ss

-- Each hook stands where its upstream's state does.
abbrev pub Agree : List Hook → List ConnState → Type 0
Agree [] [] = Unit
Agree [] (s ∷ ss) = ⊥
Agree (h ∷ hs) [] = ⊥
Agree (h ∷ hs) (s ∷ ss) = (h.pending ≡ awaits s) × Agree hs ss

-- The count is of the upstreams whose state is that they wait, and the foreground holds the app to
-- be in front only for one.
pub record IsWaiting (ss : List ConnState) (m : Menu) : Type 0 where
  pub count : m.front.pending ≡ awaiting ss
  pub front : m.front.activated ≡ true → 0 < awaiting ss
  pub agree : Agree m.hooks ss
  pub told : All (λ (h : Hook). Alternates h.pending h.told) m.hooks

is_pending-awaits : (s : ConnState) → is_pending s ≡ awaits s
is_pending-awaits awaiting_approval = refl
is_pending-awaits unknown = refl
is_pending-awaits connected = refl
is_pending-awaits connecting = refl
is_pending-awaits disconnected = refl

waiting-Agree : (hs : List Hook) (ss : List ConnState) → Agree hs ss → waiting hs ≡ awaiting ss
waiting-Agree [] [] a = refl
waiting-Agree [] (s ∷ ss) a = absurd a
waiting-Agree (h ∷ hs) [] a = absurd a
waiting-Agree (h ∷ hs) (s ∷ ss) (e, a) = rw (e, waiting-Agree hs ss a) refl

-- The count is of the hooks that stand at a wait.
record IsCounted (m : Menu) : Type 0 where
  pub count : m.front.pending ≡ waiting m.hooks
  pub front : m.front.activated ≡ true → 0 < m.front.pending
  pub told : All (λ (h : Hook). Alternates h.pending h.told) m.hooks

activate-pending : (a : Activation) (f : Foreground) → (activate a f).pending ≡ f.pending
unfolding activate
activate-pending busy f = refl
activate-pending already_active f = refl
activate-pending asked f = refl

set_pending-true :
    (a : Activation) (f : Foreground) → (set_pending a true f).pending ≡ suc f.pending
unfolding set_pending
set_pending-true a f = ground (arith, activate-pending a (record f { pending = suc f.pending }))

set_pending-false :
    (a : Activation) (f : Foreground)
    → ((set_pending a false f).pending ≡ f.pending - 1)
      × ((set_pending a false f).activated ≡ true → 0 < (set_pending a false f).pending)
unfolding set_pending
set_pending-false a f = (ground arith, ground arith)

-- An edge from `b` to `p`, or none, when `k` others wait.
edge_counts :
    (a : Activation) (b p : Bool) (f : Foreground) (k : ℕ)
    → f.pending ≡ one_if b + k
    → (f.activated ≡ true → 0 < f.pending)
    → (let f' = if changed_bool b p then set_pending a p f else f in
        (f'.pending ≡ one_if p + k) × (f'.activated ≡ true → 0 < f'.pending))
unfolding changed_bool
edge_counts a true true f k e front = (e, front)
edge_counts a false false f k e front = (e, front)
edge_counts a true false f k e front =
    let (less, kept) = set_pending-false a f in (ground arith, kept)
edge_counts a false true f k e front =
    let more = set_pending-true a f in (ground arith, λ q. ground arith)

edge-pending :
    (b p : Bool) (ts : List Bool)
    → (let h : Hook =
          if changed_bool b p
          then record { pending = p; told = p ∷ ts }
          else record { pending = b; told = ts } in
        (h.pending ≡ p) × (Alternates b ts → Alternates h.pending h.told))
unfolding changed_bool
edge-pending true true ts = (refl, λ t. t)
edge-pending false false ts = (refl, λ t. t)
edge-pending true false ts = (refl, λ t. (refl, t))
edge-pending false true ts = (refl, λ t. (refl, t))

-- One upstream's change, when `k` others wait.
tell_counts :
    (a : Activation) (s : ConnState) (h : Hook) (f : Foreground) (k : ℕ)
    → f.pending ≡ one_if h.pending + k
    → (f.activated ≡ true → 0 < f.pending)
    → ((tell a s h f).pending ≡ one_if (state_changed s h).pending + k)
      × ((tell a s h f).activated ≡ true → 0 < (tell a s h f).pending)
unfolding tell state_changed
tell_counts a s h f k e front =
    let now = (edge-pending h.pending (is_pending s) h.told).0 in
    rw now (edge_counts a h.pending (is_pending s) f k e front)

state_changed-Alternates :
    (s : ConnState) (h : Hook)
    → Alternates h.pending h.told
    → Alternates (state_changed s h).pending (state_changed s h).told
unfolding state_changed
state_changed-Alternates s h t = (edge-pending h.pending (is_pending s) h.told).1 t

-- One change in a row of hooks, when `k` others wait.
change_counts :
    (i : ℕ) (s : ConnState) (a : Activation) (hs : List Hook) (f : Foreground) (k : ℕ)
    → f.pending ≡ waiting hs + k
    → (f.activated ≡ true → 0 < f.pending)
    → (let m = change i s a hs f in
        (m.front.pending ≡ waiting m.hooks + k) × (m.front.activated ≡ true → 0 < m.front.pending))
unfolding change
change_counts i s a [] f k e front = (e, front)
change_counts zero s a (h ∷ hs) f k e front =
    let (count, kept) = tell_counts a s h f (waiting hs + k) (omega arith) front in
    (omega arith, kept)
change_counts (suc i) s a (h ∷ hs) f k e front =
    let (count, kept) = change_counts i s a hs f (one_if h.pending + k) (omega arith) front in
    (omega arith, kept)

change-told :
    (i : ℕ) (s : ConnState) (a : Activation) (hs : List Hook) (f : Foreground)
    → All (λ (h : Hook). Alternates h.pending h.told) hs
    → All (λ (h : Hook). Alternates h.pending h.told) (change i s a hs f).hooks
unfolding change
change-told i s a [] f t = tt
change-told zero s a (h ∷ hs) f (t, ts) = (state_changed-Alternates s h t, ts)
change-told (suc i) s a (h ∷ hs) f (t, ts) = (t, change-told i s a hs f ts)

new_menu-IsCounted : (n : ℕ) → IsCounted (new_menu n)
unfolding new_menu
new_menu-IsCounted zero = record { count = refl; front = λ e. cc; told = tt }
new_menu-IsCounted (suc n) =
    let h = new_menu-IsCounted n in
    record { count = omega (arith, h.count); front = h.front; told = (refl, h.told) }

changes-IsCounted :
    (events : List (ℕ × ConnState × Activation)) (m : Menu)
    → IsCounted m
    → IsCounted (changes events m)
unfolding changes
changes-IsCounted [] m h = h
changes-IsCounted ((i, s, a) ∷ events) m h =
    let (count, front) = change_counts i s a m.hooks m.front 0 (omega (arith, h.count)) h.front in
    changes-IsCounted events (change i s a m.hooks m.front) (record {
      count = omega arith;
      front = front;
      told = change-told i s a m.hooks m.front h.told;
    })

change-Agree :
    (i : ℕ) (s : ConnState) (a : Activation) (hs : List Hook) (f : Foreground) (ss : List ConnState)
    → Agree hs ss
    → Agree (change i s a hs f).hooks (set_state i s ss)
unfolding change state_changed
change-Agree i s a [] f [] k = tt
change-Agree i s a [] f (t ∷ ts) k = absurd k
change-Agree i s a (h ∷ hs) f [] k = absurd k
change-Agree zero s a (h ∷ hs) f (t ∷ ts) (e, k) =
    ((edge-pending h.pending (is_pending s) h.told).0 ∙ is_pending-awaits s, k)
change-Agree (suc i) s a (h ∷ hs) f (t ∷ ts) (e, k) = (e, change-Agree i s a hs f ts k)

changes-Agree :
    (events : List (ℕ × ConnState × Activation)) (m : Menu) (ss : List ConnState)
    → Agree m.hooks ss
    → Agree (changes events m).hooks (last_states events ss)
unfolding changes
changes-Agree [] m ss k = k
changes-Agree ((i, s, a) ∷ events) m ss k =
    changes-Agree events (change i s a m.hooks m.front) (set_state i s ss)
      (change-Agree i s a m.hooks m.front ss k)

new_menu-Agree : (n : ℕ) → Agree (new_menu n).hooks (new_states n)
unfolding new_menu
new_menu-Agree zero = tt
new_menu-Agree (suc n) = (refl, new_menu-Agree n)

-- However the states of any number of ssh upstreams change, and whatever becomes of each attempt to
-- bring the app to the front: each upstream is reported waiting and not waiting in turns, and last
-- as its state is; the count is of the upstreams whose state is that they await an approval; and
-- the foreground holds the app to be in front only while one does.
pub changes-new_menu :
    (n : ℕ) (events : List (ℕ × ConnState × Activation))
    → IsWaiting (last_states events (new_states n)) (changes events (new_menu n))
changes-new_menu n events =
    let counted = changes-IsCounted events (new_menu n) (new_menu-IsCounted n) in
    let agree = changes-Agree events (new_menu n) (new_states n) (new_menu-Agree n) in
    let same =
      waiting-Agree (changes events (new_menu n)).hooks (last_states events (new_states n)) agree in
    record {
      count = counted.count ∙ same;
      front = λ e. rw (← same, ← counted.count) (counted.front e);
      agree = agree;
      told = counted.told;
    }
