-- ===== src/Menubar/Approval.antt =====
-- The hook of an ssh upstream's state in internal/menubar/controller.go (sshStateChanged) and the
-- window's side of it in internal/menubar/foreground.go. Whether the app comes to the front in time
-- is a parameter of each call.
use dockprox.Base.{
  ℕ, zero, suc, ◌-◌, Bool, true, false, not, ◌&&◌, List, [], ◌∷◌, ◌==◌, if◌then◌else◌,
}
use dockprox.Ssh.Client.{ConnState, iota, awaiting_approval}

-- The hook's own flag, and what it has told, the latest first.
pub record Hook : Type 0 where
  pub pending : Bool
  pub told : List Bool

abbrev pub new_hook : Hook
new_hook = record { pending = false; told = [] }

unfoldable pub changed_bool : Bool → Bool → Bool
changed_bool true b = not b
changed_bool false b = b

abbrev pub is_pending : ConnState → Bool
is_pending s = iota s == iota awaiting_approval

unfoldable pub state_changed : ConnState → Hook → Hook
unfolding changed_bool
state_changed s h =
    if changed_bool h.pending (is_pending s)
    then record { pending = is_pending s; told = is_pending s ∷ h.told }
    else h

-- A foreground: how many requests wait, whether it knows that it brought the app to the front, how
-- often it has hidden it, and how many of its activations were still queued on the main thread when
-- it gave up waiting: each of them brings the app to the front later on.
pub record Foreground : Type 0 where
  pub pending : ℕ
  pub activated : Bool
  pub hides : ℕ
  pub queued : ℕ

abbrev pub new_foreground : Foreground
new_foreground = record { pending = 0; activated = false; hides = 0; queued = 0 }

-- What activate finds: the main thread does not answer in time, though it will, the app is in front
-- already, or it has been asked to come.
pub data Activation : Type 0 where
  busy already_active asked : Activation

unfoldable pub activate : Activation → Foreground → Foreground
activate busy f = record f { queued = suc f.queued }
activate already_active f = f
activate asked f = record f { activated = true }

unfoldable pub hide_idle : Foreground → Foreground
hide_idle f =
    if (f.pending == 0) && f.activated
    then record f { activated = false; hides = suc f.hides }
    else f

unfoldable pub set_pending : Activation → Bool → Foreground → Foreground
unfolding activate hide_idle
set_pending a true f =
    let f' = record f { pending = suc f.pending } in if f'.pending == 1 then activate a f' else f'
set_pending a false f = hide_idle (record f { pending = f.pending - 1 })

-- A change of state of one upstream, as its hook passes it on.
unfoldable pub tell : Activation → ConnState → Hook → Foreground → Foreground
unfolding changed_bool
tell a s h f = if changed_bool h.pending (is_pending s) then set_pending a (is_pending s) f else f

-- The upstreams' hooks in a row, of which one runs.
pub record Menu : Type 0 where
  pub hooks : List Hook
  pub front : Foreground

abbrev pub beside : Hook → Menu → Menu
beside h m = record m { hooks = h ∷ m.hooks }

unfoldable pub change : ℕ → ConnState → Activation → List Hook → Foreground → Menu
unfolding state_changed
change i s a [] f = record { hooks = []; front = f }
change zero s a (h ∷ hs) f = record { hooks = state_changed s h ∷ hs; front = tell a s h f }
change (suc i) s a (h ∷ hs) f = beside h (change i s a hs f)

unfoldable pub changes : List (ℕ × ConnState × Activation) → Menu → Menu
changes [] m = m
changes ((i, s, a) ∷ events) m = changes events (change i s a m.hooks m.front)

-- A menu of so many ssh upstreams.
unfoldable pub new_menu : ℕ → Menu
new_menu zero = record { hooks = []; front = new_foreground }
new_menu (suc n) = beside new_hook (new_menu n)
