-- ===== src/Vpn/Steps.antt =====
-- The interleavings of the goroutines that use a Client of pkg/openconnect/client.go with those
-- that wait for its processes. Each step is what one of them does between two points where another
-- may run.
use dockprox.Base.{
  ℕ, suc, ◌≤◌, ◌≡◌, Bool, true, false, not, ◌&&◌, Option, none, some, List, [], ◌∷◌, ◌==◌,
  if◌then◌else◌,
}
use dockprox.Base.Text.{Text}
use dockprox.Ssh.Client.{disconnected}
use dockprox.Vpn.Client.{
  VpnClient, new_client, set_state, Entry, must_start, enter, set_abort, start_failed, start_done,
  set_autoconnect, release, hold, down, close, cancel_all,
}

-- A process and the goroutine that waits for it: it has exited, as a drop or not, its state is set,
-- and its `done` is closed.
pub data Life : Type 0 where
  unborn alive : Life
  exited announced : Bool → Life
  gone : Life

abbrev pub is_gone : Life → Bool
is_gone gone = true
is_gone l = false

-- Its `done` is open.
abbrev pub is_live : Life → Bool
is_live unborn = false
is_live gone = false
is_live l = true

-- Who waits in `stop`, with the mutex: a start that gives up, cancelled or not, Down or Close.
pub data Stopper : Type 0 where
  by_start : Bool → Stopper
  by_down by_close : Stopper

-- Who has the mutex: nobody, a `get` that is about to start, one that starts, cancelled or not,
-- with its process or none yet, one whose process has answered, or one who waits in `stop`.
pub data Phase : Type 0 where
  free entered : Phase
  starting : Option ℕ → Bool → Phase
  answered : ℕ → Phase
  stopping : Stopper → ℕ → Phase

-- `up` and `asked` are a process's `up` and `stopping`; `aborting`, `closing` and `ending` count
-- the calls of Down that are to cancel a start, those that are to get the mutex, and such calls of
-- Close; `drops` is the processes that OnDrop was called for.
pub record World : Type 0 where
  pub client : VpnClient
  pub phase : Phase
  pub procs : ℕ → Life
  pub up : ℕ → Bool
  pub asked : ℕ → Bool
  pub next : ℕ
  pub now : ℕ
  pub aborting : ℕ
  pub closing : ℕ
  pub ending : ℕ
  pub drops : List ℕ

abbrev pub start : World
start = record {
  client = new_client;
  phase = free;
  procs = λ id. unborn;
  up = λ id. false;
  asked = λ id. false;
  next = 0;
  now = 0;
  aborting = 0;
  closing = 0;
  ending = 0;
  drops = [];
}

abbrev pub put {ℓ} : {A : Type ℓ} → ℕ → A → (ℕ → A) → ℕ → A
put id a f j = if j == id then a else f j

unfoldable pub phase_after : Entry → Phase
phase_after must_start = entered
phase_after e = free

unfoldable pub entering : Entry × VpnClient → World → World
entering (e, c) w = record w { client = c; phase = phase_after e }

unfoldable pub publishing : Option VpnClient → World → World
publishing none w = record w { phase = free }
publishing (some c) w = record w { client = c; phase = starting none false }

unfoldable pub cancelled : Phase → Phase
cancelled (starting o b) = starting o true
cancelled (stopping (by_start b) id) = stopping (by_start true) id
cancelled p = p

-- The first part of `stop`.
unfoldable pub asking : Stopper → ℕ → World → World
asking s id w = record w { phase = stopping s id; asked = put id true w.asked }

-- Down and Close with the mutex: they wait for the process, if there is one.
unfoldable pub down_entered : Option ℕ → World → World
down_entered none w = record w { client = down w.client }
down_entered (some id) w = asking by_down id w

unfoldable pub close_entered : Option ℕ → World → World
close_entered none w = record w { client = close w.client }
close_entered (some id) w = asking by_close id w

-- What comes behind `stop`.
unfoldable pub after_stop : Stopper → Text → World → World
after_stop (by_start b) e w = record w { client = start_failed b e w.now w.client; phase = free }
after_stop by_down e w = record w { client = down w.client; phase = free }
after_stop by_close e w = record w { client = close w.client; phase = free }

abbrev pub if_dropped : Bool → ℕ → List ℕ → List ℕ
if_dropped true id drops = id ∷ drops
if_dropped false id drops = drops

-- A step is given by the state before it.
pub data Step (w : World) : World → Type 0 where
  -- A call of `get`, from Get or Up, gets the mutex.
  get_enters :
      (explicit : Bool) (queued : ℕ)
      → queued ≤ w.now
      → w.phase ≡ free
      → Step w (entering (enter (λ id. is_gone (w.procs id)) explicit queued w.client) w)
  get_publishes : w.phase ≡ entered → Step w (publishing (set_abort w.client) w)
  caller_cancels : Step w (record w { phase = cancelled w.phase })
  -- A secret, the command or its start fails.
  start_fails :
      (b : Bool) (e : Text)
      → w.phase ≡ starting none b
      → Step w (record w { client = start_failed b e w.now w.client; phase = free })
  spawns :
      (b : Bool)
      → w.phase ≡ starting none b
      → w.client.closed ≡ false
      → Step w (record w {
        phase = starting (some w.next) b;
        procs = put w.next alive w.procs;
        next = suc w.next;
      })
  -- The tunnel is up, or is found so before the exit of the process is seen.
  answers :
      (id : ℕ) (b : Bool)
      → w.phase ≡ starting (some id) b
      → Step w (record w { phase = answered id; up = put id true w.up })
  connects :
      (id : ℕ)
      → w.phase ≡ answered id
      → Step w (record w { client = start_done id w.client; phase = free })
  -- The process is seen to have exited.
  start_exits :
      (id : ℕ) (b : Bool) (e : Text)
      → w.phase ≡ starting (some id) b
      → w.procs id ≡ gone
      → Step w (record w { client = start_failed b e w.now w.client; phase = free })
  -- The start gives up: it is cancelled, the client is closed, or it takes too long.
  start_stops :
      (id : ℕ) (b : Bool) → w.phase ≡ starting (some id) b → Step w (asking (by_start b) id w)
  stop_returns :
      (s : Stopper) (id : ℕ) (e : Text)
      → w.phase ≡ stopping s id
      → w.procs id ≡ gone
      → Step w (after_stop s e w)
  -- The goroutine that waits for a process.
  exits :
      (id : ℕ)
      → w.procs id ≡ alive
      → Step w (record w {
        procs = put id (exited (w.up id && not (w.asked id) && not w.client.closed)) w.procs;
      })
  announces :
      (id : ℕ) (d : Bool)
      → w.procs id ≡ exited d
      → Step w (record w {
        client = set_state disconnected w.client;
        procs = put id (announced d) w.procs;
      })
  finishes :
      (id : ℕ) (d : Bool)
      → w.procs id ≡ announced d
      → Step w (record w { procs = put id gone w.procs; drops = if_dropped d id w.drops })
  up_releases : Step w (record w { client = release w.client })
  down_holds : Step w (record w { client = hold w.client; aborting = suc w.aborting })
  down_aborts :
      (n : ℕ)
      → w.aborting ≡ suc n
      → Step w (record w {
        phase = if w.client.abort then cancelled w.phase else w.phase;
        aborting = n;
        closing = suc w.closing;
      })
  down_enters :
      (n : ℕ)
      → w.closing ≡ suc n
      → w.phase ≡ free
      → Step w (down_entered w.client.proc (record w { closing = n }))
  close_cancels : Step w (record w { client = cancel_all w.client; ending = suc w.ending })
  close_enters :
      (n : ℕ)
      → w.ending ≡ suc n
      → w.phase ≡ free
      → Step w (close_entered w.client.proc (record w { ending = n }))
  switches : (on : Bool) → Step w (record w { client = set_autoconnect on w.client })
  time_passes : Step w (record w { now = suc w.now })

-- The states that a sequence of steps leads to.
pub data Reaches (w : World) : World → Type 0 where
  here : Reaches w w
  next_step : {u v : World} → Reaches w u → Step u v → Reaches w v
