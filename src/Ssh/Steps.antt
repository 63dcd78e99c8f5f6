-- ===== src/Ssh/Steps.antt =====
-- The interleavings of the goroutines that use a Client of pkg/sshclient/client.go. Each step is
-- what one of them does between two points where another may run.
use dockprox.Base.{ℕ, suc, ◌≤◌, ◌≡◌, Bool, true, false, Option, none, some, ◌==◌, if◌then◌else◌}
use dockprox.Base.Text.{Text}
use dockprox.Ssh.Client.{
  connecting, awaiting_approval, Client, new_client, set_state, mark_connecting, set_autoconnect,
  Entry, must_dial, enter, set_abort, dial_failed, dial_done, release, hold, down, close, forget,
}

-- Who has the mutex: nobody, a `get` that is about to dial, or one whose dial is in flight,
-- cancelled or not.
pub data Phase : Type 0 where
  free entered : Phase
  dialing : Bool → Phase

-- The client, the mutex, the connections that are open, the number of the next one, the time, and
-- how many calls of Down have stored `held` and not yet cancelled the dial, or have cancelled it
-- and not yet the mutex.
pub record World : Type 0 where
  pub client : Client
  pub phase : Phase
  pub is_open : ℕ → Bool
  pub next : ℕ
  pub now : ℕ
  pub aborting : ℕ
  pub closing : ℕ

abbrev pub start : World
start = record {
  client = new_client;
  phase = free;
  is_open = λ id. false;
  next = 0;
  now = 0;
  aborting = 0;
  closing = 0;
}

unfoldable pub phase_after : Entry → Phase
phase_after must_dial = entered
phase_after e = free

unfoldable pub entering : Entry × Client → World → World
entering (e, c) w = record w { client = c; phase = phase_after e }

unfoldable pub publishing : Option Client → World → World
publishing none w = record w { phase = free }
publishing (some c) w = record w { client = c; phase = dialing false }

-- The cancel that a dial has published takes effect on it while it is in flight.
unfoldable pub cancelled : Phase → Phase
cancelled (dialing b) = dialing true
cancelled p = p

abbrev pub without : ℕ → (ℕ → Bool) → ℕ → Bool
without id is_open j = if j == id then false else is_open j

abbrev pub without_current : Option ℕ → (ℕ → Bool) → ℕ → Bool
without_current none is_open = is_open
without_current (some id) is_open = without id is_open

-- A step is given by the state before it.
pub data Step (w : World) : World → Type 0 where
  -- A call of `get`, from Get, DialContext or Up, gets the mutex.
  get_enters :
      (explicit : Bool) (queued : ℕ)
      → queued ≤ w.now
      → w.phase ≡ free
      → Step w (entering (enter explicit queued w.client) w)
  get_publishes : w.phase ≡ entered → Step w (publishing (set_abort w.client) w)
  caller_cancels : (b : Bool) → w.phase ≡ dialing b → Step w (record w { phase = dialing true })
  agent_asks :
      (b : Bool)
      → w.phase ≡ dialing b
      → Step w (record w { client = set_state awaiting_approval w.client })
  agent_answers :
      (b : Bool)
      → w.phase ≡ dialing b
      → Step w (record w { client = set_state connecting w.client })
  dial_fails :
      (b : Bool) (e : Text)
      → w.phase ≡ dialing b
      → Step w (record w { client = dial_failed b e w.now w.client; phase = free })
  dial_connects :
      (b : Bool)
      → w.phase ≡ dialing b
      → Step w (record w {
        client = dial_done w.next w.client;
        phase = free;
        is_open = λ j. if j == w.next then true else w.is_open j;
        next = suc w.next;
      })
  up_releases : Step w (record w { client = release w.client })
  down_holds : Step w (record w { client = hold w.client; aborting = suc w.aborting })
  down_aborts :
      (n : ℕ)
      → w.aborting ≡ suc n
      → Step w (record w {
        phase = if w.client.abort then cancelled w.phase else w.phase;
        aborting = n;
        closing = suc w.closing;
      })
  down_closes :
      (n : ℕ)
      → w.closing ≡ suc n
      → w.phase ≡ free
      → Step w (record w {
        client = down w.client;
        is_open = without_current w.client.cli w.is_open;
        closing = n;
      })
  close_closes :
      w.phase ≡ free
      → Step w
          (record w { client = close w.client; is_open = without_current w.client.cli w.is_open })
  -- A connection closes: by the peer, by the watcher whose probe failed, or by `forget`.
  connection_closes : (id : ℕ) → Step w (record w { is_open = without id w.is_open })
  -- The watcher or `forget` then drops it.
  forgets :
      (id : ℕ)
      → w.is_open id ≡ false
      → w.phase ≡ free
      → Step w (record w { client = forget id w.client })
  marks : Step w (record w { client = mark_connecting w.client })
  switches : (on : Bool) → Step w (record w { client = set_autoconnect on w.client })
  time_passes : Step w (record w { now = suc w.now })

-- The states that a sequence of steps leads to.
pub data Reaches (w : World) : World → Type 0 where
  here : Reaches w w
  next : {u v : World} → Reaches w u → Step u v → Reaches w v
