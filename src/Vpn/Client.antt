-- ===== src/Vpn/Client.antt =====
-- The fields of a Client of pkg/openconnect/client.go that change, and what its methods do to them
-- between two points where another goroutine may run. A process is a number, a time is a number of
-- instants. openconnect itself, the secrets and the files of the tun mode are not modelled: a start
-- fails, or its process runs, answers and exits.
use dockprox.Base.{
  ℕ, Bool, true, false, not, ◌&&◌, Option, none, some, List, [], ◌∷◌, ltb, ◌==◌, if◌then◌else◌,
}
use dockprox.Base.Text.{Text}
use dockprox.Ssh.Client.{ConnState, unknown, connected, disconnected, connecting, iota}

-- `closed` tells whether Close has cancelled the client's context, `abort` whether a start has
-- published its cancel; `changes` is the states that an observer was called on, the latest first.
pub record VpnClient : Type 0 where
  pub proc : Option ℕ
  pub last_err : Option (Text × ℕ)
  pub state : ConnState
  pub held : Bool
  pub manual_only : Bool
  pub abort : Bool
  pub closed : Bool
  pub changes : List ConnState

-- The last part of New.
abbrev pub new_client : VpnClient
new_client = record {
  proc = none;
  last_err = none;
  state = unknown;
  held = false;
  manual_only = false;
  abort = false;
  closed = false;
  changes = [];
}

unfoldable pub set_state : ConnState → VpnClient → VpnClient
set_state s c =
    if iota c.state == iota s then c else record c { state = s; changes = s ∷ c.changes }

-- What `get` does once it has the mutex: it returns, or it goes on to start.
pub data Entry : Type 0 where
  is_closed refused : Entry
  reused : ℕ → Entry
  shared : Text → Entry
  must_start : Entry

unfoldable pub shared_error : ℕ → Option (Text × ℕ) → Entry
shared_error queued none = must_start
shared_error queued (some (e, at_time)) = if ltb queued at_time then shared e else must_start

unfoldable pub enter_stopped : Bool → ℕ → VpnClient → Entry
enter_stopped explicit queued c =
    if not explicit && c.manual_only then refused else shared_error queued c.last_err

-- `gone` tells of a process whether its `done` is closed.
unfoldable pub enter_proc : (ℕ → Bool) → Bool → ℕ → VpnClient → Option ℕ → Entry × VpnClient
enter_proc gone explicit queued c none = (enter_stopped explicit queued c, c)
enter_proc gone explicit queued c (some id) =
    if gone id
    then (enter_stopped explicit queued c, record c { proc = none })
    else (reused id, set_state connected c)

unfoldable pub enter : (ℕ → Bool) → Bool → ℕ → VpnClient → Entry × VpnClient
enter gone explicit queued c =
    if c.closed then (is_closed, c) else enter_proc gone explicit queued c c.proc

-- `setAbort` with the cancel of a start, and the state before the start; none where Down got there
-- first.
unfoldable pub set_abort : VpnClient → Option VpnClient
set_abort c = if c.held then none else some (set_state connecting (record c { abort = true }))

-- The two ends of a start, each with `setAbort(nil)` behind it. A cancelled start leaves no error.
unfoldable pub start_failed : Bool → Text → ℕ → VpnClient → VpnClient
start_failed cancelled e now c =
    let c' = record (set_state disconnected c) { abort = false } in
    if cancelled then c' else record c' { last_err = some (e, now) }

unfoldable pub start_done : ℕ → VpnClient → VpnClient
start_done id c = set_state connected (record c { proc = some id; last_err = none; abort = false })

unfoldable pub set_autoconnect : Bool → VpnClient → VpnClient
set_autoconnect on c = record c { manual_only = not on }

-- What Up does before its get, and the first store of Down.
unfoldable pub release : VpnClient → VpnClient
release c = record c { held = false }

unfoldable pub hold : VpnClient → VpnClient
hold c = record c { held = true }

-- What Down and Close do under the mutex, once the process has stopped.
unfoldable pub down : VpnClient → VpnClient
down c = set_state unknown (record c { proc = none; last_err = none })

unfoldable pub close : VpnClient → VpnClient
close c = set_state disconnected (record c { proc = none })

-- The first call of Close.
unfoldable pub cancel_all : VpnClient → VpnClient
cancel_all c = record c { closed = true }
