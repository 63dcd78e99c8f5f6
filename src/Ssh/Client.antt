-- ===== src/Ssh/Client.antt =====
-- The state of a Client of pkg/sshclient/client.go and what each of its methods does to it between
-- taking and giving up its mutex. A connection is a number, a time is a number of instants. The
-- handshake itself, with its sockets, keys and the agent, is not modelled: it fails or gives a
-- connection.
use dockprox.Base.{
  ℕ, Bool, true, false, not, ◌&&◌, ◌||◌, Option, none, some, List, [], ◌∷◌, ltb, ◌==◌,
  if◌then◌else◌,
}
use dockprox.Base.Text.{Text, codes}

-- ConnState of pkg/sshclient/connstate.go.
pub data ConnState : Type 0 where
  unknown connected disconnected connecting awaiting_approval : ConnState

-- Its number.
abbrev pub iota : ConnState → ℕ
iota unknown = 0
iota connected = 1
iota disconnected = 2
iota connecting = 3
iota awaiting_approval = 4

-- ConnState.String.
unfoldable pub string : ConnState → Text
string connected = codes "connected"
string disconnected = codes "disconnected"
string connecting = codes "connecting"
string awaiting_approval = codes "awaiting approval"
string unknown = codes "unknown"

-- The fields of a Client that change. `abort` tells whether a dial has published its cancel;
-- `changes` is the states that an observer registered by OnStateChange was called on, the latest
-- first.
pub record Client : Type 0 where
  pub cli : Option ℕ
  pub last_err : Option (Text × ℕ)
  pub state : ConnState
  pub held : Bool
  pub manual_only : Bool
  pub abort : Bool
  pub changes : List ConnState

-- NewClient.
abbrev pub new_client : Client
new_client = record {
  cli = none;
  last_err = none;
  state = unknown;
  held = false;
  manual_only = false;
  abort = false;
  changes = [];
}

unfoldable pub set_state : ConnState → Client → Client
set_state s c =
    if iota c.state == iota s then c else record c { state = s; changes = s ∷ c.changes }

unfoldable pub mark_connecting : Client → Client
mark_connecting c = if c.held || c.manual_only then c else set_state connecting c

unfoldable pub set_autoconnect : Bool → Client → Client
set_autoconnect on c = record c { manual_only = not on }

-- What `get` does once it has the mutex: it returns, or it goes on to dial.
pub data Entry : Type 0 where
  refused : Entry
  reused : ℕ → Entry
  shared : Text → Entry
  must_dial : Entry

-- The error of a dial that failed after the call was queued.
unfoldable pub shared_error : ℕ → Option (Text × ℕ) → Entry
shared_error queued none = must_dial
shared_error queued (some (e, at_time)) = if ltb queued at_time then shared e else must_dial

unfoldable pub enter_unconnected : Bool → ℕ → Client → Entry
enter_unconnected explicit queued c =
    if not explicit && c.manual_only then refused else shared_error queued c.last_err

unfoldable pub enter_unheld : Bool → ℕ → Client → Option ℕ → Entry × Client
enter_unheld explicit queued c (some id) = (reused id, set_state connected c)
enter_unheld explicit queued c none = (enter_unconnected explicit queued c, c)

unfoldable pub enter : Bool → ℕ → Client → Entry × Client
enter explicit queued c = if c.held then (refused, c) else enter_unheld explicit queued c c.cli

-- `setAbort` with the cancel of a dial, and the state published before the dial; none where Down
-- got there first.
unfoldable pub set_abort : Client → Option Client
set_abort c = if c.held then none else some (set_state connecting (record c { abort = true }))

-- The two ends of a dial, each with `setAbort(nil)` behind it. A cancelled dial leaves no error.
unfoldable pub dial_failed : Bool → Text → ℕ → Client → Client
dial_failed cancelled e now c =
    let c' = record (set_state disconnected c) { abort = false } in
    if cancelled then c' else record c' { last_err = some (e, now) }

unfoldable pub dial_done : ℕ → Client → Client
dial_done id c = set_state connected (record c { cli = some id; last_err = none; abort = false })

-- What Up does before its get.
unfoldable pub release : Client → Client
release c = record c { held = false }

-- The first store of Down, and what it does under the mutex.
unfoldable pub hold : Client → Client
hold c = record c { held = true }

unfoldable pub down : Client → Client
down c = set_state unknown (record c { cli = none; last_err = none })

unfoldable pub close : Client → Client
close c = record (set_state disconnected c) { cli = none }

unfoldable pub is_current : Client → ℕ → Bool
is_current c id = elim c.cli [ none ↦ false | some current ↦ current == id ]

-- The locked part of `forget` and of the watcher, once the connection is closed.
unfoldable pub forget : ℕ → Client → Client
forget id c = if is_current c id then set_state disconnected (record c { cli = none }) else c
