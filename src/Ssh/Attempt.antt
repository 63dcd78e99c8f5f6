-- ===== src/Ssh/Attempt.antt =====
-- The sockets of one dial: pkg/sshclient/attempt.go. A time is a number of seconds.
use dockprox.Base.{ℕ, ◌+◌, Bool, true, false, List, [], ◌∷◌, ◌++◌, if◌then◌else◌}

-- `conns` is the deadlines of the sockets; `reports` is what `onSign` was called with, the latest
-- first.
pub record Attempt : Type 0 where
  pub timeout : ℕ
  pub approval : ℕ
  pub conns : List ℕ
  pub deadline : ℕ
  pub aborted : Bool
  pub reports : List Bool

unfoldable pub new_attempt : ℕ → ℕ → ℕ → Attempt
new_attempt timeout approval now = record {
  timeout = timeout;
  approval = approval;
  conns = [];
  deadline = now + timeout;
  aborted = false;
  reports = [];
}

-- `SetDeadline` on every socket.
unfoldable pub set_deadlines : ℕ → List ℕ → List ℕ
set_deadlines t [] = []
set_deadlines t (c ∷ cs) = t ∷ set_deadlines t cs

unfoldable pub add : Attempt → Attempt
add a = record a { conns = a.conns ++ a.deadline ∷ [] }

unfoldable pub extend : ℕ → ℕ → Attempt → Attempt
extend now d a =
    if a.aborted
    then a
    else record a { deadline = now + d; conns = set_deadlines (now + d) a.conns }

-- `time.Unix(1, 0)`, which has passed.
abbrev pub long_ago : ℕ
long_ago = 1

unfoldable pub abort : Attempt → Attempt
abort a = record a { aborted = true; deadline = long_ago; conns = set_deadlines long_ago a.conns }

unfoldable pub sign_start : ℕ → Attempt → Attempt
sign_start now a = let a' = extend now a.approval a in record a' { reports = true ∷ a'.reports }

unfoldable pub sign_done : ℕ → Attempt → Attempt
sign_done now a = let a' = extend now a.timeout a in record a' { reports = false ∷ a'.reports }

-- The calls of the goroutines that share an attempt, each under its mutex.
pub data Call : Type 0 where
  adds aborts : Call
  signs signed : ℕ → Call

unfoldable pub call : Call → Attempt → Attempt
call adds a = add a
call aborts a = abort a
call (signs now) a = sign_start now a
call (signed now) a = sign_done now a

unfoldable pub run : List Call → Attempt → Attempt
run [] a = a
run (c ∷ cs) a = run cs (call c a)
