-- ===== src/Ssh/AttemptLaws.antt =====
-- The shared deadline of pkg/sshclient/attempt.go.
use dockprox.Base.{
  ℕ, ◌+◌, ◌≡◌, refl, ◌∙◌, Bool, true, false, List, [], ◌∷◌, if◌then◌else◌, All, All-append, All-imp,
}
use dockprox.Ssh.Attempt.{
  Attempt, new_attempt, set_deadlines, add, extend, long_ago, abort, sign_start, sign_done, Call,
  adds, aborts, signs, signed, call, run,
}

-- All sockets have the attempt's deadline, which has passed if the attempt is aborted.
abbrev pub IsShared : Attempt → Type 0
IsShared a = All (λ c. c ≡ a.deadline) a.conns × (a.aborted ≡ true → a.deadline ≡ long_ago)

set_deadlines-All : (t : ℕ) (cs : List ℕ) → All (λ c. c ≡ t) (set_deadlines t cs)
unfolding set_deadlines
set_deadlines-All t [] = tt
set_deadlines-All t (c ∷ cs) = (refl, set_deadlines-All t cs)

checked_extend-IsShared :
    (t : ℕ) (a : Attempt) (b : Bool)
    → a.aborted ≡ b
    → IsShared a
    → IsShared (if b then a else record a { deadline = t; conns = set_deadlines t a.conns })
checked_extend-IsShared t a true e h = h
checked_extend-IsShared t a false e h = (set_deadlines-All t a.conns, λ q. cc)

extend-IsShared : (now d : ℕ) (a : Attempt) → IsShared a → IsShared (extend now d a)
unfolding extend
extend-IsShared now d a h = checked_extend-IsShared (now + d) a a.aborted refl h

call-IsShared : (c : Call) (a : Attempt) → IsShared a → IsShared (call c a)
unfolding call add abort sign_start sign_done
call-IsShared adds a h = (All-append _ a.conns (a.deadline ∷ []) h.0 (refl, tt), h.1)
call-IsShared aborts a h = (set_deadlines-All long_ago a.conns, λ q. refl)
call-IsShared (signs now) a h = extend-IsShared now a.approval a h
call-IsShared (signed now) a h = extend-IsShared now a.timeout a h

checked_extend-aborted :
    (t : ℕ) (a : Attempt) (b : Bool)
    → (if b then a else record a { deadline = t; conns = set_deadlines t a.conns }).aborted
      ≡ a.aborted
checked_extend-aborted t a true = refl
checked_extend-aborted t a false = refl

call-aborted : (c : Call) (a : Attempt) → a.aborted ≡ true → (call c a).aborted ≡ true
unfolding call add abort sign_start sign_done extend
call-aborted adds a e = e
call-aborted aborts a e = refl
call-aborted (signs now) a e = checked_extend-aborted (now + a.approval) a a.aborted ∙ e
call-aborted (signed now) a e = checked_extend-aborted (now + a.timeout) a a.aborted ∙ e

run-IsShared : (cs : List Call) (a : Attempt) → IsShared a → IsShared (run cs a)
unfolding run
run-IsShared [] a h = h
run-IsShared (c ∷ cs) a h = run-IsShared cs (call c a) (call-IsShared c a h)

run-aborted : (cs : List Call) (a : Attempt) → a.aborted ≡ true → (run cs a).aborted ≡ true
unfolding run
run-aborted [] a e = e
run-aborted (c ∷ cs) a e = run-aborted cs (call c a) (call-aborted c a e)

-- All sockets of a dial run on one clock, however its calls interleave. Once it is aborted every
-- socket's deadline has passed and stays so: also that of a socket that is added later, and
-- whatever the agent still asks or answers.
pub run-expired :
    (timeout approval now : ℕ) (before after : List Call)
    → let a = run before (new_attempt timeout approval now) in
      let b = run after (abort a) in
      All (λ c. c ≡ a.deadline) a.conns × All (λ c. c ≡ long_ago) b.conns
unfolding new_attempt
run-expired timeout approval now before after =
    let a = run before (new_attempt timeout approval now) in
    let shared : IsShared a =
      run-IsShared before (new_attempt timeout approval now) (tt, λ q. cc) in
    let aborted : IsShared (abort a) =
      unfold abort in (set_deadlines-All long_ago a.conns, λ q. refl) in
    let b = run after (abort a) in
    let shared' : IsShared b = run-IsShared after (abort a) aborted in
    let past : b.deadline ≡ long_ago =
      shared'.1 (run-aborted after (abort a) (unfold abort in refl)) in
    (shared.0, All-imp b.conns (λ c e. e ∙ past) shared'.0)
