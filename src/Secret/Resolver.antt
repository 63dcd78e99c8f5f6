-- ===== src/Secret/Resolver.antt =====
-- The resolver of pkg/secret/secret.go. What it asks of the machine is a parameter:
-- `exec.LookPath`, the file tests of `os.Stat`, and the run of a command, which has the search
-- directories for its PATH. `trim_space` trims ASCII white space, which is `strings.TrimSpace` on
-- ASCII text.
use dockprox.Base.{
  ℕ, ◌-◌, Bool, not, ◌&&◌, ◌||◌, Option, none, some, List, [], ◌∷◌, ◌++◌, Result, ok, err, ltb, leb,
  ◌==◌, if◌then◌else◌, length, drop, ◌>>=◌, ◌>>◌, fail_if, wrap,
}
use dockprox.Base.Text.{Text, codes, is_empty, has_prefix, cut_first, lookup}
use mathlib.Core.List.{reverse}

-- The state of a Resolver; its cache is the list of its entries, the latest first.
pub record Resolver : Type 0 where
  pub allow_cmd : Bool
  pub search_dirs : List Text
  pub cache : List (Text × Text)

pub data SecretError : Type 0 where
  keychain_form : Text → SecretError
  cmd_not_enabled cmd_empty : SecretError
  not_found : Text → List Text → SecretError
  failed : Text → SecretError
  of_reference : Text → SecretError → SecretError

-- What the machine has: tools in $PATH, executable files, and the output of a command or what it
-- wrote to standard error.
pub record Machine : Type 0 where
  pub path_tool : Text → Option Text
  pub is_executable : Text → Bool
  pub exec : List Text → Text → List Text → Result Text Text

abbrev pub prefix_op : Text
prefix_op = codes "op://"

abbrev pub prefix_keychain : Text
prefix_keychain = codes "keychain://"

abbrev pub prefix_cmd : Text
prefix_cmd = codes "cmd:"

is_space : ℕ → Bool
is_space c = c == b' ' || (leb 9 c && leb c 13)

unfoldable pub trim_left : (ℕ → Bool) → Text → Text
trim_left p [] = []
trim_left p (c ∷ t) = let rest = trim_left p t in if p c then rest else c ∷ t

unfoldable pub trim_right : (ℕ → Bool) → Text → Text
unfolding trim_left
trim_right p t = reverse (trim_left p (reverse t))

unfoldable pub trim_space : Text → Text
unfolding trim_left trim_right is_space
trim_space t = trim_right is_space (trim_left is_space t)

-- `strings.Cut` at a byte.
abbrev pub or_all : Text → Option (Text × Text) → Text × Text
or_all t none = (t, [])
or_all t (some p) = p

unfoldable pub keychain_command : Text → Text × Text → Result SecretError (Option (List Text))
keychain_command s (service, account) =
    if is_empty service || is_empty account
    then err (keychain_form s)
    else ok (
        some (
          codes "security"
          ∷ codes "find-generic-password"
          ∷ codes "-w"
          ∷ codes "-s"
          ∷ service
          ∷ codes "-a"
          ∷ account
          ∷ []))

unfoldable pub shell_command : Bool → Text → Result SecretError (Option (List Text))
shell_command allow_cmd script = do
  fail_if (not allow_cmd) cmd_not_enabled
  fail_if (is_empty (trim_space script)) cmd_empty
  ok (some (codes "/bin/sh" ∷ codes "-c" ∷ script ∷ []))

-- The argv that resolves `s`, or none when `s` is a literal.
unfoldable pub command : Bool → Text → Result SecretError (Option (List Text))
command allow_cmd s =
    if has_prefix prefix_op s
    then ok (some (codes "op" ∷ codes "read" ∷ codes "--no-newline" ∷ s ∷ []))
    else if has_prefix prefix_keychain s
    then keychain_command s (
        or_all (drop (length prefix_keychain) s) (cut_first b'/' (drop (length prefix_keychain) s)))
    else if has_prefix prefix_cmd s
    then shell_command allow_cmd (drop (length prefix_cmd) s)
    else ok none

module _ (machine : Machine) where
  -- The first directory with an executable file of that name.
  unfoldable pub search_tool : List Text → Text → Option Text
  search_tool [] name = none
  search_tool (dir ∷ dirs) name =
      let p = dir ++ b'/' ∷ name in
      let rest = search_tool dirs name in if machine.is_executable p then some p else rest

  found : Text → List Text → Option Text → Result SecretError Text
  found name dirs none = err (not_found name dirs)
  found name dirs (some p) = ok p

  unfoldable pub look_path : List Text → Text → Result SecretError Text
  unfolding found
  look_path dirs name = elim (machine.path_tool name) [
    | some p ↦ ok p
    | none ↦ found name dirs (search_tool dirs name)
  ]

  -- The command's output without its last line ends, or the end of what it wrote to standard error.
  abbrev pub quoted : Text → Text
  quoted t =
      let s = trim_space t in
      if ltb 200 (length s) then codes "..." ++ drop (length s - 200) s else s

  abbrev pub is_line_end : ℕ → Bool
  is_line_end c = c == 10 || c == 13

  unfoldable pub run : List Text → List Text → Result SecretError Text
  run dirs [] = ok []
  run dirs (tool ∷ args) = do
    bin ← look_path dirs tool
    out ← wrap (λ t. failed (quoted t)) (machine.exec dirs bin args)
    ok (trim_right is_line_end out)

  unfoldable pub check_tool : Text → List Text → Option (List Text) → Result SecretError (Unit {0})
  check_tool s dirs none = ok tt
  check_tool s dirs (some []) = ok tt
  check_tool s dirs (some (tool ∷ args)) =
      wrap (of_reference s) (look_path dirs tool) >>= λ bin. ok tt

  unfoldable pub check : Resolver → Text → Result SecretError (Unit {0})
  unfolding check_tool
  check r s = command r.allow_cmd s >>= check_tool s r.search_dirs

  abbrev pub cached : Resolver → Text → Text → Resolver
  cached r s v = record r { cache = (s, v) ∷ r.cache }

  -- The result of a run, kept when it succeeded.
  unfoldable pub keep :
      Resolver → Text → Result SecretError Text → Result SecretError Text × Resolver
  keep r s (err e) = (err (of_reference s e), r)
  keep r s (ok v) = (ok v, cached r s v)

  unfoldable pub fetch :
      Resolver → Text → List Text → Option Text → Result SecretError Text × Resolver
  fetch r s args (some v) = (ok v, r)
  fetch r s args none = keep r s (run r.search_dirs args)

  unfoldable pub resolve_by :
      Resolver → Text → Result SecretError (Option (List Text)) → Result SecretError Text × Resolver
  resolve_by r s (err e) = (err e, r)
  resolve_by r s (ok none) = (ok s, r)
  resolve_by r s (ok (some args)) = fetch r s args (lookup s r.cache)

  unfoldable pub resolve : Resolver → Text → Result SecretError Text × Resolver
  resolve r s = resolve_by r s (command r.allow_cmd s)
