-- ===== src/Base/HostPort.antt =====
-- net.SplitHostPort and net.JoinHostPort, on the bytes of an address.
use Prim.Native.Nat.{ℕ}
use mathlib.Core.Bool.{Bool}
use mathlib.Core.List.{[], ◌∷◌, ◌++◌}
use mathlib.Core.Option.{Option, none, some}
use dockprox.Base.Tests.{◌==◌, if◌then◌else◌, is_some}
use dockprox.Base.Lists.{drop}
use dockprox.Base.Results.{Result, ok, err, ◌>>=◌, ◌>>◌, fail_if}
use dockprox.Base.Text.{Text, codes, has_prefix, cut_first, cut_last}

pub data HostPortError : Type 0 where
  missing_port too_many_colons missing_bracket unexpected_open unexpected_close : HostPortError

abbrev pub contains_byte : ℕ → Text → Bool
contains_byte c t = is_some (cut_first c t)

-- Behind the first "]" of a bracketed host: the port is what follows a colon that is the last one.
unfoldable pub after_bracket : Text → Result HostPortError Text
after_bracket [] = err missing_port
after_bracket (c ∷ port) =
    if c == b':'
    then if contains_byte b':' port then err too_many_colons else ok port
    else err missing_port

unfoldable pub split_bracketed : Text → Option (Text × Text) → Result HostPortError (Text × Text)
split_bracketed s none = err missing_bracket
split_bracketed s (some (inside, after)) = do
  port ← after_bracket after
  fail_if (contains_byte b'[' (drop 1 s)) unexpected_open
  fail_if (contains_byte b']' after) unexpected_close
  ok (drop 1 inside, port)

unfoldable pub split_plain : Text → Text → Text → Result HostPortError (Text × Text)
split_plain s host port = do
  fail_if (contains_byte b':' host) too_many_colons
  fail_if (contains_byte b'[' s) unexpected_open
  fail_if (contains_byte b']' s) unexpected_close
  ok (host, port)

unfoldable pub split_at : Text → Option (Text × Text) → Result HostPortError (Text × Text)
split_at s none = err missing_port
split_at s (some (host, port)) =
    if has_prefix (codes "[") s
    then split_bracketed s (cut_first b']' s)
    else split_plain s host port

-- The host and the port of an address, or why it has none.
unfoldable pub split_host_port : Text → Result HostPortError (Text × Text)
split_host_port s = split_at s (cut_last b':' s)

unfoldable pub join_host_port : Text → Text → Text
join_host_port host port =
    if contains_byte b':' host then (b'[' ∷ host) ++ b']' ∷ b':' ∷ port else host ++ b':' ∷ port
