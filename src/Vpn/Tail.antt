-- ===== src/Vpn/Tail.antt =====
-- The tail of a program's output: pkg/openconnect/tail.go.
use dockprox.Base.{
  ℕ, zero, suc, Option, none, some, List, [], ◌∷◌, ◌++◌, ltb, if◌then◌else◌, length, drop,
}
use dockprox.Base.Text.{Text, codes, is_empty, cut_first}
use dockprox.Secret.Resolver.{trim_space}

pub record Tail : Type 0 where
  pub buf : Text
  pub lines : List Text

abbrev pub tail_lines : ℕ
tail_lines = 10

abbrev pub newline : ℕ
newline = 10

-- The lines with another one, which is skipped if it is blank; the oldest one gives way.
unfoldable pub keep_line : List Text → Text → List Text
keep_line lines line =
    if is_empty line
    then lines
    else if ltb tail_lines (length (lines ++ line ∷ []))
    then drop 1 (lines ++ line ∷ [])
    else lines ++ line ∷ []

-- The body of the loop of Write, with the rest of the loop.
abbrev pub after_line : Text → List Text → (Text → List Text → Tail) → Option (Text × Text) → Tail
after_line buf lines loop none = record { buf = buf; lines = lines }
after_line buf lines loop (some (line, rest)) = loop rest (keep_line lines (trim_space line))

-- The loop, on fuel; it ends where the buffer has no newline.
unfoldable pub write_lines : ℕ → Text → List Text → Tail
write_lines zero buf lines = record { buf = buf; lines = lines }
write_lines (suc n) buf lines = after_line buf lines (write_lines n) (cut_first newline buf)

-- Each line takes a newline, so that there are no more lines than bytes.
unfoldable pub write : Tail → Text → Tail
write t b = write_lines (suc (length (t.buf ++ b))) (t.buf ++ b) t.lines

-- `strings.Join`.
unfoldable pub join : Text → List Text → Text
join sep [] = []
join sep (t ∷ []) = t
join sep (t ∷ u ∷ ts) = t ++ sep ++ join sep (u ∷ ts)

unfoldable pub string : Tail → Text
string t =
    let rest = trim_space t.buf in
    join (codes " | ") (if is_empty rest then t.lines else t.lines ++ rest ∷ [])
