-- ===== src/Vpn/TailLaws.antt =====
-- The tail of a program's output does not depend on how the output is cut into writes.
use dockprox.Base.{
  ℕ, zero, suc, ◌≤◌, ◌<◌, ◌≡◌, refl, sym, inl, inr, none, some, List, [], ◌∷◌, ◌++◌, arith, ◌==◌,
  if◌then◌else◌, Bool-cases, Option-cases, length, length-append, All-append,
}
use dockprox.Base.Text.{Text, cut_first}
use mathlib.Core.List.{append_assoc}
use dockprox.Base.TextLaws.{Lacks}
use dockprox.Base.HostPortLaws.{cut_first-Lacks}
use dockprox.Secret.Resolver.{trim_space}
use dockprox.Vpn.Tail.{Tail, tail_lines, newline, keep_line, write_lines, write}

-- One byte after another: a newline ends the line so far.
unfoldable pub scan : List Text → Text → Text → Tail
scan lines cur [] = record { buf = cur; lines = lines }
scan lines cur (c ∷ t) =
    if c == newline
    then scan (keep_line lines (trim_space cur)) [] t
    else scan lines (cur ++ c ∷ []) t

append_nil : (t : Text) → t ++ [] ≡ t
append_nil [] = refl
append_nil (c ∷ t) = rw (append_nil t) refl

cut_first-lt : (t pre post : Text) → cut_first newline t ≡ some (pre, post) → length post < length t
unfolding cut_first
cut_first-lt [] pre post e = cc
cut_first-lt (c ∷ t) pre post e = elim (Bool-cases (c == newline)) [
  | inl y ↦ ground arith
  | inr n ↦ elim (Option-cases (cut_first newline t)) [
    | inl f ↦ absurd (ground arith)
    | inr ((pre', post'), f) ↦ let shorter = cut_first-lt t pre' post' f in ground arith
  ]
]

scan-line :
    (lines : List Text) (cur t pre post : Text)
    → cut_first newline t ≡ some (pre, post)
    → scan lines cur t ≡ scan (keep_line lines (trim_space (cur ++ pre))) [] post
unfolding scan cut_first
scan-line lines cur [] pre post e = cc
scan-line lines cur (c ∷ t) pre post e = elim (Bool-cases (c == newline)) [
  | inl y ↦
      let pre' : pre ≡ [] = ground arith in
      let post' : post ≡ t = ground arith in rw (y, pre', post', append_nil cur) refl
  | inr n ↦ elim (Option-cases (cut_first newline t)) [
    | inl f ↦ absurd (ground arith)
    | inr ((pre', post'), f) ↦
        let same : pre ≡ c ∷ pre' = ground arith in
        let same' : post ≡ post' = ground arith in
        rw
          (
            n,
            same,
            same',
            scan-line lines (cur ++ c ∷ []) t pre' post' f,
            append_assoc cur (c ∷ []) pre',
          )
          refl
  ]
]

scan-no_line :
    (lines : List Text) (cur t : Text)
    → cut_first newline t ≡ none
    → scan lines cur t ≡ record { buf = cur ++ t; lines = lines }
unfolding scan cut_first
scan-no_line lines cur [] e = rw (append_nil cur) refl
scan-no_line lines cur (c ∷ t) e = elim (Bool-cases (c == newline)) [
  | inl y ↦ absurd (ground arith)
  | inr n ↦ elim (Option-cases (cut_first newline t)) [
    | inr ((pre, post), f) ↦ absurd (ground arith)
    | inl f ↦ rw (n, scan-no_line lines (cur ++ c ∷ []) t f, append_assoc cur (c ∷ []) t) refl
  ]
]

write_lines-scan :
    (n : ℕ) (t : Text) (lines : List Text) → length t < n → write_lines n t lines ≡ scan lines [] t
unfolding write_lines
write_lines-scan zero t lines h = absurd (omega arith)
write_lines-scan (suc n) t lines h = elim (Option-cases (cut_first newline t)) [
  | inl f ↦ rw (f, scan-no_line lines [] t f) refl
  | inr ((pre, post), f) ↦
      let shorter = cut_first-lt t pre post f in
      rw
        (
          f,
          scan-line lines [] t pre post f,
          write_lines-scan n post (keep_line lines (trim_space pre)) (omega arith),
        )
        refl
]

scan-append :
    (lines : List Text) (cur s t : Text)
    → scan lines cur (s ++ t) ≡ (let r = scan lines cur s in scan r.lines r.buf t)
unfolding scan
scan-append lines cur [] t = refl
scan-append lines cur (c ∷ s) t = elim (Bool-cases (c == newline)) [
  | inl y ↦ rw y (scan-append (keep_line lines (trim_space cur)) [] s t)
  | inr n ↦ rw n (scan-append lines (cur ++ c ∷ []) s t)
]

-- What is left in the buffer is no line yet.
scan-Lacks :
    (lines : List Text) (cur t : Text) → Lacks newline cur → Lacks newline (scan lines cur t).buf
unfolding scan
scan-Lacks lines cur [] h = h
scan-Lacks lines cur (c ∷ t) h = elim (Bool-cases (c == newline)) [
  | inl y ↦ rw y (scan-Lacks (keep_line lines (trim_space cur)) [] t tt)
  | inr n ↦
      rw n (scan-Lacks lines (cur ++ c ∷ []) t (All-append _ cur (c ∷ []) h (ground arith, tt)))
]

write-scan : (t : Tail) (b : Text) → write t b ≡ scan t.lines [] (t.buf ++ b)
unfolding write
write-scan t b = write_lines-scan (suc (length (t.buf ++ b))) (t.buf ++ b) t.lines (omega arith)

-- Two writes leave what one write of both texts leaves: the lines and the error message do not
-- depend on where the program's output is cut.
pub write-append : (t : Tail) (a b : Text) → write (write t a) b ≡ write t (a ++ b)
write-append t a b =
    let r = scan t.lines [] (t.buf ++ a) in
    let rest =
      scan-no_line r.lines [] r.buf
        (cut_first-Lacks newline r.buf (scan-Lacks t.lines [] (t.buf ++ a) tt)) in
    rw
      (
        write-scan t a,
        write-scan t (a ++ b),
        write-scan r b,
        sym (append_assoc t.buf a b),
        scan-append t.lines [] (t.buf ++ a) b,
        scan-append r.lines [] r.buf b,
        rest,
      )
      refl

length-keep_line :
    (lines : List Text) (line : Text)
    → length lines ≤ tail_lines
    → length (keep_line lines line) ≤ tail_lines
unfolding keep_line
length-keep_line [] line h = ground arith
length-keep_line (l ∷ lines) line h = ground (arith, length-append lines (line ∷ []))

length-write_lines :
    (n : ℕ) (t : Text) (lines : List Text)
    → length lines ≤ tail_lines
    → length (write_lines n t lines).lines ≤ tail_lines
unfolding write_lines
length-write_lines zero t lines h = h
length-write_lines (suc n) t lines h = elim (Option-cases (cut_first newline t)) [
  | inl f ↦ rw f h
  | inr ((line, rest), f) ↦ rw f (
      length-write_lines n rest (keep_line lines (trim_space line))
        (length-keep_line lines (trim_space line) h))
]

-- A write leaves at most ten lines, and no newline in the buffer: every finished line is dealt
-- with.
pub length-write :
    (t : Tail) (b : Text)
    → length t.lines ≤ tail_lines
    → (length (write t b).lines ≤ tail_lines) × Lacks newline (write t b).buf
unfolding write
length-write t b h = (
  length-write_lines (suc (length (t.buf ++ b))) (t.buf ++ b) t.lines h,
  rw (write_lines-scan (suc (length (t.buf ++ b))) (t.buf ++ b) t.lines (omega arith))
      (scan-Lacks t.lines [] (t.buf ++ b) tt),
)
