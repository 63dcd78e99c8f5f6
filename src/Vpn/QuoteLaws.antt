-- ===== src/Vpn/QuoteLaws.antt =====
-- The shell and AppleScript read a quoted text back: the quoting of pkg/openconnect/sudoers.go.
use dockprox.Base.{
  ℕ, ◌≡◌, refl, inl, inr, Option, none, some, [], ◌∷◌, ◌++◌, arith, ◌==◌, if◌then◌else◌, Bool-cases,
}
use dockprox.Base.Text.{Text}
use dockprox.Vpn.Quote.{
  replace_byte, quote, double_quote, backslash, shell_quote, apple_script_string,
}

-- Where a reader of quoted text is: outside quotes, inside them, or behind a backslash.
pub data Place : Type 0 where
  outside inside behind_backslash : Place

abbrev before : ℕ → Option Text → Option Text
before c none = none
before c (some w) = some (c ∷ w)

-- How `sh` reads one word: within single quotes every byte stands for itself up to the next single
-- quote; outside, a backslash makes the next byte stand for itself, and a byte that is neither a
-- quote nor behind a backslash is refused, since it may be special.
unfoldable pub sh_word : Place → Text → Option Text
sh_word outside [] = some []
sh_word inside [] = none
sh_word behind_backslash [] = none
sh_word outside (c ∷ t) =
    if c == quote
    then sh_word inside t
    else if c == backslash
    then sh_word behind_backslash t
    else none
sh_word inside (c ∷ t) = if c == quote then sh_word outside t else before c (sh_word inside t)
sh_word behind_backslash (c ∷ t) = before c (sh_word outside t)

abbrev shell_escaped : Text → Text
shell_escaped s = replace_byte quote (quote ∷ backslash ∷ quote ∷ quote ∷ []) s

sh_word-replace : (s : Text) → sh_word inside (shell_escaped s ++ quote ∷ []) ≡ some s
unfolding sh_word replace_byte
sh_word-replace [] = refl
sh_word-replace (c ∷ s) = elim (Bool-cases (c == quote)) [
  | inl y ↦ let same : c ≡ quote = ground arith in rw (y, sh_word-replace s, same) refl
  | inr n ↦ rw (n, n, sh_word-replace s) refl
]

-- A quoted text is one word of the shell, and that word is the text: no byte of a path or of the
-- sudoers line ends the quoting or is special within it.
pub shell_quote-word : (s : Text) → sh_word outside (shell_quote s) ≡ some s
unfolding sh_word shell_quote
shell_quote-word s = sh_word-replace s

-- How AppleScript reads a string literal: a backslash makes the next byte stand for itself, and a
-- double quote ends the literal, behind which nothing may follow. `outside` is behind its end.
unfoldable pub literal : Place → Text → Option Text
literal outside [] = some []
literal inside [] = none
literal behind_backslash [] = none
literal outside (c ∷ t) = none
literal inside (c ∷ t) =
    if c == double_quote
    then literal outside t
    else if c == backslash
    then literal behind_backslash t
    else before c (literal inside t)
literal behind_backslash (c ∷ t) = before c (literal inside t)

-- The reading of a whole literal, which begins with a double quote.
unfoldable pub read_literal : Text → Option Text
read_literal [] = none
read_literal (c ∷ t) = if c == double_quote then literal inside t else none

abbrev doubled : Text → Text
doubled s = replace_byte backslash (backslash ∷ backslash ∷ []) s

abbrev escaped : Text → Text
escaped s = replace_byte double_quote (backslash ∷ double_quote ∷ []) s

literal-escaped : (s : Text) → literal inside (escaped (doubled s) ++ double_quote ∷ []) ≡ some s
unfolding literal replace_byte
literal-escaped [] = refl
literal-escaped (c ∷ s) = elim (Bool-cases (c == backslash)) [
  | inl y ↦ let same : c ≡ backslash = ground arith in rw (y, literal-escaped s, same) refl
  | inr n ↦ elim (Bool-cases (c == double_quote)) [
    | inl q ↦ let same : c ≡ double_quote = ground arith in rw (n, q, literal-escaped s, same) refl
    | inr m ↦ rw (n, m, m, n, literal-escaped s) refl
  ]
]

-- A text that is quoted for AppleScript is one string literal, and that literal is the text.
pub apple_script_string-literal : (s : Text) → read_literal (apple_script_string s) ≡ some s
unfolding read_literal apple_script_string
apple_script_string-literal s = literal-escaped s
