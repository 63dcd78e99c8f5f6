-- ===== src/Vpn/Quote.antt =====
-- The scripts of pkg/openconnect and how they quote: pkg/openconnect/sudoers.go and tunScript of
-- pkg/openconnect/client.go.
use dockprox.Base.{ℕ, [], ◌∷◌, ◌++◌, ◌==◌, if◌then◌else◌}
use dockprox.Base.Text.{Text}

-- `strings.ReplaceAll` of a text of one byte.
unfoldable pub replace_byte : ℕ → Text → Text → Text
replace_byte c by [] = []
replace_byte c by (b ∷ t) = (if b == c then by else b ∷ []) ++ replace_byte c by t

abbrev pub quote : ℕ
quote = 39

abbrev pub double_quote : ℕ
double_quote = 34

abbrev pub backslash : ℕ
backslash = 92

unfoldable pub shell_quote : Text → Text
unfolding replace_byte
shell_quote s = quote ∷ replace_byte quote (quote ∷ backslash ∷ quote ∷ quote ∷ []) s ++ quote ∷ []

unfoldable pub apple_script_string : Text → Text
unfolding replace_byte
apple_script_string s =
    let escaped = replace_byte backslash (backslash ∷ backslash ∷ []) s in
    double_quote ∷ replace_byte double_quote (backslash ∷ double_quote ∷ []) escaped
    ++ double_quote ∷ []
