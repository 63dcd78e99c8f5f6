-- ===== src/Vpn/Tests.antt =====
-- The tail and the quoting at concrete texts.
use dockprox.Base.{◌≤◌, ◌≡◌, some, [], ◌∷◌, ◌++◌, arith, length}
use dockprox.Base.Text.{Text, codes}
use dockprox.Base.TextLaws.{Lacks}
use dockprox.Vpn.Tail.{Tail, newline, tail_lines, write}
use dockprox.Vpn.TailLaws.{write-append, length-write}
use dockprox.Vpn.Quote.{shell_quote, apple_script_string}
use dockprox.Vpn.QuoteLaws.{
  outside, sh_word, shell_quote-word, read_literal, apple_script_string-literal,
}

abbrev empty : Tail
empty = record { buf = []; lines = [] }

abbrev login : Text
login = codes "Login failed" ++ newline ∷ codes "bye"

write-append_example :
    write (write empty (codes "Login ")) (codes "failed" ++ newline ∷ [])
    ≡ write empty (codes "Login " ++ (codes "failed" ++ newline ∷ []))
write-append_example = write-append empty (codes "Login ") (codes "failed" ++ newline ∷ [])

length-write_example :
    (length (write empty login).lines ≤ tail_lines) × Lacks newline (write empty login).buf
length-write_example = length-write empty login (omega arith)

shell_quote-word_example : sh_word outside (shell_quote (codes "it's")) ≡ some (codes "it's")
shell_quote-word_example = shell_quote-word (codes "it's")

apple_script_string-literal_example :
    read_literal (apple_script_string (codes "a\\b")) ≡ some (codes "a\\b")
apple_script_string-literal_example = apple_script_string-literal (codes "a\\b")
