-- ===== src/Socks5/Wire.antt =====
-- A net.Conn as the protocol code uses it: the bytes still to be read, those written, and whether a
-- write still succeeds. A protocol step is a function of it that may fail; what was written before
-- a failure stays written.
use dockprox.Base.{
  ℕ, zero, suc, ◌≡◌, refl, Bool, [], ◌∷◌, ◌++◌, arith, Result, ok, err, leb, if◌then◌else◌, length,
  take, drop, length-append, fail_if,
}
use dockprox.Base.Text.{Text}

pub record Conn : Type 0 where
  pub input : Text
  pub output : Text
  pub writable : Bool

pub data WireError : Type 0 where
  short_read write_failed : WireError
  unsupported_version unknown_atyp : ℕ → WireError
  no_acceptable_method : WireError
  method_selected auth_rejected connect_failed : ℕ → WireError
  credential_too_long hostname_too_long : WireError

abbrev pub M : Type 0 → Type 0
M A = Conn → Result WireError A × Conn

abbrev pub and_then :
    {A B : Type 0} → Result WireError A × Conn → (A → M B) → Result WireError B × Conn
and_then (ok a, c) next = next a c
and_then (err e, c) next = (err e, c)

infixl 5 ◌>>=◌ ◌>>◌
abbrev pub ◌>>=◌ : {A B : Type 0} → M A → (A → M B) → M B
◌>>=◌ m next c = and_then (m c) next

abbrev pub ◌>>◌ : {B : Type 0} → M (Unit {0}) → M B → M B
m >> next = m >>= λ done. next

abbrev pub return : {A : Type 0} → A → M A
return a c = (ok a, c)

abbrev pub throw : {A : Type 0} → WireError → M A
throw e c = (err e, c)

abbrev pub throw_if : Bool → WireError → M (Unit {0})
throw_if b e c = (fail_if b e, c)

-- `io.ReadFull` into a buffer of `n` bytes: at the end of the input it has read what was there.
unfoldable pub read_full : ℕ → M Text
read_full n c =
    if leb n (length c.input)
    then (ok (take n c.input), record c { input = drop n c.input })
    else (err short_read, record c { input = [] })

unfoldable pub write : Text → M (Unit {0})
write b c =
    if c.writable then (ok tt, record c { output = c.output ++ b }) else (err write_failed, c)

-- A byte of a buffer that a full read has filled.
abbrev pub byte_at : Text → ℕ → ℕ
byte_at [] i = 0
byte_at (b ∷ t) zero = b
byte_at (b ∷ t) (suc i) = byte_at t i

pub take-length : (t rest : Text) → take (length t) (t ++ rest) ≡ t
take-length [] rest = refl
take-length (b ∷ t) rest = rw (take-length t rest) refl

pub drop-length : (t rest : Text) → drop (length t) (t ++ rest) ≡ rest
drop-length [] rest = refl
drop-length (b ∷ t) rest = drop-length t rest

-- Reading exactly the bytes of `t` leaves what follows them.
pub read_full-append :
    (t rest out : Text) (w : Bool)
    → read_full (length t) (record { input = t ++ rest; output = out; writable = w })
      ≡ (ok t, record { input = rest; output = out; writable = w })
unfolding read_full
read_full-append t rest out w =
    rw (take-length t rest, drop-length t rest) (ground (arith, length-append t rest))
