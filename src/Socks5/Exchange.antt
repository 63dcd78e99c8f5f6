-- ===== src/Socks5/Exchange.antt =====
-- What Socks5Dialer.Dial of pkg/upstream/socks5.go writes and reads once it is connected.
use dockprox.Base.{
  ℕ, ◌+◌, ◌/◌, ◌%◌, not, ◌||◌, Option, none, some, [], ◌∷◌, ◌++◌, ltb, ◌==◌, length,
}
use dockprox.Base.Text.{Text}
use dockprox.Config.Schema.{UpstreamAuth}
use dockprox.Socks5.Wire.{
  method_selected, auth_rejected, connect_failed, unknown_atyp, credential_too_long, M, ◌>>=◌, ◌>>◌,
  return, throw, throw_if, read_full, write, byte_at,
}
use dockprox.Socks5.Server.{AddressType, ipv4, domain, ipv6, unknown, address_type}

abbrev pub auth_method : Option UpstreamAuth → ℕ
auth_method none = 0x00
auth_method (some a) = 0x02

unfoldable pub greeting : ℕ → Text
greeting method = 0x05 ∷ 0x01 ∷ method ∷ []

unfoldable pub greet : ℕ → M (Unit {0})
greet method = do
  write (greeting method)
  hdr ← read_full 2
  throw_if (not (byte_at hdr 0 == 0x05) || not (byte_at hdr 1 == method))
      (method_selected (byte_at hdr 1))

unfoldable pub credentials : Text → Text → Text
credentials username password = 0x01 ∷ length username ∷ username ++ length password ∷ password

unfoldable pub authenticate : Option UpstreamAuth → Text → Text → M (Unit {0})
authenticate none username password = return tt
authenticate (some a) username password = do
  throw_if (ltb 255 (length username) || ltb 255 (length password)) credential_too_long
  write (credentials username password)
  resp ← read_full 2
  throw_if (not (byte_at resp 1 == 0x00)) (auth_rejected (byte_at resp 1))

-- `binary.BigEndian.PutUint16` of a `uint16`.
abbrev pub put_uint16 : ℕ → Text
put_uint16 port = (port / 256) % 256 ∷ port % 256 ∷ []

unfoldable pub connect_request : Text → ℕ → Text
connect_request address port = 0x05 ∷ 0x01 ∷ 0x00 ∷ address ++ put_uint16 port

-- The bound address of the reply is read and dropped.
unfoldable pub drain : AddressType → M (Unit {0})
drain ipv4 = do b ← read_full 6; return tt
drain domain = do n ← read_full 1; b ← read_full (byte_at n 0 + 2); return tt
drain ipv6 = do b ← read_full 18; return tt
drain (unknown a) = throw (unknown_atyp a)

unfoldable pub request : Text → ℕ → M (Unit {0})
request address port = do
  write (connect_request address port)
  head ← read_full 4
  throw_if (not (byte_at head 1 == 0x00)) (connect_failed (byte_at head 1))
  drain (address_type (byte_at head 3))
