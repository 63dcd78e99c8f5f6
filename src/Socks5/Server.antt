-- ===== src/Socks5/Server.antt =====
-- pkg/socks5server/handler.go: the method negotiation, the request and the handler. `net.IP.String`
-- is a parameter, and so are the routing of a host with the dial that follows it.
use dockprox.Base.{
  ℕ, ◌+◌, ◌*◌, Bool, true, false, not, ◌||◌, [], ◌∷◌, Result, ok, err, ◌==◌, if◌then◌else◌,
}
use dockprox.Base.Text.{Text}
use dockprox.Base.HostPort.{join_host_port}
use dockprox.Base.Decimal.{itoa}
use dockprox.Socks5.Wire.{
  Conn, WireError, unsupported_version, unknown_atyp, no_acceptable_method, M, ◌>>=◌, ◌>>◌, return,
  throw, throw_if, read_full, write, byte_at,
}

abbrev pub socks5_version : ℕ
socks5_version = 0x05

abbrev pub method_no_auth : ℕ
method_no_auth = 0x00

abbrev pub method_no_acceptable : ℕ
method_no_acceptable = 0xFF

abbrev pub cmd_connect : ℕ
cmd_connect = 0x01

abbrev pub atyp_ipv4 : ℕ
atyp_ipv4 = 0x01

abbrev pub atyp_domain : ℕ
atyp_domain = 0x03

abbrev pub atyp_ipv6 : ℕ
atyp_ipv6 = 0x04

abbrev pub reply_succeeded : ℕ
reply_succeeded = 0x00

abbrev pub reply_host_unreachable : ℕ
reply_host_unreachable = 0x04

abbrev pub reply_conn_refused : ℕ
reply_conn_refused = 0x05

abbrev pub reply_command_not_supported : ℕ
reply_command_not_supported = 0x07

-- `slices.Contains` on bytes.
unfoldable pub has_byte : ℕ → Text → Bool
has_byte c [] = false
has_byte c (b ∷ t) = b == c || has_byte c t

-- A write whose error is not looked at.
abbrev pub write_anyway : Text → M (Unit {0})
write_anyway b c = (ok tt, (write b c).1)

-- The two ends of negotiateMethod.
unfoldable pub select_method : Bool → M (Unit {0})
select_method true = write (socks5_version ∷ method_no_auth ∷ [])
select_method false = do
  write_anyway (socks5_version ∷ method_no_acceptable ∷ [])
  throw no_acceptable_method

unfoldable pub negotiate_method : M (Unit {0})
negotiate_method = do
  hdr ← read_full 2
  throw_if (not (byte_at hdr 0 == socks5_version)) (unsupported_version (byte_at hdr 0))
  methods ← read_full (byte_at hdr 1)
  select_method (has_byte method_no_auth methods)

-- The cases of the `switch` over the address type.
pub data AddressType : Type 0 where
  ipv4 domain ipv6 : AddressType
  unknown : ℕ → AddressType

unfoldable pub address_type : ℕ → AddressType
address_type a =
    if a == atyp_ipv4
    then ipv4
    else if a == atyp_domain
    then domain
    else if a == atyp_ipv6
    then ipv6
    else unknown a

pub record Request : Type 0 where
  pub cmd : ℕ
  pub host : Text
  pub port : ℕ

-- `binary.BigEndian.Uint16`.
abbrev pub uint16 : Text → ℕ
uint16 b = byte_at b 0 * 256 + byte_at b 1

module _ (ip_string : Text → Text) where
  unfoldable pub read_host : AddressType → M Text
  read_host ipv4 = do ip ← read_full 4; return (ip_string ip)
  read_host domain = do l ← read_full 1; read_full (byte_at l 0)
  read_host ipv6 = do ip ← read_full 16; return (ip_string ip)
  read_host (unknown a) = throw (unknown_atyp a)

  unfoldable pub read_request : M Request
  read_request = do
    hdr ← read_full 4
    throw_if (not (byte_at hdr 0 == socks5_version)) (unsupported_version (byte_at hdr 0))
    host ← read_host (address_type (byte_at hdr 3))
    pb ← read_full 2
    return (record { cmd = byte_at hdr 1; host = host; port = uint16 pb })

unfoldable pub reply_bytes : ℕ → Text
reply_bytes code = socks5_version ∷ code ∷ 0x00 ∷ atyp_ipv4 ∷ 0 ∷ 0 ∷ 0 ∷ 0 ∷ 0 ∷ 0 ∷ []

unfoldable pub write_reply : ℕ → M (Unit {0})
write_reply code = write (reply_bytes code)

-- An error of a dial: whether `net.Error` calls it a timeout.
pub data DialError : Type 0 where
  timeout other : DialError

unfoldable pub reply_code_for : DialError → ℕ
reply_code_for timeout = reply_host_unreachable
reply_code_for other = reply_conn_refused

-- How a connection ends: before the relay, or with it. The relay copies bytes until both ends are
-- done, and is not modelled.
pub data Outcome : Type 0 where
  handshake_failed request_failed : WireError → Outcome
  command_refused : ℕ → Outcome
  dial_failed : Text → DialError → Outcome
  reply_failed : Text → Outcome
  relayed : Text → Outcome

unfoldable pub target_of : Request → Text
target_of r = join_host_port r.host (itoa r.port)

-- `dial host target` dials `target` through the dialer that Server.pick returns for `host`.
module _ (ip_string : Text → Text) (dial : Text → Text → Result DialError (Unit {0})) where
  unfoldable pub finish_reply : Text → Result WireError (Unit {0}) × Conn → Outcome × Conn
  finish_reply target (ok u, c) = (relayed target, c)
  finish_reply target (err e, c) = (reply_failed target, c)

  unfoldable pub after_dial : Text → Result DialError (Unit {0}) → Conn → Outcome × Conn
  after_dial target (err e) c = (dial_failed target e, (write_reply (reply_code_for e) c).1)
  after_dial target (ok u) c = finish_reply target (write_reply reply_succeeded c)

  unfoldable pub after_request : Result WireError Request × Conn → Outcome × Conn
  after_request (err e, c) = (request_failed e, c)
  after_request (ok r, c) =
      if not (r.cmd == cmd_connect)
      then (command_refused r.cmd, (write_reply reply_command_not_supported c).1)
      else after_dial (target_of r) (dial r.host (target_of r)) c

  unfoldable pub after_handshake : Result WireError (Unit {0}) × Conn → Outcome × Conn
  after_handshake (err e, c) = (handshake_failed e, c)
  after_handshake (ok u, c) = after_request (read_request ip_string c)

  unfoldable pub handle : Conn → Outcome × Conn
  handle c = after_handshake (negotiate_method c)
