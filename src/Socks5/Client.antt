-- ===== src/Socks5/Client.antt =====
-- Socks5Dialer.Dial of pkg/upstream/socks5.go. The secrets, the resolver, `net.ParseIP` and the TCP
-- dial are parameters.
use dockprox.Base.{
  ℕ, Option, none, some, List, [], ◌∷◌, Result, ok, err, ltb, if◌then◌else◌, length, ◌>>=◌, wrap,
}
use dockprox.Base.Text.{Text, codes, text_eq}
use dockprox.Base.HostPort.{HostPortError, split_host_port}
use dockprox.Base.Decimal.{atoi}
use dockprox.Base.Int.{ℤ, pos, negsuc}
use dockprox.Config.Schema.{Upstream, UpstreamAuth}
use dockprox.Socks5.Wire.{Conn, WireError, hostname_too_long}
use dockprox.Socks5.Exchange.{auth_method, greet, authenticate, request}

-- An address as `To4` and `To16` give its bytes.
pub data Ip : Type 0 where
  v4 v6 : Text → Ip

pub data DialFailure : Type 0 where
  bad_address : HostPortError → DialFailure
  bad_port port_out_of_range : DialFailure
  bad_username bad_password : DialFailure
  no_connection : DialFailure
  unresolved no_addresses : Text → DialFailure
  wire : WireError → DialFailure

-- Everything that Dial uses and that is not in the repository.
pub record Network : Type 0 where
  pub resolve_secret : Text → Option Text
  pub parse_ip : Text → Option Ip
  pub lookup_ip : Text → Option (List Ip)
  pub connect : Text → Option Conn

abbrev pub in_port_range : ℤ → Result DialFailure ℕ
in_port_range (pos n) = if ltb 0xFFFF n then err port_out_of_range else ok n
in_port_range (negsuc n) = err port_out_of_range

abbrev pub parse_port : Option ℤ → Result DialFailure ℕ
parse_port none = err bad_port
parse_port (some i) = in_port_range i

abbrev pub or_failure : Option Text → DialFailure → Result DialFailure Text
or_failure none e = err e
or_failure (some t) e = ok t

-- resolveAuth: the credentials, or empty texts.
unfoldable pub resolve_auth : Network → Option UpstreamAuth → Result DialFailure (Text × Text)
resolve_auth n none = ok ([], [])
resolve_auth n (some a) = elim (or_failure (n.resolve_secret a.username) bad_username) [
  | err e ↦ err e
  | ok username ↦ elim (or_failure (n.resolve_secret a.password) bad_password) [
    | err e ↦ err e
    | ok password ↦ ok (username, password)
  ]
]

abbrev pub ip_field : Ip → Text
ip_field (v4 b) = 0x01 ∷ b
ip_field (v6 b) = 0x04 ∷ b

first_ip : Text → Option (List Ip) → Result DialFailure Ip
first_ip host none = err (unresolved host)
first_ip host (some []) = err (no_addresses host)
first_ip host (some (ip ∷ rest)) = ok ip

-- The `else` branch of the CONNECT request: the address of a host that is resolved here.
unfoldable pub local_ip : Network → Text → Result DialFailure Ip
unfolding first_ip
local_ip n host = elim (n.parse_ip host) [
  | some ip ↦ ok ip
  | none ↦ first_ip host (n.lookup_ip host)
]

-- The address field of the request, or why there is none.
unfoldable pub address_field : Network → Text → Text → Result DialFailure Text
address_field n dns host =
    if text_eq dns (codes "remote")
    then if ltb 255 (length host)
      then err (wire hostname_too_long)
      else ok (0x03 ∷ length host ∷ host)
    else elim (local_ip n host) [ err e ↦ err e | ok ip ↦ ok (ip_field ip) ]

unfoldable pub on_wire : Result WireError (Unit {0}) × Conn → Result DialFailure Conn
on_wire (ok u, c) = ok c
on_wire (err e, c) = err (wire e)

unfoldable pub send_request : ℕ → Conn → Result DialFailure Text → Result DialFailure Conn
send_request port c (err e) = err e
send_request port c (ok address) = on_wire (request address port c)

unfoldable pub authenticated :
    Network → Upstream → Text → ℕ → Result WireError (Unit {0}) × Conn → Result DialFailure Conn
authenticated n u host port (err e, c) = err (wire e)
authenticated n u host port (ok done, c) = send_request port c (address_field n u.dns host)

unfoldable pub greeted :
    Network
    → Upstream
    → Text
    → ℕ
    → Text × Text
    → Result WireError (Unit {0}) × Conn
    → Result DialFailure Conn
greeted n u host port (username, password) (err e, c) = err (wire e)
greeted n u host port (username, password) (ok done, c) =
    authenticated n u host port (authenticate u.auth username password c)

-- The protocol on a fresh connection, which is closed where this fails.
unfoldable pub talk : Network → Upstream → Text → ℕ → Text × Text → Conn → Result DialFailure Conn
talk n u host port creds c = greeted n u host port creds (greet (auth_method u.auth) c)

abbrev pub or_no_connection : Option Conn → Result DialFailure Conn
or_no_connection none = err no_connection
or_no_connection (some c) = ok c

unfoldable pub dial : Network → Upstream → Text → Result DialFailure Conn
dial n u host_port = do
  hp ← wrap bad_address (split_host_port host_port)
  port ← parse_port (atoi hp.1)
  creds ← resolve_auth n u.auth
  c ← or_no_connection (n.connect u.addr)
  talk n u hp.0 port creds c
