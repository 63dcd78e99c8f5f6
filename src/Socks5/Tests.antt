-- ===== src/Socks5/Tests.antt =====
-- The properties of the two ends of the protocol at concrete connections.
use dockprox.Base.{◌≡◌, refl, none, some, [], ◌∷◌, ◌++◌, arith, Result, ok, err, if◌then◌else◌}
use dockprox.Base.Text.{Text, codes, text_eq}
use dockprox.Config.Schema.{Upstream}
use dockprox.Config.Tests.{blank}
use dockprox.Socks5.Wire.{read_full, write}
use dockprox.Socks5.Server.{
  Request, DialError, other, command_refused, handle, reply_bytes, after_handshake,
  negotiate_method, select_method, has_byte, after_request, read_request, read_host, address_type,
  write_reply, target_of,
}
use dockprox.Socks5.Exchange.{greeting, connect_request}
use dockprox.Socks5.Client.{Network, talk, dial}
use dockprox.Socks5.RoundTrip.{conn, domain_field, served, handle-connect_request, talk-reply}
use dockprox.Socks5.Laws.{dial-target_of}

abbrev unparsed : Text → Text
unparsed ip = ip

abbrev refusing : Text → Text → Result DialError (Unit {0})
refusing host target = if text_eq host (codes "ghcr.io") then ok tt else err other

abbrev example_host : Text
example_host = codes "ghcr.io"

abbrev example_request : Request
example_request = record { cmd = 1; host = example_host; port = 443 }

handle-connect_request_example :
    handle unparsed refusing
      (conn (greeting 0x00 ++ (connect_request (domain_field example_host) 443 ++ codes "GET")) [])
    ≡ served (target_of example_request) (codes "GET") (0x05 ∷ 0x00 ∷ []) (ok tt)
unfolding text_eq
handle-connect_request_example =
    handle-connect_request unparsed refusing example_host (codes "GET") [] 443 (omega arith)

-- A request to bind is refused.
handle_bind :
    handle unparsed refusing
      (conn (0x05 ∷ 0x01 ∷ 0x00 ∷ 0x05 ∷ 0x02 ∷ 0x00 ∷ 0x01 ∷ 1 ∷ 1 ∷ 1 ∷ 1 ∷ 0 ∷ 80 ∷ []) [])
    ≡ (command_refused 2, conn [] (0x05 ∷ 0x00 ∷ reply_bytes 0x07))
unfolding handle after_handshake negotiate_method read_full select_method has_byte write
    after_request read_request read_host address_type write_reply reply_bytes
handle_bind = refl

abbrev proxy_reply : Text
proxy_reply = 0x05 ∷ 0x00 ∷ (reply_bytes 0x00 ++ codes "hello")

abbrev one_proxy : Network
one_proxy = record {
  resolve_secret = λ t. some t;
  parse_ip = λ t. none;
  lookup_ip = λ t. none;
  connect = λ a. some (conn proxy_reply []);
}

abbrev proxy_upstream : Upstream
proxy_upstream = record blank { addr = codes "127.0.0.1:1080"; dns = codes "remote" }

talk-reply_example :
    talk one_proxy proxy_upstream example_host 443 ([], []) (conn proxy_reply [])
    ≡ ok (
        conn
          (codes "hello")
          (([] ++ greeting 0x00) ++ connect_request (domain_field example_host) 443))
talk-reply_example =
    talk-reply one_proxy proxy_upstream example_host (codes "hello") [] 443 ([], []) refl refl
      (omega arith)

dial-target_of_example :
    dial one_proxy proxy_upstream (target_of example_request)
    ≡ talk one_proxy proxy_upstream example_host 443 ([], []) (conn proxy_reply [])
dial-target_of_example =
    dial-target_of one_proxy proxy_upstream example_request (conn proxy_reply []) (ground arith)
      (omega arith) refl refl
