-- ===== src/Socks5/RoundTrip.antt =====
-- The two ends of the protocol against each other: what the client of pkg/upstream/socks5.go sends
-- is what the server of pkg/socks5server/handler.go reads, and the server's replies satisfy it.
use dockprox.Base.{
  ℕ, ◌+◌, ◌*◌, ◌/◌, ◌%◌, ◌≤◌, ◌<◌, ◌≡◌, refl, true, none, [], ◌∷◌, ◌++◌, arith, Result, ok, err,
  length,
}
use dockprox.Base.Text.{Text, codes, text_eq}
use mathlib.Core.List.{append_assoc}
use dockprox.Config.Schema.{Upstream}
use dockprox.Socks5.Wire.{Conn, write, read_full-append}
use dockprox.Socks5.Server.{
  Request, DialError, Outcome, dial_failed, relayed, domain, address_type, has_byte, select_method,
  negotiate_method, read_host, read_request, reply_bytes, write_reply, reply_code_for, target_of,
  handle, after_handshake, after_request, after_dial, finish_reply,
}
use dockprox.Socks5.Exchange.{
  greeting, greet, authenticate, put_uint16, connect_request, drain, request,
}
use dockprox.Socks5.Client.{
  Network, address_field, talk, greeted, authenticated, send_request, on_wire,
}

abbrev pub conn : Text → Text → Conn
conn i o = record { input = i; output = o; writable = true }

-- The address field of a host by name.
abbrev pub domain_field : Text → Text
domain_field host = 0x03 ∷ length host ∷ host

negotiate_method-greeting :
    (rest out : Text)
    → negotiate_method (conn (greeting 0x00 ++ rest) out)
      ≡ (ok tt, conn rest (out ++ 0x05 ∷ 0x00 ∷ []))
unfolding negotiate_method greeting select_method has_byte write
negotiate_method-greeting rest out =
    rw
      (
        read_full-append (0x05 ∷ 0x01 ∷ []) (0x00 ∷ rest) out true,
        read_full-append (0x00 ∷ []) rest out true,
      )
      refl

read_host-domain :
    (ip_string : Text → Text) (host rest out : Text)
    → read_host ip_string domain (conn (length host ∷ (host ++ rest)) out)
      ≡ (ok host, conn rest out)
unfolding read_host
read_host-domain ip_string host rest out =
    rw
      (
        read_full-append (length host ∷ []) (host ++ rest) out true,
        read_full-append host rest out true,
      )
      refl

uint16-put_uint16 : (port : ℕ) → port < 65536 → (port / 256) % 256 * 256 + port % 256 ≡ port
uint16-put_uint16 port h = omega arith

read_request-connect_request :
    (ip_string : Text → Text) (host rest out : Text) (port : ℕ)
    → port < 65536
    → read_request ip_string (conn (connect_request (domain_field host) port ++ rest) out)
      ≡ (ok (record { cmd = 1; host = host; port = port }), conn rest out)
unfolding read_request connect_request address_type
read_request-connect_request ip_string host rest out port h =
    rw
      (
        append_assoc host (put_uint16 port) rest,
        read_full-append (0x05 ∷ 0x01 ∷ 0x00 ∷ 0x03 ∷ [])
            (length host ∷ (host ++ (put_uint16 port ++ rest))) out true,
        read_host-domain ip_string host (put_uint16 port ++ rest) out,
        read_full-append (put_uint16 port) rest out true,
        uint16-put_uint16 port h,
      )
      refl

-- What the server does with a client's connection, by the result of the dial.
abbrev pub served : Text → Text → Text → Result DialError (Unit {0}) → Outcome × Conn
served target rest out (ok u) = (relayed target, conn rest (out ++ reply_bytes 0x00))
served target rest out (err e) =
    (dial_failed target e, conn rest (out ++ reply_bytes (reply_code_for e)))

after_dial-served :
    (target rest out : Text) (d : Result DialError (Unit {0}))
    → (ip_string : Text → Text) (dial : Text → Text → Result DialError (Unit {0}))
    → after_dial ip_string dial target d (conn rest out) ≡ served target rest out d
unfolding after_dial finish_reply write_reply write
after_dial-served target rest out (ok u) ip_string dial = refl
after_dial-served target rest out (err e) ip_string dial = refl

-- The server reads a client's greeting and its request for a host by name, dials that host and
-- port, and answers both; what follows them is left for the relay.
pub handle-connect_request :
    (ip_string : Text → Text)
    → (dial : Text → Text → Result DialError (Unit {0})) → (host rest out : Text) → (port : ℕ)
    → port < 65536
    → let r : Request = record { cmd = 1; host = host; port = port } in
      handle ip_string dial
        (conn (greeting 0x00 ++ (connect_request (domain_field host) port ++ rest)) out)
      ≡ served (target_of r) rest (out ++ 0x05 ∷ 0x00 ∷ []) (dial host (target_of r))
unfolding handle after_handshake after_request
handle-connect_request ip_string dial host rest out port h =
    rw
      (
        negotiate_method-greeting (connect_request (domain_field host) port ++ rest) out,
        read_request-connect_request ip_string host rest (out ++ 0x05 ∷ 0x00 ∷ []) port h,
      )
      (after_dial-served _ rest (out ++ 0x05 ∷ 0x00 ∷ []) _ ip_string dial)

greet-reply :
    (rest out : Text)
    → greet 0x00 (conn (0x05 ∷ 0x00 ∷ rest) out) ≡ (ok tt, conn rest (out ++ greeting 0x00))
unfolding greet write
greet-reply rest out =
    rw (read_full-append (0x05 ∷ 0x00 ∷ []) rest (out ++ greeting 0x00) true) refl

request-reply :
    (address rest out : Text) (port : ℕ)
    → request address port (conn (reply_bytes 0x00 ++ rest) out)
      ≡ (ok tt, conn rest (out ++ connect_request address port))
unfolding request write drain address_type reply_bytes
request-reply address rest out port =
    rw
      (
        read_full-append (0x05 ∷ 0x00 ∷ 0x00 ∷ 0x01 ∷ []) (0 ∷ 0 ∷ 0 ∷ 0 ∷ 0 ∷ 0 ∷ rest)
            (out ++ connect_request address port) true,
        read_full-append (0 ∷ 0 ∷ 0 ∷ 0 ∷ 0 ∷ 0 ∷ []) rest (out ++ connect_request address port)
            true,
      )
      refl

address_field-remote :
    (n : Network) (host : Text)
    → length host ≤ 255
    → address_field n (codes "remote") host ≡ ok (domain_field host)
unfolding address_field text_eq
address_field-remote n host h = ground arith

-- The client, resolving remotely and without credentials, sends exactly that greeting and request
-- to a server that answers as this one does, and is left with what follows the answers.
pub talk-reply :
    (n : Network) (u : Upstream) (host rest out : Text) (port : ℕ) (creds : Text × Text)
    → u.auth ≡ none
    → u.dns ≡ codes "remote"
    → length host ≤ 255
    → talk n u host port creds (conn (0x05 ∷ 0x00 ∷ (reply_bytes 0x00 ++ rest)) out)
      ≡ ok (conn rest ((out ++ greeting 0x00) ++ connect_request (domain_field host) port))
unfolding talk greeted authenticated authenticate send_request on_wire
talk-reply n u host rest out port creds a d h =
    rw
      (
        a,
        greet-reply (reply_bytes 0x00 ++ rest) out,
        d,
        address_field-remote n host h,
        request-reply (domain_field host) rest (out ++ greeting 0x00) port,
      )
      refl
