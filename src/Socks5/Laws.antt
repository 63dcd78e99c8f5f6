-- ===== src/Socks5/Laws.antt =====
-- What the server of pkg/socks5server/handler.go promises of every connection, and how its target
-- reaches the client of pkg/upstream/socks5.go.
use dockprox.Base.{
  ℕ, ◌<◌, ◌≡◌, ◌≢◌, ◌⊎◌, inr, false, none, some, [], arith, Result, ok, err, All-imp,
}
use dockprox.Base.Text.{Text}
use dockprox.Base.HostPortLaws.{HasNoBracket, split_host_port-join_host_port}
use dockprox.Base.TextLaws.{Lacks}
use dockprox.Base.Decimal.{itoa, itoa-IsDigit, atoi-itoa}
use dockprox.Config.Schema.{Upstream}
use dockprox.Socks5.Wire.{Conn, WireError}
use dockprox.Socks5.Server.{
  Request, DialError, Outcome, handshake_failed, request_failed, command_refused, dial_failed,
  reply_failed, relayed, negotiate_method, read_request, write_reply, reply_code_for, target_of,
}
use dockprox.Socks5.Client.{Network, resolve_auth, talk, dial}

-- Digits hold no separator of an address.
Lacks-itoa : (c n : ℕ) → (c < b'0') ⊎ (b'9' < c) → Lacks c (itoa n)
Lacks-itoa c n h = All-imp (itoa n) (λ d k e. ground arith) (itoa-IsDigit n)

-- A target that the server joins from a host and a port reaches an upstream proxy as that host and
-- that port: the client splits it and reads the number back.
pub dial-target_of :
    (n : Network) (u : Upstream) (r : Request) (c : Conn)
    → HasNoBracket r.host
    → r.port < 65536
    → u.auth ≡ none
    → n.connect u.addr ≡ some c
    → dial n u (target_of r) ≡ talk n u r.host r.port ([], []) c
unfolding dial target_of resolve_auth
dial-target_of n u r c hb k a e =
    let digits : HasNoBracket (itoa r.port) =
      (Lacks-itoa b'[' r.port (inr (omega arith)), Lacks-itoa b']' r.port (inr (omega arith))) in
    let colon : Lacks b':' (itoa r.port) = Lacks-itoa b':' r.port (inr (omega arith)) in
    rw
      (
        split_host_port-join_host_port r.host (itoa r.port) hb digits colon,
        atoi-itoa r.port (omega arith),
        a,
        e,
      )
      (ground arith)

module _ (ip_string : Text → Text) (dial_out : Text → Text → Result DialError (Unit {0})) where
  -- How a request that was read on `c` is dealt with: the outcome, the connection then, and whether
  -- the target was dialled.
  abbrev pub Justified : Request → Conn → Outcome × Conn → Type 0
  Justified r c (handshake_failed e, d) = Unit {0} → ⊥
  Justified r c (request_failed e, d) = Unit {0} → ⊥
  Justified r c (command_refused cmd, d) = (cmd ≡ r.cmd) × (cmd ≢ 1) × (d ≡ (write_reply 0x07 c).1)
  Justified r c (dial_failed target e, d) =
      (r.cmd ≡ 1)
      × (target ≡ target_of r)
      × (dial_out r.host target ≡ err e)
      × (d ≡ (write_reply (reply_code_for e) c).1)
  Justified r c (reply_failed target, d) =
      (r.cmd ≡ 1) × (target ≡ target_of r) × (dial_out r.host target ≡ ok tt) × (c.writable ≡ false)
  Justified r c (relayed target, d) =
      (r.cmd ≡ 1)
      × (target ≡ target_of r)
      × (dial_out r.host target ≡ ok tt)
      × (write_reply 0x00 c ≡ (ok tt, d))

  -- A connection is given up in the handshake or in its request, or its request was read and is
  -- dealt with as above.
  abbrev pub Served : Conn → Outcome × Conn → Type 0
  Served c o =
      ((e : WireError) × (d : Conn) × (negotiate_method c ≡ (err e, d))
        × (o ≡ (handshake_failed e, d)))
      ⊎ ((e : WireError) × (d : Conn) × (c' : Conn) × (negotiate_method c ≡ (ok tt, c'))
          × (read_request ip_string c' ≡ (err e, d))
          × (o ≡ (request_failed e, d)))
      ⊎ ((r : Request) × (c' c'' : Conn) × (negotiate_method c ≡ (ok tt, c'))
          × (read_request ip_string c' ≡ (ok r, c''))
          × Justified r c'' o)
