-- ===== src/Upstream/HttpLaws.antt =====
-- When HTTPDialer.Dial of pkg/upstream/http.go hands out a connection, and which.
use dockprox.Base.{
  ℕ, ◌≤◌, ◌<◌, ◌≡◌, refl, sym, ◌∙◌, ◌↔◌, inl, inr, true, false, Option, none, some, ◌++◌, arith,
  Result, ok, err, Bool-cases, drop, Result-cases,
}
use dockprox.Base.Text.{Text}
use dockprox.Config.Schema.{Upstream}
use dockprox.Config.Upstreams.{Url}
use dockprox.Socks5.Wire.{Conn, write}
use dockprox.Socks5.Client.{resolve_auth}
use dockprox.Upstream.HttpSpec.{
  IsResolved, Connects, request_head, connect_text-request_head, resolve_auth_iff, open_conn_iff,
}
use dockprox.Upstream.Http.{
  is_2xx, Machine, HttpFailure, Response, Opened, Dialled, connect_text, open_conn, replied,
  answered, exchange, deferred, on_conn, with_creds, dial_http,
}

is_2xx-of_bounds : (code : ℕ) → 200 ≤ code → code < 300 → is_2xx code ≡ true
unfolding is_2xx
is_2xx-of_bounds code low high = ground arith

is_2xx-bounds : (code : ℕ) → is_2xx code ≡ true → (200 ≤ code) × (code < 300)
unfolding is_2xx
is_2xx-bounds code e = (ground arith, ground arith)

write-writable :
    (b : Text) (c : Conn)
    → c.writable ≡ true
    → write b c ≡ (ok tt, record c { output = c.output ++ b })
unfolding write
write-writable b c e = rw e refl

handed_out : {d d' : Dialled} {s t : Opened} → d ≡ d' → d.1 ≡ some s → d'.1 ≡ some t → t ≡ s
handed_out e f g = ground arith

-- Two connections with the same fields.
same_fields :
    {s t : Opened}
    → s.conn.input ≡ t.conn.input
    → s.conn.output ≡ t.conn.output
    → s.conn.writable ≡ t.conn.writable
    → s.is_closed ≡ t.is_closed
    → s ≡ t
same_fields e f g h =
    λ i. record { conn = record { input = e i; output = f i; writable = g i }; is_closed = h i }

-- The connection as the tunnel begins.
abbrev tunnel : Machine → Upstream → Text → Text × Text → Conn → Response → Conn
tunnel m u host_port creds c r = record c {
  output = c.output ++ connect_text m u.auth creds host_port;
  input = drop r.taken c.input;
}

module _ (m : Machine) (url : Url) (u : Upstream) (host_port : Text) where
  -- The steps of Dial succeed.
  abbrev Runs : Text × Text → Conn → Response → Type 0
  Runs creds c r =
      (resolve_auth m.net u.auth ≡ ok creds)
      × (open_conn m url u ≡ ok c)
      × (c.writable ≡ true)
      × (m.read_response c.input ≡ some r)
      × (200 ≤ r.code)
      × (r.code < 300)

  abbrev IsOpened : Opened → Type 0
  IsOpened s =
      (creds : Text × Text) × (c : Conn) × (r : Response) × Runs creds c r
      × (s ≡ record { conn = tunnel m u host_port creds c r; is_closed = false })

  dial_http-accepted :
      (creds : Text × Text) (c : Conn) (r : Response)
      → Runs creds c r
      → dial_http m url u host_port
        ≡ (ok tt, some (record { conn = tunnel m u host_port creds c r; is_closed = false }))
  unfolding dial_http with_creds on_conn exchange answered replied write
  dial_http-accepted creds c r (auth, opens, takes, answers, low, high) =
      rw (auth, opens, takes, answers, is_2xx-of_bounds r.code low high) refl

  replied-ok :
      (answer : Option Response) (c : Conn) (s : Opened)
      → deferred m (replied m answer c) ≡ (ok tt, some s)
      → (r : Response) × (answer ≡ some r)
        × (200 ≤ r.code)
        × (r.code < 300)
        × (s ≡ record { conn = record c { input = drop r.taken c.input }; is_closed = false })
  unfolding replied
  replied-ok none c s e = cc
  replied-ok (some r) c s e = elim (Bool-cases (is_2xx r.code)) [
    | inl good ↦
        let (low, high) = is_2xx-bounds r.code good in
        (r, refl, low, high, handed_out (rw good at e) refl refl)
    | inr bad ↦ let refusal = rw bad at e in cc
  ]

  exchange-ok :
      (creds : Text × Text) (c : Conn) (s : Opened)
      → resolve_auth m.net u.auth ≡ ok creds
      → open_conn m url u ≡ ok c
      → deferred m (exchange m u host_port creds c) ≡ (ok tt, some s)
      → IsOpened s
  unfolding exchange answered write
  exchange-ok creds c s auth opens e = elim (Bool-cases c.writable) [
    | inl takes ↦
        let (r, answers, low, high, shape) =
          replied-ok (m.read_response c.input)
            (record c { output = c.output ++ connect_text m u.auth creds host_port }) s
            (rw (write-writable (connect_text m u.auth creds host_port) c takes) at e) in
        (creds, c, r, (auth, opens, takes, answers, low, high), shape)
    | inr broken ↦ let failure = rw broken at e in cc
  ]

  dial_http-IsOpened : (s : Opened) → dial_http m url u host_port ≡ (ok tt, some s) → IsOpened s
  unfolding dial_http with_creds on_conn
  dial_http-IsOpened s e = elim (Result-cases (resolve_auth m.net u.auth)) [
    | inr (f, fails) ↦ let failure = rw fails at e in cc
    | inl (creds, auth) ↦ elim (Result-cases (open_conn m url u)) [
      | inr (f, fails) ↦ let failure = rw (auth, fails) at e in cc
      | inl (c, opens) ↦ exchange-ok creds c s auth opens (rw (auth, opens) at e)
    ]
  ]

  exchange-closed :
      (f : HttpFailure) (p : Result HttpFailure (Unit {0}) × Conn) (s : Opened)
      → deferred m p ≡ (err f, some s)
      → s.is_closed ≡ true
  exchange-closed f (ok done, c) s e = cc
  exchange-closed f (err g, c) s e = rw (handed_out e refl refl) refl

  dial_http-closed :
      (f : HttpFailure) (s : Opened)
      → dial_http m url u host_port ≡ (err f, some s)
      → s.is_closed ≡ true
  unfolding dial_http with_creds on_conn
  dial_http-closed f s e = elim (Result-cases (resolve_auth m.net u.auth)) [
    | inr (g, fails) ↦ let failure = rw fails at e in cc
    | inl (creds, auth) ↦ elim (Result-cases (open_conn m url u)) [
      | inr (g, fails) ↦ let failure = rw (auth, fails) at e in cc
      | inl (c, opens) ↦
          exchange-closed f (exchange m u host_port creds c) s (rw (auth, opens) at e)
    ]
  ]

  -- The proxy took the request and accepted it.
  abbrev pub IsAccepted : Text × Text → Conn → Response → Type 0
  IsAccepted creds c r =
      IsResolved m u.auth creds
      × Connects m url u c
      × (c.writable ≡ true)
      × (m.read_response c.input ≡ some r)
      × (200 ≤ r.code)
      × (r.code < 300)

  abbrev pub IsTunnel : Opened → Type 0
  IsTunnel s =
      (creds : Text × Text) × (c : Conn) × (r : Response) × IsAccepted creds c r
      × (s.conn.output ≡ c.output ++ request_head m u.auth creds host_port)
      × (s.conn.input ≡ drop r.taken c.input)
      × (s.conn.writable ≡ true)
      × (s.is_closed ≡ false)

  IsOpened-IsTunnel : (s : Opened) → IsOpened s → IsTunnel s
  IsOpened-IsTunnel s (creds, c, r, (auth, opens, takes, answers, low, high), shape) = (
    creds,
    c,
    r,
    (
      (resolve_auth_iff m u.auth creds).0 auth,
      (open_conn_iff m url u c).0 opens,
      takes,
      answers,
      low,
      high,
    ),
    rw (shape, connect_text-request_head m u.auth creds host_port) refl,
    rw shape refl,
    rw shape takes,
    rw shape refl,
  )

  IsTunnel-IsOpened : (s : Opened) → IsTunnel s → IsOpened s
  IsTunnel-IsOpened s
        (creds, c, r, (auth, opens, takes, answers, low, high), wrote, left, writes, unclosed) =
      (
        creds,
        c,
        r,
        (
          (resolve_auth_iff m u.auth creds).1 auth,
          (open_conn_iff m url u c).1 opens,
          takes,
          answers,
          low,
          high,
        ),
        same_fields left (rw (connect_text-request_head m u.auth creds host_port) wrote)
            (writes ∙ sym takes) unclosed,
      )

  -- Dial hands out a connection exactly when the credentials resolve, the proxy is reached, over
  -- TLS exactly if the URL says so, takes the CONNECT request for the target, with a header of the
  -- credentials exactly if there are any, and answers with a 2xx status; it is then open, with that
  -- request written and what was read taken off. A connection that an error follows is closed.
  pub dial_http_iff :
      (s : Opened)
      → ((dial_http m url u host_port ≡ (ok tt, some s)) ↔ IsTunnel s)
        × ((f : HttpFailure) → dial_http m url u host_port ≡ (err f, some s) → s.is_closed ≡ true)
  dial_http_iff s = (
    (
      (λ e. IsOpened-IsTunnel s (dial_http-IsOpened s e)),
      λ t.
          let (creds, c, r, runs, shape) = IsTunnel-IsOpened s t in
          rw shape (dial_http-accepted creds c r runs),
    ),
    λ f e. dial_http-closed f s e,
  )
