-- ===== src/Upstream/Http.antt =====
-- HTTPDialer.Dial and tlsConfig of pkg/upstream/http.go, and the check of its URL. The network,
-- files, `Url.Hostname`, the TLS dial, certificate pools, base64 and `http.ReadResponse` are
-- parameters.
use dockprox.Base.{
  ℕ, ◌/◌, Bool, true, false, not, Option, none, some, [], ◌∷◌, ◌++◌, Result, ok, err, ◌==◌,
  if◌then◌else◌, drop, ◌>>=◌, fail_if,
}
use dockprox.Base.Text.{Text, codes, is_empty, text_eq}
use dockprox.Config.Schema.{UpstreamAuth, UpstreamTls, Upstream}
use dockprox.Config.Upstreams.{Url}
use dockprox.Socks5.Wire.{Conn, WireError, write}
use dockprox.Socks5.Client.{DialFailure, Network, resolve_auth}

-- The fields of a tls.Config that are set; `root_cas` is the file of the pool.
pub record TlsConfig : Type 0 where
  pub server_name : Text
  pub insecure_skip_verify : Bool
  pub root_cas : Option Text

-- What `http.ReadResponse` and the Close of the body give: the status, and how many bytes the
-- buffered reader has taken off the connection.
pub record Response : Type 0 where
  pub code : ℕ
  pub status : Text
  pub taken : ℕ

pub record Machine : Type 0 where
  pub net : Network
  pub hostname : Text → Text
  pub connect_tls : TlsConfig → Text → Option Conn
  pub read_file : Text → Option Text
  pub pem_ok : Text → Bool
  pub encode : Text → Text
  pub read_response : Text → Option Response

pub data HttpFailure : Type 0 where
  bad_auth : DialFailure → HttpFailure
  no_ca invalid_ca no_upstream no_response : HttpFailure
  write_failed : WireError → HttpFailure
  refused : Text → HttpFailure

-- A connection that Dial has opened, and whether it has closed it.
pub record Opened : Type 0 where
  pub conn : Conn
  pub is_closed : Bool

abbrev pub Dialled : Type 0
Dialled = Result HttpFailure (Unit {0}) × Option Opened

abbrev pub crlf : Text
crlf = 13 ∷ 10 ∷ []

unfoldable pub is_2xx : ℕ → Bool
is_2xx code = code / 100 == 2

module _ (m : Machine) where
  abbrev pub auth_header : Option UpstreamAuth → Text × Text → Text
  auth_header none creds = []
  auth_header (some a) (username, password) =
      codes "Proxy-Authorization: Basic " ++ m.encode (username ++ b':' ∷ password) ++ crlf

  unfoldable pub connect_text : Option UpstreamAuth → Text × Text → Text → Text
  connect_text auth creds host_port =
      codes "CONNECT "
      ++ host_port
      ++ codes " HTTP/1.1"
      ++ crlf
      ++ codes "Host: "
      ++ host_port
      ++ crlf
      ++ auth_header auth creds
      ++ crlf

  abbrev pub with_pool : TlsConfig → Option Text → Result HttpFailure TlsConfig
  with_pool cfg none = err no_ca
  with_pool cfg (some pem) =
      if m.pem_ok pem then ok (record cfg { root_cas = some pem }) else err invalid_ca

  unfoldable pub tls_config : Url → Option UpstreamTls → Result HttpFailure TlsConfig
  tls_config url none =
      ok (record {
        server_name = m.hostname url.host;
        insecure_skip_verify = false;
        root_cas = none;
      })
  tls_config url (some t) =
      let cfg : TlsConfig = record {
        server_name = m.hostname url.host;
        insecure_skip_verify = t.insecure_skip_verify;
        root_cas = none;
      } in
      if is_empty t.ca_file then ok cfg else with_pool cfg (m.read_file t.ca_file)

  abbrev pub or_no_upstream : Option Conn → Result HttpFailure Conn
  or_no_upstream none = err no_upstream
  or_no_upstream (some c) = ok c

  -- The connection to the proxy, over TLS where the URL says so.
  unfoldable pub open_conn : Url → Upstream → Result HttpFailure Conn
  open_conn url u =
      if text_eq url.scheme (codes "https")
      then (tls_config url u.tls >>= λ cfg. or_no_upstream (m.connect_tls cfg url.host))
      else or_no_upstream (m.net.connect url.host)

  unfoldable pub replied : Option Response → Conn → Result HttpFailure (Unit {0}) × Conn
  replied none c = (err no_response, c)
  replied (some r) c =
      (fail_if (not (is_2xx r.code)) (refused r.status), record c { input = drop r.taken c.input })

  unfoldable pub answered :
      Result WireError (Unit {0}) × Conn → Result HttpFailure (Unit {0}) × Conn
  answered (err e, c) = (err (write_failed e), c)
  answered (ok done, c) = replied (m.read_response c.input) c

  unfoldable pub exchange :
      Upstream → Text → Text × Text → Conn → Result HttpFailure (Unit {0}) × Conn
  exchange u host_port creds c = answered (write (connect_text u.auth creds host_port) c)

  -- The deferred Close of a connection that is not handed out.
  abbrev pub deferred : Result HttpFailure (Unit {0}) × Conn → Dialled
  deferred (ok done, c) = (ok done, some (record { conn = c; is_closed = false }))
  deferred (err e, c) = (err e, some (record { conn = c; is_closed = true }))

  unfoldable pub on_conn : Upstream → Text → Text × Text → Result HttpFailure Conn → Dialled
  on_conn u host_port creds (err e) = (err e, none)
  on_conn u host_port creds (ok c) = deferred (exchange u host_port creds c)

  unfoldable pub with_creds : Url → Upstream → Text → Result DialFailure (Text × Text) → Dialled
  with_creds url u host_port (err e) = (err (bad_auth e), none)
  with_creds url u host_port (ok creds) = on_conn u host_port creds (open_conn url u)

  unfoldable pub dial_http : Url → Upstream → Text → Dialled
  dial_http url u host_port = with_creds url u host_port (resolve_auth m.net u.auth)
