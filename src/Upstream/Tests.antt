-- ===== src/Upstream/Tests.antt =====
-- An HTTP upstream that accepts, and that sends the first byte of the tunnel with its response.
use dockprox.Base.{◌≡◌, refl, ◌↔◌, true, false, none, some, [], ◌∷◌, ◌++◌, ok, err}
use dockprox.Base.Text.{Text, codes, text_eq}
use dockprox.Config.Schema.{Upstream}
use dockprox.Config.Tests.{blank}
use dockprox.Config.Upstreams.{Url}
use dockprox.Socks5.Wire.{Conn, write}
use dockprox.Socks5.Client.{resolve_auth}
use dockprox.Upstream.Http.{
  is_2xx, Machine, HttpFailure, Opened, connect_text, open_conn, replied, answered, exchange,
  on_conn, with_creds, dial_http,
}
use dockprox.Upstream.HttpLaws.{IsTunnel, dial_http_iff}

abbrev answer : Conn
answer = record { input = codes "HTTP/1.1 200 OK. S"; output = []; writable = true }

abbrev accepting : Machine
accepting = record {
  net = record {
    resolve_secret = λ t. some t;
    parse_ip = λ t. none;
    lookup_ip = λ t. none;
    connect = λ a. some answer;
  };
  hostname = λ t. t;
  connect_tls = λ cfg a. none;
  read_file = λ t. none;
  pem_ok = λ t. false;
  encode = λ t. t;
  read_response = λ t. some (record { code = 200; status = codes "200 OK"; taken = 18 });
}

abbrev proxy_url : Url
proxy_url = record { scheme = codes "http"; host = codes "127.0.0.1:3128" }

abbrev proxy_upstream : Upstream
proxy_upstream = record blank {
  auth = some (record { username = codes "ann"; password = codes "pw" });
}

abbrev db : Text
db = codes "db:5432"

abbrev tunnelled : Opened
tunnelled = record {
  conn = record {
    input = [];
    output =
        codes "CONNECT db:5432 HTTP/1.1"
        ++ (13 ∷ 10 ∷ [])
        ++ codes "Host: db:5432"
        ++ (13 ∷ 10 ∷ [])
        ++ codes "Proxy-Authorization: Basic ann:pw"
        ++ (13 ∷ 10 ∷ 13 ∷ 10 ∷ []);
    writable = true;
  };
  is_closed = false;
}

dial_http_run : dial_http accepting proxy_url proxy_upstream db ≡ (ok tt, some tunnelled)
unfolding dial_http with_creds on_conn exchange answered replied write open_conn connect_text is_2xx
    text_eq resolve_auth
dial_http_run = refl

dial_http_iff_example :
    ((dial_http accepting proxy_url proxy_upstream db ≡ (ok tt, some tunnelled))
      ↔ IsTunnel accepting proxy_url proxy_upstream db tunnelled)
    × ((f : HttpFailure)
        → dial_http accepting proxy_url proxy_upstream db ≡ (err f, some tunnelled)
        → tunnelled.is_closed ≡ true)
dial_http_iff_example = dial_http_iff accepting proxy_url proxy_upstream db tunnelled
