-- ===== src/Upstream/HttpSpec.antt =====
-- What HTTPDialer.Dial of pkg/upstream/http.go is to do before it hands out a connection: the
-- credentials, the connection to the proxy and the request, as the protocol has them.
use dockprox.Base.{
  ◌≡◌, refl, sym, ap, ◌∙◌, ◌≢◌, ◌↔◌, ◌⊎◌, inl, inr, true, false, Option, none, some, List, [], ◌∷◌,
  ◌++◌, arith, Result, ok, Bool-cases, Option-cases, Result-cases,
}
use dockprox.Base.Text.{Text, codes, is_empty, text_eq, text_eq_iff}
use mathlib.Core.List.{append_assoc}
use mathlib.Core.Path.{subst}
use dockprox.Config.Schema.{UpstreamAuth, UpstreamTls, Upstream}
use dockprox.Config.Upstreams.{Url}
use dockprox.Socks5.Wire.{Conn}
use dockprox.Socks5.Client.{resolve_auth}
use dockprox.Upstream.Http.{
  TlsConfig, Machine, HttpFailure, crlf, connect_text, tls_config, open_conn,
}

-- The lines of the head of a request, each ended, and the empty one behind them.
abbrev pub head : List Text → Text
head [] = crlf
head (l ∷ ls) = l ++ crlf ++ head ls

ok_inj : {a b : TlsConfig} → ◌≡◌ {A = Result HttpFailure TlsConfig} (ok a) (ok b) → a ≡ b
ok_inj e = ground arith

module _ (m : Machine) where
  -- The values that the two references name, where there are any.
  abbrev pub IsResolved : Option UpstreamAuth → Text × Text → Type 0
  IsResolved none creds = creds ≡ ([], [])
  IsResolved (some a) creds =
      (m.net.resolve_secret a.username ≡ some creds.0)
      × (m.net.resolve_secret a.password ≡ some creds.1)

  abbrev pub HasPool : Text → Option Text → Type 0
  HasPool ca_file pool =
      ((ca_file ≡ []) × (pool ≡ none))
      ⊎ ((ca_file ≢ [])
          × (pem : Text) × (m.read_file ca_file ≡ some pem)
          × (m.pem_ok pem ≡ true)
          × (pool ≡ some pem))

  abbrev pub IsTls : Url → Option UpstreamTls → TlsConfig → Type 0
  IsTls url none cfg =
      cfg
      ≡ record { server_name = m.hostname url.host; insecure_skip_verify = false; root_cas = none }
  IsTls url (some t) cfg =
      (cfg.server_name ≡ m.hostname url.host)
      × (cfg.insecure_skip_verify ≡ t.insecure_skip_verify)
      × HasPool t.ca_file cfg.root_cas

  -- The proxy is reached over TLS exactly if the scheme of its URL is https.
  abbrev pub Connects : Url → Upstream → Conn → Type 0
  Connects url u c =
      ((url.scheme ≡ codes "https")
        × (cfg : TlsConfig) × IsTls url u.tls cfg
        × (m.connect_tls cfg url.host ≡ some c))
      ⊎ ((url.scheme ≢ codes "https") × (m.net.connect url.host ≡ some c))

  abbrev pub auth_lines : Option UpstreamAuth → Text × Text → List Text
  auth_lines none creds = []
  auth_lines (some a) (username, password) =
      (codes "Proxy-Authorization: Basic " ++ m.encode (username ++ b':' ∷ password)) ∷ []

  abbrev pub request_head : Option UpstreamAuth → Text × Text → Text → Text
  request_head auth creds target = head (
      (codes "CONNECT " ++ target ++ codes " HTTP/1.1")
      ∷ (codes "Host: " ++ target)
      ∷ auth_lines auth creds)

  resolve_auth-IsResolved :
      (auth : Option UpstreamAuth) (creds : Text × Text)
      → resolve_auth m.net auth ≡ ok creds
      → IsResolved auth creds
  unfolding resolve_auth
  resolve_auth-IsResolved none creds e = ground arith
  resolve_auth-IsResolved (some a) creds e = elim (Option-cases (m.net.resolve_secret a.username)) [
    | inl f ↦ let failure = rw (resolve_auth, f) at e in cc
    | inr (name, f) ↦ elim (Option-cases (m.net.resolve_secret a.password)) [
      | inl g ↦ let failure = rw (resolve_auth, f, g) at e in cc
      | inr (pass, g) ↦
          let whole = rw (resolve_auth, f, g) at e in (f ∙ ground arith, g ∙ ground arith)
    ]
  ]

  IsResolved-resolve_auth :
      (auth : Option UpstreamAuth) (creds : Text × Text)
      → IsResolved auth creds
      → resolve_auth m.net auth ≡ ok creds
  unfolding resolve_auth
  IsResolved-resolve_auth none creds e = rw e refl
  IsResolved-resolve_auth (some a) creds (f, g) = rw (resolve_auth, f, g) refl

  tls_config-IsTls :
      (url : Url) (t : Option UpstreamTls) (cfg : TlsConfig)
      → tls_config m url t ≡ ok cfg
      → IsTls url t cfg
  unfolding tls_config
  tls_config-IsTls url none cfg e = ground arith
  tls_config-IsTls url (some t) cfg e = elim (Bool-cases (is_empty t.ca_file)) [
    | inl f ↦
        let whole = rw f at e in
        subst (λ k. IsTls url (some t) k) (ok_inj whole) (refl, refl, inl (ground arith, refl))
    | inr f ↦ elim (Option-cases (m.read_file t.ca_file)) [
      | inl g ↦ let failure = rw (f, g) at e in cc
      | inr (pem, g) ↦ elim (Bool-cases (m.pem_ok pem)) [
        | inr h ↦ let failure = rw (f, g, h) at e in cc
        | inl h ↦
            let whole = rw (f, g, h) at e in
            subst (λ k. IsTls url (some t) k) (ok_inj whole)
              (refl, refl, inr (ground arith, pem, g, h, refl))
      ]
    ]
  ]

  IsTls-tls_config :
      (url : Url) (t : Option UpstreamTls) (cfg : TlsConfig)
      → IsTls url t cfg
      → tls_config m url t ≡ ok cfg
  unfolding tls_config
  IsTls-tls_config url none cfg e = rw e refl
  IsTls-tls_config url (some t) cfg (name, skip, inl (f, pool)) =
      let bare : is_empty t.ca_file ≡ true = ground arith in
      rw (bare, ← name, ← skip) (ap (λ p. ok (record cfg { root_cas = p })) (sym pool))
  IsTls-tls_config url (some t) cfg (name, skip, inr (f, pem, g, h, pool)) =
      let given : is_empty t.ca_file ≡ false = ground arith in
      rw (given, g, h, ← name, ← skip) (ap (λ p. ok (record cfg { root_cas = p })) (sym pool))

  open_conn-Connects :
      (url : Url) (u : Upstream) (c : Conn) → open_conn m url u ≡ ok c → Connects url u c
  unfolding open_conn
  open_conn-Connects url u c e = elim (Bool-cases (text_eq url.scheme (codes "https"))) [
    | inr f ↦ elim (Option-cases (m.net.connect url.host)) [
      | inl g ↦ let failure = rw (f, g) at e in cc
      | inr (d, g) ↦
          let whole = rw (f, g) at e in
          inr
            ((λ q. ground (arith, (text_eq_iff url.scheme (codes "https")).1 q)), g ∙ ground arith)
    ]
    | inl f ↦ elim (Result-cases (tls_config m url u.tls)) [
      | inr (x, g) ↦ let failure = rw (f, g) at e in cc
      | inl (cfg, g) ↦ elim (Option-cases (m.connect_tls cfg url.host)) [
        | inl h ↦ let failure = rw (f, g, h) at e in cc
        | inr (d, h) ↦
            let whole = rw (f, g, h) at e in
            inl (
              (text_eq_iff url.scheme (codes "https")).0 f,
              cfg,
              tls_config-IsTls url u.tls cfg g,
              h ∙ ground arith,
            )
      ]
    ]
  ]

  Connects-open_conn :
      (url : Url) (u : Upstream) (c : Conn) → Connects url u c → open_conn m url u ≡ ok c
  unfolding open_conn
  Connects-open_conn url u c (inl (f, cfg, g, h)) =
      rw ((text_eq_iff url.scheme (codes "https")).1 f, IsTls-tls_config url u.tls cfg g, h) refl
  Connects-open_conn url u c (inr (f, g)) = elim (Bool-cases (text_eq url.scheme (codes "https"))) [
    | inl e ↦ absurd (f ((text_eq_iff url.scheme (codes "https")).0 e))
    | inr e ↦ rw (e, g) refl
  ]

  pub connect_text-request_head :
      (auth : Option UpstreamAuth) (creds : Text × Text) (target : Text)
      → connect_text m auth creds target ≡ request_head auth creds target
  unfolding connect_text
  connect_text-request_head none creds target = simp append_assoc
  connect_text-request_head (some a) (name, pass) target = simp append_assoc

  pub resolve_auth_iff :
      (auth : Option UpstreamAuth) (creds : Text × Text)
      → (resolve_auth m.net auth ≡ ok creds) ↔ IsResolved auth creds
  resolve_auth_iff auth creds =
      (resolve_auth-IsResolved auth creds, IsResolved-resolve_auth auth creds)

  pub open_conn_iff :
      (url : Url) (u : Upstream) (c : Conn) → (open_conn m url u ≡ ok c) ↔ Connects url u c
  open_conn_iff url u c = (open_conn-Connects url u c, Connects-open_conn url u c)
