-- ===== src/Config/UpstreamSound.antt =====
-- What Upstream.validate of pkg/config/validate.go accepts.
use dockprox.Base.{
  ◌≤◌, ◌≡◌, refl, ◌≢◌, ◌↔◌, ◌⊎◌, inl, inr, Bool, true, false, Option, none, some, [], arith, Result,
  ok, err, if◌then◌else◌, Result-cases,
}
use dockprox.Base.Text.{Text, codes, is_empty, text_eq, text_eq_iff, cut_last}
use dockprox.Base.HostPort.{missing_port, split_at, split_host_port}
use dockprox.Base.Int.{ℤ, pos, negsuc, eq_ℕ}
use dockprox.Config.Schema.{
  Upstream, UpstreamAuth, UpstreamKind, socks5, http, direct, ssh, forward, openconnect, unknown,
  upstream_kind, upstream_ssh, upstream_openconnect,
}
use dockprox.Config.Upstreams.{
  Url, UpstreamError, validate_fingerprint, validate_ssh, reject_ssh_fields,
  reject_openconnect_fields, contains_text, openconnect_protocols, no_username, check_server,
  validate_openconnect, validate_kind, validate_upstream,
}

-- A TCP port, or 0 for none.
abbrev pub IsPort : ℤ → Type 0
IsPort (pos n) = n ≤ 65535
IsPort (negsuc n) = ⊥

pub record IsSsh (u : Upstream) : Type 0 where
  pub host : u.host ≢ []
  pub port : IsPort u.port
  pub key : (u.key_file ≢ []) ⊎ (u.identity_agent ≢ [])
  pub host_key : (u.host_key ≡ []) ⊎ (validate_fingerprint u.host_key ≡ ok tt)

-- No ssh field is set.
pub record HasNoSsh (u : Upstream) : Type 0 where
  pub host : u.host ≡ []
  pub port : u.port ≡ pos 0
  pub user : u.user ≡ []
  pub key_file : u.key_file ≡ []
  pub key_file_passphrase : u.key_file_passphrase ≡ []
  pub identity_agent : u.identity_agent ≡ []
  pub host_key : u.host_key ≡ []
  pub via : u.via ≡ []

-- No openconnect field is set.
pub record HasNoOpenconnect (u : Upstream) : Type 0 where
  pub server : u.server ≡ []
  pub protocol : u.protocol ≡ []
  pub server_cert : u.server_cert ≡ []
  pub tun : u.tun ≡ false

pub is_empty_iff : (t : Text) → (is_empty t ≡ true) ↔ (t ≡ [])
is_empty_iff t = ground arith

is_zero_iff : (i : ℤ) → (eq_ℕ i 0 ≡ true) ↔ (i ≡ pos 0)
is_zero_iff (pos n) = ground arith
is_zero_iff (negsuc n) = ground arith

reject_ssh_fields-HasNoSsh : (u : Upstream) → reject_ssh_fields u ≡ ok tt → HasNoSsh u
unfolding reject_ssh_fields
reject_ssh_fields-HasNoSsh u e = let zero_port = is_zero_iff u.port in ground arith

reject_openconnect_fields-HasNoOpenconnect :
    (u : Upstream) → reject_openconnect_fields u ≡ ok tt → HasNoOpenconnect u
unfolding reject_openconnect_fields
reject_openconnect_fields-HasNoOpenconnect u e = ground arith

validate_ssh-IsSsh : (u : Upstream) → validate_ssh u ≡ ok tt → IsSsh u
unfolding validate_ssh
validate_ssh-IsSsh u e = ground arith

IsSsh-validate_ssh : (u : Upstream) → IsSsh u → validate_ssh u ≡ ok tt
unfolding validate_ssh
IsSsh-validate_ssh u e = ground arith

HasNoSsh-reject_ssh_fields : (u : Upstream) → HasNoSsh u → reject_ssh_fields u ≡ ok tt
unfolding reject_ssh_fields
HasNoSsh-reject_ssh_fields u h = ground arith

HasNoOpenconnect-reject_openconnect_fields :
    (u : Upstream) → HasNoOpenconnect u → reject_openconnect_fields u ≡ ok tt
unfolding reject_openconnect_fields
HasNoOpenconnect-reject_openconnect_fields u h = ground arith

pub split_host_port-ne : (s : Text) (hp : Text × Text) → split_host_port s ≡ ok hp → s ≢ []
split_host_port-ne s hp e n =
    let none_there : split_host_port [] ≡ err missing_port =
      unfold split_host_port split_at cut_last in refl in
    cc

check_server-ok :
    (s : Text) (o : Option Url)
    → check_server s o ≡ ok tt
    → (v : Url) × (o ≡ some v) × (v.scheme ≡ codes "https") × (v.host ≢ [])
unfolding check_server
check_server-ok s none e = cc
check_server-ok s (some v) e =
    (v, refl, ground (arith, text_eq_iff v.scheme (codes "https")), ground arith)

no_username-false :
    (o : Option UpstreamAuth)
    → no_username o ≡ false
    → (a : UpstreamAuth) × (o ≡ some a) × (a.username ≢ [])
unfolding no_username
no_username-false none e = cc
no_username-false (some a) e = (a, refl, ground arith)

unless_ok :
    (b : Bool) (m : Result UpstreamError (Unit {0}))
    → (b ≢ true → m ≡ ok tt)
    → (if b then ok tt else m) ≡ ok tt
unless_ok true m h = refl
unless_ok false m h = h (λ e. cc)

module _ (parse_url : Text → Option Url) where
  pub record IsOpenconnect (u : Upstream) : Type 0 where
    pub server : u.server ≢ []
    pub https :
        (v : Url) × (parse_url u.server ≡ some v) × (v.scheme ≡ codes "https") × (v.host ≢ [])
    pub protocol : (u.protocol ≡ []) ⊎ (contains_text openconnect_protocols u.protocol ≡ true)
    pub username : (a : UpstreamAuth) × (u.auth ≡ some a) × (a.username ≢ [])

  abbrev pub IsKind : UpstreamKind → Upstream → Type 0
  IsKind socks5 u = u.addr ≢ []
  IsKind http u = u.url ≢ []
  IsKind direct u = Unit
  IsKind ssh u = IsSsh u
  IsKind forward u =
      (host : Text) × (port : Text) × (split_host_port u.addr ≡ ok (host, port)) × (host ≢ [])
  IsKind openconnect u = IsOpenconnect u
  IsKind unknown u = ⊥

  -- The fields that the type needs are set, those of another type are not.
  pub record IsUpstream (u : Upstream) : Type 0 where
    pub kind : IsKind (upstream_kind u.type) u
    pub no_ssh : u.type ≢ upstream_ssh → HasNoSsh u
    pub no_openconnect : u.type ≢ upstream_openconnect → HasNoOpenconnect u
    pub dns : (u.dns ≡ []) ⊎ (u.dns ≡ codes "local") ⊎ (u.dns ≡ codes "remote")

  validate_openconnect-IsOpenconnect :
      (u : Upstream) → validate_openconnect parse_url u ≡ ok tt → IsOpenconnect u
  unfolding validate_openconnect
  validate_openconnect-IsOpenconnect u e = record {
    server = ground arith;
    https = check_server-ok u.server (parse_url u.server) (ground arith);
    protocol = ground arith;
    username = no_username-false u.auth (ground arith);
  }

  IsOpenconnect-validate_openconnect :
      (u : Upstream) → IsOpenconnect u → validate_openconnect parse_url u ≡ ok tt
  unfolding validate_openconnect check_server no_username
  IsOpenconnect-validate_openconnect u h =
      let (v, parsed, scheme, host) = h.https in
      let https = (text_eq_iff v.scheme (codes "https")).1 scheme in ground arith

  validate_kind-IsKind :
      (k : UpstreamKind) (u : Upstream) → validate_kind parse_url k u ≡ ok tt → IsKind k u
  unfolding validate_kind
  validate_kind-IsKind socks5 u e = ground arith
  validate_kind-IsKind http u e = ground arith
  validate_kind-IsKind direct u e = tt
  validate_kind-IsKind ssh u e = validate_ssh-IsSsh u e
  validate_kind-IsKind forward u e = elim (Result-cases (split_host_port u.addr)) [
    | inl ((host, port), f) ↦ (host, port, f, ground arith)
    | inr (x, f) ↦ absurd (ground arith)
  ]
  validate_kind-IsKind openconnect u e = validate_openconnect-IsOpenconnect u e
  validate_kind-IsKind unknown u e = cc

  IsKind-validate_kind :
      (k : UpstreamKind) (u : Upstream) → IsKind k u → validate_kind parse_url k u ≡ ok tt
  unfolding validate_kind
  IsKind-validate_kind socks5 u h = ground arith
  IsKind-validate_kind http u h = ground arith
  IsKind-validate_kind direct u h = refl
  IsKind-validate_kind ssh u h = IsSsh-validate_ssh u h
  IsKind-validate_kind forward u (host, port, e, h) =
      let set = split_host_port-ne u.addr (host, port) e in ground arith
  IsKind-validate_kind openconnect u h = IsOpenconnect-validate_openconnect u h
  IsKind-validate_kind unknown u h = absurd h

  validate_upstream-IsUpstream :
      (u : Upstream) → validate_upstream parse_url u ≡ ok tt → IsUpstream u
  unfolding validate_upstream
  validate_upstream-IsUpstream u e = record {
    kind = validate_kind-IsKind (upstream_kind u.type) u (ground arith);
    no_ssh = λ n. reject_ssh_fields-HasNoSsh u (ground (arith, text_eq_iff u.type upstream_ssh));
    no_openconnect = λ n.
        reject_openconnect_fields-HasNoOpenconnect u
          (ground (arith, text_eq_iff u.type upstream_openconnect));
    dns = ground (arith, text_eq_iff u.dns (codes "local"), text_eq_iff u.dns (codes "remote"));
  }

  IsUpstream-validate_upstream :
      (u : Upstream) → IsUpstream u → validate_upstream parse_url u ≡ ok tt
  unfolding validate_upstream
  IsUpstream-validate_upstream u h =
      let kind = IsKind-validate_kind (upstream_kind u.type) u h.kind in
      let ssh_part =
        unless_ok (text_eq u.type upstream_ssh) (reject_ssh_fields u)
          λ n. HasNoSsh-reject_ssh_fields u (h.no_ssh (λ q. n ((text_eq_iff _ _).1 q))) in
      let openconnect_part =
        unless_ok (text_eq u.type upstream_openconnect) (reject_openconnect_fields u) λ n.
          HasNoOpenconnect-reject_openconnect_fields u
            (h.no_openconnect (λ q. n ((text_eq_iff _ _).1 q))) in
      rw (kind, ssh_part, openconnect_part)
        (ground (
          arith,
          text_eq_iff u.dns (codes "local"),
          text_eq_iff u.dns (codes "remote"),
          text_eq_iff (codes "local") (codes "local"),
          text_eq_iff (codes "remote") (codes "remote"),
        ))

  -- Upstream.validate accepts exactly the upstreams that are well formed for their type.
  pub validate_upstream_iff :
      (u : Upstream) → (validate_upstream parse_url u ≡ ok tt) ↔ IsUpstream u
  validate_upstream_iff u = (validate_upstream-IsUpstream u, IsUpstream-validate_upstream u)
