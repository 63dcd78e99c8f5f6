-- ===== src/Config/Upstreams.antt =====
-- Upstream.validate and the checks it calls, of pkg/config/validate.go. `url.Parse` is a parameter:
-- the scheme and the host that the code reads of its result.
use dockprox.Base.{
  ℕ, suc, ◌*◌, ◌/◌, ◌%◌, Bool, true, false, not, ◌&&◌, ◌||◌, Option, none, some, List, [], ◌∷◌,
  Result, ok, err, leb, ◌==◌, if◌then◌else◌, drop, ◌>>=◌, ◌>>◌, fail_if, wrap, for_each,
}
use dockprox.Base.Text.{Text, codes, is_empty, text_eq, has_prefix}
use dockprox.Base.HostPort.{HostPortError, split_host_port}
use dockprox.Base.Int.{ℤ, eq_ℕ, lt_ℕ, gt_ℕ}
use dockprox.Config.Schema.{
  Upstream, UpstreamAuth, UpstreamKind, socks5, http, direct, ssh, forward, openconnect, unknown,
  upstream_kind, upstream_ssh, upstream_openconnect,
}

pub record Url : Type 0 where
  pub scheme : Text
  pub host : Text

pub data FingerprintError : Type 0 where
  no_sha256_prefix : Text → FingerprintError
  bad_base64 : FingerprintError
  digest_length : ℕ → FingerprintError

pub data UpstreamError : Type 0 where
  addr_required url_required host_required key_or_agent_required : UpstreamError
  server_required username_required bad_server : UpstreamError
  bad_addr : HostPortError → UpstreamError
  addr_host_required : Text → UpstreamError
  port_out_of_range : ℤ → UpstreamError
  bad_host_key : FingerprintError → UpstreamError
  ssh_only openconnect_only : Text → UpstreamError
  server_not_https unknown_protocol unknown_type unknown_dns : Text → UpstreamError

is_base64 : ℕ → Bool
is_base64 c =
    (leb b'A' c && leb c b'Z')
    || (leb b'a' c && leb c b'z')
    || (leb b'0' c && leb c b'9')
    || c == b'+'
    || c == b'/'

-- `base64.RawStdEncoding.DecodeString` skips line ends; the number of characters it decodes, or
-- `none` at one that is outside the alphabet.
base64_chars : Text → Option ℕ
base64_chars [] = some 0
base64_chars (c ∷ t) = elim (base64_chars t) [
  | none ↦ none
  | some n ↦ if c == b'\n' || c == b'\r' then some n else if is_base64 c then some (suc n) else none
]

-- The number of bytes that it returns: four characters are three bytes, and a single one is an
-- error.
decoded_length : Text → Option ℕ
decoded_length t = elim (base64_chars t) [
  | none ↦ none
  | some n ↦ if n % 4 == 1 then none else some (n * 6 / 8)
]

abbrev pub sha256_size : ℕ
sha256_size = 32

check_digest : Option ℕ → Result FingerprintError (Unit {0})
check_digest none = err bad_base64
check_digest (some n) = fail_if (not (n == sha256_size)) (digest_length n)

unfoldable pub validate_fingerprint : Text → Result FingerprintError (Unit {0})
unfolding check_digest decoded_length base64_chars is_base64
validate_fingerprint s =
    if has_prefix (codes "SHA256:") s
    then check_digest (decoded_length (drop 7 s))
    else err (no_sha256_prefix s)

abbrev pub host_required_in : Text → Text × Text → Result UpstreamError (Unit {0})
host_required_in addr (host, port) = fail_if (is_empty host) (addr_host_required addr)

unfoldable pub validate_ssh : Upstream → Result UpstreamError (Unit {0})
validate_ssh u = do
  fail_if (is_empty u.host) host_required
  fail_if (not (eq_ℕ u.port 0) && (lt_ℕ u.port 1 || gt_ℕ u.port 65535)) (port_out_of_range u.port)
  fail_if (is_empty u.key_file && is_empty u.identity_agent) key_or_agent_required
  if is_empty u.host_key then ok tt else wrap bad_host_key (validate_fingerprint u.host_key)

-- The fields that are set although the type does not have them, by name.
abbrev pub ssh_fields : Upstream → List (Text × Bool)
ssh_fields u =
    (codes "host", not (is_empty u.host))
    ∷ (codes "port", not (eq_ℕ u.port 0))
    ∷ (codes "user", not (is_empty u.user))
    ∷ (codes "keyFile", not (is_empty u.key_file))
    ∷ (codes "keyFilePassphrase", not (is_empty u.key_file_passphrase))
    ∷ (codes "identityAgent", not (is_empty u.identity_agent))
    ∷ (codes "hostKey", not (is_empty u.host_key))
    ∷ (codes "via", not (is_empty u.via))
    ∷ []

abbrev pub openconnect_fields : Upstream → List (Text × Bool)
openconnect_fields u =
    (codes "server", not (is_empty u.server))
    ∷ (codes "protocol", not (is_empty u.protocol))
    ∷ (codes "serverCert", not (is_empty u.server_cert))
    ∷ (codes "tun", u.tun)
    ∷ []

unfoldable pub reject_ssh_fields : Upstream → Result UpstreamError (Unit {0})
reject_ssh_fields u = for_each (λ f. fail_if f.1 (ssh_only f.0)) (ssh_fields u)

unfoldable pub reject_openconnect_fields : Upstream → Result UpstreamError (Unit {0})
reject_openconnect_fields u =
    for_each (λ f. fail_if f.1 (openconnect_only f.0)) (openconnect_fields u)

abbrev pub openconnect_protocols : List Text
openconnect_protocols =
    codes "f5"
    ∷ codes "anyconnect"
    ∷ codes "nc"
    ∷ codes "gp"
    ∷ codes "pulse"
    ∷ codes "fortinet"
    ∷ codes "array"
    ∷ []

-- `slices.Contains`.
unfoldable pub contains_text : List Text → Text → Bool
contains_text [] t = false
contains_text (s ∷ ss) t = text_eq s t || contains_text ss t

unfoldable pub no_username : Option UpstreamAuth → Bool
no_username none = true
no_username (some a) = is_empty a.username

unfoldable pub check_server : Text → Option Url → Result UpstreamError (Unit {0})
check_server s none = err bad_server
check_server s (some u) =
    fail_if (not (text_eq u.scheme (codes "https")) || is_empty u.host) (server_not_https s)

module _ (parse_url : Text → Option Url) where
  unfoldable pub validate_openconnect : Upstream → Result UpstreamError (Unit {0})
  validate_openconnect u = do
    fail_if (is_empty u.server) server_required
    check_server u.server (parse_url u.server)
    fail_if (not (is_empty u.protocol) && not (contains_text openconnect_protocols u.protocol))
        (unknown_protocol u.protocol)
    fail_if (no_username u.auth) username_required

  -- The `switch` of Upstream.validate.
  unfoldable pub validate_kind : UpstreamKind → Upstream → Result UpstreamError (Unit {0})
  validate_kind socks5 u = fail_if (is_empty u.addr) addr_required
  validate_kind http u = fail_if (is_empty u.url) url_required
  validate_kind forward u = do
    fail_if (is_empty u.addr) addr_required
    addr ← wrap bad_addr (split_host_port u.addr)
    host_required_in u.addr addr
  validate_kind direct u = ok tt
  validate_kind ssh u = validate_ssh u
  validate_kind openconnect u = validate_openconnect u
  validate_kind unknown u = err (unknown_type u.type)

  unfoldable pub validate_upstream : Upstream → Result UpstreamError (Unit {0})
  validate_upstream u = do
    validate_kind (upstream_kind u.type) u
    if text_eq u.type upstream_ssh then ok tt else reject_ssh_fields u
    if text_eq u.type upstream_openconnect then ok tt else reject_openconnect_fields u
    fail_if
        (not (is_empty u.dns)
          && not (text_eq u.dns (codes "local"))
          && not (text_eq u.dns (codes "remote")))
        (unknown_dns u.dns)
