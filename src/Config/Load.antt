-- ===== src/Config/Load.antt =====
-- pkg/config/load.go: the defaults, and what is checked of a parsed file before and after it is
-- merged over them. koanf, the YAML library, is a parameter: which keys the file has, and the
-- configuration that unmarshalling over another one gives, or an error.
use dockprox.Base.{
  ℕ, Bool, not, Option, none, some, [], ◌++◌, Result, ok, err, ◌>>=◌, ◌>>◌, fail_if, wrap, for_each,
}
use dockprox.Base.Text.{Text, codes}
use dockprox.Base.Int.{ℤ, pos, eq_ℕ}
use dockprox.Config.Schema.{Upstream, Config}
use dockprox.Config.Upstreams.{Url}
use dockprox.Config.Validate.{ConfigError, validate}

pub record Koanf : Type 0 where
  pub has_key : Text → Bool
  pub unmarshal : Config → Option Config

pub data LoadError : Type 0 where
  version_required bad_unmarshal : LoadError
  version_unsupported : ℤ → LoadError
  socks5_listen_removed : Text → LoadError
  invalid : ConfigError → LoadError

abbrev pub version : ℕ
version = 1

unfoldable pub defaults : Config
defaults = record {
  version = pos version;
  listen = codes "127.0.0.1:8888";
  log_level = codes "info";
  log_file = [];
  upstreams = [];
  rules = [];
  listeners = [];
  chrome = none;
}

abbrev pub socks5_listen_key : Text → Text
socks5_listen_key name = codes "upstreams." ++ name ++ codes ".socks5Listen"

abbrev pub or_error : Option Config → Result LoadError Config
or_error none = err bad_unmarshal
or_error (some c) = ok c

unfoldable pub finalize : (Text → Option Url) → Koanf → Result LoadError Config
finalize parse_url k = do
  fail_if (not (k.has_key (codes "version"))) version_required
  c ← or_error (k.unmarshal defaults)
  fail_if (not (eq_ℕ c.version version)) (version_unsupported c.version)
  for_each
      (λ (nu : Text × Upstream).
        fail_if (k.has_key (socks5_listen_key nu.0)) (socks5_listen_removed nu.0))
      c.upstreams
  wrap invalid (validate parse_url c)
  ok c
