-- ===== src/Cli/Flags.antt =====
-- The flags of the serve command and the configuration that they give: internal/cli/serve.go. The
-- reading and parsing of a file, or of standard input under "-", is a parameter.
use dockprox.Base.{
  false, ◌||◌, Option, none, some, List, [], ◌∷◌, ◌++◌, Result, ok, err, if◌then◌else◌, length,
  drop, ◌>>=◌, ◌>>◌, wrap,
}
use dockprox.Base.Text.{Text, codes, is_empty, text_eq, has_prefix, cut_first}
use dockprox.Base.Int.{ℤ, pos}
use dockprox.Base.Decimal.{atoi}
use dockprox.Base.HostPort.{HostPortError, split_host_port}
use dockprox.Config.Schema.{
  Upstream, Rule, Config, upstream_socks5, upstream_http, upstream_direct, upstream_ssh,
  upstream_forward,
}
use dockprox.Config.Upstreams.{Url}
use dockprox.Config.Validate.{ConfigError, Upstreams, validate}
use dockprox.Config.Load.{Koanf, LoadError, defaults, finalize}

pub record ServeFlags : Type 0 where
  pub config_path : Text
  pub listen : Text
  pub log_level : Text
  pub upstreams : List Text
  pub rules : List Text

pub data FlagError : Type 0 where
  unreadable : Text → FlagError
  not_loaded : LoadError → FlagError
  name_expected rule_expected : Text → FlagError
  host_required : Text → FlagError
  bad_port : Text → Text → FlagError
  unsupported_url : Text → Text → FlagError
  invalid : ConfigError → FlagError

-- The zero value of an Upstream.
abbrev pub no_upstream : Upstream
no_upstream = record {
  type = [];
  addr = [];
  url = [];
  dns = [];
  auth = none;
  tls = none;
  host = [];
  port = pos 0;
  user = [];
  key_file = [];
  key_file_passphrase = [];
  identity_agent = [];
  host_key = [];
  via = [];
  server = [];
  protocol = [];
  server_cert = [];
  tun = false;
}

abbrev pub ssh_upstream : Text → ℤ → Upstream
ssh_upstream host port = record no_upstream { type = upstream_ssh; host = host; port = port }

unfoldable pub with_port : Text → Text → Text → Option ℤ → Result FlagError Upstream
with_port name host port_str none = err (bad_port name port_str)
with_port name host port_str (some port) = ok (ssh_upstream host port)

unfoldable pub ssh_parts :
    Text → Text → Result HostPortError (Text × Text) → Result FlagError Upstream
ssh_parts name raw (err e) = ok (ssh_upstream raw (pos 0))
ssh_parts name raw (ok (host, port_str)) = with_port name host port_str (atoi port_str)

unfoldable pub parse_ssh_upstream : Text → Text → Result FlagError Upstream
parse_ssh_upstream name raw =
    if is_empty raw then err (host_required name) else ssh_parts name raw (split_host_port raw)

-- The value behind a scheme that it has.
abbrev pub trim_prefix : Text → Text → Text
trim_prefix p t = if has_prefix p t then drop (length p) t else t

unfoldable pub parse_url_flag : Text → Text → Result FlagError Upstream
parse_url_flag name raw =
    if has_prefix (codes "socks5://") raw
    then ok
        (record no_upstream { type = upstream_socks5; addr = trim_prefix (codes "socks5://") raw })
    else if has_prefix (codes "http://") raw || has_prefix (codes "https://") raw
    then ok (record no_upstream { type = upstream_http; url = raw })
    else if has_prefix (codes "ssh://") raw
    then parse_ssh_upstream name (trim_prefix (codes "ssh://") raw)
    else if has_prefix (codes "forward://") raw
    then ok (record no_upstream {
      type = upstream_forward;
      addr = trim_prefix (codes "forward://") raw;
    })
    else if text_eq raw (codes "direct")
    then ok (record no_upstream { type = upstream_direct })
    else err (unsupported_url name raw)

-- A key and a value around the first `=`, of which the key is not empty.
unfoldable pub key_value : FlagError → Option (Text × Text) → Result FlagError (Text × Text)
key_value e none = err e
key_value e (some (key, value)) = if is_empty key then err e else ok (key, value)

unfoldable pub parse_upstream_flag : Text → Result FlagError (Text × Upstream)
parse_upstream_flag s = do
  nr ← key_value (name_expected s) (cut_first b'=' s)
  u ← parse_url_flag nr.0 nr.1
  ok (nr.0, u)

-- An assignment to a key of a map.
unfoldable pub put : Text → Upstream → Upstreams → Upstreams
put k u [] = (k, u) ∷ []
put k u ((j, v) ∷ m) = let rest = put k u m in if text_eq j k then (k, u) ∷ m else (j, v) ∷ rest

unfoldable pub add_upstreams : List Text → Upstreams → Result FlagError Upstreams
add_upstreams [] ups = ok ups
add_upstreams (s ∷ flags) ups = do
  nu ← parse_upstream_flag s
  add_upstreams flags (put nu.0 nu.1 ups)

unfoldable pub add_rules : List Text → List Rule → Result FlagError (List Rule)
add_rules [] rules = ok rules
add_rules (s ∷ flags) rules = do
  pu ← key_value (rule_expected s) (cut_first b'=' s)
  add_rules flags (rules ++ record { match = pu.0; upstream = pu.1 } ∷ [])

-- A flag that is set replaces the field.
abbrev pub override : Text → Text → Text
override flag field = if is_empty flag then field else flag

module _ (parse_url : Text → Option Url) (read : Text → Option Koanf) where
  unfoldable pub loaded : Text → Option Koanf → Result FlagError Config
  loaded path none = err (unreadable path)
  loaded path (some k) = wrap not_loaded (finalize parse_url k)

  unfoldable pub base_config : Text → Result FlagError Config
  base_config path = if is_empty path then ok defaults else loaded path (read path)

  unfoldable pub load_config : ServeFlags → Result FlagError Config
  load_config f = do
    base ← base_config f.config_path
    ups ← add_upstreams f.upstreams base.upstreams
    rules ← add_rules f.rules base.rules
    let c : Config = record base {
      listen = override f.listen base.listen;
      log_level = override f.log_level base.log_level;
      upstreams = ups;
      rules = rules;
    }
    wrap invalid (validate parse_url c)
    ok c
