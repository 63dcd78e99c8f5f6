-- ===== src/Config/Schema.antt =====
-- The types of pkg/config/config.go and the string constants of pkg/config/validate.go. A pointer
-- is an `Option`; a map is the list of its entries in key order.
use dockprox.Base.{Bool, ◌||◌, Option, List, if◌then◌else◌}
use dockprox.Base.Text.{Text, codes, is_empty, text_eq}
use dockprox.Base.Int.{ℤ}

pub record UpstreamAuth : Type 0 where
  pub username : Text
  pub password : Text

pub record UpstreamTls : Type 0 where
  pub insecure_skip_verify : Bool
  pub ca_file : Text

pub record Upstream : Type 0 where
  pub type : Text
  pub addr : Text
  pub url : Text
  pub dns : Text
  pub auth : Option UpstreamAuth
  pub tls : Option UpstreamTls
  pub host : Text
  pub port : ℤ
  pub user : Text
  pub key_file : Text
  pub key_file_passphrase : Text
  pub identity_agent : Text
  pub host_key : Text
  pub via : Text
  pub server : Text
  pub protocol : Text
  pub server_cert : Text
  pub tun : Bool

pub record Rule : Type 0 where
  pub match : Text
  pub upstream : Text

pub record Listener : Type 0 where
  pub type : Text
  pub listen : Text
  pub upstream : Text
  pub target : Text

pub record Chrome : Type 0 where
  pub app : Text
  pub flags : List Text

pub record Config : Type 0 where
  pub version : ℤ
  pub listen : Text
  pub log_level : Text
  pub log_file : Text
  pub upstreams : List (Text × Upstream)
  pub rules : List Rule
  pub listeners : List Listener
  pub chrome : Option Chrome

abbrev pub upstream_socks5 : Text
upstream_socks5 = codes "socks5"

abbrev pub upstream_http : Text
upstream_http = codes "http"

abbrev pub upstream_direct : Text
upstream_direct = codes "direct"

abbrev pub upstream_ssh : Text
upstream_ssh = codes "ssh"

abbrev pub upstream_forward : Text
upstream_forward = codes "forward"

abbrev pub upstream_openconnect : Text
upstream_openconnect = codes "openconnect"

abbrev pub listener_socks5 : Text
listener_socks5 = codes "socks5"

abbrev pub listener_tcp : Text
listener_tcp = codes "tcp"

-- The cases of a `switch` over an upstream's type.
pub data UpstreamKind : Type 0 where
  socks5 http direct ssh forward openconnect unknown : UpstreamKind

unfoldable pub upstream_kind : Text → UpstreamKind
upstream_kind t =
    if text_eq t upstream_socks5
    then socks5
    else if text_eq t upstream_http
    then http
    else if text_eq t upstream_forward
    then forward
    else if text_eq t upstream_direct
    then direct
    else if text_eq t upstream_ssh
    then ssh
    else if text_eq t upstream_openconnect
    then openconnect
    else unknown

-- The cases of a `switch` over a listener's type; no type means socks5.
pub data ListenerKind : Type 0 where
  socks5_server tcp_forward unknown_listener : ListenerKind

unfoldable pub listener_kind : Text → ListenerKind
listener_kind t =
    if is_empty t || text_eq t listener_socks5
    then socks5_server
    else if text_eq t listener_tcp
    then tcp_forward
    else unknown_listener

-- `IdentityAgentEnv`.
abbrev pub identity_agent_env : Text
identity_agent_env = codes "SSH_AUTH_SOCK"
