-- ===== src/Cli/Tests.antt =====
-- The serve command with one upstream flag.
use dockprox.Base.{◌≡◌, refl, ◌≢◌, Option, none, [], ◌∷◌, ok, err}
use dockprox.Base.Text.{Text, codes, text_eq, has_prefix, count_byte, cut_first, cut_last, lookup}
use dockprox.Base.HostPort.{split_host_port, split_at, split_plain}
use dockprox.Base.Int.{pos}
use dockprox.Base.Decimal.{atoi}
use dockprox.Config.Schema.{Upstream, Config, upstream_direct, upstream_ssh, upstream_kind}
use dockprox.Config.Upstreams.{
  contains_text, validate_upstream, validate_kind, validate_ssh, reject_ssh_fields,
  reject_openconnect_fields, key_or_agent_required,
}
use dockprox.Config.Validate.{
  validate, bad_upstream, check_rule, check_listeners, check_vias, check_via, check_referenced,
}
use dockprox.Config.Sound.{IsConsistent}
use dockprox.Config.Load.{Koanf, defaults}
use dockprox.Config.Tests.{https_url}
use dockprox.Cli.Flags.{
  ServeFlags, no_upstream, key_value, parse_url_flag, parse_ssh_upstream, ssh_parts, with_port,
  parse_upstream_flag, put, add_upstreams, add_rules, base_config, load_config, invalid,
}
use dockprox.Cli.FlagLaws.{load_config-IsConsistent, load_config-no_ssh}

abbrev no_file : Text → Option Koanf
no_file path = none

abbrev flags_for : Text → ServeFlags
flags_for upstream = record {
  config_path = [];
  listen = codes "127.0.0.1:9999";
  log_level = [];
  upstreams = upstream ∷ [];
  rules = codes "ghcr.io=out" ∷ [];
}

abbrev direct_flag : Text
direct_flag = codes "out=direct"

abbrev direct_upstream : Upstream
direct_upstream = record no_upstream { type = upstream_direct }

abbrev direct_config : Config
direct_config = record {
  version = pos 1;
  listen = codes "127.0.0.1:9999";
  log_level = codes "info";
  log_file = [];
  upstreams = (codes "out", direct_upstream) ∷ [];
  rules = record { match = codes "ghcr.io"; upstream = codes "out" } ∷ [];
  listeners = [];
  chrome = none;
}

direct_parsed : parse_upstream_flag direct_flag ≡ ok (codes "out", direct_upstream)
unfolding parse_upstream_flag key_value parse_url_flag cut_first has_prefix text_eq
direct_parsed = refl

direct_loaded : load_config https_url no_file (flags_for direct_flag) ≡ ok direct_config
unfolding load_config base_config defaults add_upstreams put add_rules parse_upstream_flag key_value
    parse_url_flag validate check_rule check_listeners check_vias check_via check_referenced
    validate_upstream validate_kind reject_ssh_fields reject_openconnect_fields contains_text
    upstream_kind text_eq lookup split_host_port split_at split_plain cut_first cut_last has_prefix
    count_byte
direct_loaded = refl

-- An ssh upstream of a flag is parsed, and then refused for want of a key.
ssh_refused :
    load_config https_url no_file (flags_for (codes "out=ssh://bastion:22"))
    ≡ err (invalid (bad_upstream (codes "out") key_or_agent_required))
unfolding load_config base_config defaults add_upstreams put add_rules parse_upstream_flag key_value
    parse_url_flag parse_ssh_upstream ssh_parts with_port validate validate_upstream validate_kind
    validate_ssh contains_text upstream_kind text_eq split_host_port split_at split_plain cut_first
    cut_last has_prefix atoi
ssh_refused = refl

load_config-IsConsistent_example :
    IsConsistent https_url direct_config
    × (codes "127.0.0.1:9999" ≢ [] → direct_config.listen ≡ codes "127.0.0.1:9999")
    × ((flags_for direct_flag).log_level ≢ []
        → direct_config.log_level ≡ (flags_for direct_flag).log_level)
load_config-IsConsistent_example =
    load_config-IsConsistent https_url no_file (flags_for direct_flag) direct_config direct_loaded

load_config-no_ssh_example : direct_upstream.type ≢ upstream_ssh
load_config-no_ssh_example =
    load_config-no_ssh https_url no_file (flags_for direct_flag) direct_config [] direct_flag
      (codes "out") direct_upstream refl direct_parsed direct_loaded
