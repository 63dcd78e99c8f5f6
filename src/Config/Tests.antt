-- ===== src/Config/Tests.antt =====
-- The properties of the configuration at a concrete one: an ssh upstream through a VPN, a rule for
-- each and a listener pinned to the ssh upstream.
use dockprox.Base.{◌≡◌, refl, ◌↔◌, false, Option, none, some, [], ◌∷◌, ok}
use dockprox.Base.Text.{Text, codes, text_eq, has_prefix, count_byte, cut_first, cut_last, lookup}
use dockprox.Base.HostPort.{split_host_port, split_at, split_plain}
use dockprox.Base.Int.{pos}
use dockprox.Match.Compile.{Matcher, new}
use dockprox.Config.Schema.{Upstream, Config, upstream_kind, listener_kind}
use dockprox.Config.Upstreams.{
  Url, validate_upstream, validate_kind, validate_ssh, validate_openconnect, no_username,
  check_server, contains_text, reject_ssh_fields, reject_openconnect_fields,
}
use dockprox.Config.Validate.{
  validate, check_rule, check_listeners, check_listener, check_type, check_vias, check_via,
  via_target, check_referenced,
}
use dockprox.Config.Sound.{IsConsistent, validate_iff, match_rules, known_upstreams, validate-new}
use dockprox.Config.Load.{Koanf, finalize}
use dockprox.Config.LoadSound.{IsLoaded, finalize_iff}

-- Stands for `url.Parse`: every text is an https URL of one host.
abbrev pub https_url : Text → Option Url
https_url t = some (record { scheme = codes "https"; host = codes "vpn.example.com" })

abbrev pub blank : Upstream
blank = record {
  type = codes "direct";
  addr = [];
  url = [];
  dns = [];
  auth = none;
  tls = none;
  host = [];
  port = pos 0;
  user = [];
  key_file = [];
  key_file_passphrase = [];
  identity_agent = [];
  host_key = [];
  via = [];
  server = [];
  protocol = [];
  server_cert = [];
  tun = false;
}

abbrev pub bastion : Upstream
bastion = record blank {
  type = codes "ssh";
  host = codes "bastion";
  port = pos 22;
  key_file = codes "~/.ssh/id";
  via = codes "vpn";
}

abbrev pub vpn : Upstream
vpn = record blank {
  type = codes "openconnect";
  server = codes "https://vpn.example.com";
  auth = some (record { username = codes "me"; password = codes "op://vault/vpn" });
}

abbrev pub sample : Config
sample = record {
  version = pos 1;
  listen = codes "127.0.0.1:8888";
  log_level = codes "debug";
  log_file = [];
  upstreams = (codes "jump", bastion) ∷ (codes "vpn", vpn) ∷ [];
  rules = record { match = codes "*.corp.example"; upstream = codes "jump" } ∷ [];
  listeners =
      record { type = []; listen = codes "127.0.0.1:1080"; upstream = codes "jump"; target = [] }
      ∷ record {
        type = codes "tcp";
        listen = codes ":5432";
        upstream = [];
        target = codes "db:5432";
      }
      ∷ [];
  chrome = none;
}

pub sample_valid : validate https_url sample ≡ ok tt
unfolding validate check_rule check_listeners check_listener check_type check_vias check_via
    via_target check_referenced validate_upstream validate_kind validate_ssh validate_openconnect
    no_username check_server contains_text reject_ssh_fields reject_openconnect_fields upstream_kind
    listener_kind text_eq lookup split_host_port split_at split_plain cut_first cut_last has_prefix
    count_byte
sample_valid = refl

validate_iff_example : (validate https_url sample ≡ ok tt) ↔ IsConsistent https_url sample
validate_iff_example = validate_iff https_url sample

validate-new_example : (m : Matcher) × (new (match_rules sample) (known_upstreams sample) ≡ ok m)
validate-new_example = validate-new https_url sample sample_valid

-- A file that has a version and gives the sample.
abbrev pub file : Koanf
file = record { has_key = λ k. text_eq k (codes "version"); unmarshal = λ c. some sample }

finalize_iff_example : (finalize https_url file ≡ ok sample) ↔ IsLoaded https_url file sample
finalize_iff_example = finalize_iff https_url file sample

pub file_loads : finalize https_url file ≡ ok sample
unfolding finalize text_eq
file_loads = rw sample_valid refl
