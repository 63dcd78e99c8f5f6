-- ===== src/Routing/Tests.antt =====
-- The properties of the routing at a configuration of an ssh upstream behind a VPN.
use dockprox.Base.{◌≡◌, refl, true, none, some, [], ◌∷◌, ok, All}
use dockprox.Base.Text.{codes, text_eq, lookup}
use dockprox.Match.Compile.{Matcher}
use dockprox.Config.Schema.{upstream_kind, listener_kind}
use dockprox.Config.Sound.{validate_iff, validate-new}
use dockprox.Config.Tests.{https_url, bastion, vpn, sample, sample_valid}
use dockprox.Routing.Dialers.{
  Dialer, Dialers, Machine, ssh_over, openconnect_dialer, check_secret, new_ssh, new_openconnect,
  via_dialer, build_kind, build, same_bool, build_step, build_pass, new_registry,
}
use dockprox.Routing.Built.{IsMap}
use dockprox.Routing.Registry.{Serves, new_registry-Serves}
use dockprox.Routing.Pick.{Server, pinned, pick}
use dockprox.Routing.Pick
use dockprox.Routing.Routes.{IsRouted, pick-IsRouted}
use dockprox.Routing.Opens.{IsPinned, Describes, new-Describes}

abbrev pub ready : Machine
ready = record {
  secret_ok = λ t. true;
  parse_url = https_url;
  ssh_ready = λ u. true;
  openconnect_ready = λ u. true;
}

abbrev sample_vpn : Dialer
sample_vpn = openconnect_dialer (codes "vpn") vpn

abbrev pub sample_dialers : Dialers
sample_dialers =
    (codes "jump", ssh_over (codes "jump") bastion sample_vpn) ∷ (codes "vpn", sample_vpn) ∷ []

-- The VPN is built before the ssh upstream that it carries, though it comes later in the map.
pub sample_built : new_registry ready sample.upstreams ≡ ok sample_dialers
unfolding new_registry build_pass build_step same_bool build build_kind check_secret new_ssh
    new_openconnect via_dialer upstream_kind text_eq lookup
sample_built = refl

pub sample_keys : IsMap sample.upstreams
unfolding lookup text_eq
sample_keys = (refl, (refl, tt))

new_registry-Serves_example :
    Serves ready sample.upstreams sample_dialers (codes "jump") (some bastion)
unfolding lookup text_eq
new_registry-Serves_example =
    new_registry-Serves ready sample.upstreams sample_dialers sample_keys
      ((validate_iff https_url sample).0 sample_valid).vias sample_built (codes "jump")

abbrev pub sample_matcher : Matcher
sample_matcher = (validate-new https_url sample sample_valid).0

pick-IsRouted_example :
    IsRouted sample
      (codes "db.corp.example:5432")
      (pick none sample_matcher sample_dialers (codes "db.corp.example:5432"))
pick-IsRouted_example =
    pick-IsRouted https_url ready sample sample_dialers sample_matcher sample_keys sample_valid
      sample_built (validate-new https_url sample sample_valid).1 (codes "db.corp.example:5432")

new-Describes_example :
    All
      (λ l.
        true ≡ true
        → (s : Server) × (Pick.new (λ t. true) sample_dialers l ≡ ok s)
          × IsPinned sample.upstreams l (pinned s)
          × Describes (listener_kind l.type) l s)
      sample.listeners
new-Describes_example =
    new-Describes (λ t. true) https_url ready sample sample_dialers sample_keys sample_valid
      sample_built
