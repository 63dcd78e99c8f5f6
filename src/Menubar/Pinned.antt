-- ===== src/Menubar/Pinned.antt =====
-- Which listeners buildTunnels of internal/menubar/controller.go does not bind: what the registry
-- says of an upstream, and what the configuration does.
use dockprox.Base.{
  ◌≡◌, refl, sym, ap, ◌≢◌, inl, inr, Bool, true, false, Option, none, some, arith, ok,
  if◌then◌else◌, Bool-cases, Option-cases, All,
}
use dockprox.Base.Text.{Text, is_empty, text_eq, text_eq_iff, lookup}
use dockprox.Config.Schema.{
  Listener, Upstream, UpstreamKind, socks5, http, direct, ssh, forward, openconnect, unknown,
  upstream_kind, upstream_ssh, upstream_openconnect,
}
use dockprox.Config.Validate.{Upstreams, holds_connection}
use dockprox.Config.References.{HasVia}
use dockprox.Routing.Dialers.{Dialer, Dialers, Machine, new_registry}
use dockprox.Routing.Built.{IsMap, intended, plain, carried, carrier}
use dockprox.Routing.Registry.{new_registry-Serves}
use dockprox.Menubar.Tunnels.{has_connection}

-- The upstream that a listener is pinned to, if it is one with a connection.
abbrev pub held_by : Text → Option Upstream → Option Text
held_by name none = none
held_by name (some u) = if holds_connection u then some name else none

abbrev pub pinned_to : Upstreams → Listener → Option Text
pinned_to ups l = held_by l.upstream (lookup l.upstream ups)

abbrev is_openconnect : UpstreamKind → Bool
is_openconnect openconnect = true
is_openconnect k = false

kind-ne_openconnect :
    (t : Text) → text_eq t upstream_openconnect ≡ false → upstream_kind t ≢ openconnect
unfolding upstream_kind
kind-ne_openconnect t e q = ground arith

is_openconnect-false : (k : UpstreamKind) → k ≢ openconnect → is_openconnect k ≡ false
is_openconnect-false openconnect n = absurd (n refl)
is_openconnect-false socks5 n = refl
is_openconnect-false http n = refl
is_openconnect-false direct n = refl
is_openconnect-false ssh n = refl
is_openconnect-false forward n = refl
is_openconnect-false unknown n = refl

is_openconnect-kind : (t : Text) → is_openconnect (upstream_kind t) ≡ text_eq t upstream_openconnect
is_openconnect-kind t = elim (Bool-cases (text_eq t upstream_openconnect)) [
  | inl e ↦ rw ((text_eq_iff t upstream_openconnect).0 e) (unfold upstream_kind text_eq in refl)
  | inr e ↦ rw e (is_openconnect-false (upstream_kind t) (kind-ne_openconnect t e))
]

has_connection-plain :
    (k : UpstreamKind) (name : Text) (u : Upstream) (d : Dialer)
    → plain k name u ≡ some d
    → has_connection (some d) ≡ is_openconnect k
unfolding plain
has_connection-plain direct name u d e = sym (ap has_connection e)
has_connection-plain socks5 name u d e = sym (ap has_connection e)
has_connection-plain http name u d e = sym (ap has_connection e)
has_connection-plain forward name u d e = sym (ap has_connection e)
has_connection-plain openconnect name u d e = sym (ap has_connection e)
has_connection-plain ssh name u d e = cc
has_connection-plain unknown name u d e = cc

has_connection-carried :
    (name : Text) (u : Upstream) (via : Option Dialer) (d : Dialer)
    → carried name u via ≡ some d
    → has_connection (some d) ≡ true
unfolding carried
has_connection-carried name u none d e = cc
has_connection-carried name u (some v) d e = sym (ap has_connection e)

has_connection-intended :
    (ups : Upstreams) (name : Text) (u : Upstream) (d : Dialer)
    → intended ups name u ≡ some d
    → has_connection (some d) ≡ holds_connection u
unfolding intended
has_connection-intended ups name u d e = elim (Bool-cases (text_eq u.type upstream_ssh)) [
  | inr f ↦
      rw (f, ← is_openconnect-kind u.type)
        (has_connection-plain (upstream_kind u.type) name u d (rw f at e))
  | inl f ↦ elim (Bool-cases (is_empty u.via)) [
    | inl g ↦ rw f (sym (ap has_connection (rw (f, g) at e)))
    | inr g ↦
        rw f (has_connection-carried name u (carrier u.via (lookup u.via ups)) d (rw (f, g) at e))
  ]
]

-- The registry has a connection for a listener exactly if the configuration does.
pub new_registry-pinned :
    (machine : Machine) (ups : Upstreams) (reg : Dialers)
    → IsMap ups
    → All (λ nu. HasVia ups nu.1) ups
    → new_registry machine ups ≡ ok reg
    → (l : Listener)
    → (if has_connection (lookup l.upstream reg) then some l.upstream else none) ≡ pinned_to ups l
new_registry-pinned machine ups reg keys vias built l =
    let serves = new_registry-Serves machine ups reg keys vias built l.upstream in
    elim (Option-cases (lookup l.upstream ups)) [
      | inl e ↦ rw (e, (rw e at serves)) refl
      | inr (u, e) ↦
          let (d, f, g) = (rw e at serves) in
          rw (e, f, has_connection-intended ups l.upstream u d g) refl
    ]
