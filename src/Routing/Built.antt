-- ===== src/Routing/Built.antt =====
-- What NewRegistry of pkg/upstream/registry.go builds of the upstreams of a configuration, in
-- whichever order it ranges over them.
use dockprox.Base.{
  ◌≡◌, refl, ◌≢◌, inl, inr, true, false, Option, none, some, ◌∷◌, arith, ok, if◌then◌else◌,
  Bool-cases, is_some, Option-cases, All, for_each, >>-eq-ok,
}
use dockprox.Base.Text.{Text, is_empty, text_eq, text_eq_iff, lookup}
use dockprox.Config.Schema.{
  Upstream, UpstreamKind, socks5, http, direct, ssh, forward, openconnect, unknown, upstream_kind,
  upstream_ssh,
}
use dockprox.Config.Validate.{Upstreams}
use dockprox.Config.References.{HasVia}
use dockprox.Routing.Dialers.{
  Dialer, direct_dialer, socks5_dialer, http_dialer, forward_dialer, ssh_dialer, ssh_over,
  openconnect_dialer, auth_refs, Machine, Dialers, http_of_url, new_ssh, new_openconnect,
  via_dialer, build_kind, check_secret, build, is_ssh,
}

-- The dialer that an upstream calls for, which holds no connection of another upstream.
unfoldable pub plain : UpstreamKind → Text → Upstream → Option Dialer
plain direct name u = some (direct_dialer name)
plain socks5 name u = some (socks5_dialer name u)
plain http name u = some (http_dialer name u)
plain forward name u = some (forward_dialer name u.addr)
plain openconnect name u = some (openconnect_dialer name u)
plain ssh name u = none
plain unknown name u = none

unfoldable pub carried : Text → Upstream → Option Dialer → Option Dialer
carried name u none = none
carried name u (some via) = some (ssh_over name u via)

unfoldable pub carrier : Text → Option Upstream → Option Dialer
carrier via none = none
carrier via (some v) = plain (upstream_kind v.type) via v

-- The dialer that an upstream calls for among the others.
unfoldable pub intended : Upstreams → Text → Upstream → Option Dialer
intended ups name u =
    if text_eq u.type upstream_ssh
    then if is_empty u.via
      then some (ssh_dialer name u)
      else carried name u (carrier u.via (lookup u.via ups))
    else plain (upstream_kind u.type) name u

-- Each entry is the one that its name finds, as in a map.
abbrev pub IsMap : Upstreams → Type 0
IsMap ups = All (λ nu. lookup nu.0 ups ≡ some nu.1) ups

kind-ssh : (t : Text) → text_eq t upstream_ssh ≡ true → upstream_kind t ≡ ssh
unfolding upstream_kind text_eq
kind-ssh t e = rw ((text_eq_iff t upstream_ssh).0 e) refl

kind-ne_ssh : (t : Text) → text_eq t upstream_ssh ≡ false → upstream_kind t ≢ ssh
unfolding upstream_kind
kind-ne_ssh t e q = ground arith

module _ (machine : Machine) where
  build_kind-plain :
      (k : UpstreamKind) (reg : Dialers) (name : Text) (u : Upstream) (d : Dialer)
      → k ≢ ssh
      → build_kind machine k reg name u ≡ ok d
      → plain k name u ≡ some d
  unfolding build_kind plain http_of_url new_openconnect
  build_kind-plain direct reg name u d n e = ground arith
  build_kind-plain socks5 reg name u d n e = ground arith
  build_kind-plain http reg name u d n e = elim (Option-cases (machine.parse_url u.url)) [
    | inl f ↦ absurd (ground arith)
    | inr (url, f) ↦ ground arith
  ]
  build_kind-plain forward reg name u d n e = ground arith
  build_kind-plain ssh reg name u d n e = absurd (n refl)
  build_kind-plain openconnect reg name u d n e = ground arith
  build_kind-plain unknown reg name u d n e = cc

-- The registry so far: what it holds under a name is what the upstream of that name calls for.
module _ (ups : Upstreams) where
  abbrev pub IsRight : Dialers → Type 0
  IsRight reg =
      (name : Text) (d : Dialer)
      → lookup name reg ≡ some d
      → (u : Upstream) × (lookup name ups ≡ some u) × (intended ups name u ≡ some d)

  -- It has every upstream that `via` may name.
  abbrev pub HasCarriers : Dialers → Type 0
  HasCarriers reg =
      (name : Text) (u : Upstream)
      → lookup name ups ≡ some u
      → is_ssh u ≡ false
      → is_some (lookup name reg) ≡ true

  via_dialer-carrier :
      (reg : Dialers) (u : Upstream)
      → IsRight reg
      → HasCarriers reg
      → HasVia ups u
      → is_empty u.via ≡ false
      → (d : Dialer) × (lookup u.via reg ≡ some d) × (carrier u.via (lookup u.via ups) ≡ some d)
  unfolding carrier intended
  via_dialer-carrier reg u right has (inl e) n = absurd (ground arith)
  via_dialer-carrier reg u right has (inr (v, found, other)) n =
      let plain_v : is_ssh v ≡ false = ground (arith, text_eq_iff v.type upstream_ssh) in
      elim (Option-cases (lookup u.via reg)) [
        | inl e ↦ absurd (ground (arith, has u.via v found plain_v))
        | inr (d, e) ↦ let (w, found', right') = right u.via d e in (d, e, ground arith)
      ]

  plain-intended :
      (name : Text) (u : Upstream) (d : Dialer)
      → is_ssh u ≡ false
      → plain (upstream_kind u.type) name u ≡ some d
      → intended ups name u ≡ some d
  unfolding intended
  plain-intended name u d n e = rw n e

module _ (machine : Machine) (ups : Upstreams) where
  ssh-intended :
      (reg : Dialers) (name : Text) (u : Upstream) (d : Dialer)
      → IsRight ups reg
      → HasCarriers ups reg
      → HasVia ups u
      → is_ssh u ≡ true
      → build_kind machine ssh reg name u ≡ ok d
      → intended ups name u ≡ some d
  unfolding intended build_kind new_ssh via_dialer carried
  ssh-intended reg name u d right has via s e = elim (Bool-cases (is_empty u.via)) [
    | inl none_named ↦ ground arith
    | inr named ↦
        let (v, found, called) = via_dialer-carrier ups reg u right has via named in ground arith
  ]

  pub build-intended :
      (reg : Dialers) (name : Text) (u : Upstream) (d : Dialer)
      → IsRight ups reg
      → (is_ssh u ≡ true → HasCarriers ups reg)
      → HasVia ups u
      → build machine reg name u ≡ ok d
      → intended ups name u ≡ some d
  unfolding build
  build-intended reg name u d right has via e =
      let (secrets, made) =
        >>-eq-ok (for_each (check_secret machine) (u.key_file_passphrase ∷ auth_refs u.auth))
          (build_kind machine (upstream_kind u.type) reg name u) e in
      elim (Bool-cases (is_ssh u)) [
        | inr n ↦
            plain-intended ups name u d n
              (build_kind-plain machine _ reg name u d (kind-ne_ssh u.type n) made)
        | inl s ↦ ssh-intended reg name u d right (has s) via s (rw (kind-ssh u.type s) at made)
      ]
