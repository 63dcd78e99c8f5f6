-- ===== src/Config/LoadSound.antt =====
-- A configuration that pkg/config/load.go returns has been checked whole.
use dockprox.Base.{
  ◌≡◌, refl, ap, ◌↔◌, true, false, not, Option, none, some, arith, ok, All, All-imp, fail_if, wrap,
  for_each, >>=-eq-ok, >>-eq-ok, fail_if-eq-ok, wrap-eq-ok, for_each-eq-ok, for_each-of_All,
}
use dockprox.Base.Text.{Text, codes}
use dockprox.Base.Int.{ℤ, pos, eq_ℕ}
use dockprox.Config.Schema.{Upstream, Config}
use dockprox.Config.Upstreams.{Url}
use dockprox.Config.Validate.{validate}
use dockprox.Config.Sound.{IsConsistent, validate_iff}
use dockprox.Config.Load.{
  Koanf, invalid, or_error, version, socks5_listen_key, socks5_listen_removed, defaults, finalize,
}

-- What holds of the parsed file and the configuration made of it.
pub record IsLoaded (parse_url : Text → Option Url) (k : Koanf) (c : Config) : Type 0 where
  pub declared : k.has_key (codes "version") ≡ true
  pub merged : k.unmarshal defaults ≡ some c
  pub supported : c.version ≡ pos version
  pub removed : All (λ nu. k.has_key (socks5_listen_key nu.0) ≡ false) c.upstreams
  pub consistent : IsConsistent parse_url c

is_version : (i : ℤ) → eq_ℕ i version ≡ true → i ≡ pos version
is_version i e = ground arith

or_error-ok : (o : Option Config) (c : Config) → or_error o ≡ ok c → o ≡ some c
or_error-ok none c e = cc
or_error-ok (some d) c e = ground arith

-- A file is accepted exactly when it declares version 1, unmarshals over the defaults, has no
-- upstream with the removed socks5Listen key, and the result is consistent.
pub finalize_iff :
    (parse_url : Text → Option Url) (k : Koanf) (c : Config)
    → (finalize parse_url k ≡ ok c) ↔ IsLoaded parse_url k c
unfolding finalize
finalize_iff parse_url k c = (
  λ e.
      let (declared, e1) = >>-eq-ok (fail_if (not (k.has_key (codes "version"))) _) _ e in
      let (d, f, e2) = >>=-eq-ok (or_error (k.unmarshal defaults)) _ e1 in
      let (supported, e3) = >>-eq-ok (fail_if (not (eq_ℕ d.version version)) _) _ e2 in
      let (removed, e4) =
        >>-eq-ok
          (for_each
            (λ (nu : Text × Upstream).
              fail_if (k.has_key (socks5_listen_key nu.0)) (socks5_listen_removed nu.0))
            d.upstreams)
          _ e3 in
      let (valid, e5) = >>-eq-ok (wrap invalid (validate parse_url d)) _ e4 in
      let same : d ≡ c = ground arith in
      rw (← same) (record {
        declared = ground arith;
        merged = or_error-ok _ d f;
        supported = is_version d.version (ground arith);
        removed =
            All-imp d.upstreams (λ nu h. fail_if-eq-ok _ _ h)
              (for_each-eq-ok _ d.upstreams removed);
        consistent = (validate_iff parse_url d).0 (wrap-eq-ok _ _ valid);
      }),
  λ h.
      let gone =
        for_each-of_All
          (λ (nu : Text × Upstream).
            fail_if (k.has_key (socks5_listen_key nu.0)) (socks5_listen_removed nu.0))
          c.upstreams
          (All-imp c.upstreams (λ nu q. ap (λ b. fail_if b (socks5_listen_removed nu.0)) q)
            h.removed) in
      let valid = (validate_iff parse_url c).1 h.consistent in
      let right : eq_ℕ c.version version ≡ true = ap (λ i. eq_ℕ i version) h.supported in
      rw (h.declared, h.merged, right, gone, valid) refl,
)
