-- ===== src/Cli/FlagLaws.antt =====
-- What the flags of internal/cli/serve.go may give.
use dockprox.Base.{
  ◌≡◌, refl, sym, ◌≢◌, inl, inr, ◌||◌, Option, none, some, List, [], ◌∷◌, ◌++◌, arith, Result, ok,
  err, Bool-cases, All, wrap, >>=-eq-ok, >>-eq-ok, wrap-eq-ok,
}
use dockprox.Base.Text.{Text, codes, is_empty, text_eq, has_prefix, cut_first}
use dockprox.Base.Int.{ℤ}
use dockprox.Base.Decimal.{atoi}
use dockprox.Base.HostPort.{HostPortError, split_host_port}
use dockprox.Config.Schema.{Upstream, Config, upstream_ssh, upstream_kind, ssh}
use dockprox.Config.Upstreams.{Url}
use dockprox.Config.UpstreamSound.{IsSsh, IsUpstream}
use dockprox.Config.Validate.{Upstreams}
use dockprox.Config.Sound.{IsConsistent, validate_iff}
use dockprox.Config.Load.{Koanf}
use dockprox.Cli.Flags.{
  ServeFlags, FlagError, with_port, ssh_parts, parse_ssh_upstream, parse_url_flag, key_value,
  parse_upstream_flag, put, add_upstreams, add_rules, override, base_config, load_config,
  name_expected, invalid,
}

-- An upstream that has neither a key nor an agent.
abbrev HasNoKey : Upstream → Type 0
HasNoKey u = (u.key_file ≡ []) × (u.identity_agent ≡ [])

with_port-HasNoKey :
    (name host port_str : Text) (o : Option ℤ) (u : Upstream)
    → with_port name host port_str o ≡ ok u
    → HasNoKey u
unfolding with_port
with_port-HasNoKey name host port_str none u e = cc
with_port-HasNoKey name host port_str (some port) u e = (ground arith, ground arith)

ssh_parts-HasNoKey :
    (name raw : Text) (r : Result HostPortError (Text × Text)) (u : Upstream)
    → ssh_parts name raw r ≡ ok u
    → HasNoKey u
unfolding ssh_parts
ssh_parts-HasNoKey name raw (err x) u e = (ground arith, ground arith)
ssh_parts-HasNoKey name raw (ok (host, port_str)) u e =
    with_port-HasNoKey name host port_str (atoi port_str) u e

parse_ssh_upstream-HasNoKey :
    (name raw : Text) (u : Upstream) → parse_ssh_upstream name raw ≡ ok u → HasNoKey u
unfolding parse_ssh_upstream
parse_ssh_upstream-HasNoKey name raw u e = elim (Bool-cases (is_empty raw)) [
  | inl y ↦ absurd (ground arith)
  | inr n ↦ ssh_parts-HasNoKey name raw (split_host_port raw) u (rw n at e)
]

parse_url_flag-HasNoKey :
    (name raw : Text) (u : Upstream) → parse_url_flag name raw ≡ ok u → HasNoKey u
unfolding parse_url_flag
parse_url_flag-HasNoKey name raw u e = elim (Bool-cases (has_prefix (codes "ssh://") raw)) [
  | inr n ↦ (ground arith, ground arith)
  | inl y ↦ elim (Bool-cases (has_prefix (codes "socks5://") raw)) [
    | inl a ↦ (ground arith, ground arith)
    | inr b ↦
        elim (Bool-cases (has_prefix (codes "http://") raw || has_prefix (codes "https://") raw)) [
          | inl a ↦ (ground arith, ground arith)
          | inr d ↦ parse_ssh_upstream-HasNoKey name _ u (rw (b, d, y) at e)
        ]
  ]
]

put-All :
    (P : Text × Upstream → Type 0) (k : Text) (u : Upstream) (m : Upstreams)
    → All P (put k u m)
    → P (k, u)
unfolding put
put-All P k u [] h = h.0
put-All P k u ((j, v) ∷ m) h = elim (Bool-cases (text_eq j k)) [
  | inl y ↦ (rw y at h).0
  | inr n ↦ put-All P k u m (rw n at h).1
]

parse_upstream_flag-HasNoKey :
    (s name : Text) (u : Upstream) → parse_upstream_flag s ≡ ok (name, u) → HasNoKey u
unfolding parse_upstream_flag
parse_upstream_flag-HasNoKey s name u e =
    let (nr, f, e') = >>=-eq-ok (key_value (name_expected s) (cut_first b'=' s)) _ e in
    let (v, g, e'') = >>=-eq-ok (parse_url_flag nr.0 nr.1) _ e' in
    let same : v ≡ u = ground arith in rw (sym same) (parse_url_flag-HasNoKey nr.0 nr.1 v g)

ssh_kind : (t : Text) → t ≡ upstream_ssh → upstream_kind t ≡ ssh
unfolding upstream_kind text_eq
ssh_kind t e = rw e refl

override-set : (flag field : Text) → flag ≢ [] → override flag field ≡ flag
override-set [] field n = absurd (n refl)
override-set (c ∷ t) field n = refl

module _ (parse_url : Text → Option Url) where
  ssh_flag-refused :
      (u : Upstream) → HasNoKey u → u.type ≡ upstream_ssh → IsUpstream parse_url u → ⊥
  ssh_flag-refused u (k, a) t h =
      let is_ssh : IsSsh u = (rw (ssh_kind u.type t) at h.kind) in
      elim is_ssh.key [ inl no_file ↦ no_file k | inr no_agent ↦ no_agent a ]

  add_upstreams-last :
      (flags : List Text) (s name : Text) (u : Upstream) (ups out : Upstreams)
      → parse_upstream_flag s ≡ ok (name, u)
      → add_upstreams (flags ++ s ∷ []) ups ≡ ok out
      → (mid : Upstreams) × (out ≡ put name u mid)
  unfolding add_upstreams
  add_upstreams-last [] s name u ups out p e = (
    ups,
    let e' : ◌≡◌ {A = Result FlagError Upstreams} (ok (put name u ups)) (ok out) = (rw p at e) in
        ground arith,
  )
  add_upstreams-last (t ∷ flags) s name u ups out p e =
      let (nu, f, e') = >>=-eq-ok (parse_upstream_flag t) _ e in
      add_upstreams-last flags s name u (put nu.0 nu.1 ups) out p e'

  module _ (read : Text → Option Koanf) where
    -- A configuration that the serve command runs with is consistent, whatever its flags added to
    -- the file, and has the address and the log level of the flags that are set.
    pub load_config-IsConsistent :
        (f : ServeFlags) (c : Config)
        → load_config parse_url read f ≡ ok c
        → IsConsistent parse_url c
          × (f.listen ≢ [] → c.listen ≡ f.listen)
          × (f.log_level ≢ [] → c.log_level ≡ f.log_level)
    unfolding load_config
    load_config-IsConsistent f c e =
        let (base, f1, e1) = >>=-eq-ok (base_config parse_url read f.config_path) _ e in
        let (ups, f2, e2) = >>=-eq-ok (add_upstreams f.upstreams base.upstreams) _ e1 in
        let (rules, f3, e3) = >>=-eq-ok (add_rules f.rules base.rules) _ e2 in
        let (f4, e4) = >>-eq-ok (wrap invalid _) _ e3 in
        let c' : Config = record base {
          listen = override f.listen base.listen;
          log_level = override f.log_level base.log_level;
          upstreams = ups;
          rules = rules;
        } in
        let same : c' ≡ c = ground arith in
        rw (sym same) (
          (validate_iff parse_url c').0 (wrap-eq-ok _ _ f4),
          override-set f.listen base.listen,
          override-set f.log_level base.log_level,
        )

    -- The last upstream flag of the serve command is never an ssh upstream of a configuration that
    -- loads: such a flag is parsed, but names neither a key nor an agent, and is then refused.
    pub load_config-no_ssh :
        (f : ServeFlags) (c : Config) (flags : List Text) (s name : Text) (u : Upstream)
        → f.upstreams ≡ flags ++ s ∷ []
        → parse_upstream_flag s ≡ ok (name, u)
        → load_config parse_url read f ≡ ok c
        → u.type ≢ upstream_ssh
    unfolding load_config
    load_config-no_ssh f c flags s name u last p e t =
        let (base, f1, e1) = >>=-eq-ok (base_config parse_url read f.config_path) _ e in
        let (ups, f2, e2) = >>=-eq-ok (add_upstreams f.upstreams base.upstreams) _ e1 in
        let (rules, f3, e3) = >>=-eq-ok (add_rules f.rules base.rules) _ e2 in
        let (f4, e4) = >>-eq-ok (wrap invalid _) _ e3 in
        let consistent = (validate_iff parse_url _).0 (wrap-eq-ok _ _ f4) in
        let (mid, same) = add_upstreams-last flags s name u base.upstreams ups p (rw last at f2) in
        let accepted =
          put-All (λ nu. IsUpstream parse_url nu.1) name u mid (rw same at consistent.upstreams) in
        ssh_flag-refused u (parse_upstream_flag-HasNoKey s name u p) t accepted
