-- ===== src/Routing/Dialers.antt =====
-- The registry of pkg/upstream/registry.go and the constructors that it calls. What `sshclient.New`
-- with `Target.Validate` and `openconnect.New` find on the machine (key files, the agent's socket,
-- programs) is a parameter, and so are `url.Parse` and the check of a secret.
use dockprox.Base.{
  Bool, true, false, not, Option, none, some, List, [], ◌∷◌, Result, ok, err, if◌then◌else◌, ◌>>=◌,
  ◌>>◌, fail_if, wrap, for_each,
}
use dockprox.Base.Text.{Text, is_empty, text_eq, lookup}
use dockprox.Config.Schema.{
  Upstream, UpstreamAuth, UpstreamKind, socks5, http, direct, ssh, forward, openconnect, unknown,
  upstream_kind, upstream_ssh,
}
use dockprox.Config.Upstreams.{Url}
use dockprox.Config.Validate.{Upstreams}

-- The dialers by the type that implements each, with their fields. An ssh dialer holds no
-- dialer in `via`, or the one that carries its connection.
pub data Dialer : Type 0 where
  direct_dialer : Text → Dialer
  socks5_dialer http_dialer : Text → Upstream → Dialer
  forward_dialer : Text → Text → Dialer
  ssh_dialer : Text → Upstream → Dialer
  ssh_over : Text → Upstream → Dialer → Dialer
  openconnect_dialer : Text → Upstream → Dialer

pub data BuildError : Type 0 where
  secret_unresolvable : Text → BuildError
  bad_url url_host_required bad_ssh_target no_vpn_tools : BuildError
  unknown_type : Text → BuildError
  of_upstream : Text → BuildError → BuildError

pub record Machine : Type 0 where
  pub secret_ok : Text → Bool
  pub parse_url : Text → Option Url
  pub ssh_ready : Upstream → Bool
  pub openconnect_ready : Upstream → Bool

abbrev pub Dialers : Type 0
Dialers = List (Text × Dialer)

-- The references whose secrets are checked.
abbrev pub auth_refs : Option UpstreamAuth → List Text
auth_refs none = []
auth_refs (some a) = a.username ∷ a.password ∷ []

-- The struct that NewSSH makes.
abbrev pub ssh_via : Text → Upstream → Option Dialer → Dialer
ssh_via name u none = ssh_dialer name u
ssh_via name u (some via) = ssh_over name u via

abbrev pub is_ssh : Upstream → Bool
is_ssh u = text_eq u.type upstream_ssh

unfoldable pub same_bool : Bool → Bool → Bool
same_bool true b = b
same_bool false b = not b

module _ (machine : Machine) where
  unfoldable pub check_secret : Text → Result BuildError (Unit {0})
  check_secret ref = fail_if (not (machine.secret_ok ref)) (secret_unresolvable ref)

  unfoldable pub http_of_url : Text → Upstream → Option Url → Result BuildError Dialer
  http_of_url name u none = err bad_url
  http_of_url name u (some url) =
      if is_empty url.host then err url_host_required else ok (http_dialer name u)

  unfoldable pub new_ssh : Text → Upstream → Option Dialer → Result BuildError Dialer
  new_ssh name u via = if machine.ssh_ready u then ok (ssh_via name u via) else err bad_ssh_target

  unfoldable pub new_openconnect : Text → Upstream → Result BuildError Dialer
  new_openconnect name u =
      if machine.openconnect_ready u then ok (openconnect_dialer name u) else err no_vpn_tools

  -- The dialer that carries an ssh upstream; a name that is missing gives none.
  unfoldable pub via_dialer : Dialers → Upstream → Option Dialer
  via_dialer reg u = if is_empty u.via then none else lookup u.via reg

  unfoldable pub build_kind : UpstreamKind → Dialers → Text → Upstream → Result BuildError Dialer
  build_kind direct reg name u = ok (direct_dialer name)
  build_kind socks5 reg name u = ok (socks5_dialer name u)
  build_kind http reg name u = http_of_url name u (machine.parse_url u.url)
  build_kind forward reg name u = ok (forward_dialer name u.addr)
  build_kind ssh reg name u = new_ssh name u (via_dialer reg u)
  build_kind openconnect reg name u = new_openconnect name u
  build_kind unknown reg name u = err (unknown_type u.type)

  unfoldable pub build : Dialers → Text → Upstream → Result BuildError Dialer
  build reg name u = do
    for_each check_secret (u.key_file_passphrase ∷ auth_refs u.auth)
    build_kind (upstream_kind u.type) reg name u

  -- The body of the two loops over the upstreams: each skips the upstreams of the other one. A
  -- built dialer is put in front, where a lookup finds it.
  unfoldable pub build_step : Bool → Dialers → Text × Upstream → Result BuildError Dialers
  unfolding same_bool
  build_step ssh_pass reg (name, u) =
      if same_bool ssh_pass (is_ssh u)
      then (wrap (of_upstream name) (build reg name u) >>= λ d. ok ((name, d) ∷ reg))
      else ok reg

  unfoldable pub build_pass : Bool → Dialers → Upstreams → Result BuildError Dialers
  build_pass ssh_pass reg [] = ok reg
  build_pass ssh_pass reg (nu ∷ rest) = do
    reg' ← build_step ssh_pass reg nu
    build_pass ssh_pass reg' rest

  -- NewRegistry: the upstreams that are not ssh, and then those that are, so that the upstream that
  -- `via` names exists. The ranges over the map run in the order of the list.
  unfoldable pub new_registry : Upstreams → Result BuildError Dialers
  new_registry ups = do reg ← build_pass false [] ups; build_pass true reg ups
