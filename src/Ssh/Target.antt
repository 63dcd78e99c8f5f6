-- ===== src/Ssh/Target.antt =====
-- The ssh endpoint of an upstream: pkg/sshclient/target.go, authMethods of pkg/sshclient/auth.go
-- and hostKeyCallback of pkg/sshclient/hostkey.go. The user, the files, the keys and the agent of
-- the machine are parameters, and so is the value of a secret.
use dockprox.Base.{
  ℕ, Bool, not, ◌||◌, Option, none, some, List, [], ◌∷◌, ◌++◌, Result, ok, err, if◌then◌else◌, drop,
  ◌>>=◌, fail_if,
}
use dockprox.Base.Text.{Text, codes, is_empty, text_eq, has_prefix}
use dockprox.Base.Int.{ℤ, eq_ℕ, pos}
use dockprox.Config.Schema.{Upstream}

-- ssh.ParsePrivateKey: a signer, or the error of an encrypted key, or another.
pub data Parsed : Type 0 where
  parsed : ℕ → Parsed
  needs_passphrase unreadable_key : Parsed

-- user.Current, os.UserHomeDir, os.ReadFile, os.Stat, the variable SSH_AUTH_SOCK, filepath.Join,
-- secret.Resolve, the parsers of keys, the fingerprint of a key, what knownhosts.New of a file says
-- of a host's key, and whether the agent at a socket can be dialed.
pub record Computer : Type 0 where
  pub current_user : Option Text
  pub home : Option Text
  pub read_file : Text → Option Text
  pub exists : Text → Bool
  pub auth_sock : Text
  pub join : Text → Text → Text
  pub resolve : Text → Option Text
  pub parse_key : Text → Parsed
  pub parse_locked : Text → Text → Option ℕ
  pub fingerprint : ℕ → Text
  pub known_hosts : Text → Option (Text → ℕ → Bool)
  pub dials_agent : Text → Bool

pub record Target : Type 0 where
  pub host : Text
  pub port : ℤ
  pub user : Text
  pub key_file : Text
  pub key_file_passphrase : Text
  pub identity_agent : Text
  pub host_key : Text

pub data TargetError : Type 0 where
  no_user no_home bad_passphrase no_sock no_agent no_known_hosts no_method agent_dial : TargetError
  no_expansion bad_key_file encrypted : Text → TargetError
  mismatch : Text → TargetError
  untrusted : Text → TargetError

pub data AuthMethod : Type 0 where
  public_key : ℕ → AuthMethod
  agent_keys : Text → AuthMethod

abbrev pub default_port : ℤ
default_port = pos 22

abbrev pub env_name : Text
env_name = codes "SSH_AUTH_SOCK"

abbrev pub tilde : Text
tilde = codes "~"

abbrev pub tilde_slash : Text
tilde_slash = codes "~/"

abbrev pub or_error {ℓ} : {A : Type ℓ} → TargetError → Option A → Result TargetError A
or_error e none = err e
or_error e (some a) = ok a

abbrev pub unless_empty {ℓ} :
    {A : Type ℓ} → Text → Result TargetError (Option A) → Result TargetError (Option A)
unless_empty t m = if is_empty t then ok none else m

abbrev pub key_methods : Option ℕ → List AuthMethod
key_methods none = []
key_methods (some k) = public_key k ∷ []

module _ (pc : Computer) where
  unfoldable pub expand_tilde : Text → Text → Result TargetError Text
  expand_tilde path home =
      if text_eq path tilde
      then ok home
      else if not (has_prefix tilde_slash path)
      then err (no_expansion path)
      else ok (pc.join home (drop 2 path))

  unfoldable pub expand_home : Text → Result TargetError Text
  expand_home path =
      if is_empty path || not (has_prefix tilde path)
      then ok path
      else (or_error no_home pc.home >>= expand_tilde path)

  unfoldable pub user_of : Text → Result TargetError Text
  user_of user = if is_empty user then or_error no_user pc.current_user else ok user

  unfoldable pub agent_of : Text → Result TargetError Text
  agent_of agent = if text_eq agent env_name then ok agent else expand_home agent

  unfoldable pub new : Upstream → Result TargetError Target
  new u = do
    user ← user_of u.user
    key_file ← expand_home u.key_file
    agent ← agent_of u.identity_agent
    ok (record {
      host = u.host;
      port = if eq_ℕ u.port 0 then default_port else u.port;
      user = user;
      key_file = key_file;
      key_file_passphrase = u.key_file_passphrase;
      identity_agent = agent;
      host_key = u.host_key;
    })

  -- The signer of a key file; none where only the agent can authenticate with it.
  unfoldable pub open_signer : Target → Parsed → Result TargetError (Option ℕ)
  open_signer t (parsed k) = ok (some k)
  open_signer t needs_passphrase =
      if is_empty t.identity_agent then err (encrypted t.key_file) else ok none
  open_signer t unreadable_key = err (bad_key_file t.key_file)

  unfoldable pub locked_signer : Target → Text → Text → Result TargetError (Option ℕ)
  locked_signer t pem passphrase =
      or_error (bad_key_file t.key_file) (pc.parse_locked pem passphrase) >>= λ k. ok (some k)

  unfoldable pub key_signer : Target → Result TargetError (Option ℕ)
  unfolding open_signer locked_signer
  key_signer t = do
    pem ← or_error (bad_key_file t.key_file) (pc.read_file t.key_file)
    (if is_empty t.key_file_passphrase
        then open_signer t (pc.parse_key pem)
        else (or_error bad_passphrase (pc.resolve t.key_file_passphrase) >>= locked_signer t pem))

  unfoldable pub existing : Text → Result TargetError Text
  existing path = if pc.exists path then ok path else err no_agent

  unfoldable pub agent_socket : Target → Result TargetError Text
  unfolding existing
  agent_socket t =
      if is_empty t.identity_agent
      then ok []
      else if text_eq t.identity_agent env_name
      then if is_empty pc.auth_sock then err no_sock else existing pc.auth_sock
      else existing t.identity_agent

  unfoldable pub known_hosts_path : Result TargetError Text
  known_hosts_path = or_error no_home pc.home >>= λ home.
      ok (pc.join (pc.join home (codes ".ssh")) (codes "known_hosts"))

  unfoldable pub check_host_key : Target → Result TargetError (Unit {0})
  unfolding known_hosts_path
  check_host_key t =
      if is_empty t.host_key
      then (known_hosts_path >>= λ path. fail_if (not (pc.exists path)) no_known_hosts)
      else ok tt

  unfoldable pub validate : Target → Result TargetError (Unit {0})
  validate t = do
    signer ← unless_empty t.key_file (key_signer t)
    sock ← agent_socket t
    check_host_key t

  -- The key file first, then the agent.
  unfoldable pub with_agent : List AuthMethod → Text → Result TargetError (List AuthMethod)
  with_agent [] [] = err no_method
  with_agent (k ∷ ks) [] = ok (k ∷ ks)
  with_agent ks (c ∷ sock) =
      if pc.dials_agent (c ∷ sock) then ok (ks ++ agent_keys (c ∷ sock) ∷ []) else err agent_dial

  unfoldable pub auth_methods : Target → Result TargetError (List AuthMethod)
  auth_methods t = do
    signer ← unless_empty t.key_file (key_signer t)
    sock ← agent_socket t
    with_agent (key_methods signer) sock

  -- The verifiers of host keys: of the host's name as dialed, and the key that it presents.
  unfoldable pub pinned_key : Target → Text → ℕ → Result TargetError (Unit {0})
  pinned_key t hostname key =
      fail_if (not (text_eq (pc.fingerprint key) t.host_key)) (mismatch t.host)

  unfoldable pub known_key : (Text → ℕ → Bool) → Target → Text → ℕ → Result TargetError (Unit {0})
  known_key accepts t hostname key = fail_if (not (accepts hostname key)) (untrusted t.host)

  unfoldable pub host_key_callback :
      Target → Result TargetError (Text → ℕ → Result TargetError (Unit {0}))
  host_key_callback t = if not (is_empty t.host_key) then ok (pinned_key t) else (do
    path ← known_hosts_path
    accepts ← or_error no_known_hosts (pc.known_hosts path)
    ok (known_key accepts t))
