-- ===== src/Ssh/TargetLaws.antt =====
-- That an ssh endpoint which passes the checks at startup can authenticate, and whose keys it
-- takes: pkg/sshclient/target.go, pkg/sshclient/auth.go and pkg/sshclient/hostkey.go.
use dockprox.Base.{
  ℕ, ◌≡◌, refl, ◌≢◌, ◌↔◌, ◌⊎◌, inl, inr, true, false, not, ◌||◌, Option, none, some, List, [], ◌∷◌,
  ◌++◌, arith, ok, Bool-cases, drop, >>=-eq-ok,
}
use dockprox.Base.Text.{Text, codes, is_empty, text_eq, has_prefix}
use dockprox.Config.Schema.{Upstream}
use dockprox.Config.UpstreamSound.{IsSsh}
use dockprox.Ssh.Target.{
  Computer, Target, TargetError, Parsed, parsed, needs_passphrase, unreadable_key, bad_key_file,
  bad_passphrase, no_home, env_name, or_error, expand_tilde, expand_home, user_of, agent_of, new,
  open_signer, locked_signer, key_signer, existing, agent_socket, unless_empty, validate,
  AuthMethod, agent_keys, key_methods, with_agent, auth_methods,
}
use dockprox.Ssh.HostKeyLaws.{Trusts, verify, verify-Trusts, Trusts-verify}

or_error-ok {ℓ} :
    {A : Type ℓ} (e : TargetError) (o : Option A) {a : A} → or_error e o ≡ ok a → o ≡ some a
or_error-ok e none q = cc
or_error-ok e (some x) q = ground arith

module _ (pc : Computer) where
  -- The home directory has a name, and what is joined to a path is no empty path.
  pub record Paths : Type 0 where
    pub home : (h : Text) → pc.home ≡ some h → h ≢ []
    pub join : (p q : Text) → p ≢ [] → pc.join p q ≢ []

  expand_tilde-ne :
      (path home q : Text) → Paths → home ≢ [] → expand_tilde pc path home ≡ ok q → q ≢ []
  unfolding expand_tilde
  expand_tilde-ne path home q paths ne e empty =
      let joined = paths.join home (drop 2 path) ne in ground arith

  expand_home-ne : (path q : Text) → Paths → path ≢ [] → expand_home pc path ≡ ok q → q ≢ []
  unfolding expand_home
  expand_home-ne path q paths ne e =
      elim (Bool-cases (is_empty path || not (has_prefix (codes "~") path))) [
        | inl plain ↦ λ empty. absurd (ground (arith, rw plain at e))
        | inr tilde ↦
            let (home, f, g) =
              >>=-eq-ok (or_error no_home pc.home) (expand_tilde pc path) (rw tilde at e) in
            expand_tilde-ne path home q paths (paths.home home (or_error-ok no_home pc.home f)) g
      ]

  agent_of-ne : (agent q : Text) → Paths → agent ≢ [] → agent_of pc agent ≡ ok q → q ≢ []
  unfolding agent_of
  agent_of-ne agent q paths ne e = elim (Bool-cases (text_eq agent env_name)) [
    | inl env ↦ λ empty. absurd (ground (arith, rw env at e))
    | inr path ↦ expand_home-ne agent q paths ne (rw path at e)
  ]

  -- The parts of a target that New makes.
  new-parts :
      (u : Upstream) (t : Target)
      → new pc u ≡ ok t
      → (expand_home pc u.key_file ≡ ok t.key_file)
        × (agent_of pc u.identity_agent ≡ ok t.identity_agent)
  unfolding new
  new-parts u t e =
      let (user, f, e1) = >>=-eq-ok (user_of pc u.user) _ e in
      let (key, g, e2) = >>=-eq-ok (expand_home pc u.key_file) _ e1 in
      let (agent, h, e3) = >>=-eq-ok (agent_of pc u.identity_agent) _ e2 in
      (ground arith, ground arith)

  existing-eq : (path q : Text) → existing pc path ≡ ok q → (q ≡ path) × (pc.exists path ≡ true)
  unfolding existing
  existing-eq path q e = ground arith

  -- The socket of an agent is there, and it is no empty path unless no agent is configured.
  agent_socket-exists :
      (t : Target) (sock : Text)
      → agent_socket pc t ≡ ok sock
      → ((sock ≡ []) × (t.identity_agent ≡ [])) ⊎ ((sock ≢ []) × (pc.exists sock ≡ true))
  unfolding agent_socket
  agent_socket-exists t sock e = elim (Bool-cases (is_empty t.identity_agent)) [
    | inl none_there ↦ inl (ground (arith, rw none_there at e), ground arith)
    | inr there ↦ elim (Bool-cases (text_eq t.identity_agent env_name)) [
      | inr path ↦
          let (same, found) = existing-eq t.identity_agent sock (rw (there, path) at e) in
          inr (λ empty. absurd (ground arith), rw same found)
      | inl env ↦ elim (Bool-cases (is_empty pc.auth_sock)) [
        | inl unset ↦ absurd (ground (arith, rw (there, env, unset) at e))
        | inr set ↦
            let (same, found) = existing-eq pc.auth_sock sock (rw (there, env, set) at e) in
            inr (λ empty. absurd (ground arith), rw same found)
      ]
    ]
  ]

  locked_signer-ne :
      (t : Target) (pem passphrase : Text) → locked_signer pc t pem passphrase ≢ ok none
  unfolding locked_signer
  locked_signer-ne t pem passphrase e =
      let (k, f, g) =
        >>=-eq-ok (or_error (bad_key_file t.key_file) (pc.parse_locked pem passphrase)) _ e in
      ground arith

  open_signer-none :
      (t : Target) (p : Parsed) → open_signer pc t p ≡ ok none → is_empty t.identity_agent ≡ false
  unfolding open_signer
  open_signer-none t (parsed k) e = absurd (ground arith)
  open_signer-none t needs_passphrase e = ground arith
  open_signer-none t unreadable_key e = cc

  -- Only a key that the agent makes up for has no signer.
  key_signer-none : (t : Target) → key_signer pc t ≡ ok none → is_empty t.identity_agent ≡ false
  unfolding key_signer
  key_signer-none t e =
      let (pem, f, e1) =
        >>=-eq-ok (or_error (bad_key_file t.key_file) (pc.read_file t.key_file)) _ e in
      elim (Bool-cases (is_empty t.key_file_passphrase)) [
        | inl bare ↦ open_signer-none t (pc.parse_key pem) (rw bare at e1)
        | inr locked ↦
            let (pass, g, e2) =
              >>=-eq-ok (or_error bad_passphrase (pc.resolve t.key_file_passphrase))
                (locked_signer pc t pem) (rw locked at e1) in
            absurd (locked_signer-ne t pem pass e2)
      ]

  with_agent-ne :
      (ks : List AuthMethod) (sock : Text)
      → (sock ≡ [] → ks ≢ [])
      → (sock ≢ [] → pc.dials_agent sock ≡ true)
      → (ms : List AuthMethod) × (with_agent pc ks sock ≡ ok ms) × (ms ≢ [])
  unfolding with_agent
  with_agent-ne [] [] some_key reached = absurd (some_key refl refl)
  with_agent-ne (k ∷ ks) [] some_key reached = (k ∷ ks, refl, λ q. cc)
  with_agent-ne [] (c ∷ sock) some_key reached =
      (agent_keys (c ∷ sock) ∷ [], rw (reached (λ q. cc)) refl, λ q. cc)
  with_agent-ne (k ∷ ks) (c ∷ sock) some_key reached =
      (k ∷ ks ++ agent_keys (c ∷ sock) ∷ [], rw (reached (λ q. cc)) refl, λ q. cc)

  -- Without an agent there is a key file, and its signer.
  signer-some :
      (t : Target) (s : Option ℕ)
      → t.key_file ≢ []
      → t.identity_agent ≡ []
      → unless_empty t.key_file (key_signer pc t) ≡ ok s
      → key_methods s ≢ []
  signer-some t (some k) ne no_agent_there e = λ q. cc
  signer-some t none ne no_agent_there e =
      let there : is_empty t.key_file ≡ false = ground arith in
      let with_agent = key_signer-none t (rw there at e) in absurd (ground (arith, with_agent))

  checked :
      (t : Target)
      → validate pc t ≡ ok tt
      → (s : Option ℕ) × (sock : Text) × (unless_empty t.key_file (key_signer pc t) ≡ ok s)
        × (agent_socket pc t ≡ ok sock)
  unfolding validate
  checked t e =
      let (s, f, e1) = >>=-eq-ok (unless_empty t.key_file (key_signer pc t)) _ e in
      let (sock, g, e2) = >>=-eq-ok (agent_socket pc t) _ e1 in (s, sock, f, g)

  -- An ssh upstream without an agent has a key file.
  key_file-ne :
      (u : Upstream) (t : Target)
      → IsSsh u
      → Paths
      → expand_home pc u.key_file ≡ ok t.key_file
      → agent_of pc u.identity_agent ≡ ok t.identity_agent
      → t.identity_agent ≡ []
      → t.key_file ≢ []
  key_file-ne u t ssh paths key agent none_there = elim ssh.key [
    | inl ne ↦ expand_home-ne u.key_file t.key_file paths ne key
    | inr ne ↦ absurd (agent_of-ne u.identity_agent t.identity_agent paths ne agent none_there)
  ]

  -- An ssh upstream with the fields of its type, whose endpoint passes the checks at startup: as
  -- long as the machine stays as it is and its agent can be dialed, every attempt has a method to
  -- authenticate with; and a host's key is accepted exactly if it is the pinned one, or without one
  -- if the known hosts have it.
  pub new-Authenticates :
      (u : Upstream) (t : Target) (hostname : Text) (key : ℕ)
      → IsSsh u
      → Paths
      → new pc u ≡ ok t
      → validate pc t ≡ ok tt
      → ((sock : Text) → pc.exists sock ≡ true → pc.dials_agent sock ≡ true)
      → ((ms : List AuthMethod) × (auth_methods pc t ≡ ok ms) × (ms ≢ []))
        × ((verify pc t hostname key ≡ ok tt) ↔ Trusts pc t hostname key)
  unfolding auth_methods
  new-Authenticates u t hostname key ssh paths made valid dials =
      let (key_made, agent_made) = new-parts u t made in
      let (s, sock, f, g) = checked t valid in
      let socket = agent_socket-exists t sock g in
      let some_key : sock ≡ [] → key_methods s ≢ [] = λ none_there. elim socket [
        | inr (ne, found) ↦ absurd (ne none_there)
        | inl (q, no_agent_there) ↦
            signer-some t s (key_file-ne u t ssh paths key_made agent_made no_agent_there)
              no_agent_there f
      ] in
      let reached : sock ≢ [] → pc.dials_agent sock ≡ true = λ ne. elim socket [
        | inl (q, no_agent_there) ↦ absurd (ne q)
        | inr (ne', found) ↦ dials sock found
      ] in
      (
        rw (f, g) (with_agent-ne (key_methods s) sock some_key reached),
        (verify-Trusts pc t hostname key, Trusts-verify pc t hostname key),
      )
