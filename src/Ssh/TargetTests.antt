-- ===== src/Ssh/TargetTests.antt =====
-- An ssh endpoint with an encrypted key and an agent.
use dockprox.Base.{◌≡◌, refl, ◌≢◌, ◌↔◌, inl, inr, true, none, some, List, [], ◌++◌, arith, ok}
use dockprox.Base.Text.{codes, text_eq, has_prefix}
use dockprox.Base.Int.{pos}
use dockprox.Config.Schema.{Upstream}
use dockprox.Config.Tests.{bastion}
use dockprox.Config.UpstreamSound.{IsSsh}
use dockprox.Ssh.Target.{
  Computer, Target, needs_passphrase, expand_tilde, expand_home, user_of, agent_of, new, key_signer,
  agent_socket, check_host_key, validate, AuthMethod, auth_methods,
}
use dockprox.Ssh.HostKeyLaws.{Trusts, verify}
use dockprox.Ssh.TargetLaws.{Paths, new-Authenticates}

-- Every file exists, every key is encrypted, and the agent answers.
abbrev pc : Computer
pc = record {
  current_user = some (codes "me");
  home = some (codes "/home/me");
  read_file = λ p. some (codes "key");
  exists = λ p. true;
  auth_sock = codes "/tmp/agent";
  join = λ p q. p ++ codes "/" ++ q;
  resolve = λ p. none;
  parse_key = λ pem. needs_passphrase;
  parse_locked = λ pem pass. none;
  fingerprint = λ key. codes "SHA256:x";
  known_hosts = λ p. some (λ host key. true);
  dials_agent = λ sock. true;
}

abbrev jump : Upstream
jump = record bastion { identity_agent = codes "SSH_AUTH_SOCK" }

abbrev target : Target
target = record {
  host = codes "bastion";
  port = pos 22;
  user = codes "me";
  key_file = codes "/home/me/.ssh/id";
  key_file_passphrase = [];
  identity_agent = codes "SSH_AUTH_SOCK";
  host_key = [];
}

new-target : new pc jump ≡ ok target
unfolding new user_of expand_home expand_tilde agent_of text_eq has_prefix
new-target = refl

target-valid : validate pc target ≡ ok tt
unfolding validate key_signer agent_socket check_host_key text_eq
target-valid = refl

jump-IsSsh : IsSsh jump
jump-IsSsh = record { host = λ q. cc; port = omega arith; key = inr (λ q. cc); host_key = inl refl }

pc-Paths : Paths pc
pc-Paths = record { home = λ h e q. ground arith; join = λ p q ne empty. ne (ground arith) }

new-Authenticates_example :
    ((ms : List AuthMethod) × (auth_methods pc target ≡ ok ms) × (ms ≢ []))
    × ((verify pc target (codes "bastion:22") 7 ≡ ok tt) ↔ Trusts pc target (codes "bastion:22") 7)
new-Authenticates_example =
    new-Authenticates pc jump target (codes "bastion:22") 7 jump-IsSsh pc-Paths new-target
      target-valid (λ sock found. refl)
