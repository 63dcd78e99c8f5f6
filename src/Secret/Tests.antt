-- ===== src/Secret/Tests.antt =====
-- The properties of the resolver at a 1Password reference.
use dockprox.Base.{◌≡◌, refl, true, false, none, List, [], ◌∷◌, ◌++◌, ok, err}
use dockprox.Base.Text.{Text, codes, has_prefix, lookup}
use dockprox.Secret.Resolver.{
  Resolver, Machine, SecretError, check, resolve, command, resolve_by, fetch, keep, run, look_path,
  trim_left, trim_right, search_tool,
}
use dockprox.Secret.Laws.{resolves, resolve_again, IsReported, check-resolve}

abbrev fresh : Resolver
fresh = record { allow_cmd = false; search_dirs = codes "/opt/bin" ∷ []; cache = [] }

-- The tool is in the search directory, and prints a line.
abbrev unlocked : Machine
unlocked = record {
  path_tool = λ t. none;
  is_executable = λ t. true;
  exec = λ dirs bin args. ok (codes "hunter2" ++ 10 ∷ []);
}

abbrev empty_machine : Machine
empty_machine = record {
  path_tool = λ t. none;
  is_executable = λ t. false;
  exec = λ dirs bin args. err [];
}

abbrev reference : Text
reference = codes "op://vault/vpn"

abbrev warm : Resolver
warm = record fresh { cache = (reference, codes "hunter2") ∷ [] }

reference_resolves : resolve unlocked fresh reference ≡ (ok (codes "hunter2"), warm)
unfolding resolve command resolve_by fetch keep run look_path trim_left trim_right search_tool
    has_prefix lookup
reference_resolves = refl

-- Another secret, which the machine of then cannot resolve, comes in between.
abbrev between : List (Machine × Text)
between = (empty_machine, codes "op://vault/other") ∷ (unlocked, codes "op://vault/ssh") ∷ []

resolve_again_example :
    resolve empty_machine (resolves between warm) reference
    ≡ (ok (codes "hunter2"), resolves between warm)
resolve_again_example =
    resolve_again reference (codes "hunter2") unlocked empty_machine fresh warm between
      reference_resolves

check-resolve_example :
    ((e : SecretError)
      → check empty_machine fresh reference ≡ err e
      → resolve empty_machine fresh reference ≡ (err e, fresh))
    × (check empty_machine fresh reference ≡ ok tt
        → (e : SecretError) → (resolve empty_machine fresh reference).0 ≡ err e
        → IsReported empty_machine fresh reference e)
unfolding lookup
check-resolve_example = check-resolve empty_machine fresh reference refl
