-- ===== src/Match/Tests.antt =====
-- The properties of the matcher at concrete rules and hosts.
use dockprox.Base.{◌≡◌, refl, some, List, [], ◌∷◌, ◌++◌, arith, ok}
use dockprox.Base.Text.{Text, codes, text_eq, has_prefix, has_suffix, count_byte, to_lower, lookup}
use dockprox.Match.Host.{strip_port, host_key}
use dockprox.Match.Compile.{Rule, Matcher, new}
use dockprox.Match.First.{first}
use dockprox.Match.Spec.{Matches, FirstOf}
use dockprox.Match.Refine.{first-FirstOf}
use dockprox.Match.Accept.{Outcome, new-Outcome}
use dockprox.Match.Ports.{first-last_colon}

abbrev rule : Text → Text → Rule
rule p u = record { pattern = p; upstream = u }

abbrev registry_rules : List Rule
registry_rules =
    rule (codes "*.azurecr.io") (codes "jump")
    ∷ rule (codes "ghcr.io") (codes "corp")
    ∷ rule (codes "My.AzureCr.io") (codes "corp")
    ∷ []

abbrev known : List (Text × Unit {0})
known = (codes "corp", tt) ∷ (codes "jump", tt) ∷ []

abbrev compiled : Matcher
compiled = record {
  rules = registry_rules;
  exact = (codes "ghcr.io", 1) ∷ (codes "my.azurecr.io", 2) ∷ [];
  suffix = record { suffix = codes ".azurecr.io"; rule_idx = 0 } ∷ [];
}

new_compiles : new registry_rules known ≡ ok compiled
unfolding new to_lower has_prefix count_byte text_eq
new_compiles = refl

first_wildcard :
    first compiled (codes "MY.azurecr.io:443") ≡ some (rule (codes "*.azurecr.io") (codes "jump"))
unfolding first host_key strip_port to_lower has_suffix text_eq lookup
first_wildcard = refl

first-FirstOf_example :
    FirstOf
      (λ r. Matches r.pattern (host_key (codes "my.azurecr.io")))
      registry_rules
      (first compiled (codes "my.azurecr.io"))
first-FirstOf_example =
    first-FirstOf registry_rules known compiled (codes "my.azurecr.io") new_compiles

new-Outcome_example :
    Outcome known 0
      (rule (codes "a*b") (codes "corp") ∷ [])
      (new (rule (codes "a*b") (codes "corp") ∷ []) known)
new-Outcome_example = new-Outcome (rule (codes "a*b") (codes "corp") ∷ []) known

-- Two IPv6 addresses of one network, as the SOCKS5 server and the HTTP proxy hand them over.
first-last_colon_example :
    first compiled (codes "2001:db8:" ++ b':' ∷ codes "1")
    ≡ first compiled (codes "2001:db8:" ++ b':' ∷ codes "2")
first-last_colon_example =
    first-last_colon compiled (codes "2001:db8:") (codes "1") (codes "2") (omega arith)
      (omega arith) (omega arith)
