-- ===== src/Match/Compile.antt =====
-- New of pkg/match/match.go: the rules compiled to a map of exact patterns and a list of suffixes.
use dockprox.Base.{
  ℕ, suc, Bool, not, List, [], ◌∷◌, ◌++◌, Result, ok, if◌then◌else◌, is_some, drop, ◌>>◌, fail_if,
  wrap,
}
use dockprox.Base.Text.{Text, codes, has_prefix, to_lower, lookup}
use dockprox.Match.Host.{PatternError, validate_pattern}

pub record Rule : Type 0 where
  pub pattern : Text
  pub upstream : Text

pub record SuffixRule : Type 0 where
  pub suffix : Text
  pub rule_idx : ℕ

pub record Matcher : Type 0 where
  pub rules : List Rule
  pub exact : List (Text × ℕ)
  pub suffix : List SuffixRule

pub data RuleError : Type 0 where
  bad_pattern : ℕ → PatternError → RuleError
  unknown_upstream : ℕ → Text → RuleError

-- The matcher before the loop.
abbrev pub no_rules : Matcher
no_rules = record { rules = []; exact = []; suffix = [] }

-- The two checks of the loop's body, for rule `i`. The known upstreams are the keys of a map.
unfoldable pub check_rule : ℕ → List (Text × Unit {0}) → Rule → Result RuleError (Unit {0})
check_rule i known r = do
  wrap (bad_pattern i) (validate_pattern r.pattern)
  fail_if (not (is_some (lookup r.upstream known))) (unknown_upstream i r.upstream)

abbrev pub is_wildcard : Text → Bool
is_wildcard p = has_prefix (codes "*.") p

-- An earlier rule with the same exact pattern stays.
abbrev pub add_exact : Text → ℕ → List (Text × ℕ) → List (Text × ℕ)
add_exact p i exact = if is_some (lookup p exact) then exact else exact ++ (p, i) ∷ []

-- The rest of the loop's body.
unfoldable pub add_rule : ℕ → Rule → Matcher → Matcher
add_rule i r m =
    let p = to_lower r.pattern in
    let m' = record m { rules = m.rules ++ r ∷ [] } in
    if is_wildcard p
    then record m' { suffix = m.suffix ++ record { suffix = drop 1 p; rule_idx = i } ∷ [] }
    else record m' { exact = add_exact p i m.exact }

unfoldable pub new_from :
    ℕ → List (Text × Unit {0}) → List Rule → Matcher → Result RuleError Matcher
new_from i known [] m = ok m
new_from i known (r ∷ rules) m = do
  check_rule i known r
  new_from (suc i) known rules (add_rule i r m)

unfoldable pub new : List Rule → List (Text × Unit {0}) → Result RuleError Matcher
unfolding new_from check_rule add_rule validate_pattern lookup
new rules known = new_from 0 known rules no_rules
