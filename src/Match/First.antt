-- ===== src/Match/First.antt =====
-- First of pkg/match/match.go.
use dockprox.Base.{ℕ, Bool, true, Option, none, some, List, [], ◌∷◌, ltb, if◌then◌else◌, get_elem?}
use dockprox.Base.Text.{Text, has_suffix, lookup}
use dockprox.Match.Host.{host_key}
use dockprox.Match.Compile.{Rule, SuffixRule, Matcher}

-- `bestIdx == -1 || s.ruleIdx < bestIdx`; -1 is `none`.
abbrev pub improves : ℕ → Option ℕ → Bool
improves i none = true
improves i (some best) = ltb i best

-- The body of the loop over the suffix rules.
abbrev pub scan_step : Text → Option ℕ → SuffixRule → Option ℕ
scan_step h best s =
    if has_suffix s.suffix h
    then if improves s.rule_idx best then some s.rule_idx else best
    else best

unfoldable pub scan : Text → Option ℕ → List SuffixRule → Option ℕ
scan h best [] = best
scan h best (s ∷ rest) = scan h (scan_step h best s) rest

unfoldable pub best_index : Matcher → Text → Option ℕ
unfolding scan
best_index m h = scan h (lookup h m.exact) m.suffix

abbrev pub rule_at : List Rule → Option ℕ → Option Rule
rule_at rules none = none
rule_at rules (some i) = get_elem? rules i

unfoldable pub first : Matcher → Text → Option Rule
unfolding best_index
first m host = rule_at m.rules (best_index m (host_key host))
