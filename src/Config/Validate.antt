-- ===== src/Config/Validate.antt =====
-- Config.Validate of pkg/config/validate.go. The ranges over the map of upstreams run in key order,
-- which is one of the orders that Go may choose where the code does not sort.
use dockprox.Base.{
  ℕ, suc, Bool, not, ◌&&◌, ◌||◌, Option, none, some, List, [], ◌∷◌, map, Result, ok, err, ltb, ◌==◌,
  if◌then◌else◌, is_some, ◌>>=◌, ◌>>◌, fail_if, wrap, for_each, for_each_at,
}
use dockprox.Base.Text.{Text, codes, is_empty, text_eq, has_prefix, count_byte, lookup}
use dockprox.Base.HostPort.{HostPortError, split_host_port}
use dockprox.Config.Schema.{
  Upstream, Rule, Listener, Config, ListenerKind, socks5_server, tcp_forward, unknown_listener,
  listener_kind, upstream_ssh, upstream_openconnect,
}
use dockprox.Config.Upstreams.{Url, UpstreamError, contains_text, validate_upstream}

pub data ConfigError : Type 0 where
  listen_required : ConfigError
  bad_listen : HostPortError → ConfigError
  unknown_log_level : Text → ConfigError
  bad_upstream : Text → UpstreamError → ConfigError
  match_required : ℕ → ConfigError
  invalid_pattern rule_unknown_upstream : ℕ → Text → ConfigError
  listener_listen_required : ℕ → ConfigError
  listener_bad_listen listener_bad_target : ℕ → HostPortError → ConfigError
  duplicate_listen target_not_tcp target_host_required : ℕ → Text → ConfigError
  unknown_listener_type listener_unknown_upstream : ℕ → Text → ConfigError
  via_unknown via_ssh unreferenced : Text → Text → ConfigError

abbrev pub Upstreams : Type 0
Upstreams = List (Text × Upstream)

abbrev pub log_levels : List Text
log_levels = [] ∷ codes "debug" ∷ codes "info" ∷ codes "warn" ∷ codes "error" ∷ []

-- The body of the loop over the rules.
unfoldable pub check_rule : Upstreams → ℕ → Rule → Result ConfigError (Unit {0})
check_rule ups i r = do
  fail_if (is_empty r.match) (match_required i)
  let stars = count_byte b'*' r.match
  fail_if (ltb 1 stars || (stars == 1 && not (has_prefix (codes "*.") r.match)))
      (invalid_pattern i r.match)
  fail_if (not (is_some (lookup r.upstream ups))) (rule_unknown_upstream i r.upstream)

abbrev pub target_host : ℕ → Text → Text × Text → Result ConfigError (Unit {0})
target_host i target (host, port) = fail_if (is_empty host) (target_host_required i target)

-- The `switch` over the listener's type.
unfoldable pub check_type : ListenerKind → ℕ → Listener → Result ConfigError (Unit {0})
check_type socks5_server i l = fail_if (not (is_empty l.target)) (target_not_tcp i l.type)
check_type tcp_forward i l = do
  target ← wrap (listener_bad_target i) (split_host_port l.target)
  target_host i l.target target
check_type unknown_listener i l = err (unknown_listener_type i l.type)

-- The body of the loop over the listeners, at the addresses seen before.
unfoldable pub check_listener : Upstreams → List Text → ℕ → Listener → Result ConfigError (Unit {0})
check_listener ups seen i l = do
  fail_if (is_empty l.listen) (listener_listen_required i)
  address ← wrap (listener_bad_listen i) (split_host_port l.listen)
  fail_if (contains_text seen l.listen) (duplicate_listen i l.listen)
  check_type (listener_kind l.type) i l
  fail_if (not (is_empty l.upstream) && not (is_some (lookup l.upstream ups)))
      (listener_unknown_upstream i l.upstream)

-- `referenced` after a use of an upstream, which may be empty.
abbrev pub refer : Text → List Text → List Text
refer name referenced = if is_empty name then referenced else name ∷ referenced

unfoldable pub check_listeners :
    Upstreams → List Text → ℕ → List Text → List Listener → Result ConfigError (List Text)
check_listeners ups seen i referenced [] = ok referenced
check_listeners ups seen i referenced (l ∷ ls) = do
  check_listener ups seen i l
  check_listeners ups (l.listen ∷ seen) (suc i) (refer l.upstream referenced) ls

unfoldable pub via_target : Text → Text → Option Upstream → Result ConfigError (Unit {0})
via_target name via none = err (via_unknown name via)
via_target name via (some u) = fail_if (text_eq u.type upstream_ssh) (via_ssh name via)

-- The body of the loop over the upstreams' `via`.
unfoldable pub check_via : Upstreams → Text × Upstream → Result ConfigError (Unit {0})
check_via ups (name, u) = if is_empty u.via then ok tt else via_target name u.via (lookup u.via ups)

unfoldable pub check_vias : Upstreams → List Text → Upstreams → Result ConfigError (List Text)
check_vias ups referenced [] = ok referenced
check_vias ups referenced ((name, u) ∷ rest) = do
  check_via ups (name, u)
  check_vias ups (refer u.via referenced) rest

abbrev pub holds_connection : Upstream → Bool
holds_connection u = text_eq u.type upstream_ssh || text_eq u.type upstream_openconnect

-- The body of the last loop.
unfoldable pub check_referenced : List Text → Text × Upstream → Result ConfigError (Unit {0})
check_referenced referenced (name, u) =
    fail_if (holds_connection u && not (contains_text referenced name)) (unreferenced name u.type)

unfoldable pub validate : (Text → Option Url) → Config → Result ConfigError (Unit {0})
validate parse_url c = do
  fail_if (is_empty c.listen) listen_required
  address ← wrap bad_listen (split_host_port c.listen)
  fail_if (not (contains_text log_levels c.log_level)) (unknown_log_level c.log_level)
  for_each (λ (nu : Text × Upstream). wrap (bad_upstream nu.0) (validate_upstream parse_url nu.1))
      c.upstreams
  for_each_at 0 (check_rule c.upstreams) c.rules
  referenced ← check_listeners c.upstreams [] 0 (map (λ r. r.upstream) c.rules) c.listeners
  referenced' ← check_vias c.upstreams referenced c.upstreams
  for_each (check_referenced referenced') c.upstreams
