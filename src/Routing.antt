-- ===== src/Routing.antt =====
-- How a destination finds its dialer: the registry of pkg/upstream, pkg/listener, and the routing
-- of pkg/socks5server and pkg/portforward.
pub mod Dialers
pub mod Built
pub mod Registry
pub mod Pick
pub mod Routes
pub mod Opens
pub mod Tests
use dockprox.Base.{
  ℕ, zero, suc, ◌+◌, ◌-◌, ◌*◌, ◌/◌, ◌%◌, ◌≤◌, ◌<◌, ◌≡◌, refl, sym, ap, ◌∙◌, ◌≢◌, ◌↔◌, ◌⊎◌, inl, inr,
  Bool, true, false, not, ◌&&◌, ◌||◌, Option, none, some, List, [], ◌∷◌, ◌++◌, map, arith, Result,
  ok, err, ltb, leb, ◌==◌, if◌then◌else◌, Bool-cases, is_some, Option-cases, length, get_elem?,
  take, drop, find, length-append, All, All-append, All-imp, Any, Distinct, All-map, All-of_map,
  All-zip, All-always, ◌>>=◌, ◌>>◌, fail_if, wrap, Result-cases, for_each, for_each_at, >>=-eq-ok,
  >>-eq-ok, fail_if-eq-ok, wrap-eq-ok, for_each-eq-ok, for_each_at-eq-ok, for_each-of_All,
  for_each_at-of_All,
}
use dockprox.Base.Text.{
  Text, codes, is_empty, text_eq, text_eq_iff, has_prefix, has_suffix, count_byte, cut_first,
  cut_last, lower_byte, to_lower, lower_byte_idem, to_lower_idem, lookup,
}
