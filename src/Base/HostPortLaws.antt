-- ===== src/Base/HostPortLaws.antt =====
-- A host and a port that are joined split again.
use Prim.Native.Nat.{ℕ}
use mathlib.Core.Path.{◌≡◌, refl}
use mathlib.Core.Bool.{true, false}
use mathlib.Core.Logic.{◌≢◌, inl, inr}
use mathlib.Core.List.{[], ◌∷◌, ◌++◌, append_assoc}
use mathlib.Core.Option.{none, some}
use native.Mathlib.Omega.{arith}
use dockprox.Base.Tests.{Bool-cases}
use dockprox.Base.Lists.{All-append}
use dockprox.Base.Results.{ok}
use dockprox.Base.Text.{Text, codes, has_prefix, cut_first, cut_last}
use dockprox.Base.TextLaws.{Lacks, cut_first-append, cut_last-append}
use dockprox.Base.HostPort.{
  contains_byte, after_bracket, split_bracketed, split_plain, split_at, split_host_port,
  join_host_port,
}

pub cut_first-Lacks : (c : ℕ) (t : Text) → Lacks c t → cut_first c t ≡ none
unfolding cut_first
cut_first-Lacks c [] h = refl
cut_first-Lacks c (b ∷ t) (n, h) = rw (cut_first-Lacks c t h) (ground arith)

pub contains_byte-Lacks : (c : ℕ) (t : Text) → contains_byte c t ≡ false → Lacks c t
unfolding cut_first
contains_byte-Lacks c [] e = tt
contains_byte-Lacks c (b ∷ t) e = (ground arith, contains_byte-Lacks c t (ground arith))

Lacks→contains_byte : (c : ℕ) (t : Text) → Lacks c t → contains_byte c t ≡ false
Lacks→contains_byte c t h = rw (cut_first-Lacks c t h) refl

-- No bracket occurs in the text.
abbrev pub HasNoBracket : Text → Type 0
HasNoBracket t = Lacks b'[' t × Lacks b']' t

Lacks-joined : (c d : ℕ) (h p : Text) → Lacks c h → d ≢ c → Lacks c p → Lacks c (h ++ d ∷ p)
Lacks-joined c d h p hc n pc = All-append (λ b. b ≢ c) h (d ∷ p) hc (n, pc)

has_prefix-Lacks : (c : ℕ) (t : Text) → Lacks c t → has_prefix (c ∷ []) t ≡ false
unfolding has_prefix
has_prefix-Lacks c [] h = refl
has_prefix-Lacks c (b ∷ t) (n, h) = ground arith

module _ (h p : Text) (hb : HasNoBracket h) (pb : HasNoBracket p) (k : Lacks b':' p) where
  split_join_bracketed : split_host_port ((b'[' ∷ h) ++ b']' ∷ b':' ∷ p) ≡ ok (h, p)
  unfolding split_host_port split_at split_bracketed after_bracket
  split_join_bracketed =
      let s = (b'[' ∷ h) ++ b']' ∷ b':' ∷ p in
      let whole : (b'[' ∷ h ++ b']' ∷ []) ++ b':' ∷ p ≡ s = append_assoc (b'[' ∷ h) _ _ in
      let last : cut_last b':' s ≡ some (b'[' ∷ h ++ b']' ∷ [], p) =
        rw (← whole) (cut_last-append b':' (b'[' ∷ h ++ b']' ∷ []) p k) in
      let first : cut_first b']' s ≡ some (b'[' ∷ h, b':' ∷ p) =
        cut_first-append b']' (b'[' ∷ h) (b':' ∷ p) ((λ e. omega arith), hb.1) in
      let bracketed : has_prefix (codes "[") s ≡ true = unfold has_prefix in ground arith in
      let no_open =
        Lacks→contains_byte b'[' (h ++ b']' ∷ b':' ∷ p) (
          Lacks-joined b'[' b']' h (b':' ∷ p) hb.0 (λ e. omega arith) ((λ e. omega arith), pb.0)) in
      let no_close = Lacks→contains_byte b']' (b':' ∷ p) ((λ e. omega arith), pb.1) in
      rw (last, bracketed, first, Lacks→contains_byte b':' p k, no_open, no_close) refl

  split_join_plain : Lacks b':' h → split_host_port (h ++ b':' ∷ p) ≡ ok (h, p)
  unfolding split_host_port split_at split_plain
  split_join_plain l =
      let open_free = Lacks-joined b'[' b':' h p hb.0 (λ e. omega arith) pb.0 in
      let close_free = Lacks-joined b']' b':' h p hb.1 (λ e. omega arith) pb.1 in
      rw
        (
          cut_last-append b':' h p k,
          has_prefix-Lacks b'[' (h ++ b':' ∷ p) open_free,
          Lacks→contains_byte b':' h l,
          Lacks→contains_byte b'[' (h ++ b':' ∷ p) open_free,
          Lacks→contains_byte b']' (h ++ b':' ∷ p) close_free,
        )
        refl

-- The parts of an address that net.JoinHostPort builds are those that net.SplitHostPort returns, if
-- no bracket stands in them and no colon in the port.
pub split_host_port-join_host_port :
    (h p : Text)
    → HasNoBracket h
    → HasNoBracket p
    → Lacks b':' p
    → split_host_port (join_host_port h p) ≡ ok (h, p)
split_host_port-join_host_port h p hb pb k = elim (Bool-cases (contains_byte b':' h)) [
  | inl e ↦ unfold join_host_port in rw e (split_join_bracketed h p hb pb k)
  | inr e ↦
      unfold join_host_port in rw e (split_join_plain h p hb pb k (contains_byte-Lacks b':' h e))
]
