-- ===== src/Config/ListenerSound.antt =====
-- What the loops over the listeners and the upstreams' `via` in Config.Validate accept, and which
-- upstreams they find referenced.
use dockprox.Base.{
  ℕ, suc, ◌≡◌, refl, sym, ◌≢◌, ◌⊎◌, inl, inr, true, false, List, [], ◌∷◌, map, arith, ok,
  Bool-cases, is_some, All, All-imp, Any, Distinct, All-map, All-of_map, All-zip, Result-cases,
  >>-eq-ok,
}
use dockprox.Base.Text.{Text, text_eq, text_eq_iff, lookup}
use dockprox.Base.HostPort.{split_host_port}
use dockprox.Config.Schema.{
  Listener, ListenerKind, socks5_server, tcp_forward, unknown_listener, listener_kind,
}
use dockprox.Config.Upstreams.{contains_text}
use dockprox.Config.UpstreamSound.{split_host_port-ne}
use dockprox.Config.Validate.{Upstreams, check_type, check_listener, refer, check_listeners}

abbrev pub Splits : Text → Type 0
Splits s = (host : Text) × (port : Text) × (split_host_port s ≡ ok (host, port))

abbrev pub HasTarget : ListenerKind → Listener → Type 0
HasTarget socks5_server l = l.target ≡ []
HasTarget tcp_forward l =
    (host : Text) × (port : Text) × (split_host_port l.target ≡ ok (host, port)) × (host ≢ [])
HasTarget unknown_listener l = ⊥

-- A listener with an address, a target that fits its type and an upstream that exists, if any.
pub record IsListener (ups : Upstreams) (l : Listener) : Type 0 where
  pub listen : Splits l.listen
  pub target : HasTarget (listener_kind l.type) l
  pub upstream : (l.upstream ≡ []) ⊎ (is_some (lookup l.upstream ups) ≡ true)

contains_text-Lacks :
    (seen : List Text) (t : Text) → contains_text seen t ≡ false → All (λ s. s ≢ t) seen
unfolding contains_text
contains_text-Lacks [] t e = tt
contains_text-Lacks (s ∷ seen) t e =
    (ground (arith, text_eq_iff s t), contains_text-Lacks seen t (ground arith))

pub contains_text→Any :
    (seen : List Text) (t : Text) → contains_text seen t ≡ true → Any (λ s. s ≡ t) seen
unfolding contains_text
contains_text→Any [] t e = absurd (ground arith)
contains_text→Any (s ∷ seen) t e = elim (Bool-cases (text_eq s t)) [
  | inl same ↦ inl ((text_eq_iff s t).0 same)
  | inr other ↦ inr (contains_text→Any seen t (ground arith))
]

pub Any→contains_text :
    (seen : List Text) (t : Text) → Any (λ s. s ≡ t) seen → contains_text seen t ≡ true
unfolding contains_text
Any→contains_text [] t h = absurd h
Any→contains_text (s ∷ seen) t (inl same) = ground (arith, text_eq_iff s t)
Any→contains_text (s ∷ seen) t (inr more) = ground (arith, Any→contains_text seen t more)

module _ (i : ℕ) (l : Listener) where
  check_type-HasTarget : (k : ListenerKind) → check_type k i l ≡ ok tt → HasTarget k l
  unfolding check_type
  check_type-HasTarget socks5_server e = ground arith
  check_type-HasTarget tcp_forward e = elim (Result-cases (split_host_port l.target)) [
    | inl ((host, port), f) ↦ (host, port, f, ground arith)
    | inr (x, f) ↦ absurd (ground arith)
  ]
  check_type-HasTarget unknown_listener e = cc

  HasTarget-check_type : (k : ListenerKind) → HasTarget k l → check_type k i l ≡ ok tt
  unfolding check_type
  HasTarget-check_type socks5_server e = ground arith
  HasTarget-check_type tcp_forward (host, port, e, h) = ground arith
  HasTarget-check_type unknown_listener e = absurd e

  module _ (ups : Upstreams) (seen : List Text) where
    check_listener-IsListener :
        check_listener ups seen i l ≡ ok tt
        → IsListener ups l × (contains_text seen l.listen ≡ false)
    unfolding check_listener
    check_listener-IsListener e = elim (Result-cases (split_host_port l.listen)) [
      | inl ((host, port), f) ↦ (
        record {
          listen = (host, port, f);
          target = check_type-HasTarget (listener_kind l.type) (ground arith);
          upstream = ground arith;
        },
        ground arith,
      )
      | inr (x, f) ↦ absurd (ground arith)
    ]

    IsListener-check_listener :
        IsListener ups l → contains_text seen l.listen ≡ false → check_listener ups seen i l ≡ ok tt
    unfolding check_listener
    IsListener-check_listener h new =
        let (host, port, f) = h.listen in
        let set = split_host_port-ne l.listen (host, port) f in
        let target = HasTarget-check_type (listener_kind l.type) h.target in ground arith

-- The addresses of the listeners are none of those seen, and distinct.
abbrev pub AreNew : List Text → List Listener → Type 0
AreNew seen [] = Unit
AreNew seen (l ∷ ls) = (contains_text seen l.listen ≡ false) × AreNew (l.listen ∷ seen) ls

-- The names referenced after the loop over the listeners.
abbrev pub refer_all : List Listener → List Text → List Text
refer_all [] referenced = referenced
refer_all (l ∷ ls) referenced = refer_all ls (refer l.upstream referenced)

abbrev pub addresses : List Listener → List Text
addresses = map (λ l. l.listen)

abbrev IsUnseen : List Text → Listener → Type 0
IsUnseen seen l = contains_text seen l.listen ≡ false

IsUnseen-cons :
    (s : Text) (seen : List Text) (l : Listener)
    → l.listen ≢ s
    → IsUnseen seen l
    → IsUnseen (s ∷ seen) l
unfolding contains_text
IsUnseen-cons s seen l n h = ground (arith, text_eq_iff s l.listen)

IsUnseen-uncons :
    (s : Text) (seen : List Text) (l : Listener)
    → IsUnseen (s ∷ seen) l
    → (l.listen ≢ s) × IsUnseen seen l
unfolding contains_text
IsUnseen-uncons s seen l h =
    ((λ e. let k = (text_eq_iff s l.listen).1 (sym e) in ground arith), ground arith)

pub AreNew-Distinct :
    (seen : List Text) (ls : List Listener)
    → AreNew seen ls
    → All (IsUnseen seen) ls × Distinct (addresses ls)
AreNew-Distinct seen [] h = (tt, tt)
AreNew-Distinct seen (l ∷ ls) (new, news) =
    let (unseen, distinct) = AreNew-Distinct (l.listen ∷ seen) ls news in
    (
      (new, All-imp ls (λ k h. (IsUnseen-uncons l.listen seen k h).1) unseen),
      (
        All-map (λ t. t ≢ l.listen) (λ k. k.listen) ls
            (All-imp ls (λ k h. (IsUnseen-uncons l.listen seen k h).0) unseen),
        distinct,
      ),
    )

pub Distinct-AreNew :
    (seen : List Text) (ls : List Listener)
    → All (IsUnseen seen) ls
    → Distinct (addresses ls)
    → AreNew seen ls
Distinct-AreNew seen [] h d = tt
Distinct-AreNew seen (l ∷ ls) (h, hs) (d, ds) = (
  h,
  Distinct-AreNew (l.listen ∷ seen) ls
      (All-zip ls (λ k n u. IsUnseen-cons l.listen seen k n u)
        (All-of_map (λ t. t ≢ l.listen) (λ k. k.listen) ls d) hs)
      ds,
)

module _ (ups : Upstreams) where
  pub check_listeners-ok :
      (seen : List Text) (i : ℕ) (referenced out : List Text) (ls : List Listener)
      → check_listeners ups seen i referenced ls ≡ ok out
      → All (IsListener ups) ls × AreNew seen ls
  unfolding check_listeners
  check_listeners-ok seen i referenced out [] e = (tt, tt)
  check_listeners-ok seen i referenced out (l ∷ ls) e =
      let (first, rest) = >>-eq-ok (check_listener ups seen i l) _ e in
      let (h, new) = check_listener-IsListener i l ups seen first in
      let (hs, news) =
        check_listeners-ok (l.listen ∷ seen) (suc i) (refer l.upstream referenced) out ls rest in
      ((h, hs), (new, news))

  pub check_listeners-refer_all :
      (seen : List Text) (i : ℕ) (referenced : List Text) (ls : List Listener)
      → All (IsListener ups) ls
      → AreNew seen ls
      → check_listeners ups seen i referenced ls ≡ ok (refer_all ls referenced)
  unfolding check_listeners
  check_listeners-refer_all seen i referenced [] h new = refl
  check_listeners-refer_all seen i referenced (l ∷ ls) (h, hs) (new, news) =
      rw (IsListener-check_listener i l ups seen h new) (
        check_listeners-refer_all (l.listen ∷ seen) (suc i) (refer l.upstream referenced) ls hs
          news)
