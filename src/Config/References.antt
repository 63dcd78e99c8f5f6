-- ===== src/Config/References.antt =====
-- The `via` loop of Config.Validate, and which upstreams its loops have referenced.
use dockprox.Base.{
  ◌≡◌, refl, sym, ◌≢◌, ◌↔◌, ◌⊎◌, inl, inr, true, Option, none, some, List, [], ◌∷◌, map, arith, ok,
  Bool-cases, All, Any, >>-eq-ok, fail_if-eq-ok,
}
use dockprox.Base.Text.{Text, is_empty, text_eq, text_eq_iff, lookup}
use dockprox.Config.Schema.{Upstream, Rule, Listener, Config, upstream_ssh}
use dockprox.Config.Upstreams.{contains_text}
use dockprox.Config.Validate.{Upstreams, refer, via_target, check_via, check_vias}
use dockprox.Config.ListenerSound.{refer_all}

-- An upstream is reached through no other, or through one that exists and is not an ssh upstream.
abbrev pub HasVia : Upstreams → Upstream → Type 0
HasVia ups u =
    (u.via ≡ []) ⊎ ((v : Upstream) × (lookup u.via ups ≡ some v) × (v.type ≢ upstream_ssh))

via_target-ok :
    (name via : Text) (o : Option Upstream)
    → via_target name via o ≡ ok tt
    → (v : Upstream) × (o ≡ some v) × (v.type ≢ upstream_ssh)
unfolding via_target
via_target-ok name via none e = cc
via_target-ok name via (some v) e = (
  v,
  refl,
  λ q. let same = (text_eq_iff v.type upstream_ssh).1 q in cc (fail_if-eq-ok _ _ e, same),
)

check_via-HasVia :
    (ups : Upstreams) (name : Text) (u : Upstream) → check_via ups (name, u) ≡ ok tt → HasVia ups u
unfolding check_via
check_via-HasVia ups name u e = elim (Bool-cases (is_empty u.via)) [
  | inl n ↦ inl (ground arith)
  | inr s ↦ inr (via_target-ok name u.via (lookup u.via ups) (rw s at e))
]

HasVia-check_via :
    (ups : Upstreams) (name : Text) (u : Upstream) → HasVia ups u → check_via ups (name, u) ≡ ok tt
unfolding check_via via_target
HasVia-check_via ups name u (inl e) = ground arith
HasVia-check_via ups name u (inr (v, found, n)) = ground (arith, text_eq_iff v.type upstream_ssh)

abbrev pub refer_vias : Upstreams → List Text → List Text
refer_vias [] referenced = referenced
refer_vias ((name, u) ∷ rest) referenced = refer_vias rest (refer u.via referenced)

module _ (ups : Upstreams) where
  pub check_vias-ok :
      (referenced out : List Text) (rest : Upstreams)
      → check_vias ups referenced rest ≡ ok out
      → All (λ nu. HasVia ups nu.1) rest
  unfolding check_vias
  check_vias-ok referenced out [] e = tt
  check_vias-ok referenced out ((name, u) ∷ rest) e =
      let (first, more) = >>-eq-ok (check_via ups (name, u)) _ e in
      (check_via-HasVia ups name u first, check_vias-ok (refer u.via referenced) out rest more)

  pub check_vias-refer_vias :
      (referenced : List Text) (rest : Upstreams)
      → All (λ nu. HasVia ups nu.1) rest
      → check_vias ups referenced rest ≡ ok (refer_vias rest referenced)
  unfolding check_vias
  check_vias-refer_vias referenced [] h = refl
  check_vias-refer_vias referenced ((name, u) ∷ rest) (h, hs) =
      rw (HasVia-check_via ups name u h) (check_vias-refer_vias (refer u.via referenced) rest hs)

-- A use of an upstream by name; an empty name uses none.
abbrev pub Uses : Text → Text → Type 0
Uses used name = (used ≡ name) × (name ≢ [])

abbrev pub Holds : List Text → Text → Type 0
Holds referenced name = contains_text referenced name ≡ true

refer-Holds :
    (used : Text) (referenced : List Text) (name : Text)
    → Holds (refer used referenced) name ↔ (Uses used name ⊎ Holds referenced name)
unfolding contains_text
refer-Holds [] referenced name =
    (λ h. inr h, λ h. elim h [ inl (e, n) ↦ absurd (n (sym e)) | inr k ↦ k ])
refer-Holds (c ∷ used) referenced name = elim (Bool-cases (text_eq (c ∷ used) name)) [
  | inl e ↦
      let same = (text_eq_iff (c ∷ used) name).0 e in rw e (λ h. inl (same, λ q. cc), λ h. refl)
  | inr e ↦
      rw e (
        λ h. inr h,
        λ h. elim h [ inl (q, n) ↦ cc ((text_eq_iff (c ∷ used) name).1 q) | inr k ↦ k ],
      )
]

-- Uses collected one after another.
regroup : {P A H S R : Type 0} → S ↔ (A ⊎ R) → R ↔ (P ⊎ H) → S ↔ ((P ⊎ A) ⊎ H)
regroup f g = (
  λ s. elim (f.0 s) [
    | inl a ↦ inl (inr a)
    | inr r ↦ elim (g.0 r) [ inl p ↦ inl (inl p) | inr h ↦ inr h ]
  ],
  λ k. elim k [
    | inl (inl p) ↦ f.1 (inr (g.1 (inl p)))
    | inl (inr a) ↦ f.1 (inl a)
    | inr h ↦ f.1 (inr (g.1 (inr h)))
  ],
)

no_more : {H : Type 0} → H ↔ (⊥ ⊎ H)
no_more = (λ h. inr h, λ k. elim k [ inl n ↦ absurd n | inr h ↦ h ])

module _ (name : Text) where
  refer_all-Holds :
      (ls : List Listener) (referenced : List Text)
      → Holds (refer_all ls referenced) name
        ↔ (Any (λ l. Uses l.upstream name) ls ⊎ Holds referenced name)
  refer_all-Holds [] referenced = no_more
  refer_all-Holds (l ∷ ls) referenced =
      regroup (refer_all-Holds ls (refer l.upstream referenced))
        (refer-Holds l.upstream referenced name)

  refer_vias-Holds :
      (rest : Upstreams) (referenced : List Text)
      → Holds (refer_vias rest referenced) name
        ↔ (Any (λ nu. Uses nu.1.via name) rest ⊎ Holds referenced name)
  refer_vias-Holds [] referenced = no_more
  refer_vias-Holds ((n, u) ∷ rest) referenced =
      regroup (refer_vias-Holds rest (refer u.via referenced)) (refer-Holds u.via referenced name)

  rules-Holds :
      (rules : List Rule)
      → Holds (map (λ r. r.upstream) rules) name ↔ Any (λ r. r.upstream ≡ name) rules
  unfolding contains_text
  rules-Holds [] = (λ e. absurd (ground arith), λ n. absurd n)
  rules-Holds (r ∷ rules) = (
    λ e. elim (Bool-cases (text_eq r.upstream name)) [
      | inl same ↦ inl ((text_eq_iff r.upstream name).0 same)
      | inr other ↦ inr ((rules-Holds rules).0 (ground arith))
    ],
    λ h. elim h [
      | inl same ↦ ground (arith, text_eq_iff r.upstream name)
      | inr more ↦ ground (arith, (rules-Holds rules).1 more)
    ],
  )

-- A rule, a listener or the `via` of an upstream names it.
abbrev pub IsReferenced : Config → Text → Type 0
IsReferenced c name =
    Any (λ nu. Uses nu.1.via name) c.upstreams
    ⊎ Any (λ l. Uses l.upstream name) c.listeners
    ⊎ Any (λ r. r.upstream ≡ name) c.rules

-- The names that the loops of Config.Validate have collected before the last one.
abbrev pub collected : Config → List Text
collected c = refer_vias c.upstreams (refer_all c.listeners (map (λ r. r.upstream) c.rules))

pub collected-IsReferenced :
    (c : Config) (name : Text) → Holds (collected c) name ↔ IsReferenced c name
collected-IsReferenced c name =
    let vias =
      refer_vias-Holds name c.upstreams (refer_all c.listeners (map (λ r. r.upstream) c.rules)) in
    let listeners = refer_all-Holds name c.listeners (map (λ r. r.upstream) c.rules) in
    let rules = rules-Holds name c.rules in
    (
      λ h. elim (vias.0 h) [
        | inl v ↦ inl v
        | inr k ↦ elim (listeners.0 k) [ inl l ↦ inr (inl l) | inr r ↦ inr (inr (rules.0 r)) ]
      ],
      λ h. elim h [
        | inl v ↦ vias.1 (inl v)
        | inr (inl l) ↦ vias.1 (inr (listeners.1 (inl l)))
        | inr (inr r) ↦ vias.1 (inr (listeners.1 (inr (rules.1 r))))
      ],
    )
