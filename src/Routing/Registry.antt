-- ===== src/Routing/Registry.antt =====
-- The two loops of NewRegistry of pkg/upstream/registry.go together.
use dockprox.Base.{
  ◌≡◌, refl, sym, inl, inr, Bool, true, false, Option, none, some, [], ◌∷◌, arith, ok, Bool-cases,
  is_some, Option-cases, All, Result-cases, >>=-eq-ok,
}
use dockprox.Base.Text.{Text, text_eq, text_eq_iff, lookup}
use dockprox.Config.Schema.{Upstream}
use dockprox.Config.Validate.{Upstreams}
use dockprox.Config.References.{HasVia}
use dockprox.Routing.Dialers.{
  Dialer, Machine, Dialers, build, is_ssh, same_bool, build_step, build_pass, new_registry,
}
use dockprox.Routing.Built.{intended, IsMap, IsRight, HasCarriers, build-intended}

pub lookup-All :
    (P : Text × Upstream → Type 0) (ups : Upstreams) (name : Text) (u : Upstream)
    → All P ups
    → lookup name ups ≡ some u
    → P (name, u)
unfolding lookup
lookup-All P [] name u h e = cc
lookup-All P ((k, v) ∷ ups) name u (h, hs) e = elim (Bool-cases (text_eq k name)) [
  | inl same ↦
      let name' = (text_eq_iff k name).0 same in
      let u' : v ≡ u = ground arith in rw (sym name', sym u') h
  | inr other ↦ lookup-All P ups name u hs (rw other at e)
]

module _ (machine : Machine) (ups : Upstreams) where
  abbrev Grows : Dialers → Dialers → Type 0
  Grows reg reg' =
      (name : Text) → is_some (lookup name reg) ≡ true → is_some (lookup name reg') ≡ true

  -- An upstream of the loop is in the registry after it.
  abbrev IsBuilt : Bool → Dialers → Text × Upstream → Type 0
  IsBuilt ssh_pass reg nu =
      same_bool ssh_pass (is_ssh nu.1) ≡ true → is_some (lookup nu.0 reg) ≡ true

  put-IsRight :
      (reg : Dialers) (name : Text) (u : Upstream) (d : Dialer)
      → lookup name ups ≡ some u
      → intended ups name u ≡ some d
      → IsRight ups reg
      → IsRight ups ((name, d) ∷ reg)
  unfolding lookup
  put-IsRight reg name u d found called right k d' e = elim (Bool-cases (text_eq name k)) [
    | inl same ↦
        let name' = (text_eq_iff name k).0 same in
        let d'' : d ≡ d' = ground arith in rw (sym name', sym d'') (u, found, called)
    | inr other ↦ right k d' (rw other at e)
  ]

  put-Grows : (reg : Dialers) (name : Text) (d : Dialer) → Grows reg ((name, d) ∷ reg)
  unfolding lookup
  put-Grows reg name d k h = ground arith

  put-found :
      (reg : Dialers) (name : Text) (d : Dialer) → is_some (lookup name ((name, d) ∷ reg)) ≡ true
  unfolding lookup
  put-found reg name d = ground (arith, text_eq_iff name name)

  build_step-IsBuilt :
      (ssh_pass : Bool) (reg reg' : Dialers) (name : Text) (u : Upstream)
      → lookup name ups ≡ some u
      → HasVia ups u
      → IsRight ups reg
      → (ssh_pass ≡ true → HasCarriers ups reg)
      → build_step machine ssh_pass reg (name, u) ≡ ok reg'
      → IsRight ups reg' × Grows reg reg' × IsBuilt ssh_pass reg' (name, u)
  unfolding build_step same_bool
  build_step-IsBuilt ssh_pass reg reg' name u found via right has e =
      elim (Bool-cases (same_bool ssh_pass (is_ssh u))) [
        | inr skipped ↦
            let same : reg ≡ reg' = ground arith in rw (sym same) (right, (λ k h. h), λ q. cc)
        | inl taken ↦ elim (Result-cases (build machine reg name u)) [
          | inr (x, f) ↦ absurd (ground arith)
          | inl (d, f) ↦
              let same : ((name, d) ∷ reg) ≡ reg' = ground arith in
              let called =
                build-intended machine ups reg name u d right (λ s. has (ground arith)) via f in
              rw (sym same) (
                put-IsRight reg name u d found called right,
                put-Grows reg name d,
                λ q. put-found reg name d,
              )
        ]
      ]

  build_pass-IsBuilt :
      (ssh_pass : Bool) (reg reg' : Dialers) (rest : Upstreams)
      → All (λ nu. lookup nu.0 ups ≡ some nu.1) rest
      → All (λ nu. HasVia ups nu.1) rest
      → IsRight ups reg
      → (ssh_pass ≡ true → HasCarriers ups reg)
      → build_pass machine ssh_pass reg rest ≡ ok reg'
      → IsRight ups reg' × Grows reg reg' × All (IsBuilt ssh_pass reg') rest
  unfolding build_pass
  build_pass-IsBuilt ssh_pass reg reg' [] m vias right has e =
      let same : reg ≡ reg' = ground arith in rw (sym same) (right, (λ k h. h), tt)
  build_pass-IsBuilt ssh_pass reg reg' ((name, u) ∷ rest) (found, m) (via, vias) right has e =
      let (mid, f, g) = >>=-eq-ok (build_step machine ssh_pass reg (name, u)) _ e in
      let (right', grows, built) =
        build_step-IsBuilt ssh_pass reg mid name u found via right has f in
      let has' : ssh_pass ≡ true → HasCarriers ups mid = (λ q k w l n. grows k (has q k w l n)) in
      let (right'', grows', builts) =
        build_pass-IsBuilt ssh_pass mid reg' rest m vias right' has' g in
      (right'', (λ k h. grows' k (grows k h)), ((λ q. grows' name (built q)), builts))

  -- What a lookup in the registry gives: what the upstream of that name calls for, or nothing under
  -- a name that no upstream has.
  abbrev pub Serves : Dialers → Text → Option Upstream → Type 0
  Serves reg name none = lookup name reg ≡ none
  Serves reg name (some u) =
      (d : Dialer) × (lookup name reg ≡ some d) × (intended ups name u ≡ some d)

  right-Serves :
      (reg : Dialers)
      → IsRight ups reg
      → ((name : Text) (u : Upstream) → lookup name ups ≡ some u → is_some (lookup name reg) ≡ true)
      → (name : Text) → Serves reg name (lookup name ups)
  right-Serves reg right has name = elim (Option-cases (lookup name ups)) [
    | inl e ↦ rw e (elim (Option-cases (lookup name reg)) [
      | inl f ↦ f
      | inr (d, f) ↦ let (u, found, called) = right name d f in cc
    ])
    | inr (u, e) ↦ rw e (elim (Option-cases (lookup name reg)) [
      | inl f ↦ absurd (ground (arith, has name u e))
      | inr (d, f) ↦
          let (v, found, called) = right name d f in
          let v' : u ≡ v = ground arith in (d, f, rw v' called)
    ])
  ]

  empty-IsRight : IsRight ups []
  unfolding lookup
  empty-IsRight name d e = cc

  -- A registry that is built of upstreams whose `via` is empty or names one that is not ssh holds,
  -- under the name of every upstream and under no other, the dialer that the upstream calls for: an
  -- ssh upstream with a `via` is carried by the dialer of that name, and is never left without it,
  -- whatever the order of the upstreams.
  pub new_registry-Serves :
      (reg : Dialers)
      → IsMap ups
      → All (λ nu. HasVia ups nu.1) ups
      → new_registry machine ups ≡ ok reg
      → (name : Text) → Serves reg name (lookup name ups)
  unfolding new_registry
  new_registry-Serves reg m vias e =
      let (mid, f, g) = >>=-eq-ok (build_pass machine false [] ups) _ e in
      let (right, grows, built) =
        build_pass-IsBuilt false [] mid ups m vias empty-IsRight (λ q. cc) f in
      let carriers : HasCarriers ups mid = (λ k u l n.
        lookup-All (IsBuilt false mid) ups k u built l (unfold same_bool in rw n refl)) in
      let (right', grows', built') =
        build_pass-IsBuilt true mid reg ups m vias right (λ q. carriers) g in
      right-Serves reg right' (λ k u l. elim (Bool-cases (is_ssh u)) [
        | inl s ↦ lookup-All (IsBuilt true reg) ups k u built' l (unfold same_bool in s)
        | inr n ↦ grows' k (carriers k u l n)
      ])
