-- ===== src/Secret/Laws.antt =====
-- When the resolver of pkg/secret/secret.go runs a tool, and what its check at startup says of
-- that.
use dockprox.Base.{
  ℕ, zero, suc, ◌-◌, ◌≤◌, ◌<◌, ◌≡◌, refl, sym, ap, ◌∙◌, ◌⊎◌, inl, inr, none, some, List, [], ◌∷◌,
  ◌++◌, arith, Result, ok, err, ltb, Bool-cases, Option-cases, length, take, drop, Result-cases,
}
use dockprox.Base.Text.{Text, codes, text_eq, text_eq_iff, lookup}
use mathlib.Core.Path.{subst}
use dockprox.Secret.Resolver.{
  Resolver, trim_space, SecretError, of_reference, Machine, command, failed, quoted, check_tool,
  look_path, run, check, keep, fetch, resolve_by, resolve,
}

-- Other secrets are resolved, one after another, and the machine may be another one each time.
abbrev pub resolves : List (Machine × Text) → Resolver → Resolver
resolves [] r = r
resolves ((machine, t) ∷ later) r = resolves later (resolve machine r t).1

module _ (s v : Text) where
  -- The secret is a literal, or its value is in the cache.
  IsKnown : Resolver → Type 0
  IsKnown r =
      ((command r.allow_cmd s ≡ ok none) × (s ≡ v))
      ⊎ ((args : List Text) × (command r.allow_cmd s ≡ ok (some args))
          × (lookup s r.cache ≡ some v))

  keep-IsKnown :
      (machine : Machine) (t : Text) (r : Resolver) (q : Result SecretError Text)
      → lookup t r.cache ≡ none
      → IsKnown r
      → IsKnown (keep machine r t q).1
  unfolding keep IsKnown lookup
  keep-IsKnown machine t r (err e) new k = k
  keep-IsKnown machine t r (ok w) new (inl k) = inl k
  keep-IsKnown machine t r (ok w) new (inr (args, c, l)) = inr (
    args,
    c,
    elim (Bool-cases (text_eq t s)) [
      | inl same ↦
          let same' = (text_eq_iff t s).0 same in
          absurd (let found = rw (← same') at l in ground arith)
      | inr other ↦ rw other l
    ],
  )

  resolve-IsKnown :
      (machine : Machine) (t : Text) (r : Resolver) → IsKnown r → IsKnown (resolve machine r t).1
  unfolding resolve resolve_by fetch
  resolve-IsKnown machine t r k = elim (Result-cases (command r.allow_cmd t)) [
    | inr (x, e) ↦ rw e k
    | inl (none, e) ↦ rw e k
    | inl (some args, e) ↦ elim (Option-cases (lookup t r.cache)) [
      | inr (w, f) ↦ rw (e, f) k
      | inl f ↦ rw (e, f) (keep-IsKnown machine t r (run machine r.search_dirs args) f k)
    ]
  ]

  resolves-IsKnown :
      (later : List (Machine × Text)) (r : Resolver) → IsKnown r → IsKnown (resolves later r)
  resolves-IsKnown [] r k = k
  resolves-IsKnown ((machine, t) ∷ later) r k =
      resolves-IsKnown later (resolve machine r t).1 (resolve-IsKnown machine t r k)

  IsKnown-resolve : (machine : Machine) (r : Resolver) → IsKnown r → resolve machine r s ≡ (ok v, r)
  unfolding IsKnown resolve resolve_by fetch
  IsKnown-resolve machine r (inl (c, e)) = rw c (ap (λ t. (ok t, r)) e)
  IsKnown-resolve machine r (inr (args, c, l)) = rw (c, l) refl

  settled :
      {w : Text} {k k' : Resolver}
      → ◌≡◌ {A = Result SecretError Text × Resolver} (ok w, k) (ok v, k')
      → (w ≡ v) × (k ≡ k')
  settled e = (ground arith, ap (λ p. p.1) e)

  resolve-ok : (machine : Machine) (r r' : Resolver) → resolve machine r s ≡ (ok v, r') → IsKnown r'
  unfolding IsKnown resolve resolve_by fetch keep lookup
  resolve-ok machine r r' h = elim (Result-cases (command r.allow_cmd s)) [
    | inr (x, e) ↦ let failure = rw e at h in cc
    | inl (none, e) ↦
        let (same, kept) = settled (rw e at h) in subst (λ k. IsKnown k) kept (inl (e, same))
    | inl (some args, e) ↦ elim (Option-cases (lookup s r.cache)) [
      | inr (w, f) ↦
          let (same, kept) = settled (rw (e, f) at h) in
          subst (λ k. IsKnown k) kept (inr (args, e, f ∙ ap some same))
      | inl f ↦ elim (Result-cases (run machine r.search_dirs args)) [
        | inr (x, g) ↦ let failure = rw (e, f, g) at h in cc
        | inl (w, g) ↦
            let (same, kept) = settled (rw (e, f, g) at h) in
            subst (λ k. IsKnown k) kept
              (inr (args, e, rw ((text_eq_iff s s).1 refl) (ap some same)))
      ]
    ]
  ]

  -- A secret that has resolved resolves to the same value ever after, without a change of the
  -- resolver: whatever secrets are resolved in between, and whatever the machines do then.
  pub resolve_again :
      (machine machine' : Machine) (r r' : Resolver) (later : List (Machine × Text))
      → resolve machine r s ≡ (ok v, r')
      → resolve machine' (resolves later r') s ≡ (ok v, resolves later r')
  resolve_again machine machine' r r' later h =
      IsKnown-resolve machine' (resolves later r')
        (resolves-IsKnown later r' (resolve-ok machine r r' h))

take-drop : (n : ℕ) (t : Text) → take n t ++ drop n t ≡ t
take-drop zero t = refl
take-drop (suc n) [] = refl
take-drop (suc n) (b ∷ t) = ap (λ u. b ∷ u) (take-drop n t)

length-drop : (n : ℕ) (t : Text) → length (drop n t) ≡ length t - n
length-drop zero t = omega arith
length-drop (suc n) [] = omega arith
length-drop (suc n) (b ∷ t) = omega (arith, length-drop n t)

-- What is passed on of what a tool wrote to standard error: all of it but white space at its ends,
-- or behind three dots the last 200 bytes of that.
abbrev pub IsQuoted : Text → Text → Type 0
IsQuoted wrote q =
    ((length (trim_space wrote) ≤ 200) × (q ≡ trim_space wrote))
    ⊎ ((200 < length (trim_space wrote))
        × (before : Text) × (last : Text) × (trim_space wrote ≡ before ++ last)
        × (length last ≡ 200)
        × (q ≡ codes "..." ++ last))

quoted-IsQuoted : (machine : Machine) (wrote : Text) → IsQuoted wrote (quoted machine wrote)
quoted-IsQuoted machine wrote =
    let t = trim_space wrote in
    elim (Bool-cases (ltb 200 (length t))) [
      | inr e ↦ inl (ground arith, rw e refl)
      | inl e ↦
          let long : 200 < length t = ground arith in
          inr (
            long,
            take (length t - 200) t,
            drop (length t - 200) t,
            sym (take-drop (length t - 200) t),
            omega (arith, length-drop (length t - 200) t),
            rw e refl,
          )
    ]

failure : Result SecretError (Unit {0}) → Result SecretError Text
failure (ok u) = ok []
failure (err e) = err e

module _ (machine : Machine) (r : Resolver) (s : Text) where
  -- The secret's command names a tool that is found, which was run and failed; the error is what it
  -- wrote to standard error.
  abbrev pub IsReported : SecretError → Type 0
  IsReported e =
      (tool : Text) × (args : List Text) × (bin : Text) × (wrote : Text) × (q : Text) × (command
          r.allow_cmd s
        ≡ ok (some (tool ∷ args)))
      × (look_path machine r.search_dirs tool ≡ ok bin)
      × (machine.exec r.search_dirs bin args ≡ err wrote)
      × IsQuoted wrote q
      × (e ≡ of_reference s (failed q))

  -- What the check and a run say of the same command, by whether its tool is found.
  run-check :
      (args : List Text)
      → command r.allow_cmd s ≡ ok (some args)
      → ((e : SecretError)
          → check_tool machine s r.search_dirs (some args) ≡ err e
          → keep machine r s (run machine r.search_dirs args) ≡ (err e, r))
        × (check_tool machine s r.search_dirs (some args) ≡ ok tt
            → (e : SecretError) → (keep machine r s (run machine r.search_dirs args)).0 ≡ err e
            → IsReported e)
  unfolding run check_tool keep failure
  run-check [] c = ((λ e h. cc), λ h e k. cc)
  run-check (tool ∷ args) c = elim (Result-cases (look_path machine r.search_dirs tool)) [
    | inr (x, f) ↦
        ((λ e h. rw f (ap (λ q. (failure q, r)) (rw f at h))), λ h e k. absurd (ground arith))
    | inl (bin, f) ↦ (
      (λ e h. absurd (ground arith)),
      λ h e k. elim (Result-cases (machine.exec r.search_dirs bin args)) [
        | inl (out, g) ↦ absurd (ground arith)
        | inr (t, g) ↦
            (tool, args, bin, t, quoted machine t, c, f, g, quoted-IsQuoted machine t, ground arith)
      ],
    )
  ]

  -- A secret that is not yet resolved and that the check at startup refuses fails to resolve with
  -- the same error. One that the check accepts fails only after its tool was found and run and has
  -- failed itself, with what that wrote to standard error: white space at its ends is left out, and
  -- all but the last 200 bytes of a longer text.
  pub check-resolve :
      lookup s r.cache ≡ none
      → ((e : SecretError) → check machine r s ≡ err e → resolve machine r s ≡ (err e, r))
        × (check machine r s ≡ ok tt
            → (e : SecretError) → (resolve machine r s).0 ≡ err e
            → IsReported e)
  unfolding check resolve resolve_by fetch check_tool failure
  check-resolve fresh = elim (Result-cases (command r.allow_cmd s)) [
    | inr (x, f) ↦
        ((λ e h. rw f (ap (λ q. (failure q, r)) (rw f at h))), λ h e k. absurd (ground arith))
    | inl (none, f) ↦ ((λ e h. absurd (ground arith)), λ h e k. absurd (ground arith))
    | inl (some args, f) ↦
        let (refused, reported) = run-check args f in
        rw (f, fresh)
          (
            refused,
            λ h e k.
                let (tool, argv, bin, wrote, q, c, has, ran, cut, whole) = reported h e k in
                (tool, argv, bin, wrote, q, sym f ∙ c, has, ran, cut, whole),
          )
  ]
