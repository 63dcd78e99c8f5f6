-- ===== src/Ssh/HostKeyLaws.antt =====
-- Which keys of a host the verifier of pkg/sshclient/hostkey.go takes.
use dockprox.Base.{
  ℕ, ◌≡◌, refl, ◌≢◌, ◌⊎◌, inl, inr, Bool, true, false, some, [], arith, Result, ok, Bool-cases,
  Option-cases, ◌>>=◌, Result-cases,
}
use dockprox.Base.Text.{Text, is_empty, text_eq_iff}
use dockprox.Ssh.Target.{
  Computer, Target, TargetError, known_hosts_path, pinned_key, known_key, host_key_callback,
}

module _ (pc : Computer) where
  -- A key that a target trusts: the pinned one, or without one a known host's.
  abbrev pub Trusts : Target → Text → ℕ → Type 0
  Trusts t hostname key =
      ((t.host_key ≢ []) × (pc.fingerprint key ≡ t.host_key))
      ⊎ ((t.host_key ≡ [])
          × (path : Text) × (accepts : (Text → ℕ → Bool)) × (known_hosts_path pc ≡ ok path)
          × (pc.known_hosts path ≡ some accepts)
          × (accepts hostname key ≡ true))

  -- The verifier at work on a key.
  abbrev pub verify : Target → Text → ℕ → Result TargetError (Unit {0})
  verify t hostname key = host_key_callback pc t >>= λ cb. cb hostname key

  pub verify-Trusts :
      (t : Target) (hostname : Text) (key : ℕ)
      → verify t hostname key ≡ ok tt
      → Trusts t hostname key
  unfolding host_key_callback pinned_key known_key
  verify-Trusts t hostname key e = elim (Bool-cases (is_empty t.host_key)) [
    | inr pinned ↦
        inl (
          ground arith,
          ground (arith, rw pinned at e, text_eq_iff (pc.fingerprint key) t.host_key),
        )
    | inl unset ↦ elim (Result-cases (known_hosts_path pc)) [
      | inr (x, f) ↦ absurd (ground (arith, rw (unset, f) at e))
      | inl (path, f) ↦ elim (Option-cases (pc.known_hosts path)) [
        | inl g ↦ absurd (ground (arith, rw (unset, f, g) at e))
        | inr (accepts, g) ↦
            inr (ground arith, path, accepts, f, g, ground (arith, rw (unset, f, g) at e))
      ]
    ]
  ]

  pub Trusts-verify :
      (t : Target) (hostname : Text) (key : ℕ)
      → Trusts t hostname key
      → verify t hostname key ≡ ok tt
  unfolding host_key_callback pinned_key known_key
  Trusts-verify t hostname key (inl (ne, same)) =
      let pinned : is_empty t.host_key ≡ false = ground arith in
      let equal = (text_eq_iff (pc.fingerprint key) t.host_key).1 same in rw (pinned, equal) refl
  Trusts-verify t hostname key (inr (empty, path, accepts, f, g, accepted)) =
      let unset : is_empty t.host_key ≡ true = ground arith in rw (unset, f, g, accepted) refl
