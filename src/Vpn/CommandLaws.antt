-- ===== src/Vpn/CommandLaws.antt =====
-- What pkg/openconnect/client.go runs through sudo, and which nameserver a dial of its resolver
-- takes.
use dockprox.Base.{
  ℕ, zero, suc, ◌+◌, ◌-◌, ◌<◌, ◌≡◌, refl, inl, inr, Bool, true, false, Option, none, some, List, [],
  ◌∷◌, ◌++◌, arith, ok, if◌then◌else◌, Bool-cases, is_some, Option-cases, length, get_elem?,
  >>=-eq-ok, >>-eq-ok,
}
use dockprox.Base.Text.{Text, codes}
use Prim.Native.Nat.{◌%◌}
use dockprox.Base.Decimal.{itoa}
use dockprox.Config.Schema.{Upstream}
use dockprox.Vpn.Command.{
  Host, Tools, look_path, sudo_bins, check_sudo, default_vpnc_script, rootless, as_root, new,
  new_process, Signal, to_process, through, signal, u32_mod, turn_index, with_port, dial_dns,
}

-- The program that `sudo -n` runs as root.
abbrev pub run_as_root : List Text → Option Text
run_as_root (sudo ∷ dash_n ∷ program ∷ args) = some program
run_as_root _ = none

abbrev pub IsPermitted : Host → Tools → Option Text → Type 0
IsPermitted host t none = ⊥
IsPermitted host t (some program) = host.permits t.sudo program ≡ true

-- What a signal sends as root.
abbrev pub SignalIsPermitted : Host → Tools → Signal → Type 0
SignalIsPermitted host t (to_process kills pid) = ⊥
SignalIsPermitted host t (through command) = IsPermitted host t (run_as_root command)

check_sudo-permits :
    (host : Host) (sudo oc kill : Text)
    → check_sudo host sudo oc kill ≡ ok tt
    → (host.permits sudo oc ≡ true) × (host.permits sudo kill ≡ true)
unfolding check_sudo
check_sudo-permits host sudo oc kill e = elim (Bool-cases (host.permits sudo oc)) [
  | inr n ↦ absurd (ground arith)
  | inl y ↦ elim (Bool-cases (host.permits sudo kill)) [
    | inr n ↦ absurd (ground arith)
    | inl z ↦ (y, z)
  ]
]

as_root-permits :
    (host : Host) (oc : Text) (u : Upstream) (t : Tools)
    → as_root host oc u ≡ ok t
    → (t.tun ≡ true)
      × (host.permits t.sudo t.openconnect ≡ true)
      × (host.permits t.sudo t.kill ≡ true)
unfolding as_root
as_root-permits host oc u t e =
    let (bins, f, e1) = >>=-eq-ok (sudo_bins host) _ e in
    let (checked, e2) = >>-eq-ok (check_sudo host bins.0 oc bins.1) _ e1 in
    let (script, g, e3) = >>=-eq-ok (default_vpnc_script host oc) _ e2 in
    let (a, b) = check_sudo-permits host bins.0 oc bins.1 checked in ground arith

new-as_root :
    (host : Host) (u : Upstream) (t : Tools)
    → new host u ≡ ok t
    → u.tun ≡ true
    → (oc : Text) × (as_root host oc u ≡ ok t)
unfolding new as_root rootless
new-as_root host u t e tun =
    let (oc, f, e1) = >>=-eq-ok (look_path host (codes "openconnect")) _ e in (oc, rw tun at e1)

either : {A : Type 0} (P : A → Type 0) (b : Bool) (x y : A) → P x → P y → P (if b then x else y)
either P true x y p q = p
either P false x y p q = q

-- A client of the tun mode runs as root, to start its process and to stop it, only programs that
-- New has found to be permitted without a password.
pub new-IsPermitted :
    (host : Host) (u : Upstream) (t : Tools) (dir username : Text) (port pid : ℕ) (kills : Bool)
    → new host u ≡ ok t
    → u.tun ≡ true
    → IsPermitted host t (run_as_root (new_process t dir port username).argv)
      × SignalIsPermitted host t (signal t kills pid)
unfolding new_process signal
new-IsPermitted host u t dir username port pid kills e tun =
    let (oc, f) = new-as_root host u t e tun in
    let (root, runs, stops) = as_root-permits host oc u t f in
    rw root (
      runs,
      either (SignalIsPermitted host (record t { tun = true })) kills
          (through (
            t.sudo
            ∷ codes "-n"
            ∷ t.kill
            ∷ codes "-KILL"
            ∷ codes "--"
            ∷ (codes "-" ++ itoa pid)
            ∷ []))
          (through (t.sudo ∷ codes "-n" ∷ t.kill ∷ codes "-TERM" ∷ itoa pid ∷ [])) stops stops,
    )

-- The counter of a resolver wraps around, and its server is still one of the list.
get_elem?-some :
    {A : Type 0} (xs : List A) (i : ℕ) → i < length xs → is_some (get_elem? xs i) ≡ true
get_elem?-some [] i h = absurd (omega arith)
get_elem?-some (x ∷ xs) zero h = refl
get_elem?-some (x ∷ xs) (suc i) h = get_elem?-some xs i (omega arith)

turn_back :
    (counter : ℕ) → counter < u32_mod → ((counter + 1) % u32_mod + u32_mod - 1) % u32_mod ≡ counter
turn_back counter h = omega arith

-- The dials of a resolver take its servers in turn, by a counter that wraps around: each is of the
-- server at the counter's place, which is always there.
pub dial_dns-in_turn :
    (servers : List Text) (counter : ℕ)
    → 0 < length servers
    → counter < u32_mod
    → ((server : Text) × (get_elem? servers (counter % length servers) ≡ some server)
        × ((dial_dns servers counter).0 ≡ some (with_port server)))
      × ((dial_dns servers counter).1 < u32_mod)
      × (counter + 1 < u32_mod → (dial_dns servers counter).1 ≡ counter + 1)
unfolding dial_dns turn_index
dial_dns-in_turn servers counter h k =
    let back = turn_back counter k in
    let inside : is_some (get_elem? servers (counter % length servers)) ≡ true =
      get_elem?-some servers (counter % length servers) (grind arith) in
    elim (Option-cases (get_elem? servers (counter % length servers))) [
      | inl e ↦ absurd (ground arith)
      | inr (server, e) ↦ ((server, e, rw (back, e) refl), omega arith, λ q. omega arith)
    ]
