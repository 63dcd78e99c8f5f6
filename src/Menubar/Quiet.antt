-- ===== src/Menubar/Quiet.antt =====
-- DisconnectUpstream of internal/menubar/controller.go and the sync that follows it.
use dockprox.Base.{
  ◌≡◌, refl, sym, ap, ◌∙◌, ◌≢◌, ◌⊎◌, inl, inr, Bool, true, false, ◌&&◌, Option, none, some, List,
  [], ◌∷◌, arith, Result, ok, ◌==◌, if◌then◌else◌, Bool-cases, All, Any, All-map, All-always,
  >>=-eq-ok,
}
use dockprox.Base.Text.{Text, text_eq, text_eq_iff, lookup}
use dockprox.Config.Schema.{Upstream, Config, upstream_ssh}
use dockprox.Config.Upstreams.{Url}
use dockprox.Config.Validate.{Upstreams, holds_connection}
use dockprox.Config.References.{HasVia}
use dockprox.Config.UpstreamSound.{IsUpstream}
use dockprox.Config.Sound.{IsConsistent}
use dockprox.Routing.Dialers.{Dialers}
use dockprox.Routing.Registry.{lookup-All}
use dockprox.Menubar.Tunnels.{Conns, Handle, Tunnels, is_up, sync_all}
use dockprox.Menubar.Control.{
  ControlError, is_running, Run, Controller, Environment, sync_run, sync,
}
use dockprox.Menubar.Connections.{
  update, down_conn, dependents, down_all, conn, set_conns, down_dependents, disconnect_upstream,
}
use dockprox.Menubar.SyncLaws.{synced_tunnel, sync_all-synced, synced_tunnel-down}
use dockprox.Menubar.ConnectionsSound.{conn-run}
use dockprox.Menubar.Reached.{reached-IsSound}
use dockprox.Menubar.Sound.{run-IsRun}
use dockprox.Menubar.Steps.{Reach}

-- An upstream reaches itself, and what its `via` reaches.
pub data Through (ups : Upstreams) : Text → Text → Type 0 where
  itself : {n : Text} → Through ups n n
  over :
      {n m : Text} (u : Upstream)
      → lookup n ups ≡ some u
      → u.via ≢ []
      → Through ups u.via m
      → Through ups n m

abbrev IsDown : Conns → Text → Type 0
IsDown conns n = is_up (lookup n conns) ≡ false

differs : (j n : Text) → text_eq j n ≡ false → j ≢ n
differs j n e q = ground (arith, text_eq_iff j n)

right : {P Q : Type 0} → (P → ⊥) → P ⊎ Q → Q
right never (inl p) = absurd (never p)
right never (inr q) = q

-- A connection that is taken down, or was down, is down.
update-IsDown :
    (name n : Text) (conns : Conns)
    → (n ≡ name) ⊎ IsDown conns n
    → IsDown (update name down_conn conns) n
unfolding update lookup down_conn
update-IsDown name n [] h = refl
update-IsDown name n ((j, c) ∷ conns) h = elim (Bool-cases (text_eq j name)) [
  | inl at_name ↦ elim (Bool-cases (text_eq j n)) [
    | inl at_n ↦ rw (at_name, at_n) refl
    | inr not_n ↦
        let j-name : j ≡ name = (text_eq_iff j name).0 at_name in
        let other : (n ≡ name) → ⊥ = λ q. differs j n not_n (j-name ∙ sym q) in
        rw (at_name, not_n) (rw not_n at (right other h))
  ]
  | inr not_name ↦ elim (Bool-cases (text_eq j n)) [
    | inl at_n ↦
        let j-n : j ≡ n = (text_eq_iff j n).0 at_n in
        let other : (n ≡ name) → ⊥ = λ q. differs j name not_name (j-n ∙ q) in
        rw (not_name, at_n) (rw at_n at (right other h))
    | inr not_n ↦ rw (not_name, not_n) (update-IsDown name n conns (rw not_n at h))
  ]
]

down_all-IsDown :
    (names : List Text) (n : Text) (conns : Conns)
    → Any (λ m. n ≡ m) names ⊎ IsDown conns n
    → IsDown (down_all names conns) n
unfolding down_all
down_all-IsDown [] n conns (inl e) = absurd e
down_all-IsDown [] n conns (inr e) = e
down_all-IsDown (m ∷ names) n conns (inl (inl e)) =
    down_all-IsDown names n (update m down_conn conns) (inr (update-IsDown m n conns (inl e)))
down_all-IsDown (m ∷ names) n conns (inl (inr e)) =
    down_all-IsDown names n (update m down_conn conns) (inl e)
down_all-IsDown (m ∷ names) n conns (inr e) =
    down_all-IsDown names n (update m down_conn conns) (inr (update-IsDown m n conns (inr e)))

ok_inj : {x y : Controller} → (let r : Result ControlError Controller = ok x in r) ≡ ok y → x ≡ y
ok_inj e = ground arith

some_inj : {u w : Upstream} → some u ≡ some w → u ≡ w
some_inj e = ground arith

put-Any :
    (b : Bool) (n m : Text) (ms : List Text)
    → Any (λ k. n ≡ k) ms
    → Any (λ k. n ≡ k) (if b then m ∷ ms else ms)
put-Any true n m ms h = inr h
put-Any false n m ms h = h

dependents-Any :
    (name n : Text) (ups : Upstreams) (u : Upstream)
    → lookup n ups ≡ some u
    → holds_connection u ≡ true
    → u.via ≡ name
    → Any (λ m. n ≡ m) (dependents name ups)
unfolding dependents lookup
dependents-Any name n [] u e h v = cc
dependents-Any name n ((j, w) ∷ ups) u e h v = elim (Bool-cases (text_eq j n)) [
  | inr other ↦
      put-Any (holds_connection w && text_eq w.via name) n j (dependents name ups)
        (dependents-Any name n ups u (rw other at e) h v)
  | inl same ↦
      let w-u : w ≡ u = some_inj (rw same at e) in
      let n-j : n ≡ j = sym ((text_eq_iff j n).0 same) in
      let held : holds_connection w ≡ true = rw w-u h in
      let through : text_eq w.via name ≡ true =
        (text_eq_iff w.via name).1 (ap (λ x. x.via) w-u ∙ v) in
      rw (held, through) (inl n-j)
]

module _ (parse_url : Text → Option Url) (cfg : Config) (good : IsConsistent parse_url cfg) where
  -- An upstream that names another in `via` is an ssh upstream.
  via-ssh :
      (n : Text) (u : Upstream)
      → lookup n cfg.upstreams ≡ some u
      → u.via ≢ []
      → u.type ≡ upstream_ssh
  via-ssh n u e ne = elim (Bool-cases (text_eq u.type upstream_ssh)) [
    | inl same ↦ (text_eq_iff u.type upstream_ssh).0 same
    | inr other ↦
        let fields =
          lookup-All (λ nu. IsUpstream parse_url nu.1) cfg.upstreams n u good.upstreams e in
        absurd (ne (fields.no_ssh (differs u.type upstream_ssh other)).via)
  ]

  -- `via` does not go on: what it names has none.
  via_once :
      (n m : Text) (u : Upstream)
      → lookup n cfg.upstreams ≡ some u
      → u.via ≢ []
      → Through cfg.upstreams u.via m
      → u.via ≡ m
  via_once n m u e ne itself = refl
  via_once n m u e ne (over w f nw rest) =
      elim (lookup-All (λ nu. HasVia cfg.upstreams nu.1) cfg.upstreams n u good.vias e) [
        | inl empty ↦ absurd (ne empty)
        | inr (v, found, plain) ↦
            let w-v : w ≡ v = some_inj (sym f ∙ found) in
            absurd (plain (sym (ap (λ x. x.type) w-v) ∙ via-ssh u.via w f nw))
      ]

  Through-dependents :
      (n name : Text)
      → Through cfg.upstreams n name
      → (n ≡ name) ⊎ Any (λ m. n ≡ m) (dependents name cfg.upstreams)
  Through-dependents n name itself = inl refl
  Through-dependents n name (over u e ne rest) =
      let ssh_type = via-ssh n u e ne in
      let held : holds_connection u ≡ true =
        rw ((text_eq_iff u.type upstream_ssh).1 ssh_type) refl in
      inr (dependents-Any name n cfg.upstreams u e held (via_once n name u e ne rest))

  -- What DisconnectUpstream leaves: all that reaches the network through the upstream is down.
  disconnected-IsDown :
      (n name : Text) (conns : Conns)
      → Through cfg.upstreams n name
      → IsDown (down_all (dependents name cfg.upstreams) (update name down_conn conns)) n
  disconnected-IsDown n name conns t = elim (Through-dependents n name t) [
    | inl same ↦ down_all-IsDown _ n _ (inr (update-IsDown name n conns (inl same)))
    | inr among ↦ down_all-IsDown _ n _ (inl among)
  ]

-- A tunnel that is pinned to `n` has no listener.
abbrev pub IsQuiet : Text → Text × Handle → Type 0
IsQuiet n nh = nh.1.conn ≡ some n → nh.1.srv ≡ none

module _ (can_bind closes : Text → Bool) (conns : Conns) (reg : Dialers) (n : Text)
    (down : IsDown conns n) where
  synced_tunnel-conn :
      (h : Handle) (o : Option Text) → (synced_tunnel can_bind closes conns reg h o).conn ≡ h.conn
  synced_tunnel-conn h none = refl
  synced_tunnel-conn h (some u) = refl

  synced_tunnel-IsQuiet :
      (name : Text) (h : Handle)
      → IsQuiet n (name, synced_tunnel can_bind closes conns reg h h.conn)
  synced_tunnel-IsQuiet name h q =
      synced_tunnel-down can_bind closes conns reg h n (sym (synced_tunnel-conn h h.conn) ∙ q) down

  sync_all-IsQuiet :
      (ts : Tunnels)
      → All (λ nh. closes nh.1.name ≡ true) ts
      → All (IsQuiet n) (sync_all can_bind closes conns reg ts)
  sync_all-IsQuiet ts c = rw (sync_all-synced can_bind closes conns reg ts c) (
      All-map (IsQuiet n) (λ nh. (nh.0, synced_tunnel can_bind closes conns reg nh.1 nh.1.conn)) ts
        (All-always ts (λ nh. synced_tunnel-IsQuiet nh.0 nh.1)))

conn-running :
    (name : Text) (c : Controller) (r : Run) → conn name c ≡ ok r → is_running c.state ≡ true
unfolding conn
conn-running name c r e = ground arith

-- The names of the listeners that close in time.
abbrev pub AllClose : Environment → Tunnels → Type 0
AllClose env ts = All (λ nh. env.closes nh.1.name ≡ true) ts

sync_run-IsQuiet :
    (env : Environment) (c : Controller) (r : Run) (n : Text)
    → is_running c.state ≡ true
    → IsDown r.conns n
    → AllClose env c.tunnels
    → All (IsQuiet n) (sync_run env c r.number (some r)).tunnels
unfolding sync_run
sync_run-IsQuiet env c r n up down close =
    let same : (r.number == r.number) ≡ true = ground arith in
    rw (up, same)
      (sync_all-IsQuiet (env.can_bind c.bound) env.closes r.conns r.reg n down c.tunnels close)

-- In every state that is reached, once an upstream is disconnected and the tunnels are synced, no
-- tunnel has a listener that is pinned to the upstream or to one that reaches the network through
-- it, over whatever chain of `via`, provided that every listener closes in time.
pub disconnect_upstream-IsQuiet :
    (env : Environment) (c c' : Controller) (r : Run) (name n : Text)
    → Reach env c
    → c.run ≡ some r
    → disconnect_upstream name c ≡ ok c'
    → Through r.cfg.upstreams n name
    → AllClose env c.tunnels
    → All (IsQuiet n) (sync env r.number c').tunnels
unfolding disconnect_upstream sync down_dependents
disconnect_upstream-IsQuiet env c c' r name n reach runs e through close =
    let (r', f, g) = >>=-eq-ok (conn name c) _ e in
    let r-r' : some r ≡ some r' = sym runs ∙ conn-run env name c r' f in
    let same : r' ≡ r = ground arith in
    let good = (run-IsRun env c r (reached-IsSound env c reach) runs).0 in
    let change = λ (conns : Conns). down_dependents name r (update name down_conn conns) in
    let after : set_conns r change c ≡ c' = ok_inj (rw same at g) in
    rw (← after) (
      sync_run-IsQuiet env _ (record r { conns = change r.conns }) n (conn-running name c r' f)
        (disconnected-IsDown env.parse_url r.cfg good n name r.conns through) close)
