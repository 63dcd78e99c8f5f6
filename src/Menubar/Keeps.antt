-- ===== src/Menubar/Keeps.antt =====
-- What the operations on connections and on tunnels of internal/menubar/controller.go keep: the
-- autoconnect setting of a connection, and that a stopped tunnel has no listener.
use dockprox.Base.{
  ◌≡◌, refl, ◌∙◌, ◌⊎◌, inl, inr, Bool, true, false, Option, none, some, List, [], ◌∷◌, arith,
  Result, ok, err, if◌then◌else◌, Bool-cases, All, wrap, >>=-eq-ok,
}
use dockprox.Base.Text.{Text, text_eq, lookup}
use dockprox.Config.Schema.{Listener}
use dockprox.Routing.Dialers.{
  Dialer, Dialers, direct_dialer, socks5_dialer, http_dialer, forward_dialer, ssh_dialer, ssh_over,
  openconnect_dialer,
}
use dockprox.Routing.Pick.{Server, ListenError}
use dockprox.Routing.Pick
use dockprox.Menubar.Tunnels.{
  Conn, Conns, Handle, Tunnels, Action, keeps, binds, unbinds, not_opened, new_handle, is_up,
  is_bound, has_connection, follow, action, opened, bind_tunnel, unbind_tunnel, unbind_marked,
  bind_marked, sync_tunnel, sync_all, build_tunnel, build_tunnels,
}
use dockprox.Menubar.Control.{new_conns}
use dockprox.Menubar.Connections.{
  update, down_conn, down_all, up_conn, up_client, after_via, up, up_found, apply_autoconnect,
}
use dockprox.Menubar.Calls.{closed_all}

pub if-All {ℓ} :
    {A : Type ℓ} (P : A → Type 0) (b : Bool) (xs ys : List A)
    → All P xs
    → All P ys
    → All P (if b then xs else ys)
if-All P true xs ys h h' = h
if-All P false xs ys h h' = h'

-- Every entry of a map whose changed entries are good is good.
pub update-All {ℓ} :
    {V : Type ℓ} (P : V → Type 0) (k : Text) (f : V → V) (m : List (Text × V))
    → ((v : V) → P v → P (f v))
    → All (λ kv. P kv.1) m
    → All (λ kv. P kv.1) (update k f m)
unfolding update
update-All P k f [] keep h = tt
update-All P k f ((j, v) ∷ m) keep (h, hs) =
    if-All (λ kv. P kv.1) (text_eq j k) ((j, f v) ∷ m) ((j, v) ∷ update k f m) (keep v h, hs)
      (h, update-All P k f m keep hs)

-- The connections follow the controller's setting.
abbrev pub Follow : Bool → Conns → Type 0
Follow manual_only conns = All (λ nc. nc.1.manual_only ≡ manual_only) conns

module _ (b : Bool) where
  pub update-Follow :
      (k : Text) (f : Conn → Conn) (conns : Conns)
      → ((c : Conn) → (f c).manual_only ≡ c.manual_only)
      → Follow b conns
      → Follow b (update k f conns)
  update-Follow k f conns keep h =
      update-All (λ c. c.manual_only ≡ b) k f conns (λ c e. keep c ∙ e) h

  pub down_all-Follow :
      (names : List Text) (conns : Conns) → Follow b conns → Follow b (down_all names conns)
  unfolding down_all down_conn
  down_all-Follow [] conns h = h
  down_all-Follow (n ∷ names) conns h =
      down_all-Follow names (update n down_conn conns)
        (update-Follow n down_conn conns (λ c. refl) h)

  pub up_client-Follow :
      (answers : Text → Bool) (n : Text) (conns : Conns)
      → Follow b conns
      → Follow b (up_client answers n conns).1
  unfolding up_client up_conn
  up_client-Follow answers n conns h = update-Follow n (up_conn (answers n)) conns (λ c. refl) h

  pub after_via-Follow :
      (answers : Text → Bool) (n : Text) (r : Bool × Conns)
      → Follow b r.1
      → Follow b (after_via answers n r).1
  after_via-Follow answers n (false, conns) h = h
  after_via-Follow answers n (true, conns) h = up_client-Follow answers n conns h

  pub up-Follow :
      (answers : Text → Bool) (d : Dialer) (conns : Conns)
      → Follow b conns
      → Follow b (up answers d conns).1
  unfolding up
  up-Follow answers (direct_dialer n) conns h = h
  up-Follow answers (socks5_dialer n u) conns h = h
  up-Follow answers (http_dialer n u) conns h = h
  up-Follow answers (forward_dialer n a) conns h = h
  up-Follow answers (ssh_dialer n u) conns h = up_client-Follow answers n conns h
  up-Follow answers (openconnect_dialer n u) conns h = up_client-Follow answers n conns h
  up-Follow answers (ssh_over n u via) conns h =
      after_via-Follow answers n (up answers via conns) (up-Follow answers via conns h)

  pub up_found-Follow :
      (answers : Text → Bool) (o : Option Dialer) (conns : Conns)
      → Follow b conns
      → Follow b (up_found answers o conns)
  unfolding up_found
  up_found-Follow answers none conns h = h
  up_found-Follow answers (some d) conns h = up-Follow answers d conns h

  pub new_conns-Follow : (reg : Dialers) (names : List Text) → Follow b (new_conns b reg names)
  unfolding new_conns
  new_conns-Follow reg [] = tt
  new_conns-Follow reg (n ∷ names) = elim (Bool-cases (has_connection (lookup n reg))) [
    | inl e ↦ rw e (refl, new_conns-Follow reg names)
    | inr e ↦ rw e (new_conns-Follow reg names)
  ]

  pub apply_autoconnect-Follow : (conns : Conns) → Follow b (apply_autoconnect b conns)
  unfolding apply_autoconnect
  apply_autoconnect-Follow [] = tt
  apply_autoconnect-Follow ((n, c) ∷ conns) = (refl, apply_autoconnect-Follow conns)

-- No listener, but for one whose Serve does not return.
abbrev pub Rests : (Text → Bool) → Handle → Type 0
Rests closes h = (h.srv ≡ none) ⊎ (closes h.name ≡ false)

abbrev pub Obeys : (Text → Bool) → Handle → Type 0
Obeys closes h = h.stopped ≡ true → Rests closes h

module _ (can_bind closes : Text → Bool) where
  pub unbind_tunnel-Rests : (h : Handle) → Rests closes (unbind_tunnel can_bind closes h).1
  unfolding unbind_tunnel
  unbind_tunnel-Rests h = ground arith

  opened-stopped :
      (h : Handle) (r : Result ListenError Server)
      → (opened can_bind closes h r).1.stopped ≡ h.stopped
  unfolding opened
  opened-stopped h (ok s) = refl
  opened-stopped h (err e) = refl

  pub bind_tunnel-stopped :
      (reg : Dialers) (h : Handle) → (bind_tunnel can_bind closes reg h).1.stopped ≡ h.stopped
  unfolding bind_tunnel
  bind_tunnel-stopped reg h = ground (arith, opened-stopped h (Pick.new can_bind reg h.listener))

  pub applied-Obeys :
      (reg : Dialers) (a : Action) (h : Handle)
      → (a ≡ binds → h.stopped ≡ false)
      → Obeys closes h
      → Obeys closes (bind_marked can_bind closes reg a (unbind_marked can_bind closes a h))
  unfolding bind_marked unbind_marked
  applied-Obeys reg keeps h free keep = keep
  applied-Obeys reg unbinds h free keep = λ e. unbind_tunnel-Rests h
  applied-Obeys reg binds h free keep =
      λ e. absurd (ground (arith, bind_tunnel-stopped reg h, free refl))

  follow-binds : (up stopped bound : Bool) → follow up stopped bound ≡ binds → stopped ≡ false
  unfolding follow
  follow-binds up true bound e = ground arith
  follow-binds up false bound e = refl

  action-binds :
      (conns : Conns) (h : Handle) (o : Option Text) → action conns h o ≡ binds → h.stopped ≡ false
  unfolding action
  action-binds conns h none e = cc
  action-binds conns h (some u) e = follow-binds (is_up (lookup u conns)) h.stopped (is_bound h) e

  pub sync_all-Obeys :
      (conns : Conns) (reg : Dialers) (ts : Tunnels)
      → All (λ nh. Obeys closes nh.1) ts
      → All (λ nh. Obeys closes nh.1) (sync_all can_bind closes conns reg ts)
  unfolding sync_all sync_tunnel
  sync_all-Obeys conns reg [] h = tt
  sync_all-Obeys conns reg ((name, t) ∷ ts) (h, hs) = (
    applied-Obeys reg (action conns t t.conn) t (action-binds conns t t.conn) h,
    sync_all-Obeys conns reg ts hs,
  )

  pub build_tunnel-Obeys :
      (reg : Dialers) (l : Listener) (h : Handle)
      → build_tunnel can_bind closes reg l ≡ ok h
      → Obeys closes h
  unfolding build_tunnel new_handle
  build_tunnel-Obeys reg l h e = elim (Bool-cases (has_connection (lookup l.upstream reg))) [
    | inl c ↦ λ q. inl (ground arith)
    | inr c ↦
        let (s, f, g) =
          >>=-eq-ok (wrap (not_opened l.listen) (Pick.new can_bind reg l)) _ (rw c at e) in
        λ q. absurd (ground arith)
  ]

  pub build_tunnels-Obeys :
      (reg : Dialers) (ls : List Listener) (ts : Tunnels)
      → build_tunnels can_bind closes reg ls ≡ ok ts
      → All (λ nh. Obeys closes nh.1) ts
  unfolding build_tunnels
  build_tunnels-Obeys reg [] ts e = let same : [] ≡ ts = ground arith in rw (← same) tt
  build_tunnels-Obeys reg (l ∷ ls) ts e =
      let (h, f, e1) = >>=-eq-ok (build_tunnel can_bind closes reg l) _ e in
      let (rest, g, e2) = >>=-eq-ok (build_tunnels can_bind closes reg ls) _ e1 in
      let same : (l.listen, h) ∷ rest ≡ ts = ground arith in
      rw (← same) (build_tunnel-Obeys reg l h f, build_tunnels-Obeys reg ls rest g)

module _ (closes : Text → Bool) where
  pub closed_all-Rests : (ts : Tunnels) → All (λ nh. Rests closes nh.1) (closed_all closes ts)
  unfolding closed_all
  closed_all-Rests [] = tt
  closed_all-Rests ((name, h) ∷ ts) =
      (let split = Bool-cases (closes h.name) in ground arith, closed_all-Rests ts)
