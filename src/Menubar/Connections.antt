-- ===== src/Menubar/Connections.antt =====
-- The connections of ProxyController in internal/menubar/controller.go: conn, ConnectUpstream,
-- DisconnectUpstream, upstreamDropped, downDependents and SetAutoconnect, with the Up of
-- pkg/upstream/ssh.go and pkg/upstream/openconnect.go as the controller sees it.
use dockprox.Base.{
  ℕ, Bool, true, false, not, ◌&&◌, ◌||◌, Option, none, some, List, [], ◌∷◌, Result, ok, err, ◌==◌,
  if◌then◌else◌, ◌>>=◌,
}
use dockprox.Base.Text.{Text, text_eq, lookup}
use dockprox.Config.Validate.{Upstreams, holds_connection}
use dockprox.Ssh.Client.{unknown, connected, disconnected}
use dockprox.Routing.Dialers.{
  Dialer, direct_dialer, socks5_dialer, http_dialer, forward_dialer, ssh_dialer, ssh_over,
  openconnect_dialer,
}
use dockprox.Menubar.Tunnels.{Conn, Conns, is_up}
use dockprox.Menubar.Control.{
  is_running, ControlError, not_running, unknown_upstream, Run, Controller,
}

-- An entry of a map, changed in place where it is there.
module _ {ℓ} {V : Type ℓ} where
  unfoldable pub update : Text → (V → V) → List (Text × V) → List (Text × V)
  update k f [] = []
  update k f ((j, v) ∷ m) =
      let rest = update k f m in if text_eq j k then (j, f v) ∷ m else (j, v) ∷ rest

-- `Down` of an upstream's dialer, as its State shows it.
unfoldable pub down_conn : Conn → Conn
down_conn c = record c { held = true; state = unknown }

-- The upstreams that downDependents holds down.
unfoldable pub dependents : Text → Upstreams → List Text
dependents name [] = []
dependents name ((n, u) ∷ ups) =
    let rest = dependents name ups in
    if holds_connection u && text_eq u.via name then n ∷ rest else rest

unfoldable pub down_all : List Text → Conns → Conns
down_all [] conns = conns
down_all (n ∷ names) conns = down_all names (update n down_conn conns)

-- `conn`: the run of a controller that runs and whose upstream of that name has a connection.
unfoldable pub found_conn : Text → Run → Option Conn → Result ControlError Run
found_conn name r none = err (unknown_upstream name)
found_conn name r (some c) = ok r

unfoldable pub conn_run : Text → Option Run → Result ControlError Run
conn_run name none = err (unknown_upstream name)
conn_run name (some r) = found_conn name r (lookup name r.conns)

unfoldable pub conn : Text → Controller → Result ControlError Run
conn name c = if not (is_running c.state) then err not_running else conn_run name c.run

abbrev pub set_conns : Run → (Conns → Conns) → Controller → Controller
set_conns r f c = record c { run = some (record r { conns = f r.conns }) }

unfoldable pub down_dependents : Text → Run → Conns → Conns
down_dependents name r conns = down_all (dependents name r.cfg.upstreams) conns

unfoldable pub disconnect_upstream : Text → Controller → Result ControlError Controller
disconnect_upstream name c = do
  r ← conn name c
  ok (set_conns r (λ conns. down_dependents name r (update name down_conn conns)) c)

-- The hook of a VPN that went down on its own: its dependents follow.
unfoldable pub dropped_run : Text → ℕ → Controller → Option Run → Controller
dropped_run name number c none = c
dropped_run name number c (some r) =
    if is_running c.state && (r.number == number) then set_conns r (down_dependents name r) c else c

unfoldable pub upstream_dropped : Text → ℕ → Controller → Controller
upstream_dropped name number c = dropped_run name number c c.run

-- Up of a client that nothing interrupts: it is held no longer, and a connection that is not up is
-- dialed.
unfoldable pub up_conn : Bool → Conn → Conn
up_conn answers c = record c {
  held = false;
  state = if is_up (some c) || answers then connected else disconnected;
}

module _ (answers : Text → Bool) where
  unfoldable pub up_client : Text → Conns → Bool × Conns
  up_client n conns =
      let conns' = update n (up_conn (answers n)) conns in (is_up (lookup n conns'), conns')

  abbrev pub after_via : Text → Bool × Conns → Bool × Conns
  after_via n (false, conns) = (false, conns)
  after_via n (true, conns) = up_client n conns

  -- `Up` of a dialer, and whether it succeeds. A `via` that has no Up needs none.
  unfoldable pub up : Dialer → Conns → Bool × Conns
  up (direct_dialer n) conns = (true, conns)
  up (socks5_dialer n u) conns = (true, conns)
  up (http_dialer n u) conns = (true, conns)
  up (forward_dialer n addr) conns = (true, conns)
  up (ssh_dialer n u) conns = up_client n conns
  up (openconnect_dialer n u) conns = up_client n conns
  up (ssh_over n u via) conns = after_via n (up via conns)

  unfoldable pub up_found : Option Dialer → Conns → Conns
  up_found none conns = conns
  up_found (some d) conns = (up d conns).1

  unfoldable pub connect_upstream : Text → Controller → Result ControlError Controller
  connect_upstream name c = do r ← conn name c; ok (set_conns r (up_found (lookup name r.reg)) c)

-- SetAutoconnect, with applyAutoconnect.
unfoldable pub apply_autoconnect : Bool → Conns → Conns
apply_autoconnect manual_only [] = []
apply_autoconnect manual_only ((n, c) ∷ conns) =
    (n, record c { manual_only = manual_only }) ∷ apply_autoconnect manual_only conns

unfoldable pub set_autoconnect_run : Bool → Controller → Option Run → Controller
set_autoconnect_run on c none = c
set_autoconnect_run on c (some r) = set_conns r (apply_autoconnect (not on)) c

unfoldable pub set_autoconnect : Bool → Controller → Controller
set_autoconnect on c = set_autoconnect_run on (record c { manual_only = not on }) c.run
