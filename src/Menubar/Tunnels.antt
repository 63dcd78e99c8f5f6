-- ===== src/Menubar/Tunnels.antt =====
-- The tunnels of ProxyController in internal/menubar/controller.go: buildTunnels, bindTunnel,
-- unbindTunnel and syncTunnels. Whether an address can be bound, and whether a listener's Serve
-- returns before ShutdownTimeout once it is cancelled, are parameters.
use dockprox.Base.{
  Bool, true, false, not, ◌&&◌, ◌||◌, Option, none, some, List, [], ◌∷◌, Result, ok, err, ◌==◌,
  if◌then◌else◌, is_some, ◌>>=◌, wrap,
}
use dockprox.Base.Text.{Text, lookup}
use dockprox.Config.Schema.{Listener}
use dockprox.Ssh.Client.{ConnState, connected, iota}
use dockprox.Routing.Dialers.{
  Dialer, Dialers, direct_dialer, socks5_dialer, http_dialer, forward_dialer, ssh_dialer, ssh_over,
  openconnect_dialer,
}
use dockprox.Routing.Pick.{ListenError, Server}
use dockprox.Routing.Pick

-- What the controller sees of an upstream with a connection: its state, whether Down holds it, and
-- whether autoconnect is off.
pub record Conn : Type 0 where
  pub state : ConnState
  pub held : Bool
  pub manual_only : Bool

abbrev pub Conns : Type 0
Conns = List (Text × Conn)

-- A tunnelHandle. `conn` is the upstream's name if its dialer is a connDialer; `srv` is the bound
-- listener, with its context and its channel.
pub record Handle : Type 0 where
  pub name : Text
  pub conn : Option Text
  pub listener : Listener
  pub stopped : Bool
  pub srv : Option Server

abbrev pub Tunnels : Type 0
Tunnels = List (Text × Handle)

-- The dialers that are connDialers.
abbrev pub has_connection : Option Dialer → Bool
has_connection none = false
has_connection (some (direct_dialer n)) = false
has_connection (some (socks5_dialer n u)) = false
has_connection (some (http_dialer n u)) = false
has_connection (some (forward_dialer n a)) = false
has_connection (some (ssh_dialer n u)) = true
has_connection (some (ssh_over n u v)) = true
has_connection (some (openconnect_dialer n u)) = true

abbrev pub is_up : Option Conn → Bool
is_up none = false
is_up (some c) = iota c.state == iota connected

abbrev pub is_bound : Handle → Bool
is_bound h = is_some h.srv

-- What syncTunnels decides of a tunnel under the mutex.
pub data Action : Type 0 where
  keeps binds unbinds : Action

unfoldable pub follow : Bool → Bool → Bool → Action
follow up stopped bound =
    if up && not stopped && not bound
    then binds
    else if (not up || stopped) && bound
    then unbinds
    else keeps

unfoldable pub action : Conns → Handle → Option Text → Action
action conns h none = keeps
action conns h (some upstream) = follow (is_up (lookup upstream conns)) h.stopped (is_bound h)

pub data TunnelError : Type 0 where
  not_opened : Text → ListenError → TunnelError
  shutdown_timeout : Text → TunnelError

module _ (can_bind closes : Text → Bool) where
  unfoldable pub opened :
      Handle → Result ListenError Server → Result TunnelError (Unit {0}) × Handle
  opened h (err e) = (err (not_opened h.name e), h)
  opened h (ok s) = (ok tt, record h { srv = some s })

  unfoldable pub bind_tunnel : Dialers → Handle → Result TunnelError (Unit {0}) × Handle
  unfolding opened
  bind_tunnel reg h = if is_bound h then (ok tt, h) else opened h (Pick.new can_bind reg h.listener)

  -- The listener is closed either way; `srv` is cleared once Serve has returned.
  unfoldable pub unbind_tunnel : Handle → Result TunnelError (Unit {0}) × Handle
  unbind_tunnel h =
      if not (is_bound h)
      then (ok tt, h)
      else if closes h.name
      then (ok tt, record h { srv = none })
      else (err (shutdown_timeout h.name), h)

  unfoldable pub unbind_marked : Action → Handle → Handle
  unbind_marked unbinds h = (unbind_tunnel h).1
  unbind_marked a h = h

  unfoldable pub bind_marked : Dialers → Action → Handle → Handle
  bind_marked reg binds h = (bind_tunnel reg h).1
  bind_marked reg a h = h

  -- The decisions are taken of all tunnels first; no tunnel is on both lists, and a tunnel's fate
  -- does not hang on another's.
  unfoldable pub sync_tunnel : Conns → Dialers → Handle → Handle
  sync_tunnel conns reg h = let a = action conns h h.conn in bind_marked reg a (unbind_marked a h)

  unfoldable pub sync_all : Conns → Dialers → Tunnels → Tunnels
  sync_all conns reg [] = []
  sync_all conns reg ((name, h) ∷ ts) = (name, sync_tunnel conns reg h) ∷ sync_all conns reg ts

  unfoldable pub new_handle : Dialers → Listener → Handle
  new_handle reg l = record {
    name = l.listen;
    conn = if has_connection (lookup l.upstream reg) then some l.upstream else none;
    listener = l;
    stopped = false;
    srv = none;
  }

  -- The body of the loop of buildTunnels: a listener that is pinned to a connection is not bound
  -- yet.
  unfoldable pub build_tunnel : Dialers → Listener → Result TunnelError Handle
  unfolding new_handle
  build_tunnel reg l =
      if has_connection (lookup l.upstream reg)
      then ok (new_handle reg l)
      else (wrap (not_opened l.listen) (Pick.new can_bind reg l) >>= λ s.
          ok (record (new_handle reg l) { srv = some s }))

  -- On an error the listeners that were bound are closed.
  unfoldable pub build_tunnels : Dialers → List Listener → Result TunnelError Tunnels
  build_tunnels reg [] = ok []
  build_tunnels reg (l ∷ ls) = do
    h ← build_tunnel reg l
    rest ← build_tunnels reg ls
    ok ((l.listen, h) ∷ rest)
