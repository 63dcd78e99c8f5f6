-- ===== src/Routing/Pick.antt =====
-- The choice of a dialer: Server.pick of pkg/socks5server/server.go, which Server.pick of
-- pkg/portforward/server.go and Server.pick of pkg/proxy share but for the pinned dialer, and New
-- of pkg/listener/listener.go with the two NewServer that it calls. Whether an address can be bound
-- is a parameter; the logger, the matcher and the registry are always given.
use dockprox.Base.{
  Bool, not, Option, none, some, Result, ok, err, if◌then◌else◌, ◌>>=◌, ◌>>◌, fail_if, wrap,
}
use dockprox.Base.Text.{Text, codes, is_empty, lookup}
use dockprox.Base.HostPort.{HostPortError, split_host_port}
use dockprox.Match.Compile.{Rule, Matcher}
use dockprox.Match.First.{first}
use dockprox.Config.Schema.{
  Listener, ListenerKind, socks5_server, tcp_forward, unknown_listener, listener_kind,
}
use dockprox.Routing.Dialers.{Dialer, Dialers, direct_dialer}

-- Registry.Direct.
abbrev pub direct : Dialer
direct = direct_dialer (codes "direct")

abbrev pub or_direct : Option Dialer → Dialer
or_direct none = direct
or_direct (some d) = d

unfoldable pub routed : Dialers → Option Rule → Dialer
routed reg none = direct
routed reg (some r) = or_direct (lookup r.upstream reg)

-- The pinned dialer, or the route of the host.
unfoldable pub pick : Option Dialer → Matcher → Dialers → Text → Dialer
pick (some d) m reg host = d
pick none m reg host = routed reg (first m host)

pub data ListenError : Type 0 where
  not_in_registry : Text → ListenError
  bad_target : HostPortError → ListenError
  not_bound : Text → ListenError
  unknown_type : Text → ListenError

-- A bound server: its address and its pinned dialer. A port forward has its target and that
-- target's host.
pub data Server : Type 0 where
  socks5_bound : Text → Option Dialer → Server
  forward_bound : Text → Text → Text → Option Dialer → Server

abbrev pub pinned : Server → Option Dialer
pinned (socks5_bound listen p) = p
pinned (forward_bound listen target host p) = p

-- The dialer of a connection that asks for `host`; a port forward goes to its own.
unfoldable pub server_dialer : Matcher → Dialers → Server → Text → Dialer
server_dialer m reg (socks5_bound listen p) host = pick p m reg host
server_dialer m reg (forward_bound listen target own p) host = pick p m reg own

unfoldable pub found_pin : Text → Option Dialer → Result ListenError (Option Dialer)
found_pin name none = err (not_in_registry name)
found_pin name (some d) = ok (some d)

unfoldable pub pin : Dialers → Text → Result ListenError (Option Dialer)
pin reg name = if is_empty name then ok none else found_pin name (lookup name reg)

module _ (can_bind : Text → Bool) where
  bind : Text → Result ListenError (Unit {0})
  bind listen = fail_if (not (can_bind listen)) (not_bound listen)

  -- NewServer of the package of each type.
  unfoldable pub new_server : ListenerKind → Listener → Option Dialer → Result ListenError Server
  unfolding bind
  new_server socks5_server l p = bind l.listen >> ok (socks5_bound l.listen p)
  new_server tcp_forward l p = do
    target ← wrap bad_target (split_host_port l.target)
    bind l.listen
    ok (forward_bound l.listen l.target target.0 p)
  new_server unknown_listener l p = err (unknown_type l.type)

  unfoldable pub new : Dialers → Listener → Result ListenError Server
  new reg l = do p ← pin reg l.upstream; new_server (listener_kind l.type) l p
