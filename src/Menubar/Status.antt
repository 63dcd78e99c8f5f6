-- ===== src/Menubar/Status.antt =====
-- The snapshot that the menu bar shows: statusLocked of internal/menubar/controller.go with the
-- functions that it calls, and the rows of internal/menubar/tunnelrow.go.
use dockprox.Base.{
  Bool, true, false, not, ◌&&◌, ◌||◌, Option, none, some, List, [], ◌∷◌, ◌++◌, map, ltb, ◌==◌,
  if◌then◌else◌,
}
use dockprox.Base.Text.{Text, codes, is_empty, text_eq, lookup}
use dockprox.Config.Schema.{Chrome, upstream_openconnect}
use dockprox.Config.Validate.{Upstreams, holds_connection}
use dockprox.Ssh.Client.{ConnState, unknown, connected, disconnected, connecting, awaiting_approval}
use dockprox.Routing.Pick.{Server, socks5_bound, forward_bound}
use dockprox.Menubar.Tunnels.{Conn, Conns, Handle, is_bound}
use dockprox.Menubar.Control.{State, is_running, ControlError, Run, Controller}

-- The order of Go's strings.
unfoldable pub text_leb : Text → Text → Bool
text_leb [] t = true
text_leb (a ∷ s) [] = false
text_leb (a ∷ s) (b ∷ t) = ltb a b || (a == b && text_leb s t)

-- The entries of a map in the order of `slices.Sorted(maps.Keys(m))`.
module _ {ℓ} {V : Type ℓ} where
  unfoldable pub insert : Text → V → List (Text × V) → List (Text × V)
  insert k v [] = (k, v) ∷ []
  insert k v ((j, w) ∷ m) =
      let rest = insert k v m in if text_leb k j then (k, v) ∷ (j, w) ∷ m else (j, w) ∷ rest

  unfoldable pub sorted : List (Text × V) → List (Text × V)
  sorted [] = []
  sorted ((k, v) ∷ m) = insert k v (sorted m)

pub record TunnelStatus : Type 0 where
  pub name : Text
  pub upstream : Text
  pub target : Text
  pub addr : Text
  pub listening : Bool

pub record UpstreamStatus : Type 0 where
  pub name : Text
  pub type : Text
  pub state : ConnState

-- `forwards` is of names and addresses; the path of the configuration is left out.
pub record Status : Type 0 where
  pub state : State
  pub listen : Text
  pub last_err : Option ControlError
  pub tunnels : List TunnelStatus
  pub forwards : List (Text × Text)
  pub upstreams : List UpstreamStatus
  pub chrome : Option Chrome

-- What `Addr` says of a listener is a parameter of the address that it was opened for.
abbrev pub server_addr : (Text → Text) → Option Server → Text
server_addr resolved none = []
server_addr resolved (some (socks5_bound listen p)) = resolved listen
server_addr resolved (some (forward_bound listen target host p)) = resolved listen

unfoldable pub tunnel_status : (Text → Text) → Text × Handle → TunnelStatus
tunnel_status resolved (name, h) = record {
  name = name;
  upstream = h.listener.upstream;
  target = h.listener.target;
  addr = server_addr resolved h.srv;
  listening = is_bound h;
}

abbrev pub conn_state : Option Conn → ConnState
conn_state none = unknown
conn_state (some c) = c.state

unfoldable pub upstream_status : Conns → Upstreams → List UpstreamStatus
upstream_status conns [] = []
upstream_status conns ((n, u) ∷ ups) =
    let rest = upstream_status conns ups in
    if holds_connection u
    then record { name = n; type = u.type; state = conn_state (lookup n conns) } ∷ rest
    else rest

unfoldable pub forward_status : Upstreams → List (Text × Text)
forward_status [] = []
forward_status ((n, u) ∷ ups) =
    let rest = forward_status ups in
    if text_eq u.type (codes "forward") then (n, u.addr) ∷ rest else rest

-- The part of the snapshot that a run gives.
unfoldable pub with_run : Option Run → Status → Status
unfolding sorted
with_run none st = st
with_run (some r) st = record st {
  chrome = r.cfg.chrome;
  forwards = forward_status (sorted r.cfg.upstreams);
  upstreams = upstream_status r.conns (sorted r.cfg.upstreams);
}

unfoldable pub snapshot : (Text → Text) → Controller → Status
unfolding with_run
snapshot resolved c = with_run c.run (record {
  state = c.state;
  listen = c.listen;
  last_err = c.last_err;
  tunnels = map (tunnel_status resolved) (sorted c.tunnels);
  forwards = [];
  upstreams = [];
  chrome = none;
})

pub data Glyph : Type 0 where
  hollow dotted phone warning filled : Glyph

pub data TunnelAction : Type 0 where
  starts_it stops_it : TunnelAction

abbrev pub arrow : Text
arrow = 32 ∷ 226 ∷ 134 ∷ 146 ∷ 32 ∷ []

unfoldable pub tunnel_label : TunnelStatus → Text
tunnel_label ts =
    if not (is_empty ts.target) && not (is_empty ts.upstream)
    then ts.name ++ arrow ++ ts.target ++ codes " via " ++ ts.upstream
    else if not (is_empty ts.target)
    then ts.name ++ arrow ++ ts.target
    else if not (is_empty ts.upstream)
    then ts.name ++ arrow ++ ts.upstream
    else ts.name

unfoldable pub tunnel_row : TunnelStatus → Glyph × Text × TunnelAction
unfolding tunnel_label
tunnel_row ts =
    if not ts.listening
    then (hollow, tunnel_label ts, starts_it)
    else (filled, tunnel_label ts, stops_it)

abbrev pub prefixed : UpstreamStatus → Text → Text
prefixed us t = us.name ++ codes " (" ++ us.type ++ codes "): " ++ t

unfoldable pub connecting_row : UpstreamStatus → Glyph × Text × Bool
connecting_row us =
    if text_eq us.type upstream_openconnect
    then (dotted, prefixed us (codes "connecting (approve on your device)"), false)
    else (dotted, prefixed us (codes "connecting"), false)

unfoldable pub state_row : UpstreamStatus → ConnState → Glyph × Text × Bool
unfolding connecting_row
state_row us connected = (filled, prefixed us (codes "connected"), false)
state_row us connecting = connecting_row us
state_row us awaiting_approval = (phone, prefixed us (codes "awaiting approval"), false)
state_row us disconnected = (warning, prefixed us (codes "failed"), true)
state_row us unknown = (hollow, prefixed us (codes "disconnected"), true)

unfoldable pub upstream_row : UpstreamStatus → Glyph × Text × Bool
upstream_row us = state_row us us.state

abbrev pub mid_connect : ConnState → Bool
mid_connect connecting = true
mid_connect awaiting_approval = true
mid_connect s = false

unfoldable pub any_connecting : List UpstreamStatus → Bool
any_connecting [] = false
any_connecting (us ∷ rest) = mid_connect us.state || any_connecting rest

unfoldable pub upstream_connecting : Status → Bool
upstream_connecting st = is_running st.state && any_connecting st.upstreams
