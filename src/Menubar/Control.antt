-- ===== src/Menubar/Control.antt =====
-- The state of a ProxyController of internal/menubar/controller.go, its Start and fail, and
-- syncTunnels for a run. A method is what it has done when it returns and the goroutines that it
-- started are done.
use dockprox.Base.{
  ℕ, suc, Bool, true, false, not, ◌&&◌, Option, none, some, List, [], ◌∷◌, Result, ok, err, ◌==◌,
  if◌then◌else◌, ◌>>=◌, ◌>>◌, fail_if, wrap,
}
use dockprox.Base.Text.{Text, lookup}
use dockprox.Match.Compile.{Matcher}
use dockprox.Match.Compile
use dockprox.Config.Schema.{Config}
use dockprox.Config.Upstreams.{Url}
use dockprox.Config.Validate.{Upstreams, holds_connection}
use dockprox.Config.Load.{Koanf, LoadError, finalize}
use dockprox.Config.Sound.{match_rules, known_upstreams}
use dockprox.Ssh.Client.{unknown}
use dockprox.Routing.Dialers.{Dialers, Machine, BuildError, new_registry}
use dockprox.Menubar.Tunnels.{Conns, Tunnels, TunnelError, has_connection, sync_all, build_tunnels}

-- The lifecycle of the proxy.
pub data State : Type 0 where
  stopped starting running failed : State

abbrev pub is_running : State → Bool
is_running running = true
is_running s = false

abbrev pub is_started : State → Bool
is_started starting = true
is_started running = true
is_started s = false

pub data ControlError : Type 0 where
  not_loaded : LoadError → ControlError
  no_registry : BuildError → ControlError
  no_matcher : Compile.RuleError → ControlError
  no_server : Text → ControlError
  no_tunnels : TunnelError → ControlError
  not_running : ControlError
  unknown_tunnel unknown_upstream : Text → ControlError
  stop_timeout : ControlError
  of_tunnel : TunnelError → ControlError

-- What a run keeps: its number, by which hooks of an earlier one are told apart, its registry with
-- the connections in it, and its configuration.
pub record Run : Type 0 where
  pub number : ℕ
  pub reg : Dialers
  pub conns : Conns
  pub cfg : Config

-- `bound` is the addresses that the process has bound for the proxy itself and not given up.
pub record Controller : Type 0 where
  pub state : State
  pub listen : Text
  pub tunnels : Tunnels
  pub run : Option Run
  pub last_err : Option ControlError
  pub manual_only : Bool
  pub runs : ℕ
  pub bound : List Text

-- What the controller finds outside: `url.Parse`, the configuration file, the machine, the
-- addresses that can be bound and what `Addr` says of the listener then, the tunnels and the
-- addresses of the proxy whose Serve returns in time, what LoadFile says of a file that it cannot
-- read, and the upstreams whose connection succeeds.
pub record Environment : Type 0 where
  pub parse_url : Text → Option Url
  pub file : Option Koanf
  pub machine : Machine
  pub can_bind : List Text → Text → Bool
  pub resolved : Text → Text
  pub closes : Text → Bool
  pub proxy_closes : Text → Bool
  pub unreadable : LoadError
  pub answers : Text → Bool

-- `fail`.
unfoldable pub fail : ControlError → Controller → Controller
fail e c = record c { state = failed; last_err = some e; listen = []; tunnels = []; run = none }

-- The names of the upstreams with a connection, in the order of the map.
unfoldable pub conn_names : Upstreams → List Text
conn_names [] = []
conn_names ((n, u) ∷ ups) = if holds_connection u then n ∷ conn_names ups else conn_names ups

-- The connections of a registry, closed, with the setting of applyAutoconnect.
unfoldable pub new_conns : Bool → Dialers → List Text → Conns
new_conns manual_only reg [] = []
new_conns manual_only reg (n ∷ names) =
    let rest = new_conns manual_only reg names in
    if has_connection (lookup n reg)
    then (n, record { state = unknown; held = false; manual_only = manual_only }) ∷ rest
    else rest

-- What Start has built when it succeeds.
pub record Built : Type 0 where
  pub cfg : Config
  pub reg : Dialers
  pub matcher : Matcher
  pub tunnels : Tunnels

module _ (env : Environment) where
  unfoldable pub load : Option Koanf → Result ControlError Config
  load none = err (not_loaded env.unreadable)
  load (some k) = wrap not_loaded (finalize env.parse_url k)

  unfoldable pub bind_proxy : List Text → Text → Result ControlError (Unit {0})
  bind_proxy bound listen = fail_if (not (env.can_bind bound listen)) (no_server listen)

  -- Start up to the proxy's own listener, and then with the tunnels.
  unfoldable pub prepare : List Text → Result ControlError Built
  prepare bound = do
    cfg ← load env.file
    reg ← wrap no_registry (new_registry env.machine cfg.upstreams)
    m ← wrap no_matcher (Compile.new (match_rules cfg) (known_upstreams cfg))
    bind_proxy bound cfg.listen
    ok (record { cfg = cfg; reg = reg; matcher = m; tunnels = [] })

  unfoldable pub run_built :
      Built → Result TunnelError Tunnels → Controller → Result ControlError (Unit {0}) × Controller
  run_built b (err e) c = (
    err (no_tunnels e),
    fail (no_tunnels e) (record c { bound = env.resolved b.cfg.listen ∷ c.bound }),
  )
  run_built b (ok ts) c = (
    ok tt,
    record c {
      state = running;
      listen = env.resolved b.cfg.listen;
      tunnels = ts;
      run = some (record {
        number = c.runs;
        reg = b.reg;
        conns = new_conns c.manual_only b.reg (conn_names b.cfg.upstreams);
        cfg = b.cfg;
      });
      runs = suc c.runs;
      bound = env.resolved b.cfg.listen ∷ c.bound;
    },
  )

  unfoldable pub start_prepared :
      Result ControlError Built → Controller → Result ControlError (Unit {0}) × Controller
  start_prepared (err e) c = (err e, fail e c)
  start_prepared (ok b) c =
      run_built b
        (build_tunnels (env.can_bind (env.resolved b.cfg.listen ∷ c.bound)) env.closes b.reg
          b.cfg.listeners)
        c

  unfoldable pub start : Controller → Result ControlError (Unit {0}) × Controller
  start c =
      if is_started c.state
      then (ok tt, c)
      else start_prepared (prepare c.bound) (record c { state = starting; last_err = none })

  -- syncTunnels for a run, which does nothing once another one has begun.
  unfoldable pub sync_run : Controller → ℕ → Option Run → Controller
  sync_run c number none = c
  sync_run c number (some r) =
      if is_running c.state && (r.number == number)
      then record c { tunnels = sync_all (env.can_bind c.bound) env.closes r.conns r.reg c.tunnels }
      else c

  unfoldable pub sync : ℕ → Controller → Controller
  sync number c = sync_run c number c.run
