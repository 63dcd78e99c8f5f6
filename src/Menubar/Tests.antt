-- ===== src/Menubar/Tests.antt =====
-- The controller behind the menu bar at the sample configuration: it starts, connects an ssh
-- upstream through its VPN, listens for it, and disconnects the VPN.
use dockprox.Base.{
  ◌≡◌, refl, sym, ◌∙◌, true, false, not, ◌&&◌, none, some, [], ◌∷◌, map, arith, ok, err, All,
}
use dockprox.Base.Text.{codes, text_eq, has_prefix, count_byte, cut_first, cut_last, lookup}
use dockprox.Ssh.Client.{unknown, connected, awaiting_approval}
use mathlib.Core.Path.{subst}
use dockprox.Base.HostPort.{split_host_port, split_at, split_plain}
use dockprox.Config.Schema.{listener_kind, Listener}
use dockprox.Config.Load.{bad_unmarshal}
use dockprox.Config.Sound.{validate-new}
use dockprox.Config.Tests.{https_url, bastion, sample, sample_valid, file, file_loads}
use dockprox.Config.Upstreams.{contains_text}
use dockprox.Routing.Pick.{Server, forward_bound, socks5_bound, new_server, pin, found_pin}
use dockprox.Routing.Pick
use dockprox.Menubar.Calls.{restart, stop, proxy_cancelled, without_text}
use dockprox.Routing.Built.{IsMap}
use dockprox.Routing.Tests.{sample_keys, ready, sample_dialers, sample_built, sample_matcher}
use dockprox.Menubar.Tunnels.{
  Conn, Handle, TunnelError, not_opened, build_tunnels, build_tunnel, new_handle, sync_all,
  sync_tunnel, action, follow, bind_marked, unbind_marked, bind_tunnel, opened,
}
use dockprox.Menubar.Control.{
  running, no_server, Run, Controller, Environment, Built, load, bind_proxy, prepare, start,
  start_prepared, run_built, conn_names, new_conns, sync, sync_run,
}
use dockprox.Menubar.Connections.{
  update, down_conn, conn, conn_run, found_conn, up, up_conn, up_client, up_found, connect_upstream,
  disconnect_upstream, down_dependents, dependents, down_all,
}
use dockprox.Menubar.SyncLaws.{synced_tunnel, sync_all-synced}
use dockprox.Menubar.Steps.{new_controller, Reach, begin, then_step, starts, syncs, connects}
use dockprox.Menubar.Sound.{IsSound}
use dockprox.Menubar.Reached.{reached-IsSound}
use dockprox.Menubar.Quiet.{Through, itself, over, IsQuiet, disconnect_upstream-IsQuiet}
use dockprox.Menubar.Status.{tunnel_status, tunnel_row}
use dockprox.Menubar.StatusLaws.{click, after_click, click-row}
use dockprox.Menubar.Starts.{IsStarted, HasKeys, start-IsStarted, start-start}
use dockprox.Menubar.Approval.{busy, asked, changes, new_menu}
use dockprox.Menubar.ApprovalLaws.{IsWaiting, changes-new_menu}

-- Every address can be bound once.
abbrev world : Environment
world = record {
  parse_url = https_url;
  file = some file;
  machine = ready;
  can_bind = λ bound t. not (contains_text bound t);
  resolved = λ t. t;
  closes = λ t. true;
  proxy_closes = λ t. true;
  unreadable = bad_unmarshal;
  answers = λ t. true;
}

abbrev idle : Controller
idle = new_controller false

abbrev built : Built
built = record { cfg = sample; reg = sample_dialers; matcher = sample_matcher; tunnels = [] }

prepare_sample : prepare world [] ≡ ok built
unfolding prepare load bind_proxy contains_text
prepare_sample = rw (file_loads, sample_built, (validate-new https_url sample sample_valid).1) refl

abbrev pinned_listener : Listener
pinned_listener = record {
  type = [];
  listen = codes "127.0.0.1:1080";
  upstream = codes "jump";
  target = [];
}

abbrev free_listener : Listener
free_listener = record {
  type = codes "tcp";
  listen = codes ":5432";
  upstream = [];
  target = codes "db:5432";
}

abbrev pinned_handle : Handle
pinned_handle = record {
  name = codes "127.0.0.1:1080";
  conn = some (codes "jump");
  listener = pinned_listener;
  stopped = false;
  srv = none;
}

abbrev free_handle : Handle
free_handle = record {
  name = codes ":5432";
  conn = none;
  listener = free_listener;
  stopped = false;
  srv = some (forward_bound (codes ":5432") (codes "db:5432") (codes "db") none);
}

abbrev closed_conn : Conn
closed_conn = record { state = unknown; held = false; manual_only = false }

abbrev first_run : Run
first_run = record {
  number = 0;
  reg = sample_dialers;
  conns = (codes "jump", closed_conn) ∷ (codes "vpn", closed_conn) ∷ [];
  cfg = sample;
}

abbrev started : Controller
started = record {
  state = running;
  listen = codes "127.0.0.1:8888";
  tunnels = (codes "127.0.0.1:1080", pinned_handle) ∷ (codes ":5432", free_handle) ∷ [];
  run = some first_run;
  last_err = none;
  manual_only = false;
  runs = 1;
  bound = codes "127.0.0.1:8888" ∷ [];
}

start_sample : start world idle ≡ (ok tt, started)
unfolding start start_prepared run_built conn_names new_conns build_tunnels build_tunnel new_handle
    new_server Pick.new pin found_pin listener_kind contains_text text_eq lookup split_host_port
    split_at split_plain cut_first cut_last has_prefix count_byte
start_sample = rw prepare_sample refl

abbrev open_conn : Conn
open_conn = record { state = connected; held = false; manual_only = false }

abbrev linked_run : Run
linked_run = record first_run { conns = (codes "jump", open_conn) ∷ (codes "vpn", open_conn) ∷ [] }

-- The ssh upstream is connected, with the VPN below it.
abbrev linked : Controller
linked = record started { run = some linked_run }

connect_sample : connect_upstream (λ t. true) (codes "jump") started ≡ ok linked
unfolding connect_upstream conn conn_run found_conn up_found up up_client up_conn update text_eq
    lookup
connect_sample = refl

abbrev listening : Controller
listening = record linked {
  tunnels =
      (
        codes "127.0.0.1:1080",
        record pinned_handle {
          srv = some (socks5_bound (codes "127.0.0.1:1080") (lookup (codes "jump") sample_dialers));
        },
      )
      ∷ (codes ":5432", free_handle)
      ∷ [];
}

sync_sample : sync world 0 linked ≡ listening
unfolding sync sync_run sync_all sync_tunnel action follow unbind_marked bind_marked bind_tunnel
    opened new_server Pick.new pin found_pin listener_kind contains_text text_eq lookup
sync_sample = refl

started-Reach : Reach world started
started-Reach = subst (λ r. Reach world r.1) start_sample (then_step (begin false) starts)

linked-Reach : Reach world linked
linked-Reach = then_step started-Reach (connects (codes "jump") connect_sample)

listening-Reach : Reach world listening
listening-Reach = subst (λ c. Reach world c) sync_sample (then_step linked-Reach (syncs 0))

reached-IsSound_example : IsSound world listening
reached-IsSound_example = reached-IsSound world listening listening-Reach

abbrev cut_conn : Conn
cut_conn = record { state = unknown; held = true; manual_only = false }

abbrev cut_off : Controller
cut_off = record listening {
  run = some (record first_run { conns = (codes "jump", cut_conn) ∷ (codes "vpn", cut_conn) ∷ [] });
}

disconnect_sample : disconnect_upstream (codes "vpn") listening ≡ ok cut_off
unfolding disconnect_upstream conn conn_run found_conn down_dependents dependents down_all down_conn
    update text_eq lookup
disconnect_sample = refl

jump-Through : Through sample.upstreams (codes "jump") (codes "vpn")
unfolding lookup text_eq
jump-Through = over bastion refl (λ e. cc) itself

disconnect_upstream-IsQuiet_example : All (IsQuiet (codes "jump")) (sync world 0 cut_off).tunnels
disconnect_upstream-IsQuiet_example =
    disconnect_upstream-IsQuiet world listening cut_off linked_run (codes "vpn") (codes "jump")
      listening-Reach refl disconnect_sample jump-Through (refl, (refl, tt))

sync_all-synced_example :
    sync_all (λ t. true) (λ t. true) linked_run.conns sample_dialers started.tunnels
    ≡ map
        (λ nh. (
          nh.0,
          synced_tunnel (λ t. true) (λ t. true) linked_run.conns sample_dialers nh.1 nh.1.conn,
        ))
        started.tunnels
sync_all-synced_example =
    sync_all-synced (λ t. true) (λ t. true) linked_run.conns sample_dialers started.tunnels
      (refl, (refl, tt))

world-HasKeys : HasKeys world []
world-HasKeys b p =
    let whole = sym prepare_sample ∙ p in
    let same : built ≡ b = ground arith in
    subst (λ (k : Built). IsMap k.cfg.upstreams) same sample_keys

start-IsStarted_example : IsStarted world [] (start world idle).0 (start world idle).1
start-IsStarted_example = start-IsStarted world idle refl world-HasKeys

-- A proxy whose Serve does not return in time.
abbrev wedged : Environment
wedged = record world { proxy_closes = λ t. false }

-- A Restart then leaves what still seems to run, with neither its tunnels nor its run.
restart-wedged :
    restart wedged started ≡ (ok tt, record started { tunnels = []; run = none; bound = [] })
unfolding restart start stop proxy_cancelled without_text text_eq
restart-wedged = refl

-- The port of the tunnel that is pinned to nothing is taken.
abbrev crowded : Environment
crowded = record world {
  can_bind = λ bound t. not (contains_text bound t) && not (text_eq t (codes ":5432"));
}

prepare-crowded : prepare crowded [] ≡ ok built
unfolding prepare load bind_proxy contains_text text_eq
prepare-crowded = rw (file_loads, sample_built, (validate-new https_url sample sample_valid).1) refl

abbrev crowded_error : TunnelError
crowded_error = not_opened (codes ":5432") (Pick.not_bound (codes ":5432"))

build_crowded :
    build_tunnels
      (crowded.can_bind (codes "127.0.0.1:8888" ∷ []))
      (λ t. true)
      sample_dialers
      sample.listeners
    ≡ err crowded_error
unfolding build_tunnels build_tunnel new_handle new_server Pick.new pin found_pin listener_kind
    contains_text text_eq lookup split_host_port split_at split_plain cut_first cut_last has_prefix
    count_byte
build_crowded = refl

start-start_example :
    (start crowded (start crowded idle).1).0 ≡ err (no_server (codes "127.0.0.1:8888"))
unfolding contains_text text_eq
start-start_example =
    start-start crowded idle built crowded_error refl prepare-crowded build_crowded refl

-- Two upstreams wait at once, the first is answered.
changes-new_menu_example : IsWaiting (connected ∷ awaiting_approval ∷ []) (
    changes
      ((0, awaiting_approval, asked) ∷ (1, awaiting_approval, busy) ∷ (0, connected, busy) ∷ [])
      (new_menu 2))
changes-new_menu_example =
    changes-new_menu 2
      ((0, awaiting_approval, asked) ∷ (1, awaiting_approval, busy) ∷ (0, connected, busy) ∷ [])

click-row_example :
    lookup
      (codes ":5432")
      (click world
        (tunnel_row (tunnel_status (λ t. t) (codes ":5432", free_handle))).2
        (codes ":5432")
        listening).1.tunnels
    ≡ some (after_click world listening linked_run (codes ":5432") free_handle true)
click-row_example =
    click-row world listening linked_run (codes ":5432") free_handle (unfold lookup text_eq in refl)
      refl refl refl refl
