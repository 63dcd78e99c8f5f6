-- ===== src/Vpn/StepTests.antt =====
-- The results on the VPN's client at a run in which a start is disconnected, and at a client of the
-- tun mode.
use dockprox.Base.{
  ℕ, suc, ◌+◌, ◌<◌, ◌≡◌, refl, inl, true, false, not, ◌&&◌, none, some, List, [], ◌∷◌, ◌++◌, arith,
  ok, if◌then◌else◌, get_elem?,
}
use dockprox.Base.Text.{Text, codes}
use Prim.Native.Nat.{◌%◌}
use dockprox.Config.Schema.{Upstream}
use dockprox.Config.Tests.{vpn}
use dockprox.Secret.Resolver.{trim_space}
use dockprox.Ssh.Client.{disconnected}
use dockprox.Vpn.Client.{
  enter, enter_proc, enter_stopped, shared_error, set_abort, set_state, start_failed, hold, down,
}
use dockprox.Vpn.Steps.{
  is_gone, is_live, by_start, starting, free, World, start, put, cancelled, phase_after, entering,
  publishing, asking, down_entered, after_stop, if_dropped, Step, Reaches, here, next_step, alive,
  exited, announced, gone,
}
use dockprox.Vpn.Safety.{one_process, held_stopped}
use dockprox.Vpn.Progress.{Yields, can_free}
use dockprox.Vpn.Command.{
  Host, Tools, new, as_root, look_path, sudo_bins, check_sudo, default_vpnc_script, script_line,
  lines, put_byte, cut_prefix, base_args, new_process, signal, dial_dns, with_port, u32_mod,
}
use dockprox.Vpn.CommandLaws.{
  IsPermitted, SignalIsPermitted, run_as_root, new-IsPermitted, dial_dns-in_turn,
}

-- A get enters and publishes its start, and its process is spawned.
abbrev begun : World
begun = entering (enter (λ id. is_gone (start.procs id)) false 0 start.client) start

abbrev published : World
published = publishing (set_abort begun.client) begun

abbrev spawned : World
spawned = record published {
  phase = starting (some published.next) false;
  procs = put published.next alive published.procs;
  next = suc published.next;
}

spawned-Reaches : Reaches start spawned
unfolding entering phase_after enter enter_proc enter_stopped shared_error publishing set_abort
    set_state
spawned-Reaches =
    next_step
      (next_step (next_step here (Step.get_enters false 0 (omega arith) refl))
        (Step.get_publishes refl))
      (Step.spawns false refl refl)

-- Down cancels the start, which stops its process.
abbrev held_down : World
held_down = record spawned { client = hold spawned.client; aborting = 1 }

abbrev aborted : World
aborted = record held_down {
  phase = if held_down.client.abort then cancelled held_down.phase else held_down.phase;
  aborting = 0;
  closing = suc held_down.closing;
}

abbrev asked : World
asked = asking (by_start true) 0 aborted

abbrev over : World
over = record asked {
  procs = put 0 (exited (asked.up 0 && not (asked.asked 0) && not asked.client.closed)) asked.procs;
}

abbrev told : World
told = record over {
  client = set_state disconnected over.client;
  procs = put 0 (announced false) over.procs;
}

abbrev ended : World
ended = record told { procs = put 0 gone told.procs; drops = if_dropped false 0 told.drops }

abbrev returned : World
returned = after_stop (by_start true) [] ended

abbrev down_now : World
down_now = down_entered none (record returned { closing = 0 })

down_now-Reaches : Reaches start down_now
unfolding entering phase_after enter enter_proc enter_stopped shared_error publishing set_abort
    set_state hold cancelled asking after_stop start_failed down_entered down
down_now-Reaches =
    let r1 = next_step spawned-Reaches Step.down_holds in
    let r2 : Reaches start aborted = next_step r1 (Step.down_aborts 0 refl) in
    let r3 : Reaches start asked = next_step r2 (Step.start_stops 0 true refl) in
    let r4 : Reaches start over = next_step r3 (Step.exits 0 refl) in
    let r5 : Reaches start told = next_step r4 (Step.announces 0 false refl) in
    let r6 : Reaches start ended = next_step r5 (Step.finishes 0 false refl) in
    let r7 : Reaches start returned =
      next_step r6 (Step.stop_returns (by_start true) 0 [] refl refl) in
    next_step r7 (Step.down_enters 0 refl refl)

held_stopped_example : is_live (down_now.procs 0) ≡ false
unfolding entering phase_after enter enter_proc enter_stopped shared_error publishing set_abort
    set_state hold cancelled asking after_stop start_failed down_entered down
held_stopped_example = held_stopped down_now 0 down_now-Reaches (inl (refl, refl))

abbrev first_process : ℕ
first_process = 0

one_process_example : first_process ≡ 0
unfolding entering phase_after enter enter_proc enter_stopped shared_error publishing set_abort
    set_state
one_process_example = one_process spawned 0 0 spawned-Reaches refl refl

can_free_example : (v : World) × Yields spawned v × (v.phase ≡ free)
can_free_example = can_free spawned spawned-Reaches

-- A machine with every program in its place.
abbrev machine : Host
machine = record {
  on_path = λ name. some (codes "/bin/" ++ name);
  is_executable = λ p. false;
  permits = λ sudo program. true;
  version_of = λ oc. some (codes "Default vpnc-script (override with --script): /etc/vpnc");
}

abbrev tun_vpn : Upstream
tun_vpn = record vpn { tun = true }

abbrev tools : Tools
tools = record {
  openconnect = codes "/bin/openconnect";
  ocproxy = [];
  tun = true;
  sudo = codes "/bin/sudo";
  kill = codes "/bin/kill";
  vpnc_script = codes "/etc/vpnc";
  args = base_args tun_vpn;
  auth = vpn.auth;
}

new-tools : new machine tun_vpn ≡ ok tools
unfolding new as_root look_path sudo_bins check_sudo default_vpnc_script script_line lines put_byte
    cut_prefix trim_space
new-tools = refl

new-IsPermitted_example :
    IsPermitted machine tools (run_as_root (new_process tools (codes "/tmp/d") 0 (codes "me")).argv)
    × SignalIsPermitted machine tools (signal tools true 42)
new-IsPermitted_example =
    new-IsPermitted machine tun_vpn tools (codes "/tmp/d") (codes "me") 0 42 true new-tools refl

abbrev servers : List Text
servers = codes "10.0.0.53" ∷ codes "10.0.1.53" ∷ []

dial_dns-in_turn_example :
    ((server : Text) × (get_elem? servers (3 % 2) ≡ some server)
      × ((dial_dns servers 3).0 ≡ some (with_port server)))
    × ((dial_dns servers 3).1 < u32_mod)
    × (3 + 1 < u32_mod → (dial_dns servers 3).1 ≡ 3 + 1)
dial_dns-in_turn_example = dial_dns-in_turn servers 3 (omega arith) (omega arith)
