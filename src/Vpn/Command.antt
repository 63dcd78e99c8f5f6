-- ===== src/Vpn/Command.antt =====
-- How pkg/openconnect/client.go finds its programs and runs them: New, newProcess, newResolver,
-- signal and the functions that they call. What the machine has is a parameter.
use dockprox.Base.{
  ℕ, ◌+◌, ◌-◌, ◌%◌, Bool, true, false, not, Option, none, some, List, [], ◌∷◌, ◌++◌, Result, ok,
  err, ◌==◌, if◌then◌else◌, length, get_elem?, ◌>>=◌, ◌>>◌, fail_if, for_each,
}
use dockprox.Base.Text.{Text, codes, is_empty}
use Prim.Native.Nat.{◌^◌}
use mathlib.Core.Option
use dockprox.Base.Decimal.{itoa}
use dockprox.Base.HostPort.{split_host_port, join_host_port}
use dockprox.Config.Schema.{Upstream, UpstreamAuth}
use dockprox.Secret.Resolver.{trim_space}
use dockprox.Vpn.Quote.{quote, shell_quote}

-- exec.LookPath, the test for an executable file, whether `sudo -n -l` permits a program, and what
-- `openconnect --version` prints.
pub record Host : Type 0 where
  pub on_path : Text → Option Text
  pub is_executable : Text → Bool
  pub permits : Text → Text → Bool
  pub version_of : Text → Option Text

pub data ToolError : Type 0 where
  not_found : Text → ToolError
  needs_sudoers no_version no_script : ToolError

abbrev pub search_dirs : List Text
search_dirs = codes "/opt/homebrew/bin" ∷ codes "/usr/local/bin" ∷ []

abbrev pub slash : ℕ
slash = 47

abbrev pub newline : ℕ
newline = 10

-- A line goes on to the left.
unfoldable pub put_byte : ℕ → List Text → List Text
put_byte c [] = (c ∷ []) ∷ []
put_byte c (l ∷ ls) = (c ∷ l) ∷ ls

-- `strings.Lines`.
unfoldable pub lines : Text → List Text
lines [] = []
lines (c ∷ t) = let rest = lines t in if c == newline then (c ∷ []) ∷ rest else put_byte c rest

-- `strings.CutPrefix`, the prefix first.
unfoldable pub cut_prefix : Text → Text → Option Text
cut_prefix [] t = some t
cut_prefix (a ∷ p) [] = none
cut_prefix (a ∷ p) (b ∷ t) = if a == b then cut_prefix p t else none

abbrev pub vpnc_script_prefix : Text
vpnc_script_prefix = codes "Default vpnc-script (override with --script): "

unfoldable pub script_line : List Text → Result ToolError Text
script_line [] = err no_script
script_line (l ∷ ls) = elim (cut_prefix vpnc_script_prefix (trim_space l)) [
  | some path ↦ ok path
  | none ↦ script_line ls
]

-- The fields of a Client that New sets for good.
pub record Tools : Type 0 where
  pub openconnect : Text
  pub ocproxy : Text
  pub tun : Bool
  pub sudo : Text
  pub kill : Text
  pub vpnc_script : Text
  pub args : List Text
  pub auth : Option UpstreamAuth

abbrev pub protocol_of : Upstream → Text
protocol_of u = if is_empty u.protocol then codes "f5" else u.protocol

abbrev pub cert_args : Upstream → List Text
cert_args u = if is_empty u.server_cert then [] else codes "--servercert" ∷ u.server_cert ∷ []

abbrev pub base_args : Upstream → List Text
base_args u =
    codes "--protocol" ∷ protocol_of u ∷ codes "--passwd-on-stdin" ∷ codes "--non-inter" ∷ []
    ++ cert_args u
    ++ u.server ∷ []

module _ (host : Host) where
  unfoldable pub search_tool : Text → List Text → Option Text
  search_tool name [] = none
  search_tool name (dir ∷ dirs) =
      let p = dir ++ slash ∷ name in if host.is_executable p then some p else search_tool name dirs

  unfoldable pub or_not_found : Text → Option Text → Result ToolError Text
  or_not_found name none = err (not_found name)
  or_not_found name (some p) = ok p

  unfoldable pub look_path : Text → Result ToolError Text
  unfolding search_tool or_not_found
  look_path name = elim (host.on_path name) [
    | some p ↦ ok p
    | none ↦ or_not_found name (search_tool name search_dirs)
  ]

  unfoldable pub sudo_bins : Result ToolError (Text × Text)
  sudo_bins = do sudo ← look_path (codes "sudo"); kill ← look_path (codes "kill"); ok (sudo, kill)

  unfoldable pub check_sudo : Text → Text → Text → Result ToolError (Unit {0})
  check_sudo sudo openconnect kill =
      for_each (λ bin. fail_if (not (host.permits sudo bin)) needs_sudoers)
        (openconnect ∷ kill ∷ [])

  unfoldable pub read_version : Option Text → Result ToolError Text
  read_version none = err no_version
  read_version (some out) = script_line (lines out)

  unfoldable pub default_vpnc_script : Text → Result ToolError Text
  unfolding read_version
  default_vpnc_script openconnect = read_version (host.version_of openconnect)

  -- What a mode needs besides openconnect.
  unfoldable pub rootless : Text → Upstream → Result ToolError Tools
  rootless oc u = do
    ocp ← look_path (codes "ocproxy")
    ok (record {
      openconnect = oc;
      ocproxy = ocp;
      tun = false;
      sudo = [];
      kill = [];
      vpnc_script = [];
      args = base_args u;
      auth = u.auth;
    })

  unfoldable pub as_root : Text → Upstream → Result ToolError Tools
  as_root oc u = do
    bins ← sudo_bins
    check_sudo bins.0 oc bins.1
    script ← default_vpnc_script oc
    ok (record {
      openconnect = oc;
      ocproxy = [];
      tun = true;
      sudo = bins.0;
      kill = bins.1;
      vpnc_script = script;
      args = base_args u;
      auth = u.auth;
    })

  unfoldable pub new : Upstream → Result ToolError Tools
  new u = do oc ← look_path (codes "openconnect"); if u.tun then as_root oc u else rootless oc u

unfoldable pub tun_script : Text → Text → Text
tun_script script dns_file =
    codes "dns=$INTERNAL_IP4_DNS; unset INTERNAL_IP4_DNS INTERNAL_IP6_DNS; "
    ++ (shell_quote script
        ++ (codes "; rc=$?; [ \"$reason\" = connect ] && printf '%s\\n' \"$dns\" > "
            ++ (shell_quote dns_file ++ codes "; exit $rc")))

-- A process before it runs: the address of its SOCKS port, and its command.
pub record Process : Type 0 where
  pub addr : Text
  pub argv : List Text

-- newProcess, by the temporary directory of the tun mode or the free port of the other.
unfoldable pub new_process : Tools → Text → ℕ → Text → Process
new_process t dir port username =
    if t.tun
    then record {
      addr = [];
      argv =
          t.sudo
          ∷ codes "-n"
          ∷ t.openconnect
          ∷ codes "--script"
          ∷ tun_script t.vpnc_script (dir ++ slash ∷ codes "dns")
          ∷ codes "--user"
          ∷ username
          ∷ t.args;
    }
    else record {
      addr = join_host_port (codes "127.0.0.1") (itoa port);
      argv =
          t.openconnect
          ∷ codes "--script-tun"
          ∷ codes "--script"
          ∷ (quote ∷ t.ocproxy ++ (quote ∷ codes " -D " ++ itoa port))
          ∷ codes "--user"
          ∷ username
          ∷ t.args;
    }

-- `signal`: to the process, or the command that sends it as root.
pub data Signal : Type 0 where
  to_process : Bool → ℕ → Signal
  through : List Text → Signal

unfoldable pub signal : Tools → Bool → ℕ → Signal
signal t kills pid =
    if not t.tun
    then to_process kills pid
    else if kills
    then through
        (t.sudo ∷ codes "-n" ∷ t.kill ∷ codes "-KILL" ∷ codes "--" ∷ (codes "-" ++ itoa pid) ∷ [])
    else through (t.sudo ∷ codes "-n" ∷ t.kill ∷ codes "-TERM" ∷ itoa pid ∷ [])

-- The counter of a resolver, a uint32, and the server that a dial takes. `none` is a nil Resolver.
abbrev pub u32_mod : ℕ
u32_mod = 2 ^ 32

unfoldable pub turn_index : ℕ → ℕ → ℕ
turn_index counter count = ((counter + 1) % u32_mod + u32_mod - 1) % u32_mod % count

abbrev pub is_host_port : Text → Bool
is_host_port server = elim (split_host_port server) [ ok hp ↦ true | err e ↦ false ]

unfoldable pub with_port : Text → Text
with_port server = if is_host_port server then server else join_host_port server (codes "53")

-- A dial of the resolver of such servers: the address, and the counter behind it. The resolver of
-- no servers is nil, and no dial is made of it.
unfoldable pub dial_dns : List Text → ℕ → Option Text × ℕ
unfolding turn_index with_port
dial_dns servers counter = (
  Option.map with_port (get_elem? servers (turn_index counter (length servers))),
  (counter + 1) % u32_mod,
)
