-- ===== src/Lib.antt =====
-- dockprox: a local proxy that dials destinations directly and sends only chosen hosts through a
-- named upstream. A configuration names upstreams, rules that send the hosts of a pattern to one
-- of them, and listeners. pkg/config validates it, pkg/match compiles its rules, pkg/upstream
-- builds a dialer for each upstream, pkg/listener binds a server for each listener, and a server
-- asks the matcher and the registry which dialer a host takes.
--
-- The program's parts and the files that model them:
--   pkg/match/match.go: Match/Host (stripPort, validatePattern), Match/Compile (New),
--     Match/First (First). Match/Spec says what it is to be the first matching rule,
--     Match/Order and Match/Refine relate the two, Match/Accept is about New's errors,
--     Match/Ports about hosts with ports.
--   pkg/config/config.go, pkg/config/validate.go, pkg/config/load.go: Config/Schema (the
--     types), Config/Upstreams (Upstream.validate), Config/Validate (Config.Validate),
--     Config/Load (Defaults, finalize). Config/UpstreamSound, Config/ListenerSound,
--     Config/References, Config/Sound and Config/LoadSound are their proofs.
--   pkg/socks5server/handler.go and pkg/upstream/socks5.go: Socks5/Wire (a connection as the
--     protocol uses it), Socks5/Server (negotiateMethod, readRequest, writeReply, handle),
--     Socks5/Exchange and Socks5/Client (Socks5Dialer.Dial). Socks5/RoundTrip and Socks5/Laws
--     are their proofs.
--   pkg/secret/secret.go: Secret/Resolver (command, lookPath, run, Check, Resolve),
--     Secret/Laws.
--   pkg/upstream/registry.go, pkg/listener/listener.go, pkg/socks5server/server.go,
--     pkg/portforward/server.go: Routing/Dialers (NewRegistry, build), Routing/Pick (pick, the
--     two NewServer, New of pkg/listener). Routing/Built, Routing/Registry, Routing/Routes and
--     Routing/Opens are their proofs.
--   pkg/upstream/http.go: Upstream/Http (Dial, tlsConfig), Upstream/HttpSpec (what it is to
--     do), Upstream/HttpLaws.
--   pkg/sshclient/client.go, pkg/sshclient/connstate.go and pkg/sshclient/attempt.go:
--     Ssh/Client (what each method does between two points where another goroutine may run),
--     Ssh/Steps (their interleavings), Ssh/Retry (DialContext), Ssh/Attempt (the sockets of
--     one dial), Ssh/Invariant, Ssh/Dial, Ssh/Ends and Ssh/Safety (the invariant and what
--     follows from it), Ssh/RetryLaws, Ssh/AttemptLaws.
--   pkg/sshclient/target.go, pkg/sshclient/auth.go and pkg/sshclient/hostkey.go: Ssh/Target
--     (New, Validate, authMethods, hostKeyCallback), Ssh/HostKeyLaws, Ssh/TargetLaws.
--   pkg/openconnect/client.go: Vpn/Client (what each method does between two points where
--     another goroutine may run), Vpn/Steps (their interleavings with the processes),
--     Vpn/Invariant, Vpn/Moves, Vpn/Calls, Vpn/Ends, Vpn/Safety, Vpn/Asked and Vpn/Progress
--     (the invariant and what follows from it), Vpn/Command and Vpn/CommandLaws (the programs
--     and their command lines).
--   pkg/openconnect/tail.go and pkg/openconnect/sudoers.go: Vpn/Tail, Vpn/TailLaws, Vpn/Quote,
--     Vpn/QuoteLaws.
--   pkg/proxy/handler.go: Proxy/Handler (handle, handleConnect, handleForward), Proxy/Spec
--     (what a connection is to come to), Proxy/Laws.
--   internal/menubar/controller.go: Menubar/Tunnels (the listeners of a run and syncTunnels),
--     Menubar/Control (Start, fail), Menubar/Connections (ConnectUpstream, DisconnectUpstream,
--     upstreamDropped, SetAutoconnect, with the Up of pkg/upstream/ssh.go and
--     pkg/upstream/openconnect.go), Menubar/Calls (StopTunnel, StartTunnel, Stop, Restart, the
--     ends of the goroutines), Menubar/Steps (their sequences). Menubar/SyncLaws,
--     Menubar/Keeps, Menubar/Sound, Menubar/ConnectionsSound, Menubar/Reached, Menubar/Quiet,
--     Menubar/Pinned and Menubar/Starts are their proofs. Menubar/Approval is the approval
--     hook with internal/menubar/foreground.go, Menubar/ApprovalLaws its proofs.
--     Menubar/Status is the snapshot of the state with the rows of
--     internal/menubar/tunnelrow.go, Menubar/StatusLaws the proof about a click on one.
--   internal/cli/serve.go: Cli/Flags (parseUpstreamFlag, parseSSHUpstream, loadConfig),
--     Cli/FlagLaws.
--   Base is what they share: tests and arithmetic on native numbers, lists, results for Go's
--     value and error, Go's strings (Base/Text), net.SplitHostPort and net.JoinHostPort
--     (Base/HostPort), strconv.Atoi and strconv.Itoa (Base/Decimal).
--   The Tests file of each part applies its results to concrete inputs and runs the
--     definitions.
--
-- How the code is modelled: a Go string is a list of bytes. strings.ToLower and
-- strings.TrimSpace are modelled on ASCII, where they agree with Go's. A map is the list of its
-- entries, and a range over it runs in the order of that list, so that a statement for all such
-- lists is one for every order. An int is an unbounded integer, and only values that the code
-- bounds or has read from two bytes are used as ports. A value and an error are a Result; a nil
-- pointer is none. Mutable state is passed along: a connection's bytes, the resolver's cache,
-- the client's fields, the controller. Goroutines are steps of a relation, each what one of them
-- does between two points where another may run; in the controller a call and the goroutines
-- that it starts are one step, and the sync that follows a change of a connection is a step of
-- its own.
--
-- Fuel: the loop of tail.Write runs on one more than the length of its buffer, which is enough
-- since each round takes a newline from it; Itoa of n on one more than n, and DialContext on two
-- rounds, since its second round always returns. Every other loop is structural recursion.
--
-- Parameters, which stand for code outside the repository: url.Parse, the TLS dial and
-- certificate pools, base64, http.ReadResponse with the bytes that it takes off the connection,
-- koanf and the files it reads, net.IP.String, net.ParseIP, the resolver, the TCP dial and bind,
-- net/http's reading and writing of messages, the parsers of keys and of known hosts, os/user
-- and the files of the machine, exec.LookPath and the run of a command. The registry also takes
-- as parameters whether a secret's tool is there and whether the ssh target and the VPN's
-- programs are in order, which Ssh/Target and Vpn/Command model by themselves. The controller
-- takes as parameters what address a listener has, whether a tunnel's Serve and the proxy's own
-- return before the deadline and whether an upstream that is dialed connects.
--
-- Not modelled: the relays that copy bytes between two connections, the accept loops, the ssh
-- handshake and the agent's protocol, the keepalive, the pages and icons of the menu bar and its
-- launch of Chrome, the log file, and the logging.
pub mod Base
pub mod Match
pub mod Config
pub mod Socks5
pub mod Upstream
pub mod Secret
pub mod Routing
pub mod Proxy
pub mod Ssh
pub mod Vpn
pub mod Cli
pub mod Menubar
