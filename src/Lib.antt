-- ===== src/Lib.antt =====
-- Models and theorems for wireproxy-awg 1.0.16, the Go program under
-- build-src/wireproxy-awg-1.0.16: a userspace client for WireGuard with the AmneziaWG options, which
-- serves proxies and tunnels.
--
-- The parts and how they interact. A configuration file is prepared by the command config-adapter
-- (cmd/config-adapter/main.go: `adapt`), which puts its own [Socks5] section into the text, has
-- `ParseConfig` check the result, and only then replaces the output. `ParseConfig` (config.go) reads
-- the file with the package ini; `ParseInterface` calls `ParseASecConfig` (awg_config.go) for the
-- AmneziaWG options. The command wireproxy (cmd/wireproxy/main.go) restricts its network by the
-- configuration, hands the request that CreateIPCRequest (wireguard.go) makes of it to the device, and
-- starts its routines: the HTTP proxy (http.go), the UDP tunnels (udp_proxy.go) and those of
-- routine.go, which also serves the health of the tunnel.
--
-- Files, each with its child modules:
--   Awg       awg_config.go: Config is ASecConfigType; Header the magic header intervals
--             (parseMagicHeaderInterval, formatMagicHeaderInterval, hasOverlappingHeaderIntervals);
--             Validate ValidateASecConfig; Parse ParseASecConfig, its repeated blocks as read_int,
--             read_interval and read_text with what each assigns
--   Config    config.go: Types the structs; Values parseString to resolveIPPAndPort; Interface
--             ParseInterface; Peers ParsePeers; Routines the sections of the routines; File ParseConfig,
--             with what is accepted in File/Accepted
--   Adapter   cmd/config-adapter/main.go: withLocalSocks; Disk is adapt over a disk and system calls
--             that may fail; Command the command around it; Headers and Letters which lines count as
--             headers, and as those of a [Socks5] section, without the code's own tests
--   Http      http.go, util.go and the credentials of routine.go: authenticate, handleConn, handle,
--             serve; Listen the accept loop
--   Forward   routine.go and http.go: connForward, two goroutines that copy between two connections
--   Ipc       wireguard.go: CreateIPCRequest, the text that configures the device; Ipc/Settings says what
--             it is about without the format; Start StartWireguard
--   Routine   routine.go: parseAddressPort, ResolveAddrWithContext, ServeHTTP; Pings StartPingIPs and
--             pingIPs, with the replies; Tunnels the TCP and STDIO tunnels; Socks the SOCKS5 routine
--   Udp       udp_proxy.go: the sessions of a UDP tunnel in a heap, with the turns of the main loop, of
--             the cleanup and of the goroutines as a relation on states (Udp/Steps); Packets what goes
--             over the connections, with the errors of their Write; Spawn its start
--   Main      cmd/wireproxy/main.go: lockNetwork, configFilePath, and main as the list of its actions;
--             Process the arguments and the daemon process; Lock the stages of the sandbox, their
--             requests and the error that ends the program; Grounds and Network the rules
--   Ini       what the program sees of the package ini, as parameters; Ini/Sample holds lists that
--             meet what is assumed of it
--   Strings, Strconv, Net, Encoding    the functions of Go's library that the code calls
--   Base      names and lemmas that all share; Base/Errors is Go's `error` and a result type
--
-- Correspondence. A function that returns a value and an error returns a Result; a pointer that may be
-- nil is an Option; `err` values keep the text of the message and what is wrapped. A text is a list of
-- code points, so texts are valid UTF-8. An int is an integer of 64 bits, and its sums wrap around
-- (Base/Int, add64); a uint32 is a natural number at most max_u32. Out-parameters are returned, since
-- the callers drop them on an error. Loops over slices are recursion on lists, so that no fuel is used.
--
-- Parameters. `World` holds the environment, the address parsers, the resolvers and the files that ini
-- loads; `Calls` the answers of the system calls of `adapt`; `Answers` those of the two connections of
-- the HTTP proxy; `Lookups` the resolvers, the shuffle and the parser of addresses; `Attempt` and
-- `Listener` what a tunnel meets; `Probe` what a ping meets; `Ipc.Start.Answers` the errors of the device
-- library; `Environment` what `main` of cmd/wireproxy finds, and `Machine` what a process of it is
-- started with, with the parser of its arguments. Assumptions are named where they are used: that this
-- parser passes over the name of the program;
-- KeyLaws says what ini documents of Key, Shuffles what rand.Shuffle keeps, WorldOneLine that addresses
-- and the values of the files have no line break, and CreateTemp makes a file that did not exist. What
-- landlock and pledge make of their calls is stated in Main/Sealed. Landlock is asked for its best effort:
-- on a kernel without it the calls succeed and restrict nothing, so that what is said of the network says
-- what is asked for. os.Stdout and os.Stderr are not modelled further than the actions that replace them.
--
-- Goroutines take turns. A connection of Forward is a finite list of what its reads return, so that the
-- runs of two copying goroutines end; a run is any list of turns. The records of the pings and the
-- sessions of the UDP tunnel are reached by steps in any order.
--
-- Not modelled: the SOCKS5 server, the packets of the package icmp, the parsers of the command lines,
-- which are other projects' packages, and the Android application.
pub mod Base
pub mod Strings
pub mod Strconv
pub mod Net
pub mod Encoding
pub mod Ini
pub mod Awg
pub mod Config
pub mod Adapter
pub mod Http
pub mod Udp
pub mod Ipc
pub mod Routine
pub mod Main
pub mod Forward
