-- ===== src/Lib.antt =====
-- A model of ocbridge, the Go program of src/ocbridge/.
--
-- openconnect runs ocbridge as its --script-tun child. ocbridge reads the tunnel description from
-- the environment, writes the configuration of a local OpenVPN server, keeps credentials for the
-- local client, and relays packets between the two.
--
--   * Params (src/ocbridge/params.go): `Params.Env` is env, parseIP4 and ParseParams;
--     `Params.Addresses` is ServerIP and PoolRange; `Params.Words` is ip2u32 and u32toIP on
--     uint32.
--   * Routes (src/ocbridge/routes.go): `Routes.Exclude` is halves and ExcludeHost; `Routes.Split`
--     is SplitRoutes.
--   * Config (src/ocbridge/config.go): BuildServerConfig and BuildCCD. They call PoolRange and
--     SplitRoutes. `Config.Read` is about the text of the configuration, read line by line.
--   * Files (src/ocbridge/pki.go, writeFile): a file system is a function from paths to files,
--     and each way in which the system can fail is an `Outcome`.
--   * Creds (src/ocbridge/pki.go, token and EnsureCreds): over Files and Lines. `Creds.Check` is
--     readCreds and runAuthCheck of src/ocbridge/main.go.
--   * Lines (src/ocbridge/pki.go, splitLines), and Scanner: bufio.Scanner as watchOpenVPN of
--     src/ocbridge/main.go uses it, on the bytes of openvpn's output.
--   * Strings, Strconv and Net: what the program calls of Go's packages of these names. Net.Mask
--     is IPMask and IPNet for IPv4, Net.Parse is ParseIP with its IPv6 forms, To4 and the print
--     of an IPv4 address.
--   * Relay (src/ocbridge/relay.go, Relay): two pumps whose rounds interleave in any order.
--     `Relay.Close` adds Relay's own goroutine, which closes the two connections.
--   * Status (src/ocbridge/status.go, Status and Publisher): over Files; the JSON text of a
--     status is an argument. Session (src/ocbridge/main.go, the event loop of run, and
--     watchOpenVPN): the updates of the status from the start to the end of a tunnel.
--     `Status.Races` is Update as the steps of two goroutines, on the inodes behind the file's
--     two names.
--   * Pki (src/ocbridge/pki.go, EnsurePKI): over Files. Keys, certificates and PEM are a record
--     of operations, `Crypto`; `IsLawful` is what Go's packages document
--     of the two templates that EnsurePKI uses.
--   * FilePath: what the program calls of Go's path/filepath.
--   * Parent (src/ocbridge/parent.go): DieWithParent, with the places at which the parent may
--     exit.
--   * Descriptors (src/ocbridge/relay.go, fdConn): over a table of the process's descriptors.
--   * Setup (src/ocbridge/main.go and RuntimeDir of src/ocbridge/status.go): the directories, the
--     port, the transport and the tools. `Setup.World` has the steps of run, which stop at the
--     first error; `Setup.Run` is run from ParseParams to the state "up", composed of the parts
--     above, `Setup.Watch` is watchOpenVPN and `Setup.Serve` the event loop next to it, with the
--     files that they write, `Setup.Run.End` is what follows the loop, `Setup.Bridge` is the
--     whole of it, `Setup.Init` is runInit, and `Setup.Command` is main with the three modes of
--     run.
--   * Samples: runs at one tunnel's values.
--
-- A Go string is the list of its runes, as `range` decodes them. A uint32 is a number with its
-- wrap-around written out, an int is 64 bits wide, an error is a constructor for each message. An
-- IPv4 address after To4 is four numbers; IsIp4 says that they are bytes. The fuel of `digits_of`
-- is 20, since an int has at most 19 digits; the fuel of `byte_ones` is 9, since a byte has 8
-- ones; the loop of ExcludeHost runs 32 - ones rounds, the loop of ParseParams as many as the
-- count says, and the loop of ParseIP over the groups of an IPv6 address at most 8. Random bytes
-- and the outcome of a write are arguments. The counters of a tick are read at one moment. The
-- pump's and Relay's turns, and the loop's events with the watcher's lines, are lists, which hold
-- for every order of the goroutines.
--
-- Not modelled: the syntax of the flags, the JSON text of the status and of what runInit prints,
-- Snapshot, and freePort, which nothing calls. Whether a call of the system succeeds in the
-- set-up (the socket pair, the pipe, the process, the two connections) is an input of
-- `Setup.Run`. The watcher's lines before the state "up", next to the loop and behind it are
-- three lists; a line that it reads after the last update of the status, while the process exits,
-- is not modelled. In Setup and Session an update is one step under the lock, its write included,
-- but for a write of the watcher that overlaps the last one and ends behind it (`overtaken` of
-- `Setup.Bridge.Ending`); every other overlap is in `Status.Races`, whose writes succeed. A write to
-- the log that fails is not modelled. The programs around ocbridge (openconnect, openvpn, the app) are not in the
-- model.
pub mod Common
pub mod Strings
pub mod Strconv
pub mod Net
pub mod Lines
pub mod Scanner
pub mod FilePath
pub mod Params
pub mod Routes
pub mod Config
pub mod Files
pub mod Creds
pub mod Pki
pub mod Parent
pub mod Descriptors
pub mod Relay
pub mod Status
pub mod Session
pub mod Setup
mod Samples
