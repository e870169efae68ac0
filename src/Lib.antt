-- ===== src/Lib.antt =====
-- The SeaWise client runs next to the services of a home server. It pairs the machine with an
-- account, keeps the connection to the SeaWise server alive by heartbeats, registers the local
-- services there, and runs frpc for the tunnels; a web UI with a password controls it.
--
-- The parts, and the files that model them (paths from the root of the repository):
--
-- - Connection: internal/connection/state.go. `Manager` is the state of Manager; set_state,
--   heartbeat_ok, heartbeat_failed, unpair_requested, calculate_backoff and reset_backoff are its
--   methods. A method returns the notifications its callbacks get. Calls has the runs of method
--   calls, Transient and Once what they may end in and fire, Backoff the delays.
-- - Auth: cmd/seawise/server/auth.go and internal/auth/auth.go. `AuthManager` is authManager with
--   its two maps as functions; RateLimit has the rate limit, Hosts and Origins the header checks,
--   Middleware and Handlers the HTTP side, Access, Credentials and Login what they guarantee, and
--   Stale the refinement by a manager that keeps stale entries.
-- - Validation: internal/validation. Host and Blocking are host.go, Messages is validation.go and
--   errors.go.
-- - Net: the functions of the Go package net that the host checks stand on, as far as they are
--   used: SplitHostPort, ParseIP, IP.To4 and IPNet.Contains, written out on byte strings.
-- - Config: internal/config. `File` is what decoding a file gives, `Disk` the three files of the
--   data directory, `Write` the ways an atomic write ends, which Atomic derives from its
--   steps. Migrate is migrate.go and Delete; Recovery, Idempotent and Unpair say what happens to
--   the account binding.
-- - Services: cmd/seawise/server/service_sync.go, over the machine of Config. Registration has
--   registerLocalServices and reconcileMachineServicesWithServer, Tunnels buildTunnelServices;
--   Invariant, Preserved and History carry the invariant of machine.json through any history.
-- - Frp: internal/frp/frp.go. `FrpClient` is Client; Closing, Restart and Vetting are about the
--   process and the services, Toml about the escaping of the values of frpc.toml,
--   and Methods has the small methods that the server calls. ConfigFile is the text of frpc.toml,
--   line by line as the template writes it, with a reader of TOML beside it, and Text says which
--   bytes a TOML document may hold; Monitor is monitorProcess with the channels it shares with Stop,
--   as a step relation, whose flag says whether monitors read the fields of the client in time, and
--   Fates follows the channel of each process.
-- - Certs: internal/certs/certs.go. `Files` are the files on cleaned paths (Prelude.Paths has
--   path/filepath); Places says where the files of a domain are, Store what SaveKey and SaveCert
--   leave, Lifetime when a certificate is renewed.
-- - Web: cmd/seawise/server/webui.go. `routes` is the table of startWebUI and `serve` the mux
--   behind the middleware of Auth; Access is about the routes, Status has the handlers that answer
--   with the state, Secrecy what a stranger learns, Tls the self-signed certificate.
-- - Api: internal/api/client.go. A call gives its result with the requests it sent; Url has the
--   checks of addresses and ids, Pairing, Registry, Heartbeat and Certificates the calls, Requests
--   and SafeUrls where they go, and Outcomes what a heartbeat reports.
-- - Server: cmd/seawise/server, over one state `Server` for the struct of that name. Starting is
--   startServices of server.go with the certificates and tunnels of service_lifecycle.go, Beating
--   is heartbeat.go, Polling handlers_pairing.go, Apps handlers_services.go; Recovering has the
--   goroutines that bring tunnels back, Reporting the health report. Steps lists the steps that
--   may interleave; Frames, Restarts, Trust, Binding, Pairings, Ending, Adding, Health, Pacing and
--   Lost are about them. Certificates gives ensureServiceCert the store of Certs, Looping has a
--   tick of the heartbeat loop with the whole recovery, whose flag Releasing is
--   about, the update check and the two ends of run, Upgrading the first start after an upgrade.
--
-- The parts meet as in the program: Services changes the files of Config through update_machine,
-- Auth serves the requests whose handlers are steps of Server, and the tunnels of Services are what
-- the frp process is given. A step of Server calls the connection manager and runs the callbacks
-- that it asks for, sends requests by Api, and starts and stops the frp client. A goroutine that a
-- step starts is noted in `spawned` and is a step of its own; between two steps others may come.
--
-- A string is the list of its bytes. Times and durations are natural numbers of nanoseconds, a
-- mutex makes a call one step, and a map is a function. Parameters stand for what is not in the
-- repository: bcrypt (`Bcrypt`, with the documented laws in `BcryptLaws`), the random source, the
-- Unicode functions of the package strings (`Unicode`), the DNS resolver, the answers of the
-- server (`Client` and `Http`, with the decoding of JSON in `Decoders`), the certificate store
-- (`Certs`, which Server.Certificates fills), crypto/x509 and encoding/pem (`Crypto`), and how
-- writes end; `World` collects what a step of the server takes from outside. Only
-- the printing of a number runs on fuel, the number itself, which is enough since each step divides
-- by ten; all other recursion is structural.
--
-- Not modelled: the HTTP transport, the JSON text, the page of handleHome and the constant reply of
-- handleHealthz, the signals, the timers (a timer that fires is a step), the time limits of HTTP
-- and of Stop, and the log; the cancelling of an older polling goroutine by a new pairing is an
-- event of that goroutine's run. Two overlapping Stops of one client are left out of Monitor.
pub mod Prelude
pub mod Net
pub mod Connection
pub mod Auth
pub mod Validation
pub mod Config
pub mod Certs
pub mod Services
pub mod Frp
pub mod Api
pub mod Server
pub mod Web
