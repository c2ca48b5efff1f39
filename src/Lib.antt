-- ===== src/Lib.antt =====
-- USG Authenticator: an IEEE 802.1X authenticator (a NAS) for SONiC switches, in Rust.
--
-- The program has these parts. `pacp` decodes and builds EAPOL frames. `pae` is the state machine of
-- the port access entity: a session for each station, a port that admits sessions by its host mode,
-- events in and effects out, with no I/O. `radius-client` builds RADIUS requests and reads replies.
-- `enforce` names the boundary to the dataplane and `enforce-sonic` fills it for the SONiC databases.
-- `authd` is the daemon: it decodes frames to events, performs the effects, and feeds the replies of
-- the server back as events. `radsec` carries RADIUS packets over TLS and `eapol-io` is the socket of
-- the port.
--
-- Files and code:
--   Prelude: shared names, Boolean tests, lists and texts over the native numbers, Rust's `Result`.
--   Std: the standard library of Rust as far as the code uses it: from_utf8 and from_utf8_lossy
--     (Utf8), parse::<u16> (Parse), decimal formatting (Decimal), and the signed results of
--     system calls (Int).
--   Pacp/Ethernet, Pdu, Eap, Frame, Error, Octets: crates/pacp/src/ethernet.rs, pdu.rs, eap.rs, and
--     decode_frame; octets are numbers, and the theorems that need it say that they are below 256.
--   Pae/Config, Effect, Event: crates/pae/src/config.rs, effect.rs, event.rs.
--   Pae/Session and Pae/Step: crates/pae/src/session.rs; a `&mut self` method that returns effects is
--     a function to the session and its effects. Session has the methods, Step the match on state and
--     event. coa_authorize is coa_authorized, server_unreachable is unreachable, enable is on_enable.
--   Pae/Port: crates/pae/src/port.rs; the sessions are a list, found and replaced by MAC.
--   Pae/World: what the effects of one session make of the port, its timers and its accounting, whose
--     order is in World/Alternation.
--   Enforce and Enforce/Recording: crates/enforce/src/lib.rs and recording.rs.
--   Sonic/Db, Vlan, Schema, Enforcer: crates/enforce-sonic/src/db.rs, schema.rs, enforcer.rs. The
--     connection is a parameter (DbConn). Schema/View/Effect gives the documented meaning of the
--     database operations: which keys are present and which ports the `ports` list of a key binds;
--     Schema/Keys tells the keys of a port apart, and Schema/Separate those of two ports. Database has
--     the contract of DbConn (IsDatabase), on which Enforcer/Agrees and Enforcer/Startup rest.
--   Sonic/Redis: crates/enforce-sonic/src/redis_conn.rs over the commands of the crate redis, which
--     are a parameter; Redis/Items is the list in a field, Redis/Refines fills the contract of DbConn.
--   Radius/Consts, Error, Sanitize, EapMessage, Context, Request, Accounting, Reply: the files of
--     crates/radius-client/src with those names; Request/Echo is about the attributes that a request
--     keeps while it is built. The crate radius-proto is not in the repository;
--     Radius/Proto takes its operations as a record (RadiusProto) and what is relied on as IsLawful.
--   Radsec/Framing, Client: crates/radsec/src/framing.rs, error.rs and client.rs over a stream that is
--     a parameter (Wire), its deadline included.
--   Authd/Config, Session, Timers, Error: crates/authd/src/config.rs, session.rs, timers.rs, error.rs.
--   Authd/Deps: the boundary traits of crates/authd/src/dispatch.rs over one world.
--   Authd/Dispatch and Authd/Loop: the orchestrator of crates/authd/src/dispatch.rs; awaits are calls.
--     Dispatch/AcctIds, Loop/Unique and Loop/AcctIds are about the ids of accounting (Pae/Port/Counts,
--     Accounts and Relays count the requests that an event leads to), Loop/Bound about the limit of the
--     queue, and Loop/FailedStop about a server that takes no accounting.
--   Authd/Worker: crates/authd/src/worker.rs. Worker has what a frame becomes, Worker/Run run_port and
--     its adapters: what arrives is a list of inputs, in the order in which select takes them.
--     Worker/Scheduler is TokioScheduler over a runtime that is a parameter.
--   Authd/Observed, Loop/Performs, Loop/Backed, Worker/Run/Watched, Worker/Run/Running and
--     Worker/Run/Enforced join the parts for an enforcer that keeps its posture for each station:
--     Observed and Watched say what the boundaries keep of a station, Performs what the effects of an
--     event make of it, Backed what the sessions of the port say it must be, and Running carries what
--     each event keeps through a run that meets no error.
--     Worker/Run/OnScheduler has the timers of TokioScheduler in that place, over the handles that
--     Scheduler/Handles and Scheduler/Armed say it keeps.
--   Authd/Loop/Posed, Loop/Sole and Worker/Run/OnSonic do so for an enforcer with one posture for each
--     port, which SonicEnforcer is (its `apply` takes no notice of its target), on a port that admits
--     one session: OnSonic runs run_port over the model of SonicEnforcer down to the database. The
--     ports of a switch run side by side; Schema/Separate is about what they write.
--   Eapol: crates/eapol-io/src/socket.rs and error.rs; Kernel has the system calls and the reactor.
--   Radsec/Tls and Radsec/Client/Connect: crates/radsec/src/fips.rs, tls.rs and the connecting half of
--     client.rs, over rustls and the network as parameters.
--   Authd/Main: crates/authd/src/main.rs; its lines on standard error are a list.
--   Display, beside each Error: the texts of the errors; `{:?}` of a text and the texts of foreign
--     errors are parameters.
--   Kat: crates/kat/src/lib.rs.
--   Tests: the theorems at concrete inputs.
--
-- Bounds and fuel. Identifiers of one octet wrap modulo 256 and the accounting counter modulo 2^64;
-- tx_count, which the code adds to saturating, is a number. handle_event takes at
-- most 64 events, as the code does, and the bound is the fuel of `drain`. The chunks of an EAP packet
-- take at least one octet in each round, so its length is enough fuel; a
-- decimal of a 64-bit number has at most 20 digits. The loops of recv and send of the socket run on
-- one unit of fuel for each time that the reactor wakes them; without a result they still wait.
--
-- Not modelled: a poisoned mutex of SonicEnforcer, which no code can poison (nothing panics while
-- it is held): the branches for it are written, but `lock` always succeeds; and what is outside of
-- the repository: rustls, tokio, libc, redis and radius-proto, which are parameters. Of the worker,
-- an event of a timer that is in the channel when the timer is cancelled is an input like any
-- other; the clone of a shared connection is the connection.
pub mod Prelude
pub mod Pacp
pub mod Pae
pub mod Enforce
pub mod Sonic
pub mod Std
pub mod Radius
pub mod Authd
pub mod Radsec
pub mod Eapol
pub mod Kat
pub mod Tests
