-- ===== src/Lib.antt =====
-- RouteGuard, a split-tunnelling WireGuard service for Windows, in its parts that decide.
--
-- A flow of an application is sent through the tunnel, past it, or is blocked. The engine
-- (crates/routeguard-routing/src/engine.rs) decides from application rules, IP rules, domain rules
-- and addresses that DNS answers resolved. Answers enter the domain route store (domain_store.rs),
-- which expires and evicts them and whose differences become host routes; the engine reads them
-- through its own cache (domain.rs). Rules are edited through rules_ops.rs. The tunnel itself goes
-- over a transport whose settings come in three layers (crates/routeguard-core/src/transport/conf.rs)
-- and which may obfuscate message headers (crates/routeguard-lwo/src/wire.rs). The orchestrator
-- (crates/routeguard-core/src/orchestrator.rs) keeps the session, and the policy compiler
-- (split_policy.rs) turns rules and store into what filters and routes enforce: the domain routing
-- manager (crates/routeguard-service/src/domain_routing.rs) installs host routes through the session's
-- routes (crates/routeguard-platform/src/routes.rs), and the filters of applications and of the kill
-- switch go to the Windows Filtering Platform (crates/routeguard-wfp).
--
-- Files:
--   Prelude           tests, lists, texts as UTF-8 bytes, bits, sorting, association lists, results
--   Core/Net          std::net addresses; the record Platform of what comes from other crates and
--                     from the file system: ipnet, Unicode lower case, Path::exists
--   Core/Backend      crates/routeguard-core/src/backend.rs and the handle of tunnel.rs
--   Core/Config       crates/routeguard-core/src/config.rs
--   Core/Policy       crates/routeguard-core/src/policy.rs
--   Core/Observability, Core/Health
--                     crates/routeguard-core/src/observability/mod.rs and health.rs
--   Core/Transport    crates/routeguard-core/src/transport/mod.rs; Merge: merge_transport_config
--   Routing/App       crates/routeguard-routing/src/app.rs; Glob and Selection: its proofs
--   Routing/Ip        crates/routeguard-routing/src/ip.rs
--   Routing/Domain    crates/routeguard-routing/src/domain.rs
--   Routing/Engine    crates/routeguard-routing/src/engine.rs
--   Routing/Rules     crates/routeguard-routing/src/rules_ops.rs
--   Routing/Store     crates/routeguard-routing/src/domain_store.rs; Apply: apply_resolved
--                     Persist, Sync: its file and its copy in the engine; Room, Caps, Loops, Index,
--                     Consistency, Distinct, Expiry, History: its proofs
--   Routing/SplitPolicy
--                     crates/routeguard-routing/src/split_policy.rs
--   Service/BackendSelector
--                     crates/routeguard-service/src/backend_selector.rs
--   Service/TransportSelector
--                     crates/routeguard-service/src/transport_selector.rs, over Lwo/Validation for
--                     crates/routeguard-lwo/src/backend.rs; Choosing: its theorem
--   Service/Session   crates/routeguard-core/src/orchestrator.rs
--   Service/DomainRouting
--                     crates/routeguard-service/src/domain_routing.rs; Agreement, Steps, Methods,
--                     Soundness: its proofs
--   Service/TransportHealth
--                     crates/routeguard-service/src/transport_health.rs
--   Core/Events       the ring of crates/routeguard-core/src/events.rs
--   Platform/Dns      the parsing of crates/routeguard-platform/src/dns.rs
--   Platform/Routes   crates/routeguard-platform/src/routes.rs; Session: SessionRoutes
--   Wfp               what the next three take of the windows-wfp crate
--   Wfp/Filters       crates/routeguard-wfp/src/filters.rs and ip_mask.rs; Contents: the filters
--                     written out
--   Wfp/NetworkLock   crates/routeguard-wfp/src/network_lock.rs, its file in persistent.rs
--   Wfp/SplitTunnel   crates/routeguard-wfp/src/split_tunnel.rs
--   Lwo/Wire          crates/routeguard-lwo/src/wire.rs
--   Tests             the theorems at concrete inputs
--
-- A method with &mut self is a function from a state to a state, with its result beside it where it
-- has one. A method that reads the clock takes the time as an argument. A HashMap is an association
-- list, and what is stated of code that iterates over one holds for every order of the list. Texts
-- are lists of bytes, so that slices and find count as in Rust. The while loops of enforce_caps run
-- on fuel: the number of addresses, and the number of domains, since a round that does not stop
-- removes at least one. The loops of dns.rs over a name run on the length of the message, since each
-- turn moves on by a byte at least; an index out of range is a fault there. Error texts are data.
-- serde_json, ipnet, windows-wfp, the calls of the system's route table, of std::fs and of a tunnel
-- backend are arguments, and so is what TransportSelector and LwoBackend read in a configuration's
-- text; what is stated about filters supposes of windows-wfp that an added filter gets an unused
-- identifier, that a deleted one is gone, and that a failed call changes nothing.
--
-- Not modelled: sockets, processes, the inside of the Windows Filtering Platform, drivers, the
-- WireGuardNT library, TOML and JSON encodings, log lines.
pub mod Prelude
pub mod Core
pub mod Lwo
pub mod Routing
pub mod Service
pub mod Tests
pub mod Platform
pub mod Wfp
