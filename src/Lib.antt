-- ===== src/Lib.antt =====
-- sing-box subscription tool and client: the core of the program, modelled and proved.
--
-- The repository has a server tool, sbctl (src/), which installs sing-box on a VPS, meters its
-- traffic and serves subscriptions, and a desktop client (crates/), which runs sing-box on such a
-- subscription. The modelled parts and how they meet:
--
-- * crates/json-merge/src/lib.rs deep_merge is Merge: the one merge of two documents that every
--   override goes through. Json is serde_json::Value; an object is its entries in map order, and a
--   number its literal. The YAML twin and the table-driven self test are not modelled.
-- * crates/client-core/src/config_override.rs is Override: the fragments of a profile's override
--   file, their parser, printer, switches, and the merge of the enabled ones (through Merge) with
--   the report of reserved fields. Paths, texts and error wording stay outside.
-- * crates/client-core/src/core.rs runtime_config and adapt_inbounds are Runtime: what a start of the
--   core is run with, from the subscription, the override (through Override) and the fields that the
--   client reserves. serde_json's texts are a parameter, Codec, whose law is the round trip; an index
--   expression that would panic is the error panicked.
-- * src/traffic.rs is Traffic: the accumulation of counters, the administrator's corrections, and
--   the tasks on the state file (Traffic.Store, with src/config.rs update_state and
--   write_relative_locked). u64 and i128 keep their saturation and overflow written out. The clock,
--   the time zone and the counters' files are arguments; the texts of the state are a parameter,
--   StateCodec; a storage says which of its calls fail.
-- * src/subscription/serve.rs IpBudget is Budget: the token bucket of each source address. Instants are
--   nanoseconds, the cast to u32 wraps, and the platform's last instant is a parameter.
-- * src/subscription is Http: Http.Texts has the methods of str that the routes use, Http.Format the
--   formats and routes (profile.rs, parse_route, route_url), Http.Secret constant_time_eq, and
--   Http.Handler subscription_http_response, over Budget and the report of Traffic. The files and
--   pages that the handler reads are the fields of Server.
-- * crates/client-core/src/controller.rs is Supervisor: the engine's life of the core, one event at a
--   time: a command, the end of the background operation, or a poll. What the system answers (whether
--   a start is possible, whether the process has exited, whether an operation succeeded) and the
--   instant are arguments of the event. Of the system's proxy there is the engine's own record, which a
--   failing disable does not keep from being cleared. Telemetry, logs and the other commands' effects are left out.
-- * crates/client-core/src/state.rs ClientSnapshot is History: the bounded lists of events, records, log
--   lines and rates, and event_lines, which lays the records beside the events. A record's rendering is
--   a parameter, as is the type of records.
-- * src/config.rs is Config: DeploymentConfig::validate, check by check; the parsers of addresses, time
--   zones and dates are parameters, and of a node's credentials only the port is kept.
-- * src/update.rs is Update: the update of both binaries and of sing-box alone, with the rollback point
--   that is taken before and put back on failure, over Disk, the locked writers of src/config.rs
--   DeploymentStore. A host is its files by path under the root and the number of system calls made; a
--   call works or fails as a parameter says for its number, so that every run of faults is covered. A
--   write is one call up to its rename, a removal that fails removes nothing, and a look-up that fails
--   finds nothing. The restart of the
--   services, TOML, SHA-256 and the accounts are parameters.
-- * src/subscription/artifacts.rs is Artifacts: the transactions that replace the generated artifacts,
--   the configuration in force and that of the deployment, over Disk and Disk.Deployment, with the
--   snapshot that a failed restart puts back, and in Artifacts.Generation the set of artifacts with the
--   administrator's overrides (through Merge). The transactions take the generator as a parameter, and
--   the set its renderers; the printer of TOML, the texts of JSON, the merge of YAML, the listing of the
--   directory and what the kernel accepts are parameters too.
-- * src/release.rs is Release: the checks of a pinned manifest, with the versions and their order,
--   and Release.Canonical the text that a signature covers; the verification of signatures and the
--   printer of keys and plain values are parameters.
--
-- Recursion is structural everywhere, so no definition runs on fuel. Not modelled: the wizard, the
-- command line, the terminal and desktop interfaces, certificates, the installer and the renderers of subscription
-- artifacts, which are text templates, interaction or, for the most part, calls of the operating system.
pub mod Prelude
pub mod Json
pub mod Artifacts
pub mod Budget
pub mod Config
pub mod Disk
pub mod History
pub mod Http
pub mod Merge
pub mod Override
pub mod Release
pub mod Runtime
pub mod Supervisor
pub mod Traffic
pub mod Update
pub mod Tests
