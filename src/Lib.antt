-- ===== src/Lib.antt =====
-- netsentry-sensor: the edge services of an intrusion prevention sensor.
--
-- The sensor is a set of services on one machine. The packet processor captures packets, drops what
-- is junk or comes from a blocked address, and streams the rest to the cloud. The network filter
-- keeps the tables of blocked, trusted and pending entries, blocks addresses in the kernel through
-- `iptables`, and applies the decisions of the cloud. The rule engine edits the file of Suricata
-- rules and matches addresses against it. The firewall forwarder passes blocks on to the router and
-- keeps a table of them, which its route `/blocked` lists for the packet processor. The collector watches
-- the connection to the cloud, takes its commands and sends the blocks among them to the network filter,
-- and delivers Suricata's alerts and other events to the cloud in batches. The telemetry measures the
-- machine and posts alerts on what is over a threshold.
--
-- Files:
--   Common.antt and Common/: lists, options, numbers, machine words, results, text as lists of
--     Unicode scalar values with the functions of `str` that are used, `HashMap` as association lists
--     (Common/Dict), and `Ipv4Addr` (Common/Ipv4).
--   Shared/: Types is src/shared/types/src/lib.rs: `Packet` and `PacketDecision`, and in its children
--     the rules and the intelligence on threats (Rules), the detection of anomalies (Detection), and
--     the status of services with `ApiResponse` (Status). Protocols is src/shared/protocols/src/lib.rs,
--     the messages and the JSON that they are serialised to. Config is
--     src/shared/config/src/lib.rs: `EdgeConfig`, and in its children `CloudConfig` (Cloud), the
--     parsers (Durations), `load_config` and the validators (Loader). Utils is
--     src/shared/utils/src/lib.rs: `retry_with_backoff` and `format_duration`, and `network_utils`
--     (Networks). Proofs: Config/Valid, Utils/Retries, Utils/Networks, Protocols/Keys.
--   NetworkFilter/: src/services/edge/network-filter/src/lib.rs. State has the records; Filter the
--     operations on the tables (`should_block_packet`, `update_trust_stats`, `trust_ip`,
--     `is_ip_blocked`, `get_block_reason`, `get_blocked_ips`); Blocking those that reach the kernel
--     or the network (`block_ip_direct`, `restore_blocked_ip`, `block_ip`, `unblock_ip`,
--     `forward_or_drop_pending_packet`); Decisions `apply_vps_decision` and the two
--     halves of a tick of `start_cleanup_task`; Firewall the commands (`rule_specs`, `run_iptables_command`,
--     `apply_iptables_block`, `remove_iptables_block`). Proofs: Firewall/Kernel, Firewall/Blocks,
--     Firewall/Removal, Verdicts, Lifecycle, Expiry, Delivery.
--   NetworkFilter/Api/: the HTTP interface in the same crate. Documents has the documents of
--     src/models/mod.rs and the database that keeps them, Messages the requests and responses,
--     Handlers the handlers of src/controllers/mod.rs (`block_ip`, `unblock_ip`,
--     `unblock_ip_by_path`, `list_blocked_ips`, `get_prevention_stats`, `get_ip_domains`), Startup
--     `restore_active_blocks` and Dns `reverse_dns_blocking` of src/services/mod.rs. Proofs: Answers,
--     Records, Counts, Restart, Survival. NetworkFilter/Start is the start of src/main.rs, with its
--     proofs in Start/Survival.
--   RuleEngine/: src/services/edge/rule-engine/src/. Parser is parser.rs, Executor executor.rs,
--     Matcher matcher.rs, Api the handlers and Start the port of main.rs. Proofs: Executor/Lines, Executor/File,
--     Matcher/Sync.
--   PacketProcessor/: src/services/edge/packet-processor/src/main.rs. Junk has
--     `is_private_or_local` and `is_junk_packet`, Cache `is_ip_blocked`, a tick of `run_ttl_cleanup`
--     and of `sync_blocked_ips`, Capture the body of the loop of `run_pcap_capture`, Streamer
--     `run_packet_ws_streamer` with its bound on losses, Frame `extract_ips` and `extract_transport`,
--     Ipv6 `Ipv6Addr` as it is printed, Start the settings of `main` and the URL of the stream.
--     Proofs: Junk/Private, Cache/Sync, Capture/Stream, Ipv6/Dots, Frame/Sent, Start/Urls.
--   Forwarder/: src/services/edge/firewall-forwarder/src/main.rs. Address has
--     `normalize_ipv4_target`, Service the handlers that block and unblock and the two halves of the
--     cleanup, Listing the handlers that list, Start the state at the start. Proofs: Service/Blocks, Listing/Feed.
--   Collector/: src/services/edge/raspi-collector/src/. Monitor is `ConnectionMonitor` and Debug
--     `WsDebugState` of models/mod.rs. Json is what is read of JSON. Commands has
--     `handle_vps_command` and `sync_active_blocks` of services/mod.rs, Commands/Sessions
--     `run_vps_command_listener`. Delivery has the events, the metrics and what sends
--     (`send_to_vps`, `send_batch_to_vps`, `calculate_collection_rate`), Delivery/Alerts
--     `parse_eve_line`, Delivery/Tail `flush_batch` and the loop of `tail_eve_json`, Tail/Reading
--     the lines that it reads, Tail/Opening its start, Delivery/Handlers the
--     handlers of controllers/mod.rs (`collect_log`, `collect_batch_logs`, `simulate_logs`,
--     `get_metrics`), Delivery/Ledger the steps that concurrent handlers take. Monitor/Checks is
--     `start_connection_monitoring`, Reports the handlers that show the state, Start the settings and
--     the state of main.rs. Commands/Protocol relates the commands to the messages of Shared/Protocols.
--     Proofs:
--     Monitor/Consistent, Monitor/Reports, Debug/Window, Commands/Handling, Commands/Sessions/Order,
--     Delivery/Ledger and Delivery/Ledger/Refinement, Delivery/Tail.
--   Telemetry.antt: src/services/edge/telemetry/src/services/mod.rs, `Collector::collect`;
--     Telemetry/Checker is `ThresholdChecker`, Telemetry/Rounds `VpsPusher` and a round of
--     `run_collection_loop`.
--     Telemetry/Service is the settings, the state at the start, and the handlers.
--   System.antt: the collector's requests served by the handlers of the network filter, one
--     command at a time in System/Commands, the messages of a session in System/Session, a
--     connection with its synchronisation in System/Sync, and the rounds of the listener in
--     System/Rounds.
--   Tests/: runs at concrete inputs, with a kernel as a list of rules (Tests/Iptables) and a
--     database as a list of documents (Tests/Database).
--
-- Conventions. A method on shared state is a function from the state to the state, and a call of one
-- service by several tasks is a sequence of such calls; where a method gives up its lock in the middle
-- (the cleanups of the forwarder and of the network filter) or holds a reference while it writes (`should_block_packet`), the
-- model has the parts or a parameter. Every reading of a clock is an argument. Times are natural
-- numbers of nanoseconds, `u64` arithmetic wraps, and a cast of a negative number of seconds wraps.
-- `none` from an operation of the filter or the forwarder stands for a panic or a deadlock; errors
-- are `err`. Recursion is structural. Only the loop of retries runs on fuel: 256 rounds, since its
-- attempts are a `u8`, and Utils/Retries proves that it does not run out. Endless loops (the command
-- listener, the tail of the log, the ticks) are functions of the list of what they wake up for. The
-- collector's metrics are under a lock that a handler takes twice, so there the model also has the
-- steps under one lock as a relation. Floating-point numbers, the operating system, `iptables`, the
-- calendar, the router, the database, JSON and YAML, the HTTP clients and the parsed frames are
-- parameters; what is assumed of `iptables` is the record `IsIptables`, of
-- `nsenter` the record `IsNsenter`, of the database
-- `IsDatabase`. Locks of the rule engine can be poisoned. The order of iteration of a map is that of
-- its association list.
--
-- Not modelled: logging, health responses, which are constants, the routes but for those that the
-- collector posts to, the parsing of frames, which a crate does, and the registration of the collector
-- over its WebSocket. After a handler of the network filter has panicked,
-- the joined services are not followed any further.
pub mod Common
pub mod Shared
pub mod NetworkFilter
pub mod RuleEngine
pub mod PacketProcessor
pub mod Forwarder
pub mod Collector
pub mod Telemetry
pub mod System
pub mod Tests
