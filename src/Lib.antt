-- ===== src/Lib.antt =====
-- sipreaper: a daemon that watches the SIP traffic of a host, finds attackers, and bans their
-- addresses in the firewall for a time.
--
-- The parts. Ingesters (internal/ingest) turn packets and log lines into events. The daemon
-- (internal/daemon) passes each event that is no duplicate to the detectors (internal/detect),
-- which count it in sliding windows and report threats into a channel of 100. The decision engine
-- (internal/decision) turns a threat into a ban, unless the whitelist (internal/whitelist) covers
-- the address or it has an open ban, and records it in the store (internal/store). The enforcers
-- (internal/action) carry it out, and a ticker lifts it again. The API (internal/api) lists, makes
-- and lifts bans and edits the whitelist.
--
-- The files:
-- - Common, with Common/Tests, Lists, Texts, Dict and Int: shared names, Boolean tests, lists, byte
--   strings, maps as association lists, integers, and their lemmas.
-- - Net and Net/Parse: what the program uses of Go's net: text forms of addresses, networks. Fmt:
--   what it uses of fmt.
-- - Models: internal/models/models.go.
-- - Window: internal/detect/detector.go, with Window/Live, Runs, Distinct and Bounds for proofs.
-- - Detect: a module for each detector of internal/detect. Detect/Stream is the stream of events,
--   Detect/Counting what the detectors share in their proofs. Detect/FailedCallRatio keeps its own
--   buckets: Stream follows them, Calls reads them as calls, Report says when it reports.
-- - Dedup: internal/ingest/dedup.go; Dedup/Laws.
-- - Store: internal/store/store.go; Store/Order and Pages on listings, Store/Bans on open bans.
-- - Whitelist: internal/whitelist/whitelist.go; Whitelist/Laws.
-- - Decision: internal/decision/engine.go; Decision/Escalation on the ladder, Decision/Bans.
-- - Strings: what it uses of Go's strings and strconv; Strings/Split on splitting and joining.
-- - Ingest/Sip: internal/ingest/sipparser.go; Ingest/Sip/Lines on its line ends.
-- - Ingest/Pcap: internal/ingest/pcap.go; Ingest/Pcap/Table, Origin, Login and Rejects for proofs.
-- - Ingest/Log: the line parsers of internal/ingest/logtailer.go; Ingest/Log/Format. Ingest/Tail: the
--   tailer of the same file, and internal/ingest/syslog.go; Ingest/Tail/Chunks on its reads.
-- - Action: internal/action/enforcer.go; Action/Composite, Action/Iptables and Action/Email:
--   composite.go, iptables.go and email.go beside it; Action/Email/Queue for proofs.
--   Action/Firewall: the chain and list of iptables.go, ipset.go and prefilter.go; Action/Prefilter.
-- - Banner: internal/banner/keys.go and the map operations of enforcer_linux.go; Banner/Attach how it
--   loads and attaches; Banner/Frame the kernel program bpf/xdp_ban.c; Banner/Bans, Keys,
--   Senders and Outcome: proofs.
-- - Config: the records of internal/config/config.go; Config/Validate and Config/Scan its Validate;
--   Config/Setup: setupDetectors of the daemon; Config/Sound what follows for it.
-- - Localaddr: internal/localaddr/localaddr.go.
-- - Daemon: internal/daemon/daemon.go. Daemon/Pipeline is runDetectionPipeline, Daemon/Bans is
--   handleThreat and runBanExpiry, Daemon/Restore is restoreBans, Daemon/Reconcile is reconcileXdp
--   and detachXDP, Daemon/Setup is setupEnforcer and setupXDP; the proofs are in Daemon/Safety,
--   Expiry, Closing, Backlog and Drift.
-- - Api: internal/api/handlers.go, the handlers for bans; Api/Whitelist those for the whitelist;
--   Api/Read those that only read; Api/Auth the authentication of internal/api/server.go, and the
--   health check; Api/Consistency, Clearing, Overlap and Listing for proofs.
-- - The Tests beside them run the definitions and apply the theorems to concrete inputs.
--
-- How the code is modelled. A Go name keeps its words: SlidingWindow.AddKeyed is add_keyed. A
-- method takes its receiver and gives the new one; a mutex makes a call one step. Times and
-- durations are natural numbers of nanoseconds, and `t.After(now.Add(-w))` is written `now < t +
-- w`. A reading of the clock is an argument, one for each place that reads it. Strings are lists
-- of bytes, a nil address the empty list. An SQL statement is a function on the rows of its table
-- in the order of their ids, and an argument says whether the database answers; a statement that
-- fails leaves the tables as they are. Rows of equal times are listed in that order, and of
-- several open bans of an address the first is found, where SQL leaves both open. The seconds of a
-- ban's duration are exact, where the code takes them through a float. The loops are recursion on
-- lists; the loop of the iptables unban has the 10,000 rounds of the code. The only fuel is that
-- of Fmt.decimal, which is one more than the number and so than its digits.
--
-- Not under this repository, and so parameters: the iptables and ipset commands, the enforcers and
-- notifiers as the daemon sees them, the kernel's maps, loader and network interfaces with
-- cilium/ebpf, the packets as gopacket decodes them, the country resolver, time.ParseDuration, the
-- engine of regular expressions (the patterns are the program's, as texts), the operations on
-- floats, and the host's own addresses. What is assumed of them is a record or an argument of the
-- theorems that need it.
--
-- Not modelled: the command line, the syslog notifier, the delivery of mail, opening and reading
-- interfaces, files and sockets, the routes of the API and JSON, the defaults of the
-- configuration, logs, metrics, the recovery from panics, and the main loop and shutdown of the
-- daemon. Letters beyond ASCII are left as they are where Go folds, trims or quotes them.
pub mod Common
pub mod Net
pub mod Models
pub mod Fmt
pub mod Window
pub mod Detect
pub mod Dedup
pub mod Store
pub mod Whitelist
pub mod Decision
pub mod Action
pub mod Daemon
pub mod Api
pub mod Strings
pub mod Ingest
pub mod Banner
pub mod Config
pub mod Localaddr
