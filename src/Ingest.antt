-- ===== src/Ingest.antt =====
-- internal/ingest, the sources of events.
pub mod Sip
pub mod Pcap
pub mod Log
pub mod Tail
