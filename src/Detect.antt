-- ===== src/Detect.antt =====
-- internal/detect: the detectors, a module each, most of them on the sliding window. A call of
-- `Detect` reads the clock when it adds, when it counts, and for the report; that of the failed call
-- ratio reads it once.
pub mod Stream
pub mod Counting
pub mod BruteForce
pub mod InviteFlood
pub mod InvalidRequest
pub mod UserEnum
pub mod DidScanner
pub mod ServerRejected
pub mod Together
pub mod Scanner
pub mod Honeypot
pub mod FailedCallRatio
pub mod GeoAnomaly
mod Tests
