-- ===== src/Scan.antt =====
-- src/scan: the timers and the cache of the scan loop.
pub mod Throttle
pub mod Cache
