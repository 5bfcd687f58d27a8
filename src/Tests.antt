-- ===== src/Tests.antt =====
-- The theorems at concrete inputs.
pub mod Reads
pub mod Loop
pub mod Steps
pub mod Callers
pub mod Ends
pub mod Samples
pub mod Starts
pub mod Probes
pub mod Once
pub mod Prefetch
pub mod Pread
