-- ===== src/Tests.antt =====
-- The theorems at concrete inputs.
mod Data
mod StoreRuns
mod Calls
mod Cycles
mod Guards
mod Startup
mod Service
mod Workers
