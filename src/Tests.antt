-- ===== src/Tests.antt =====
-- The theorems at concrete inputs.
mod Fixtures
mod Database
mod Combining
mod Recorder
mod Matcher
mod Channels
mod Access
mod Messages
