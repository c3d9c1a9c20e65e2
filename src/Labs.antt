-- ===== src/Labs.antt =====
-- labs/: stand-alone programs that try one part of the server each.
pub mod Bridge
pub mod Branches
pub mod OneBranch
pub mod Record
pub mod Snapshot
pub mod References
pub mod Counted
pub mod Stall
pub mod PrerollStates
pub mod AsyncAppsink
pub mod LoopClient
pub mod SleepClient
pub mod LoopRefs
pub mod RtspServer
pub mod RtspRecover
pub mod RtspBridge
mod Tests
