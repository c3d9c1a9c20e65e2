-- ===== src/Server.antt =====
-- server/: one branch, the host of all branches, the RTSP transport and the application.
pub mod Bin
pub mod Host
pub mod Rtsp
pub mod Application
mod Cloud
mod Tests
