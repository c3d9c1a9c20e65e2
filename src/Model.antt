-- ===== src/Model.antt =====
-- model/: the value types and their JSON.
pub mod Json
pub mod Profile
pub mod Status
pub mod Camera
mod Tests
