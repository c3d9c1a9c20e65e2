-- ===== src/Http.antt =====
-- web/HttpMessage.hpp: requests, responses, and their text on the socket.
pub mod Text
pub mod Message
pub mod Query
pub mod Request
pub mod Response
mod Tests
