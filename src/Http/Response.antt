-- ===== src/Http/Response.antt =====
-- web/HttpMessage.hpp: `serializeResponse`.
pub mod Framing
use camera_platform.Prelude.{ℕ, Bytes, codes, length, [], ◌∷◌, ◌++◌}
use camera_platform.Prelude.Decimal.{to_string}
use camera_platform.Http.Message.{HttpResponse, status_text}
use camera_platform.Http.Request.{crlf}

pub serialize_response : HttpResponse → Bytes
serialize_response response =
    codes "HTTP/1.1 "
    ++ to_string response.status
    ++ b' ' ∷ status_text response.status
    ++ crlf
    ++ codes "Content-Type: "
    ++ response.content_type
    ++ crlf
    ++ codes "Content-Length: "
    ++ to_string (length response.body)
    ++ crlf
    ++ codes "Connection: close"
    ++ crlf
    ++ crlf
    ++ response.body
