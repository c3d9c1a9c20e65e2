-- ===== src/Http/Message.antt =====
-- web/HttpMessage.hpp: `HttpRequest`, `HttpResponse`, `statusText` and `jsonError`.
use Prim.Native.String.{String}
use camera_platform.Prelude.{ℕ, Bytes, codes, Option, none, some, [], ◌++◌, ◌==◌, if◌then◌else◌}
use camera_platform.Prelude.Map.{StringMap, lookup}
use camera_platform.Model.Json.{json_escape}
use camera_platform.Http.Text.{to_lower_helper}

pub record HttpRequest : Type 0 where
  pub method : Bytes
  pub path : Bytes
  pub body : Bytes
  pub query : StringMap Bytes
  pub headers : StringMap Bytes

abbrev pub empty_request : HttpRequest
empty_request = record { method = []; path = []; body = []; query = []; headers = [] }

abbrev or_empty : Option Bytes → Bytes
or_empty none = []
or_empty (some v) = v

-- `HttpRequest::header`
unfoldable pub header : HttpRequest → Bytes → Bytes
unfolding to_lower_helper
header r name = or_empty (lookup (to_lower_helper name) r.headers)

-- `status` is an `int`; every code in the program is positive.
pub record HttpResponse : Type 0 where
  pub status : ℕ
  pub content_type : Bytes
  pub body : Bytes

-- `HttpResponse::json` and `HttpResponse::text`
unfoldable pub json : Bytes → ℕ → HttpResponse
json payload code = record {
  status = code;
  content_type = codes "application/json";
  body = payload;
}

unfoldable pub text : Bytes → ℕ → HttpResponse
text payload code = record {
  status = code;
  content_type = codes "text/plain; charset=utf-8";
  body = payload;
}

abbrev pub reason : ℕ → String
reason status =
    if status == 200
    then "OK"
    else if status == 201
    then "Created"
    else if status == 204
    then "No Content"
    else if status == 400
    then "Bad Request"
    else if status == 404
    then "Not Found"
    else if status == 405
    then "Method Not Allowed"
    else if status == 500
    then "Internal Server Error"
    else if status == 501
    then "Not Implemented"
    else "Unknown"

unfoldable pub status_text : ℕ → Bytes
status_text status = codes (reason status)

unfoldable pub json_error : Bytes → Bytes
json_error message = codes "{\"error\":\"" ++ json_escape message ++ codes "\"}"
