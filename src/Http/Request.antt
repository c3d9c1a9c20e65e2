-- ===== src/Http/Request.antt =====
-- web/HttpMessage.hpp: `parseRequest`. A position in the head is held as the text from there on,
-- and `npos` as `none`.
pub mod Headers
pub mod Lines
pub mod RoundTrip
pub mod Sound
use camera_platform.Prelude.{
  ℕ, zero, suc, ◌+◌, Bool, true, false, not, ◌||◌, Bytes, codes, length, is_empty, take, drop,
  Option, none, some, [], ◌∷◌, if◌then◌else◌, ◌>>=◌,
}
use camera_platform.Prelude.Map.{StringMap, insert}
use camera_platform.Prelude.Search.{starts_with, find_byte, find, before}
use camera_platform.Http.Text.{to_lower_helper, trim_helper}
use camera_platform.Http.Message.{HttpRequest, empty_request}
use camera_platform.Http.Query.{parse_query}

abbrev pub crlf : Bytes
crlf = b'\r' ∷ b'\n' ∷ []

abbrev pub crlfcrlf : Bytes
crlfcrlf = b'\r' ∷ b'\n' ∷ b'\r' ∷ b'\n' ∷ []

-- What one line of the head does: ends the loop, makes the request malformed, or sets a header.
pub data LineResult : Type 0 where
  blank malformed : LineResult
  field : StringMap Bytes → LineResult

-- The header line behind its test for a blank line; the first argument is `colon`.
add_header : Option ℕ → Bytes → StringMap Bytes → LineResult
add_header none line headers = malformed
add_header (some colon) line headers =
    let name = to_lower_helper (trim_helper (take colon line)) in
    if is_empty name
    then malformed
    else field (insert name (trim_helper (drop (colon + 1) line)) headers)

read_line : Bytes → StringMap Bytes → LineResult
read_line line headers =
    if is_empty line then blank else add_header (find_byte b':' line) line headers

-- `(lineEnd == npos) ? npos : lineEnd + 2`
abbrev pub next_pos : Option ℕ → Bytes → Option Bytes
next_pos none s = none
next_pos (some line_end) s = some (drop (line_end + 2) s)

-- How the loop goes on behind a line; the last argument is the next round.
after_line :
    LineResult
    → StringMap Bytes
    → (StringMap Bytes → Option (Bool × StringMap Bytes))
    → Option (Bool × StringMap Bytes)
after_line blank headers next = some (true, headers)
after_line malformed headers next = some (false, headers)
after_line (field headers') headers next = next headers'

-- The loop over the header lines, on fuel (`none` means that it ran out): whether the head is well
-- formed, and the headers so far.
pub header_loop : ℕ → Option Bytes → StringMap Bytes → Option (Bool × StringMap Bytes)
header_loop zero pos headers = none
header_loop (suc fuel) none headers = some (true, headers)
header_loop (suc fuel) (some []) headers = some (true, headers)
header_loop (suc fuel) (some (c ∷ s)) headers =
    after_line (read_line (before (find crlf (c ∷ s)) (c ∷ s)) headers) headers
      (header_loop fuel (next_pos (find crlf (c ∷ s)) (c ∷ s)))

-- Method, target and version; the arguments are `firstSpace`, then `secondSpace` counted from
-- behind the first.
split_at : Option ℕ → Bytes → Option (Bytes × Bytes)
split_at none s = none
split_at (some n) s = some (take n s, drop (n + 1) s)

split_request_line : Bytes → Option (Bytes × Bytes × Bytes)
unfolding split_at
split_request_line line = do
  (method, rest) ← split_at (find_byte b' ' line) line
  (target, version) ← split_at (find_byte b' ' rest) rest
  some (method, target, version)

-- `if (question != npos) out.query = parseQuery(target);`
target_query : Option ℕ → Bytes → Option (StringMap Bytes)
target_query none target = some []
target_query (some _) target = parse_query target

-- `if (headerEnd != npos) out.body = raw.substr(headerEnd + 4);`
unfoldable pub body_of : Option ℕ → Bytes → Bytes
body_of none raw = []
body_of (some header_end) raw = drop (header_end + 4) raw

-- From the target on; the head is what stands before `headerEnd`.
parse_rest : Bytes → Bytes → Bytes → Option (Bool × HttpRequest)
parse_rest raw method target = do
  let head = before (find crlfcrlf raw) raw
  let path = before (find_byte b'?' target) target
  query ← target_query (find_byte b'?' target) target
  (done, headers) ← header_loop (suc (length head)) (next_pos (find crlf head) head) []
  some (
    done,
    record {
      method = method;
      path = path;
      body = if done then body_of (find crlfcrlf raw) raw else [];
      query = query;
      headers = headers;
    },
  )

-- With the parts of the request line, or `none` where it has fewer than two spaces.
parse_parts : Bytes → Option (Bytes × Bytes × Bytes) → Option (Bool × HttpRequest)
parse_parts raw none = some (false, empty_request)
parse_parts raw (some (method, target, version)) =
    if is_empty method || is_empty target || not (starts_with (codes "HTTP/1.") version)
    then some (false, record empty_request { method = method })
    else if not (starts_with (codes "/") target)
    then some (false, record empty_request { method = method })
    else parse_rest raw method target

pub request_line : Bytes → Bytes
request_line head = before (find crlf head) head

-- What `parseRequest` returns, and what it leaves in `out`.
pub parse_request : Bytes → Option (Bool × HttpRequest)
parse_request raw =
    parse_parts raw (split_request_line (request_line (before (find crlfcrlf raw) raw)))
