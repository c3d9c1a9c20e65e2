-- ===== src/Http/Request/RoundTrip.antt =====
-- `parseRequest` on the text that a client sends, and on any text.
use camera_platform.Prelude.{
  suc, ◌+◌, true, false, Bytes, codes, List, length, length-append, is_empty, take-append,
  drop_past, Option, none, some, [], ◌∷◌, ◌++◌, ◌≡◌, refl, ap, All, All-append, Lacks, arith,
}
use camera_platform.Prelude.Map.{StringMap}
use camera_platform.Prelude.Search.{
  starts_with, find_byte, find_byte-append, find_byte-eq-none, find, before, drop_behind,
  drop_behind_two,
}
use camera_platform.Http.Message.{HttpRequest}
use camera_platform.Http.Query.Pairs.{Param, IsParam, render, stored, parse_query-render}
use camera_platform.Http.Request.{
  crlf, crlfcrlf, header_loop, next_pos, split_request_line, request_line, target_query, body_of,
  parse_rest, parse_parts, parse_request,
}
use camera_platform.Http.Request.Lines.{
  Field, IsField, header_line, head_of, with_headers, find-head_of, find_line_last, find_line_next,
  header_loop-head_of,
}

-- A request as a client means it. `params` is `none` where the target has no `?`.
pub record Sent : Type 0 where
  pub method : Bytes
  pub path : Bytes
  pub params : Option (List Param)
  pub version : Bytes
  pub fields : List Field
  pub body : Bytes

abbrev pub target_of : Bytes → Option (List Param) → Bytes
target_of path none = path
target_of path (some ps) = path ++ b'?' ∷ render ps

abbrev pub query_map : Option (List Param) → StringMap Bytes
query_map none = []
query_map (some ps) = stored ps []

abbrev AllParams : Option (List Param) → Type 0
AllParams none = Unit
AllParams (some ps) = All IsParam ps

-- The conditions under which the text is one request: no separator stands inside a part.
pub record IsSent (r : Sent) : Type 0 where
  pub method_ne_nil : is_empty r.method ≡ false
  pub method_lacks_space : Lacks b' ' r.method
  pub method_lacks_cr : Lacks b'\r' r.method
  pub path_slash : starts_with (codes "/") r.path ≡ true
  pub path_lacks_question : Lacks b'?' r.path
  pub params_encoded : AllParams r.params
  pub target_lacks_space : Lacks b' ' (target_of r.path r.params)
  pub target_lacks_cr : Lacks b'\r' (target_of r.path r.params)
  pub version_known : starts_with (codes "HTTP/1.") r.version ≡ true
  pub version_lacks_cr : Lacks b'\r' r.version
  pub fields_formed : All IsField r.fields

abbrev pub first_line : Sent → Bytes
first_line r = r.method ++ b' ' ∷ (target_of r.path r.params ++ b' ' ∷ r.version)

-- The text on the socket.
abbrev pub request_text : Sent → Bytes
request_text r = head_of (first_line r) r.fields ++ b'\r' ∷ b'\n' ∷ b'\r' ∷ b'\n' ∷ r.body

abbrev pub received : Sent → HttpRequest
received r = record {
  method = r.method;
  path = r.path;
  body = r.body;
  query = query_map r.params;
  headers = with_headers r.fields [];
}

module _ (r : Sent) (h : IsSent r) where
  target : Bytes
  target = target_of r.path r.params

  first_line-Lacks : Lacks b'\r' (first_line r)
  first_line-Lacks = All-append _ r.method _ h.method_lacks_cr (
    (λ e. absurd (omega arith)),
    All-append _ (target_of r.path r.params) _ h.target_lacks_cr
        ((λ e. absurd (omega arith)), h.version_lacks_cr),
  )

  find-request_text :
      find crlfcrlf (request_text r) ≡ some (length (head_of (first_line r) r.fields))
  find-request_text = find-head_of (first_line r) r.fields r.body first_line-Lacks h.fields_formed

  split-first_line :
      split_request_line (first_line r) ≡ some (r.method, target_of r.path r.params, r.version)
  unfolding split_request_line
  split-first_line =
      rw
        (
          find_byte-append b' ' r.method (target_of r.path r.params ++ b' ' ∷ r.version)
              h.method_lacks_space,
          take-append,
          drop_behind r.method b' ' (target_of r.path r.params ++ b' ' ∷ r.version),
          find_byte-append b' ' (target_of r.path r.params) r.version h.target_lacks_space,
          drop_behind (target_of r.path r.params) b' ' r.version,
        )
        (ap (λ t. some (r.method, t, r.version)) (take-append (target_of r.path r.params) _))

pub request_line-head_of :
    (l : Bytes) (fs : List Field) → Lacks b'\r' l → request_line (head_of l fs) ≡ l
unfolding request_line
request_line-head_of l [] h = rw (find_line_last l h)
request_line-head_of l (f ∷ fs) h =
    rw (find_line_next l (head_of (header_line f) fs) h) (take-append l _)

path_and_query :
    (path : Bytes) (params : Option (List Param))
    → Lacks b'?' path
    → AllParams params
    → (before (find_byte b'?' (target_of path params)) (target_of path params) ≡ path)
      × (target_query (find_byte b'?' (target_of path params)) (target_of path params)
          ≡ some (query_map params))
unfolding target_query
path_and_query path none h a =
    (rw (find_byte-eq-none b'?' path h), rw (find_byte-eq-none b'?' path h))
path_and_query path (some ps) h a = (
  rw (find_byte-append b'?' path (render ps) h) (take-append path _),
  rw (find_byte-append b'?' path (render ps) h) (parse_query-render path ps h a),
)

pub headers-head_of :
    (l : Bytes) (fs : List Field)
    → Lacks b'\r' l
    → All IsField fs
    → header_loop
        (suc (length (head_of l fs)))
        (next_pos (find crlf (head_of l fs)) (head_of l fs))
        []
      ≡ some (true, with_headers fs [])
headers-head_of l [] h a = rw (find_line_last l h) (unfold header_loop in refl)
headers-head_of l (f ∷ fs) h a =
    rw (find_line_next l (head_of (header_line f) fs) h, drop_behind_two l)
      (header_loop-head_of _ f fs []
        (omega (arith, length-append l (b'\r' ∷ b'\n' ∷ head_of (header_line f) fs))) a)

module _ (r : Sent) (h : IsSent r) where
  parse_rest-request_text :
      parse_rest (request_text r) r.method (target_of r.path r.params) ≡ some (true, received r)
  unfolding parse_rest body_of
  parse_rest-request_text =
      rw
        (
          find-request_text r h,
          (path_and_query r.path r.params h.path_lacks_question h.params_encoded).0,
          (path_and_query r.path r.params h.path_lacks_question h.params_encoded).1,
          take-append,
          headers-head_of (first_line r) r.fields (first_line-Lacks r h) h.fields_formed,
        )
        (ap (λ b. some (true, record (received r) { body = b }))
          (drop_past (length (head_of (first_line r) r.fields) + 4)
            (head_of (first_line r) r.fields) crlfcrlf r.body (omega arith)))

starts_with_slash :
    (path : Bytes) (params : Option (List Param))
    → starts_with (codes "/") path ≡ true
    → (starts_with (codes "/") (target_of path params) ≡ true)
      × (is_empty (target_of path params) ≡ false)
starts_with_slash [] params h = cc
starts_with_slash (c ∷ s) none h = (h, refl)
starts_with_slash (c ∷ s) (some ps) h = (h, refl)

-- What a client sends is what the server reads: for a request whose parts hold none of the
-- separators, `parseRequest` succeeds and gives back the method, the path, the parameters with the
-- percent-encoding undone, every header under its name in lower case and with its value trimmed, and
-- the body whatever its bytes are.
pub parse_request-request_text :
    (r : Sent) → IsSent r → parse_request (request_text r) ≡ some (true, received r)
unfolding parse_request parse_parts
parse_request-request_text r h =
    rw
      (
        find-request_text r h,
        take-append,
        request_line-head_of (first_line r) r.fields (first_line-Lacks r h),
        split-first_line r h,
        h.method_ne_nil,
        (starts_with_slash r.path r.params h.path_slash).1,
        h.version_known,
        (starts_with_slash r.path r.params h.path_slash).0,
      )
      (parse_rest-request_text r h)
