-- ===== src/Http/Response/Framing.antt =====
-- `serializeResponse` as a client reads it.
use Prim.Native.String.{String}
use camera_platform.Prelude.{
  ℕ, suc, ◌+◌, Bool, true, false, Bytes, codes, List, length, take-append, drop_past, Option, some,
  [], ◌∷◌, ◌++◌, append_assoc, ◌≡◌, refl, ap, All, All-append, Lacks, arith, ◌>>=◌, ◌==◌,
  if◌then◌else◌,
}
use camera_platform.Prelude.Decimal.{
  to_string, to_string-Lacks, to_string-IsDigit, IsDigit, value, value-to_string,
}
use camera_platform.Prelude.Map.{StringMap, lookup, insert}
use camera_platform.Prelude.Search.{find, before}
use camera_platform.Http.Text.{to_lower, to_lower_helper, trim_helper, is_space, trim_helper_blank}
use camera_platform.Http.Message.{HttpResponse, reason, status_text}
use camera_platform.Http.Request.{crlf, crlfcrlf, next_pos, request_line, body_of, header_loop}
use camera_platform.Http.Request.Lines.{Field, IsField, head_of, with_headers, find-head_of}
use camera_platform.Http.Request.RoundTrip.{headers-head_of, request_line-head_of}
use camera_platform.Http.Response.{serialize_response}

-- What a client makes of the text: the status line, the headers, and what follows the blank line.
pub record Reply : Type 0 where
  pub status_line : Bytes
  pub headers : StringMap Bytes
  pub body : Bytes

status_line : HttpResponse → Bytes
status_line r = codes "HTTP/1.1 " ++ to_string r.status ++ b' ' ∷ status_text r.status

fields : HttpResponse → List Field
fields r =
    record { raw_name = codes "Content-Type"; raw_value = b' ' ∷ r.content_type }
    ∷ record { raw_name = codes "Content-Length"; raw_value = b' ' ∷ to_string (length r.body) }
    ∷ record { raw_name = codes "Connection"; raw_value = codes " close" }
    ∷ []

serialize_response-head_of :
    (r : HttpResponse)
    → serialize_response r
      ≡ head_of (status_line r) (fields r) ++ b'\r' ∷ b'\n' ∷ b'\r' ∷ b'\n' ∷ r.body
unfolding serialize_response status_line fields
serialize_response-head_of r = simp append_assoc

OneLine : String → Type 0
OneLine s = Lacks b'\r' (codes s)

choose-OneLine : (b : Bool) (s u : String) → OneLine s → OneLine u → OneLine (if b then s else u)
choose-OneLine true s u hs hu = hs
choose-OneLine false s u hs hu = hu

reason-OneLine : (status : ℕ) → OneLine (reason status)
unfolding OneLine
reason-OneLine status = choose-OneLine (status == 200) "OK" _ (omega arith) (
    choose-OneLine (status == 201) "Created" _ (omega arith) (
      choose-OneLine (status == 204) "No Content" _ (omega arith) (
        choose-OneLine (status == 400) "Bad Request" _ (omega arith) (
          choose-OneLine (status == 404) "Not Found" _ (omega arith) (
            choose-OneLine (status == 405) "Method Not Allowed" _ (omega arith) (
              choose-OneLine (status == 500) "Internal Server Error" _ (omega arith) (
                choose-OneLine (status == 501) "Not Implemented" _ (omega arith)
                  (omega arith))))))))

status_text-Lacks : (status : ℕ) → Lacks b'\r' (status_text status)
unfolding status_text OneLine
status_text-Lacks status = reason-OneLine status

status_line-Lacks : (r : HttpResponse) → Lacks b'\r' (status_line r)
unfolding status_line
status_line-Lacks r =
    All-append _ (codes "HTTP/1.1 " ++ to_string r.status) _
      (All-append _ (codes "HTTP/1.1 ") _ (omega arith)
        (to_string-Lacks b'\r' r.status (omega arith)))
      ((λ e. absurd (omega arith)), status_text-Lacks r.status)

fields-IsField : (r : HttpResponse) → Lacks b'\r' r.content_type → All IsField (fields r)
unfolding fields to_lower_helper trim_helper is_space
fields-IsField r h = (
  record {
    name_lacks_colon = omega arith;
    name_lacks_cr = omega arith;
    name_trim_ne_nil = refl;
    value_lacks_cr = ((λ e. absurd (omega arith)), h);
  },
  (
    record {
      name_lacks_colon = omega arith;
      name_lacks_cr = omega arith;
      name_trim_ne_nil = refl;
      value_lacks_cr =
          ((λ e. absurd (omega arith)), to_string-Lacks b'\r' (length r.body) (omega arith));
    },
    (
      record {
        name_lacks_colon = omega arith;
        name_lacks_cr = omega arith;
        name_trim_ne_nil = refl;
        value_lacks_cr = omega arith;
      },
      tt,
    ),
  ),
)

-- A client: the head is what stands before the first blank line, its first line is the status line,
-- and the others are read as the headers of a request are.
pub read_response : Bytes → Option (Bool × Reply)
read_response text = do
  let head = before (find crlfcrlf text) text
  (done, headers) ← header_loop (suc (length head)) (next_pos (find crlf head) head) []
  some (
    done,
    record {
      status_line = request_line head;
      headers = headers;
      body = body_of (find crlfcrlf text) text;
    },
  )

read_response-head_of :
    (l : Bytes) (fs : List Field) (body : Bytes)
    → Lacks b'\r' l
    → All IsField fs
    → read_response (head_of l fs ++ b'\r' ∷ b'\n' ∷ b'\r' ∷ b'\n' ∷ body)
      ≡ some (true, record { status_line = l; headers = with_headers fs []; body = body })
unfolding read_response body_of
read_response-head_of l fs body h a =
    rw
      (
        find-head_of l fs body h a,
        take-append,
        request_line-head_of l fs h,
        headers-head_of l fs h a,
      )
      (ap (λ b. some (true, record { status_line = l; headers = with_headers fs []; body = b }))
        (drop_past (length (head_of l fs) + 4) (head_of l fs) crlfcrlf body (omega arith)))

digits-is_space : (s : Bytes) → All IsDigit s → All (λ c. is_space c ≡ false) s
digits-is_space [] a = tt
digits-is_space (c ∷ s) (h, a) = (digit c h, digits-is_space s a)
  where
    digit : (c : ℕ) → IsDigit c → is_space c ≡ false
    digit c h = unfold is_space in ground arith

-- A client reads back the status line and exactly the body, whatever the bytes of the body are, with
-- its length in decimal in the `Content-Length` header and `close` in `Connection`, if the content type has no
-- carriage return in it.
pub read_response-serialize_response :
    (r : HttpResponse)
    → Lacks b'\r' r.content_type
    → (headers : StringMap Bytes) × (read_response (serialize_response r)
        ≡ some (
          true,
          record {
            status_line = codes "HTTP/1.1 " ++ to_string r.status ++ b' ' ∷ status_text r.status;
            headers = headers;
            body = r.body;
          },
        ))
      × (lookup (codes "content-length") headers ≡ some (to_string (length r.body)))
      × (value 0 (to_string (length r.body)) ≡ length r.body)
      × (lookup (codes "connection") headers ≡ some (codes "close"))
unfolding fields status_line
read_response-serialize_response r h = (
  with_headers (fields r) [],
  rw serialize_response-head_of (
      read_response-head_of (status_line r) (fields r) r.body (status_line-Lacks r)
        (fields-IsField r h)),
  rw (trim_helper_blank _ (digits-is_space _ (to_string-IsDigit (length r.body))))
      (unfold lookup insert to_lower_helper to_lower trim_helper is_space in refl),
  value-to_string (length r.body),
  unfold lookup insert to_lower_helper to_lower trim_helper is_space in refl,
)
