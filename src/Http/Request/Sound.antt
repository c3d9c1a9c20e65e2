-- ===== src/Http/Request/Sound.antt =====
-- `parseRequest` on any text: it returns, and what it accepts is well formed.
use mathlib.Core.Option
use camera_platform.Prelude.{
  ◌||◌, ◌==◌, ℕ, suc, ◌+◌, Bool, true, false, not, Bytes, codes, length, is_empty, take, drop,
  Option, none, some, [], ◌∷◌, ◌≡◌, refl, inl, inr, ◌⊎◌, Option-cases, Bool-cases, All, Lacks,
  arith, if◌then◌else◌,
}
use camera_platform.Prelude.Map.{StringMap}
use camera_platform.Prelude.Search.{starts_with, find_byte, find, before, before-find_byte-Lacks}
use camera_platform.Http.Message.{HttpRequest, empty_request}
use camera_platform.Http.Query.Pairs.{parse_query_total}
use camera_platform.Http.Request.{
  crlf, crlfcrlf, next_pos, split_request_line, request_line, target_query, body_of, parse_rest,
  parse_parts, parse_request,
}
use camera_platform.Http.Request.Headers.{IsHeaderName, header_loop_total, next_pos-lt_suc}

target_query_total :
    (q : Option ℕ) (target : Bytes) → (r : StringMap Bytes) × (target_query q target ≡ some r)
unfolding target_query
target_query_total none target = ([], refl)
target_query_total (some n) target = parse_query_total target

-- What holds of an accepted request.
pub record IsAccepted (r : HttpRequest) : Type 0 where
  pub method_ne_nil : is_empty r.method ≡ false
  pub method_lacks_space : Lacks b' ' r.method
  pub path_slash : starts_with (codes "/") r.path ≡ true
  pub path_lacks_question : Lacks b'?' r.path
  pub headers_named : All IsHeaderName r.headers

-- An outcome of `parseRequest`: a refusal, or a request that is well formed.
abbrev pub Outcome : Bool × HttpRequest → Type 0
Outcome (false, r) = Unit
Outcome (true, r) = IsAccepted r

abbrev Returns : Option (Bool × HttpRequest) → Type 0
Returns p = (r : Bool × HttpRequest) × (p ≡ some r) × Outcome r

to_Outcome : (done : Bool) (r : HttpRequest) → IsAccepted r → Outcome (done, r)
to_Outcome true r h = h
to_Outcome false r h = tt

before_slash_suc :
    (c : ℕ) (o : Option ℕ) (s : Bytes)
    → c ≡ b'/'
    → starts_with (codes "/") (before (Option.map suc o) (c ∷ s)) ≡ true
before_slash_suc c none s h = ground arith
before_slash_suc c (some n) s h = ground arith

before_slash :
    (target : Bytes)
    → starts_with (codes "/") target ≡ true
    → starts_with (codes "/") (before (find_byte b'?' target) target) ≡ true
before_slash [] h = h
before_slash (c ∷ s) h =
    let slash : c ≡ b'/' = ground arith in
    let other : (c == b'?') ≡ false = ground arith in
    rw other (before_slash_suc c (find_byte b'?' s) s slash)

-- The request line has fewer than two spaces, or the method is what stands before the first.
split_cases :
    (line : Bytes)
    → (split_request_line line ≡ none)
      ⊎ ((m t v : Bytes) × (split_request_line line ≡ some (m, t, v)) × Lacks b' ' m)
unfolding split_request_line
split_cases line = elim (Option-cases (find_byte b' ' line)) [
  | inl e ↦ inl (rw e)
  | inr (n, e) ↦ elim (Option-cases (find_byte b' ' (drop (n + 1) line))) [
    | inl f ↦ inl (rw (e, f))
    | inr (k, f) ↦ inr (
      take n line,
      take k (drop (n + 1) line),
      drop (k + 1) (drop (n + 1) line),
      rw (e, f),
      rw e at (before-find_byte-Lacks b' ' line),
    )
  ]
]

parse_rest-Returns :
    (raw method target : Bytes)
    → is_empty method ≡ false
    → Lacks b' ' method
    → starts_with (codes "/") target ≡ true
    → Returns (parse_rest raw method target)
unfolding parse_rest
parse_rest-Returns raw method target hm hs ht =
    let (query, e) = target_query_total (find_byte b'?' target) target in
    let head = before (find crlfcrlf raw) raw in
    let ((done, headers), f, named) =
      header_loop_total (suc (length head)) (next_pos (find crlf head) head) []
        (next_pos-lt_suc head) tt in
    (
      (done, accepted done query headers),
      rw (e, f),
      to_Outcome done _ (record {
        method_ne_nil = hm;
        method_lacks_space = hs;
        path_slash = before_slash target ht;
        path_lacks_question = before-find_byte-Lacks b'?' target;
        headers_named = named;
      }),
    )
  where
    accepted : Bool → StringMap Bytes → StringMap Bytes → HttpRequest
    accepted done query headers = record {
      method = method;
      path = before (find_byte b'?' target) target;
      body = if done then body_of (find crlfcrlf raw) raw else [];
      query = query;
      headers = headers;
    }

parts-Returns : (raw m t v : Bytes) → Lacks b' ' m → Returns (parse_parts raw (some (m, t, v)))
unfolding parse_parts
parts-Returns raw m t v h =
    elim (Bool-cases (is_empty m || is_empty t || not (starts_with (codes "HTTP/1.") v))) [
      | inl e ↦ rw e ((false, record empty_request { method = m }), refl, tt)
      | inr e ↦ elim (Bool-cases (starts_with (codes "/") t)) [
        | inl f ↦ rw (e, f) (parse_rest-Returns raw m t (ground arith) h f)
        | inr f ↦ rw (e, f) ((false, record empty_request { method = m }), refl, tt)
      ]
    ]

parse_parts-Returns :
    (raw : Bytes) (line : Bytes) → Returns (parse_parts raw (split_request_line line))
unfolding parse_parts
parse_parts-Returns raw line = elim (split_cases line) [
  | inl e ↦ ((false, empty_request), rw e, tt)
  | inr (m, t, v, e, h) ↦ rw e (parts-Returns raw m t v h)
]

-- `parseRequest` returns on every text: neither of its loops runs out of fuel. What it accepts has a
-- method, with no space in it, a path that begins with `/` and has no `?`, and headers under non-empty
-- names in lower case, as `HttpRequest::header` looks them up.
pub parse_request_sound :
    (raw : Bytes) → (r : Bool × HttpRequest) × (parse_request raw ≡ some r) × Outcome r
unfolding parse_request
parse_request_sound raw = parse_parts-Returns raw (request_line (before (find crlfcrlf raw) raw))
