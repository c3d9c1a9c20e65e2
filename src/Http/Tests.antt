-- ===== src/Http/Tests.antt =====
-- The parser, the decoder and the serializer of web/HttpMessage.hpp at concrete texts.
use camera_platform.Http.Query.Split.{split, store_all, query_text, parse_query-split}
use camera_platform.Prelude.{
  Bool, true, Bytes, codes, length, some, [], ◌∷◌, ◌++◌, inl, ◌≡◌, refl, arith,
}
use camera_platform.Prelude.Map.{StringMap, lookup, insert}
use camera_platform.Prelude.Decimal.{to_string, value}
use camera_platform.Http.Text.{
  trim_helper, is_space, to_lower, to_lower_helper, IsTrim, trim_helper-IsTrim,
}
use camera_platform.Http.Message.{HttpRequest, HttpResponse, json, status_text}
use camera_platform.Http.Query.{decode, parse_query}
use camera_platform.Http.Query.Decode.{Encodes, nil, plain, space, percent, decode-Encodes}
use camera_platform.Http.Query.Pairs.{Param, IsParam, render, stored, parse_query-render}
use camera_platform.Http.Request.{parse_request}
use camera_platform.Http.Request.Lines.{Field}
use camera_platform.Http.Request.RoundTrip.{
  Sent, IsSent, request_text, received, parse_request-request_text,
}
use camera_platform.Http.Request.Sound.{Outcome, parse_request_sound}
use camera_platform.Http.Response.{serialize_response}
use camera_platform.Http.Response.Framing.{read_response, read_response-serialize_response}

-- `%41+b` is sent for `A b`.
abbrev escaped_text : Encodes (codes "%41+b") (codes "A b")
escaped_text =
    percent 4 1 refl (inl (omega arith, refl)) (inl (omega arith, refl)) refl
      (space refl refl (plain (omega arith) (omega arith) nil))

decode-Encodes_example : decode (codes "%41+b") ≡ codes "A b"
decode-Encodes_example = decode-Encodes escaped_text

abbrev param : Param
param = record {
  raw_key = codes "n";
  key = codes "n";
  raw_value = codes "%41+b";
  value = codes "A b";
}

abbrev param-IsParam : IsParam param
param-IsParam = record {
  key_encoded = plain (omega arith) (omega arith) nil;
  value_encoded = escaped_text;
  key_lacks_amp = omega arith;
  key_lacks_equals = omega arith;
  value_lacks_amp = omega arith;
}

parse_query-render_example :
    parse_query (codes "/p" ++ b'?' ∷ render (param ∷ [])) ≡ some (stored (param ∷ []) [])
parse_query-render_example =
    parse_query-render (codes "/p") (param ∷ []) (omega arith) (param-IsParam, tt)

trim_helper-IsTrim_example : IsTrim (codes " \t a b\r") (trim_helper (codes " \t a b\r"))
trim_helper-IsTrim_example = trim_helper-IsTrim (codes " \t a b\r")

abbrev host_field : Field
host_field = record { raw_name = codes "Host"; raw_value = codes " localhost " }

abbrev post : Sent
post = record {
  method = codes "POST";
  path = codes "/api/x";
  params = some (param ∷ []);
  version = codes "HTTP/1.1";
  fields = host_field ∷ [];
  body = codes "\r\n\r\n";
}

abbrev post-IsSent : IsSent post
unfolding trim_helper to_lower_helper is_space
post-IsSent = record {
  method_ne_nil = refl;
  method_lacks_space = omega arith;
  method_lacks_cr = omega arith;
  path_slash = refl;
  path_lacks_question = omega arith;
  params_encoded = (param-IsParam, tt);
  target_lacks_space = omega arith;
  target_lacks_cr = omega arith;
  version_known = refl;
  version_lacks_cr = omega arith;
  fields_formed = (
    record {
      name_lacks_colon = omega arith;
      name_lacks_cr = omega arith;
      name_trim_ne_nil = refl;
      value_lacks_cr = omega arith;
    },
    tt,
  );
}

parse_request-request_text_example : parse_request (request_text post) ≡ some (true, received post)
parse_request-request_text_example = parse_request-request_text post post-IsSent

-- What the request is, written out.
post-received : received post ≡ record {
  method = codes "POST";
  path = codes "/api/x";
  body = codes "\r\n\r\n";
  query = (codes "n", codes "A b") ∷ [];
  headers = (codes "host", codes "localhost") ∷ [];
}
unfolding to_lower_helper to_lower trim_helper is_space insert
post-received = refl

parse_request_sound_example :
    (r : Bool × HttpRequest) × (parse_request (codes "GET /a HTTP/1.0\r\nx") ≡ some r) × Outcome r
parse_request_sound_example = parse_request_sound (codes "GET /a HTTP/1.0\r\nx")

abbrev reply : HttpResponse
reply = json (codes "{}\r\n\r\n") 404

read_response-serialize_response_example :
    (headers : StringMap Bytes) × (read_response (serialize_response reply)
      ≡ some (
        true,
        record {
          status_line =
              codes "HTTP/1.1 " ++ to_string reply.status ++ b' ' ∷ status_text reply.status;
          headers = headers;
          body = reply.body;
        },
      ))
    × (lookup (codes "content-length") headers ≡ some (to_string (length reply.body)))
    × (value 0 (to_string (length reply.body)) ≡ length reply.body)
    × (lookup (codes "connection") headers ≡ some (codes "close"))
unfolding json
read_response-serialize_response_example = read_response-serialize_response reply (omega arith)

parse_query-split_example :
    parse_query (codes "/search?a=1&b=two+words&a=3")
    ≡ some (store_all (split b'&' (query_text (codes "/search?a=1&b=two+words&a=3"))) [])
parse_query-split_example = parse_query-split (codes "/search?a=1&b=two+words&a=3")
