-- ===== src/Http/Query/Pairs.antt =====
-- `parseQuery` on whole query strings: it returns for every text, and reads back what a form sends.
use camera_platform.Prelude.{
  ℕ, zero, suc, ◌+◌, ◌<◌, Bytes, List, [], ◌∷◌, ◌++◌, none, some, length, length-append,
  length-drop, drop, Option-cases, inl, inr, ◌≡◌, ◌∙◌, All, All-append, Lacks, arith, is_empty,
  append-ne-nil, take, take-append, ap, Bool-cases, false,
}
use camera_platform.Prelude.Map.{StringMap, insert}
use camera_platform.Prelude.Search.{
  find_byte, find_byte-append, find_byte-eq-none, find_byte-lt, drop_behind,
}
use camera_platform.Http.Query.{add_pair, query_loop, query_of, parse_query}
use camera_platform.Http.Query.Decode.{Encodes, decode-Encodes}

pub query_loop_last :
    (f : ℕ) (q : Bytes) (m : StringMap Bytes)
    → find_byte b'&' q ≡ none
    → query_loop (suc f) q m ≡ some (add_pair q m)
unfolding query_loop
query_loop_last f q m e = rw (e, query_loop)

pub query_loop_next :
    (f : ℕ) (q : Bytes) (m : StringMap Bytes) (a : ℕ)
    → find_byte b'&' q ≡ some a
    → query_loop (suc f) q m ≡ query_loop f (drop (a + 1) q) (add_pair (take a q) m)
unfolding query_loop
query_loop_next f q m a e = rw (e, query_loop)

query_loop_total :
    (fuel : ℕ) (q : Bytes) (m : StringMap Bytes)
    → length q < fuel
    → (r : StringMap Bytes) × (query_loop fuel q m ≡ some r)
query_loop_total zero q m h = elim h [ ]
query_loop_total (suc fuel) q m h = elim (Option-cases (find_byte b'&' q)) [
  | inl e ↦ (add_pair q m, query_loop_last fuel q m e)
  | inr (a, e) ↦
      let (r, ih) =
        query_loop_total fuel (drop (a + 1) q) (add_pair (take a q) m)
          (omega (arith, length-drop (a + 1) q, find_byte-lt b'&' q e)) in
      (r, query_loop_next fuel q m a e ∙ ih)
]

-- `parseQuery` returns for every target: its loop makes at most one round more than the text has
-- bytes.
pub parse_query_total : (target : Bytes) → (r : StringMap Bytes) × (parse_query target ≡ some r)
unfolding parse_query
parse_query_total target = elim (Bool-cases (is_empty (query_of target))) [
  | inl e ↦ ([], rw e)
  | inr e ↦ rw e (query_loop_total _ (query_of target) [] (omega arith))
]

-- One parameter of a form, as it is sent and as it is meant.
pub record Param : Type 0 where
  pub raw_key : Bytes
  pub key : Bytes
  pub raw_value : Bytes
  pub value : Bytes

pub record IsParam (p : Param) : Type 0 where
  pub key_encoded : Encodes p.raw_key p.key
  pub value_encoded : Encodes p.raw_value p.value
  pub key_lacks_amp : Lacks b'&' p.raw_key
  pub key_lacks_equals : Lacks b'=' p.raw_key
  pub value_lacks_amp : Lacks b'&' p.raw_value

abbrev pub render_pair : Param → Bytes
render_pair p = p.raw_key ++ b'=' ∷ p.raw_value

abbrev pub render : List Param → Bytes
render [] = []
render (p ∷ []) = render_pair p
render (p ∷ q ∷ ps) = render_pair p ++ b'&' ∷ render (q ∷ ps)

-- The parameters written into the map in order: the last one with a key counts.
abbrev pub stored : List Param → StringMap Bytes → StringMap Bytes
stored [] m = m
stored (p ∷ ps) m = stored ps (insert p.key p.value m)

add_pair-render_pair :
    (p : Param) (m : StringMap Bytes)
    → IsParam p
    → add_pair (render_pair p) m ≡ insert p.key p.value m
unfolding add_pair
add_pair-render_pair p m h = rw (
  append-ne-nil p.raw_key b'=' p.raw_value,
  find_byte-append b'=' p.raw_key p.raw_value h.key_lacks_equals,
  take-append,
  drop_behind p.raw_key b'=' p.raw_value,
  decode-Encodes h.key_encoded,
  decode-Encodes h.value_encoded,
)

render_pair-Lacks : (p : Param) → IsParam p → Lacks b'&' (render_pair p)
render_pair-Lacks p h =
    All-append _ p.raw_key _ h.key_lacks_amp ((λ e. absurd (omega arith)), h.value_lacks_amp)

query_loop-render :
    (fuel : ℕ) (p : Param) (ps : List Param) (m : StringMap Bytes)
    → length (render (p ∷ ps)) < fuel
    → All IsParam (p ∷ ps)
    → query_loop fuel (render (p ∷ ps)) m ≡ some (stored (p ∷ ps) m)
query_loop-render zero p ps m h a = elim h [ ]
query_loop-render (suc fuel) p [] m h (hp, _) =
    query_loop_last fuel (render_pair p) m
      (find_byte-eq-none b'&' (render_pair p) (render_pair-Lacks p hp))
    ∙ ap some (add_pair-render_pair p m hp)
query_loop-render (suc fuel) p (q ∷ ps) m h (hp, a) =
    query_loop_next fuel (render (p ∷ q ∷ ps)) m (length (render_pair p))
      (find_byte-append b'&' (render_pair p) (render (q ∷ ps)) (render_pair-Lacks p hp))
    ∙ rw
        (
          drop_behind (render_pair p) b'&' (render (q ∷ ps)),
          take-append,
          add_pair-render_pair p m hp,
        )
        (query_loop-render fuel q ps (insert p.key p.value m)
          (omega (arith, length-append (render_pair p) (b'&' ∷ render (q ∷ ps)))) a)

render-ne-nil : (p : Param) (ps : List Param) → is_empty (render (p ∷ ps)) ≡ false
render-ne-nil p [] = append-ne-nil p.raw_key _ _
render-ne-nil p (q ∷ ps) = append-ne-nil (render_pair p) _ _

-- The query of a target holds the parameters that a form puts behind its path: each key is mapped to
-- the last value sent for it, with the percent-encoding undone, if the path has no `?`, no sent key
-- has `&` or `=` in it, and no sent value `&`.
pub parse_query-render :
    (path : Bytes) (ps : List Param)
    → Lacks b'?' path
    → All IsParam ps
    → parse_query (path ++ b'?' ∷ render ps) ≡ some (stored ps [])
unfolding parse_query query_of
parse_query-render path [] h a = rw (find_byte-append b'?' path [] h, drop_behind path b'?' [])
parse_query-render path (p ∷ ps) h a =
    rw
      (
        find_byte-append b'?' path (render (p ∷ ps)) h,
        drop_behind path b'?' (render (p ∷ ps)),
        render-ne-nil p ps,
      )
      (query_loop-render _ p ps [] (omega arith) a)
