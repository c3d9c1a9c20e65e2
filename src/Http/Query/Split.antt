-- ===== src/Http/Query/Split.antt =====
-- `parseQuery` against a reader that cuts the query at each & and stores the pieces in turn.
use native.Mathlib.Numerals.{add-one}
use mathlib.Core.Option
use camera_platform.Prelude.{
  ℕ, zero, suc, ◌+◌, ◌<◌, Bytes, List, [], ◌∷◌, Option, none, some, length, length-drop, drop, take,
  ◌==◌, if◌then◌else◌, Option-cases, Bool-cases, inl, inr, ◌≡◌, ◌∙◌, refl, sym, ap, arith, is_empty,
  true,
}
use camera_platform.Prelude.Map.{StringMap, insert}
use camera_platform.Prelude.Search.{find_byte, find_byte-lt, before}
use camera_platform.Http.Query.{decode, behind, add_pair, query_loop, query_of, parse_query}
use camera_platform.Http.Query.Pairs.{query_loop_last, query_loop_next}

onto_first : ℕ → List Bytes → List Bytes
onto_first x [] = (x ∷ []) ∷ []
onto_first x (p ∷ ps) = (x ∷ p) ∷ ps

-- The pieces of a text between the bytes `c`
pub split : ℕ → Bytes → List Bytes
unfolding onto_first
split c [] = [] ∷ []
split c (x ∷ s) = if x == c then [] ∷ split c s else onto_first x (split c s)

-- The text behind the first byte `c`, if there is one
pub text_behind : ℕ → Bytes → Option Bytes
text_behind c [] = none
text_behind c (x ∷ s) = if x == c then some s else text_behind c s

-- The text up to the first byte `c`, or all of it
pub text_before : ℕ → Bytes → Bytes
text_before c [] = []
text_before c (x ∷ s) = let rest = text_before c s in if x == c then [] else x ∷ rest

abbrev pub or_else : Bytes → Option Bytes → Bytes
or_else s none = s
or_else s (some r) = r

-- A piece that is not empty is a name and a value, with the first = between them; no = gives no value.
pub store : Bytes → StringMap Bytes → StringMap Bytes
unfolding text_before text_behind
store [] m = m
store (x ∷ p) m =
    insert (decode (text_before b'=' (x ∷ p))) (decode (or_else [] (text_behind b'=' (x ∷ p)))) m

-- The pieces, stored in turn
pub store_all : List Bytes → StringMap Bytes → StringMap Bytes
store_all [] m = m
store_all (p ∷ ps) m = store_all ps (store p m)

before-text_before : (c : ℕ) (s : Bytes) → before (find_byte c s) s ≡ text_before c s
unfolding text_before
before-text_before c [] = refl
before-text_before c (x ∷ s) = elim (Bool-cases (x == c)) [
  | inl e ↦ rw e refl
  | inr e ↦ rw e (shifted (find_byte c s) ∙ ap (λ r. x ∷ r) (before-text_before c s))
]
  where
    shifted : (o : Option ℕ) → before (Option.map suc o) (x ∷ s) ≡ x ∷ before o s
    shifted none = refl
    shifted (some n) = refl

behind-text_behind :
    (c : ℕ) (s otherwise : Bytes)
    → behind (find_byte c s) s otherwise ≡ or_else otherwise (text_behind c s)
unfolding text_behind
behind-text_behind c [] otherwise = refl
behind-text_behind c (x ∷ s) otherwise = elim (Bool-cases (x == c)) [
  | inl e ↦ rw e refl
  | inr e ↦ rw e (shifted (find_byte c s) ∙ behind-text_behind c s otherwise)
]
  where
    shifted : (o : Option ℕ) → behind (Option.map suc o) (x ∷ s) otherwise ≡ behind o s otherwise
    shifted none = refl
    shifted (some n) =
        ap (λ m. drop m (x ∷ s)) (add-one (suc n)) ∙ sym (ap (λ m. drop m s) (add-one n))

add_pair-store : (p : Bytes) (m : StringMap Bytes) → add_pair p m ≡ store p m
unfolding add_pair store
add_pair-store [] m = refl
add_pair-store (x ∷ p) m = rw (before-text_before b'=' (x ∷ p), behind-text_behind b'=' (x ∷ p) [])

-- The query of a target: the text behind the first ?, or all of it
abbrev pub query_text : Bytes → Bytes
query_text target = or_else target (text_behind b'?' target)

query_of-query_text : (target : Bytes) → query_of target ≡ query_text target
unfolding query_of
query_of-query_text target = behind-text_behind b'?' target target

cut : ℕ → Option ℕ → Bytes → List Bytes
cut c none s = s ∷ []
cut c (some a) s = take a s ∷ split c (drop (suc a) s)

onto_first-cut :
    (c x : ℕ) (o : Option ℕ) (s : Bytes)
    → onto_first x (cut c o s) ≡ cut c (Option.map suc o) (x ∷ s)
unfolding cut onto_first
onto_first-cut c x none s = refl
onto_first-cut c x (some a) s = refl

split-cut : (c : ℕ) (s : Bytes) → split c s ≡ cut c (find_byte c s) s
unfolding split cut
split-cut c [] = refl
split-cut c (x ∷ s) = elim (Bool-cases (x == c)) [
  | inl e ↦ rw e refl
  | inr e ↦ rw e (ap (onto_first x) (split-cut c s) ∙ onto_first-cut c x (find_byte c s) s)
]

query_loop-split :
    (fuel : ℕ) (q : Bytes) (m : StringMap Bytes)
    → length q < fuel
    → query_loop fuel q m ≡ some (store_all (split b'&' q) m)
unfolding store_all cut
query_loop-split zero q m h = elim h [ ]
query_loop-split (suc fuel) q m h = elim (Option-cases (find_byte b'&' q)) [
  | inl e ↦
      query_loop_last fuel q m e
      ∙ ap some (add_pair-store q m)
      ∙ sym (ap (λ ps. some (store_all ps m)) (pieces none e))
  | inr (a, e) ↦
      query_loop_next fuel q m a e
      ∙ ap (query_loop fuel (drop (a + 1) q)) (add_pair-store (take a q) m)
      ∙ query_loop-split fuel (drop (a + 1) q) (store (take a q) m)
          (omega (arith, length-drop (a + 1) q, find_byte-lt b'&' q e))
      ∙ ap (λ n. some (store_all (split b'&' (drop n q)) (store (take a q) m))) (add-one a)
      ∙ sym (ap (λ ps. some (store_all ps m)) (pieces (some a) e))
]
  where
    pieces : (o : Option ℕ) → find_byte b'&' q ≡ o → split b'&' q ≡ cut b'&' o q
    pieces o e = split-cut b'&' q ∙ ap (λ o. cut b'&' o q) e

loop-query_text :
    (target : Bytes) → parse_query target ≡ some (store_all (split b'&' (query_of target)) [])
unfolding parse_query split store_all store
loop-query_text target = elim (Bool-cases (is_empty (query_of target))) [
  | inl e ↦ rw e (empty (query_of target) e)
  | inr e ↦ rw e (query_loop-split _ (query_of target) [] (omega arith))
]
  where
    empty : (q : Bytes) → is_empty q ≡ true → some [] ≡ some (store_all (split b'&' q) [])
    empty [] e = refl
    empty (x ∷ q) e = cc

-- `parseQuery` reads the text behind the first ? of the target, or all of it, and stores its pieces
-- between the & in turn: each that is not empty under the decoded text up to its first =, with the decoded
-- text behind that, for every target.
pub parse_query-split :
    (target : Bytes) → parse_query target ≡ some (store_all (split b'&' (query_text target)) [])
parse_query-split target =
    loop-query_text target
    ∙ ap (λ q. some (store_all (split b'&' q) [])) (query_of-query_text target)
