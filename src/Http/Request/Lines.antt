-- ===== src/Http/Request/Lines.antt =====
-- The head of a request as lines: where `find` stops, and what the header loop reads.
use mathlib.Core.Option
use camera_platform.Prelude.{
  ℕ, zero, suc, ◌<◌, true, false, Bytes, List, length, length-append, is_empty, append-ne-nil,
  take-append, none, some, [], ◌∷◌, ◌++◌, append_assoc, ◌≡◌, ◌≢◌, refl, ◌∙◌, All, All-append, Lacks,
  arith,
}
use camera_platform.Prelude.Map.{StringMap, insert}
use camera_platform.Prelude.Search.{
  find_byte-append, find, find-append, find_at, before, drop_behind, drop_behind_two,
}
use camera_platform.Http.Text.{to_lower_helper, trim_helper}
use camera_platform.Http.Request.{
  crlf, crlfcrlf, field, add_header, read_line, next_pos, after_line, header_loop,
}

-- One header as it is sent: the texts on the two sides of its first colon.
pub record Field : Type 0 where
  pub raw_name : Bytes
  pub raw_value : Bytes

pub record IsField (f : Field) : Type 0 where
  pub name_lacks_colon : Lacks b':' f.raw_name
  pub name_lacks_cr : Lacks b'\r' f.raw_name
  pub name_trim_ne_nil : is_empty (to_lower_helper (trim_helper f.raw_name)) ≡ false
  pub value_lacks_cr : Lacks b'\r' f.raw_value

abbrev pub header_line : Field → Bytes
header_line f = f.raw_name ++ b':' ∷ f.raw_value

-- The lines with `\r\n` between them.
abbrev pub head_of : Bytes → List Field → Bytes
head_of line [] = line
head_of line (f ∷ fs) = line ++ b'\r' ∷ b'\n' ∷ head_of (header_line f) fs

-- The headers written into the map in order.
abbrev pub with_headers : List Field → StringMap Bytes → StringMap Bytes
with_headers [] m = m
with_headers (f ∷ fs) m =
    with_headers fs (insert (to_lower_helper (trim_helper f.raw_name)) (trim_helper f.raw_value) m)

header_line-Lacks : (f : Field) → IsField f → Lacks b'\r' (header_line f)
header_line-Lacks f h =
    All-append _ f.raw_name _ h.name_lacks_cr ((λ e. absurd (omega arith)), h.value_lacks_cr)

-- A text that begins with a byte other than `\r`.
abbrev Front : Bytes → Type 0
Front [] = ⊥
Front (c ∷ s) = c ≢ b'\r'

Front-append : (s : Bytes) (c : ℕ) (r : Bytes) → Lacks b'\r' s → c ≢ b'\r' → Front (s ++ c ∷ r)
Front-append [] c r h k = k
Front-append (x ∷ s) c r (hx, h) k = hx

Front-append_right : (s r : Bytes) → Front s → Front (s ++ r)
Front-append_right [] r h = absurd h
Front-append_right (c ∷ s) r h = h

header_line-Front : (f : Field) → IsField f → Front (header_line f)
header_line-Front f h =
    Front-append f.raw_name b':' f.raw_value h.name_lacks_cr (λ e. absurd (omega arith))

head_of-Front : (l : Bytes) (fs : List Field) → Front l → Front (head_of l fs)
head_of-Front l [] h = h
head_of-Front l (f ∷ fs) h = Front-append_right l _ h

-- No blank line begins at the end of a line that another line follows.
find_past_crlf :
    (s : Bytes)
    → Front s
    → find crlfcrlf (b'\r' ∷ b'\n' ∷ s) ≡ Option.map (λ n. suc (suc n)) (find crlfcrlf s)
find_past_crlf [] h = absurd h
find_past_crlf (c ∷ s) h = ground arith

-- The blank line behind the head is the first.
pub find-head_of :
    (l : Bytes) (fs : List Field) (body : Bytes)
    → Lacks b'\r' l
    → All IsField fs
    → find crlfcrlf (head_of l fs ++ b'\r' ∷ b'\n' ∷ b'\r' ∷ b'\n' ∷ body)
      ≡ some (length (head_of l fs))
find-head_of l [] body h a = find_at b'\r' (b'\n' ∷ crlf) l _ _ h refl
find-head_of l (f ∷ fs) body h (hf, a) = rw (
  append_assoc,
  find-append b'\r' (b'\n' ∷ crlf) l _ h,
  find_past_crlf _ (
      Front-append_right (head_of (header_line f) fs) (crlfcrlf ++ body)
        (head_of-Front _ fs (header_line-Front f hf))),
  find-head_of (header_line f) fs body (header_line-Lacks f hf) a,
  length-append,
)

-- The first line of the head ends where it should.
pub find_line_last : (l : Bytes) → Lacks b'\r' l → find crlf l ≡ none
find_line_last [] h = refl
find_line_last (c ∷ s) (hc, h) = ground (arith, find_line_last s h)

pub find_line_next :
    (l r : Bytes) → Lacks b'\r' l → find crlf (l ++ b'\r' ∷ b'\n' ∷ r) ≡ some (length l)
find_line_next l r h = find_at b'\r' (b'\n' ∷ []) l _ _ h refl

read_line-header_line :
    (f : Field) (m : StringMap Bytes)
    → IsField f
    → read_line (header_line f) m
      ≡ field (insert (to_lower_helper (trim_helper f.raw_name)) (trim_helper f.raw_value) m)
unfolding read_line add_header
read_line-header_line f m h = rw (
  append-ne-nil f.raw_name b':' f.raw_value,
  find_byte-append b':' f.raw_name f.raw_value h.name_lacks_colon,
  take-append,
  h.name_trim_ne_nil,
  drop_behind f.raw_name b':' f.raw_value,
)

header_loop_step :
    (fuel : ℕ) (s : Bytes) (m m' : StringMap Bytes)
    → is_empty s ≡ false
    → read_line (before (find crlf s) s) m ≡ field m'
    → header_loop (suc fuel) (some s) m ≡ header_loop fuel (next_pos (find crlf s) s) m'
header_loop_step fuel [] m m' h e = cc
header_loop_step fuel (c ∷ s) m m' h e = unfold header_loop after_line in rw (e, after_line)

header_loop_end :
    (fuel : ℕ) (m : StringMap Bytes) → 0 < fuel → header_loop fuel none m ≡ some (true, m)
header_loop_end zero m h = elim h [ ]
header_loop_end (suc fuel) m h = unfold header_loop in refl

header_line-lt : (f : Field) → 0 < length (header_line f)
header_line-lt f = omega (arith, length-append f.raw_name (b':' ∷ f.raw_value))

pub header_loop-head_of :
    (fuel : ℕ) (f : Field) (fs : List Field) (m : StringMap Bytes)
    → length (head_of (header_line f) fs) < fuel
    → All IsField (f ∷ fs)
    → header_loop fuel (some (head_of (header_line f) fs)) m ≡ some (true, with_headers (f ∷ fs) m)
header_loop-head_of zero f fs m h a = elim h [ ]
header_loop-head_of (suc fuel) f [] m h (hf, _) =
    header_loop_step fuel (header_line f) m
      (insert (to_lower_helper (trim_helper f.raw_name)) (trim_helper f.raw_value) m)
      (append-ne-nil f.raw_name _ _)
      (rw (find_line_last (header_line f) (header_line-Lacks f hf)) (read_line-header_line f m hf))
    ∙ rw (find_line_last (header_line f) (header_line-Lacks f hf))
        (header_loop_end fuel _ (omega (arith, header_line-lt f)))
header_loop-head_of (suc fuel) f (g ∷ fs) m h (hf, a) =
    header_loop_step fuel (head_of (header_line f) (g ∷ fs)) m
      (insert (to_lower_helper (trim_helper f.raw_name)) (trim_helper f.raw_value) m)
      (append-ne-nil (header_line f) _ _) (rw (next, take-append) (read_line-header_line f m hf))
    ∙ rw (next, drop_behind_two (header_line f)) (header_loop-head_of fuel g fs _ shorter a)
  where
    next : find crlf (head_of (header_line f) (g ∷ fs)) ≡ some (length (header_line f))
    next = find_line_next (header_line f) _ (header_line-Lacks f hf)

    shorter : length (head_of (header_line g) fs) < fuel
    shorter =
        omega (arith, length-append (header_line f) (b'\r' ∷ b'\n' ∷ head_of (header_line g) fs))
