-- ===== src/Http/Text.antt =====
-- web/HttpMessage.hpp: `toLowerHelper` and `trimHelper`, in the C locale.
use camera_platform.Prelude.{
  ℕ, ◌+◌, Bool, true, false, ◌&&◌, ◌||◌, [], ◌∷◌, ◌++◌, map, append_assoc, Bytes, leb, ◌==◌,
  if◌then◌else◌, Bool-cases, inl, inr, ◌⊎◌, ◌≡◌, refl, sym, ap, ◌∙◌, All, arith,
}

-- `std::tolower`
unfoldable pub to_lower : ℕ → ℕ
to_lower c = if leb b'A' c && leb c b'Z' then c + 32 else c

unfoldable pub to_lower_helper : Bytes → Bytes
to_lower_helper = map to_lower

-- `std::isspace`
unfoldable pub is_space : ℕ → Bool
is_space c = (leb 9 c && leb c 13) || c == 32

-- `while (begin < end && isSpace(value[begin])) ++begin;`, as the text from `begin` on.
unfoldable pub trim_front : Bytes → Bytes
trim_front [] = []
trim_front (c ∷ s) = if is_space c then trim_front s else c ∷ s

-- `while (end > begin && isSpace(value[end - 1])) --end;`, as the text up to `end`.
unfoldable pub trim_back : Bytes → Bytes
trim_back [] = []
trim_back (c ∷ s) = elim (trim_back s) [
  | [] ↦ if is_space c then [] else c ∷ []
  | d ∷ r ↦ c ∷ d ∷ r
]

unfoldable pub trim_helper : Bytes → Bytes
unfolding trim_front trim_back
trim_helper value = trim_back (trim_front value)

to_lower_idem : (c : ℕ) → to_lower (to_lower c) ≡ to_lower c
unfolding to_lower
to_lower_idem c = ground arith

pub to_lower_helper_idem : (s : Bytes) → to_lower_helper (to_lower_helper s) ≡ to_lower_helper s
unfolding to_lower_helper
to_lower_helper_idem [] = refl
to_lower_helper_idem (c ∷ s) = ground (arith, to_lower_idem c, to_lower_helper_idem s)

-- Neither end of the text is white space.
abbrev pub starts_space : Bytes → Bool
starts_space [] = false
starts_space (c ∷ s) = is_space c

abbrev pub ends_space : Bytes → Bool
ends_space [] = false
ends_space (c ∷ []) = is_space c
ends_space (c ∷ d ∷ s) = ends_space (d ∷ s)

trim_front-starts_space : (s : Bytes) → starts_space (trim_front s) ≡ false
unfolding trim_front
trim_front-starts_space [] = refl
trim_front-starts_space (c ∷ s) = ground (arith, trim_front-starts_space s)

trim_back-ends_space : (s : Bytes) → ends_space (trim_back s) ≡ false
unfolding trim_back
trim_back-ends_space [] = refl
trim_back-ends_space (c ∷ s) = ground (arith, trim_back-ends_space s)

trim_back-starts_space : (s : Bytes) → starts_space s ≡ false → starts_space (trim_back s) ≡ false
unfolding trim_back
trim_back-starts_space [] h = refl
trim_back-starts_space (c ∷ s) h = ground arith

abbrev pub IsSpace : ℕ → Type 0
IsSpace c = is_space c ≡ true

trim_front-eq : (s : Bytes) → (pre : Bytes) × All IsSpace pre × (s ≡ pre ++ trim_front s)
unfolding trim_front
trim_front-eq [] = ([], tt, refl)
trim_front-eq (c ∷ s) = elim (Bool-cases (is_space c)) [
  | inl h ↦ let (pre, blank, e) = trim_front-eq s in rw h (c ∷ pre, (h, blank), ap (λ r. c ∷ r) e)
  | inr h ↦ rw h ([], tt, refl)
]

trim_back_cons :
    (c : ℕ) (s : Bytes)
    → ((is_space c ≡ true) × (trim_back s ≡ []) × (trim_back (c ∷ s) ≡ []))
      ⊎ (trim_back (c ∷ s) ≡ c ∷ trim_back s)
unfolding trim_back
trim_back_cons c s = ground arith

trim_back-eq : (s : Bytes) → (post : Bytes) × All IsSpace post × (s ≡ trim_back s ++ post)
trim_back-eq [] = ([], tt, unfold trim_back in refl)
trim_back-eq (c ∷ s) =
    let (post, blank, e) = trim_back-eq s in
    elim (trim_back_cons c s) [
      | inl (h, f, g) ↦ (c ∷ post, (h, blank), rw g (ap (λ r. c ∷ r) (e ∙ rw f)))
      | inr g ↦ (post, blank, rw g (ap (λ r. c ∷ r) e))
    ]

-- `u` is the text `s` less the white space at its two ends.
pub record IsTrim (s u : Bytes) : Type 0 where
  pub before : Bytes
  pub behind : Bytes
  pub before_space : All IsSpace before
  pub behind_space : All IsSpace behind
  pub parts : s ≡ before ++ u ++ behind
  pub starts : starts_space u ≡ false
  pub ends : ends_space u ≡ false

-- `trimHelper` takes white space away from the two ends of a text, all of it, and nothing else.
pub trim_helper-IsTrim : (s : Bytes) → IsTrim s (trim_helper s)
unfolding trim_helper
trim_helper-IsTrim s =
    let (pre, pre_space, e) = trim_front-eq s in
    let (post, post_space, f) = trim_back-eq (trim_front s) in
    record {
      before = pre;
      behind = post;
      before_space = pre_space;
      behind_space = post_space;
      parts = e ∙ ap (λ r. pre ++ r) f ∙ sym (append_assoc pre _ post);
      starts = trim_back-starts_space _ (trim_front-starts_space s);
      ends = trim_back-ends_space (trim_front s);
    }

trim_back-eq_self : (s : Bytes) → All (λ c. is_space c ≡ false) s → trim_back s ≡ s
trim_back-eq_self [] a = unfold trim_back in refl
trim_back-eq_self (c ∷ s) (h, a) = elim (trim_back_cons c s) [
  | inl (k, _, _) ↦ cc
  | inr g ↦ g ∙ ap (λ r. c ∷ r) (trim_back-eq_self s a)
]

trim_front_blank : (s : Bytes) → trim_front (b' ' ∷ s) ≡ trim_front s
unfolding trim_front is_space
trim_front_blank s = refl

-- A blank before a text with no white space in it is all that is taken away.
pub trim_helper_blank : (s : Bytes) → All (λ c. is_space c ≡ false) s → trim_helper (b' ' ∷ s) ≡ s
trim_helper_blank s a =
    unfold trim_helper in rw (trim_front_blank, trim_front-eq_self s a) (trim_back-eq_self s a)
  where
    trim_front-eq_self : (s : Bytes) → All (λ c. is_space c ≡ false) s → trim_front s ≡ s
    trim_front-eq_self [] a = unfold trim_front in refl
    trim_front-eq_self (c ∷ s) (h, a) = unfold trim_front in rw h
