-- ===== src/Utils/Cleaned.antt =====
-- What sanitising leaves.
use the_grid_x.Base.{
  ℕ, zero, suc, ◌≤◌, ◌≡◌, refl, Bool, true, not, ◌&&◌, ◌||◌, List, [], ◌∷◌, ◌++◌, arith, Text, take,
  keep, length, length-take-le, all, ◌≢◌, ◌↔◌, inl, inr, ◌==◌,
}
use the_grid_x.Utils.Validation.{str, is_id_char, validate_user_id}
use the_grid_x.Utils.Patterns.{IsLine}
use the_grid_x.Utils.Accepted.{validate_user_id_iff}
use the_grid_x.Utils.Sanitize.{is_layout, sanitize_text, sanitize_user_id}

module _ {A : Type 0} (p : A → Bool) where
  all-take : (n : ℕ) (xs : List A) → all p xs ≡ true → all p (take n xs) ≡ true
  all-take zero xs h = refl
  all-take (suc n) [] h = refl
  all-take (suc n) (x ∷ xs) h = ground (arith, all-take n xs)

  all-keep_both : (q : A → Bool) (xs : List A) → all p xs ≡ true → all p (keep q xs) ≡ true
  all-keep_both q [] h = refl
  all-keep_both q (x ∷ xs) h = ground (arith, all-keep_both q xs)

  all-keep_self : (xs : List A) → all p (keep p xs) ≡ true
  all-keep_self [] = refl
  all-keep_self (x ∷ xs) = ground (arith, all-keep_self xs)

  keep_of_all : (xs : List A) → all p xs ≡ true → keep p xs ≡ xs
  keep_of_all [] h = refl
  keep_of_all (x ∷ xs) h = ground (arith, keep_of_all xs)

take_of_length-le {ℓ} : {A : Type ℓ} (n : ℕ) (xs : List A) → length xs ≤ n → take n xs ≡ xs
take_of_length-le zero [] h = refl
take_of_length-le zero (x ∷ xs) h = absurd (omega arith)
take_of_length-le (suc n) [] h = refl
take_of_length-le (suc n) (x ∷ xs) h = ground (arith, take_of_length-le n xs)

all-implies :
    (p q : ℕ → Bool) (xs : List ℕ)
    → ((c : ℕ) → p c ≡ true → q c ≡ true)
    → all p xs ≡ true
    → all q xs ≡ true
all-implies p q [] h a = refl
all-implies p q (x ∷ xs) h a = ground (arith, h x, all-implies p q xs h)

all-and :
    (p q : ℕ → Bool) (xs : List ℕ)
    → all p xs ≡ true
    → all q xs ≡ true
    → all (λ c. p c && q c) xs ≡ true
all-and p q [] a b = refl
all-and p q (x ∷ xs) a b = ground (arith, all-and p q xs)

all-snoc :
    (p : ℕ → Bool) (xs : List ℕ) (c : ℕ)
    → all p xs ≡ true
    → p c ≡ true
    → all p (xs ++ c ∷ []) ≡ true
all-snoc p [] c a h = rw h
all-snoc p (x ∷ xs) c a h = ground (arith, all-snoc p xs c)

abbrev not_null : ℕ → Bool
not_null c = not (c == 0)

module _ (is_printable : ℕ → Bool) where
  abbrev shows : ℕ → Bool
  shows c = is_printable c || is_layout c

  -- No null byte; else printable, or a newline, a carriage return or a tab.
  abbrev pub is_clean : ℕ → Bool
  is_clean c = not (c == 0) && (is_printable c || is_layout c)

  pub sanitize_text_of_clean :
      (s : Text) (n : ℕ) → all is_clean s ≡ true → length s ≤ n → sanitize_text is_printable s n ≡ s
  unfolding sanitize_text
  sanitize_text_of_clean s n clean short =
      rw (keep_of_all not_null s (all-implies is_clean not_null s (λ c h. ground arith) clean)) (
        rw (keep_of_all shows s (all-implies is_clean shows s (λ c h. ground arith) clean))
          (take_of_length-le n s short))

  all-sanitize_text : (s : Text) (n : ℕ) → all is_clean (sanitize_text is_printable s n) ≡ true
  unfolding sanitize_text
  all-sanitize_text s n =
      let kept = keep not_null s in
      all-take is_clean n (keep shows kept) (
        all-and not_null shows (keep shows kept)
          (all-keep_both not_null shows kept (all-keep_self not_null s)) (all-keep_self shows kept))

  length-sanitize_text : (s : Text) (n : ℕ) → length (sanitize_text is_printable s n) ≤ n
  unfolding sanitize_text
  length-sanitize_text s n = length-take-le n (keep shows (keep not_null s))

  -- What `sanitize_string` makes of a string holds clean characters alone and no more of them
  -- than the limit, and sanitising it again with the same limit changes nothing.
  pub sanitize_text_clean :
      (s : Text) (n : ℕ)
      → (all is_clean (sanitize_text is_printable s n) ≡ true)
        × (length (sanitize_text is_printable s n) ≤ n)
        × (sanitize_text is_printable (sanitize_text is_printable s n) n
            ≡ sanitize_text is_printable s n)
  sanitize_text_clean s n = (
    all-sanitize_text s n,
    length-sanitize_text s n,
    sanitize_text_of_clean (sanitize_text is_printable s n) n (all-sanitize_text s n)
        (length-sanitize_text s n),
  )

  module _ (ascii_shows : (c : ℕ) → is_id_char c ≡ true → is_printable c ≡ true) where
    id_char-clean : (c : ℕ) → is_id_char c ≡ true → is_clean c ≡ true
    unfolding is_id_char
    id_char-clean c h = ground (arith, ascii_shows c)

    newline-clean :
        (s body : Text) → IsLine s body → all is_id_char body ≡ true → all is_clean s ≡ true
    newline-clean s body line h =
        let inner = all-implies is_id_char is_clean body id_char-clean h in
        elim line [
          | inl e ↦ rw e inner
          | inr e ↦ rw e (all-snoc is_clean body 10 inner (ground arith))
        ]

    -- Where letters, digits, `_` and `-` are printable, `sanitize_string` returns an accepted user
    -- id as it is, and so a trailing newline in it survives.
    pub sanitize_text-validate_user_id :
        (s : Text) → validate_user_id (str s) ≡ true → sanitize_text is_printable s 64 ≡ s
    sanitize_text-validate_user_id s h =
        let (body, line, fits, some_char, short) = (validate_user_id_iff s).0 h in
        sanitize_text_of_clean s 64 (newline-clean s body line fits) short

nonempty : (t : Text) → t ≢ [] → 1 ≤ length t
nonempty [] h = absurd (h refl)
nonempty (c ∷ t) h = omega arith

not-validate_user_id-nil : (t : Text) → validate_user_id (str t) ≡ true → t ≢ []
unfolding validate_user_id
not-validate_user_id-nil [] h e = cc
not-validate_user_id-nil (c ∷ t) h e = cc

-- `sanitize_user_id` leaves at most 64 characters, all allowed in a user id, and
-- `validate_user_id` accepts what is left unless nothing is.
pub validate_user_id-sanitize_user_id :
    (s : Text)
    → (length (sanitize_user_id s) ≤ 64)
      × (all is_id_char (sanitize_user_id s) ≡ true)
      × ((validate_user_id (str (sanitize_user_id s)) ≡ true) ↔ (sanitize_user_id s ≢ []))
unfolding sanitize_user_id
validate_user_id-sanitize_user_id s =
    let t = sanitize_user_id s in
    let fits = all-take is_id_char 64 (keep is_id_char s) (all-keep_self is_id_char s) in
    let short = length-take-le 64 (keep is_id_char s) in
    (
      short,
      fits,
      (
        not-validate_user_id-nil t,
        λ ne. (validate_user_id_iff t).1 (t, inl refl, fits, nonempty t ne, short),
      ),
    )
