-- ===== src/Utils/Accepted.antt =====
-- What the validators accept.
use the_grid_x.Base.{
  ℕ, ◌≤◌, ◌≡◌, refl, ◌↔◌, inl, inr, true, ◌&&◌, none, [], ◌∷◌, ◌++◌, arith, Text, length, all,
  Bool-cases, ◌==◌, is_empty,
}
use the_grid_x.Utils.Patterns.{
  IsLine, IsLine-cons, match_classes_sound, match_classes_complete, IsUuid, Fits-IsUuid,
  IsUuid-Fits,
}
use the_grid_x.Utils.Validation.{
  Value, str, newline, uuid_pattern, validate_uuid, is_id_char, match_id_rest, match_id,
  validate_user_id, validate_password,
}

-- `validate_uuid` accepts exactly the texts that are, in front of at most one trailing newline, a
-- version 4 UUID: 8, 4, 4, 4 and 12 hexadecimal digits between hyphens, the third group beginning
-- with 4 and the fourth with 8, 9, a or b.
pub validate_uuid_iff :
    (s : Text) → (validate_uuid s ≡ true) ↔ ((body : Text) × IsLine s body × IsUuid body)
unfolding validate_uuid
validate_uuid_iff s = (
  λ h.
      let (body, line, fits) = match_classes_sound uuid_pattern s h in
      (body, line, Fits-IsUuid body fits),
  λ (body, line, u). match_classes_complete uuid_pattern body s (IsUuid-Fits body u) line,
)

match_id_rest_sound :
    (s : Text)
    → match_id_rest s ≡ true
    → (body : Text) × IsLine s body × (all is_id_char body ≡ true)
unfolding match_id_rest
match_id_rest_sound [] h = ([], inl refl, refl)
match_id_rest_sound (c ∷ s) h = elim (Bool-cases (is_id_char c)) [
  | inl ok ↦
      let (body, line, fits) = match_id_rest_sound s (ground arith) in
      (c ∷ body, IsLine-cons c s body line, rw (ok, fits))
  | inr other ↦ ([], inr (last_newline c s (ground arith)), refl)
]
  where
    last_newline : (c : ℕ) (s : Text) → (c == newline && is_empty s) ≡ true → c ∷ s ≡ newline ∷ []
    last_newline c [] e = ground arith
    last_newline c (d ∷ s) e = absurd (ground arith)

match_id_rest_complete :
    (body s : Text) → all is_id_char body ≡ true → IsLine s body → match_id_rest s ≡ true
unfolding match_id_rest is_id_char
match_id_rest_complete [] s h (inl e) = rw e
match_id_rest_complete [] s h (inr e) = rw e
match_id_rest_complete (c ∷ body) s h (inl e) =
    rw e (ground (arith, match_id_rest_complete body body _ (inl refl)))
match_id_rest_complete (c ∷ body) s h (inr e) =
    rw e (ground (arith, match_id_rest_complete body (body ++ newline ∷ []) _ (inr refl)))

-- What the documentation of `validate_user_id` asks for, but for one trailing newline.
abbrev pub IsUserId : Text → Type 0
IsUserId s =
    (body : Text) × IsLine s body
    × (all is_id_char body ≡ true)
    × (1 ≤ length body)
    × (length s ≤ 64)

validate_user_id_sound : (s : Text) → validate_user_id (str s) ≡ true → IsUserId s
unfolding validate_user_id match_id
validate_user_id_sound [] h = absurd (ground arith)
validate_user_id_sound (c ∷ s) h =
    let (body, line, fits) = match_id_rest_sound s (ground arith) in
    (c ∷ body, IsLine-cons c s body line, ground (arith, fits), omega arith, ground arith)

validate_user_id_complete : (s : Text) → IsUserId s → validate_user_id (str s) ≡ true
unfolding validate_user_id match_id
validate_user_id_complete s ([], line, fits, some_char, short) = absurd (omega arith)
validate_user_id_complete s (c ∷ body, inl e, fits, some_char, short) =
    ground (arith, match_id_rest_complete body body _ (inl refl))
validate_user_id_complete s (c ∷ body, inr e, fits, some_char, short) =
    ground (arith, match_id_rest_complete body (body ++ newline ∷ []) _ (inr refl))

-- `validate_user_id` accepts exactly the strings of at most 64 characters that are one or more
-- letters, digits, underscores and hyphens, with at most one newline behind them.
pub validate_user_id_iff : (s : Text) → (validate_user_id (str s) ≡ true) ↔ IsUserId s
validate_user_id_iff s = (validate_user_id_sound s, validate_user_id_complete s)

validate_password_sound :
    (v : Value)
    → (validate_password v).0 ≡ true
    → (s : Text) × (v ≡ str s) × (8 ≤ length s) × (length s ≤ 128)
unfolding validate_password
validate_password_sound (str s) h = (s, refl, ground arith, ground arith)
validate_password_sound _ h = absurd (ground arith)

validate_password_complete :
    (s : Text) → 8 ≤ length s → length s ≤ 128 → validate_password (str s) ≡ (true, none)
unfolding validate_password
validate_password_complete [] low high = absurd (omega arith)
validate_password_complete (c ∷ s) low high = ground arith

validate_password_message :
    (v : Value) → ((validate_password v).1 ≡ none) ↔ ((validate_password v).0 ≡ true)
unfolding validate_password
validate_password_message (str s) = (λ h. ground arith, λ h. ground arith)
validate_password_message _ = (λ h. cc, λ h. cc)

-- `validate_password` accepts exactly the strings of 8 to 128 characters, and it gives no error
-- message exactly where it accepts.
pub validate_password_iff :
    (v : Value)
    → (((validate_password v).0 ≡ true)
        ↔ ((s : Text) × (v ≡ str s) × (8 ≤ length s) × (length s ≤ 128)))
      × (((validate_password v).1 ≡ none) ↔ ((validate_password v).0 ≡ true))
validate_password_iff v = (
  (
    validate_password_sound v,
    λ (s, e, low, high). rw e (rw (validate_password_complete s low high)),
  ),
  validate_password_message v,
)
