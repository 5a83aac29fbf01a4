-- ===== src/Tests/Texts.antt =====
-- common/utils.py
use the_grid_x.Base.{◌≤◌, ◌≡◌, ◌≢◌, ◌↔◌, refl, true, [], ◌∷◌, ◌++◌, Text, text, all, length}
use the_grid_x.Utils.{
  str, validate_uuid, validate_user_id, match_id, match_id_rest, is_id_char, newline,
  sanitize_user_id,
}
use the_grid_x.Utils.Patterns.{IsLine, IsUuid}
use the_grid_x.Utils.Accepted.{IsUserId, validate_uuid_iff, validate_user_id_iff}
use the_grid_x.Utils.Cleaned.{validate_user_id-sanitize_user_id}
use the_grid_x.Tests.Fixtures.{job_a}

abbrev alice_line : Text
alice_line = text "alice" ++ newline ∷ []

validate_uuid_iff_example :
    (validate_uuid job_a ≡ true) ↔ ((body : Text) × IsLine job_a body × IsUuid body)
validate_uuid_iff_example = validate_uuid_iff job_a

-- The trailing newline is accepted.
validate_user_id_newline : validate_user_id (str alice_line) ≡ true
unfolding validate_user_id match_id match_id_rest is_id_char
validate_user_id_newline = refl

validate_user_id_iff_example : (validate_user_id (str alice_line) ≡ true) ↔ IsUserId alice_line
validate_user_id_iff_example = validate_user_id_iff alice_line

validate_user_id-sanitize_user_id_example :
    (length (sanitize_user_id (text "a b!")) ≤ 64)
    × (all is_id_char (sanitize_user_id (text "a b!")) ≡ true)
    × ((validate_user_id (str (sanitize_user_id (text "a b!"))) ≡ true)
        ↔ (sanitize_user_id (text "a b!") ≢ []))
validate_user_id-sanitize_user_id_example = validate_user_id-sanitize_user_id (text "a b!")
