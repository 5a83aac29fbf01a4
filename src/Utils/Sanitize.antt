-- ===== src/Utils/Sanitize.antt =====
-- common/utils.py: `sanitize_string`, `sanitize_user_id`, and the dict helpers. `str(value)` and
-- the Unicode table behind `str.isprintable` are parameters.
use the_grid_x.Base.{
  ℕ, Bool, not, ◌||◌, Option, List, [], ◌∷◌, ◌==◌, take, keep, Text, Dict, insert, lookup, is_some,
  or_else,
}
use the_grid_x.Utils.Validation.{Value, str, is_id_char}

-- `char in '\n\r\t'`
abbrev pub is_layout : ℕ → Bool
is_layout c = c == 10 || c == 13 || c == 9

module _ (is_printable : ℕ → Bool) where
  -- The two passes over a string that is one already: null bytes, then control characters.
  unfoldable pub sanitize_text : Text → ℕ → Text
  sanitize_text value max_length =
      let without_null = keep (λ c. not (c == 0)) value in
      let visible = keep (λ c. is_printable c || is_layout c) without_null in
      take max_length visible

  module _ (to_str : Value → Text) where
    unfoldable pub sanitize_string : Value → ℕ → Text
    sanitize_string (str s) max_length = sanitize_text s max_length
    sanitize_string value max_length = sanitize_text (to_str value) max_length

unfoldable pub sanitize_user_id : Text → Text
sanitize_user_id user_id = take 64 (keep is_id_char user_id)

-- `result.update(d)`
abbrev pub update {ℓ} : {V : Type ℓ} → Dict V → Dict V → Dict V
update result [] = result
update result ((k, v) ∷ d) = update (insert k v result) d

abbrev pub merge_onto {ℓ} : {V : Type ℓ} → Dict V → List (Dict V) → Dict V
merge_onto result [] = result
merge_onto result (d ∷ dicts) = merge_onto (update result d) dicts

-- A dict that is empty or None changes nothing, so the test `if d` needs no branch.
unfoldable pub merge_dicts {ℓ} : {V : Type ℓ} → List (Dict V) → Dict V
merge_dicts dicts = merge_onto [] dicts

unfoldable pub remove_none_values {ℓ} : {V : Type ℓ} → Dict (Option V) → Dict (Option V)
remove_none_values dictionary = keep (λ e. is_some e.1) dictionary

unfoldable pub safe_get {ℓ} : {V : Type ℓ} → Dict V → Text → V → V
safe_get dictionary key default = or_else (lookup key dictionary) default
