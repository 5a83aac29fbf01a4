-- ===== src/Schemas/Responses.antt =====
-- common/schemas.py: `ApiResponse` and `ErrorResponse`. A key is left out where there is nothing to say.
use the_grid_x.Base.{Bool, true, false, [], ◌∷◌, ◌++◌, text, Text, Dict}
use the_grid_x.Schemas.Values.{Json, null, json_truth}

pub record ApiResponse : Type 0 where
  pub success : Json
  pub contents : Json
  pub error : Json
  pub timestamp : Json

-- `value is not None`
abbrev pub is_given : Json → Bool
is_given null = false
is_given _ = true

-- `if test: result[key] = value`
abbrev pub entry_if : Bool → (key : Text) → Json → Dict Json
entry_if true key value = (key, value) ∷ []
entry_if false key value = []

unfoldable pub api_response_to_dict : ApiResponse → Dict Json
api_response_to_dict r =
    (text "success", r.success)
    ∷ (entry_if (is_given r.contents) (text "data") r.contents
        ++ (entry_if (is_given r.error) (text "error") r.error
            ++ entry_if (is_given r.timestamp) (text "timestamp") r.timestamp))

pub record ErrorResponse : Type 0 where
  pub error : Json
  pub code : Json
  pub details : Json
  pub timestamp : Json

unfoldable pub error_response_to_dict : ErrorResponse → Dict Json
error_response_to_dict r =
    (text "error", r.error)
    ∷ (text "code", r.code)
    ∷ (entry_if (json_truth r.details) (text "details") r.details
        ++ entry_if (json_truth r.timestamp) (text "timestamp") r.timestamp)
