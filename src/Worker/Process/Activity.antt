-- ===== src/Worker/Process/Activity.antt =====
-- worker/main.py: `ActivityLogger`.
use the_grid_x.Base.{ℕ, ◌-◌, ltb, ◌==◌, List, [], ◌∷◌, ◌++◌, length, drop, Text, if◌then◌else◌}

pub record LogEntry : Type 0 where
  pub timestamp : Text
  pub event_type : Text
  pub details : Text

pub record ActivityLogger : Type 0 where
  pub max_entries : ℕ
  pub log : List LogEntry

abbrev pub new_logger : (max_entries : ℕ) → ActivityLogger
new_logger max_entries = record { max_entries = max_entries; log = [] }

-- `xs[-n:]`; `-0` is 0.
unfoldable pub last_items {ℓ} : {A : Type ℓ} → ℕ → List A → List A
last_items n xs = if n == 0 then xs else drop (length xs - n) xs

-- `timestamp` is the time as text.
unfoldable pub add_entry : LogEntry → ActivityLogger → ActivityLogger
add_entry entry l =
    let longer : List LogEntry = l.log ++ entry ∷ [] in
    record l {
      log = if ltb l.max_entries (length longer) then last_items l.max_entries longer else longer;
    }

unfoldable pub get_recent : (count : ℕ) → ActivityLogger → List LogEntry
get_recent count l = last_items count l.log
