-- ===== src/Credits/Balance.antt =====
-- coordinator/credit_manager.py: `ensure_user`, `get_balance`, `deduct`, `credit`.
use the_grid_x.Base.{
  ℕ, ℤ, pos, ◌+ℤ◌, ◌-ℤ◌, leb_ℤ, Bool, true, false, Option, none, some, Text, lookup, insert, modify,
  if◌then◌else◌, or_else,
}
use the_grid_x.Database.{Db, UserCredits}
use the_grid_x.Credits.Pricing.{Rates}

-- The row that a user without one gets.
abbrev pub new_row : (now : ℕ) → ℤ → UserCredits
new_row now initial_balance = record {
  balance = initial_balance;
  total_earned = some (pos 0);
  total_spent = some (pos 0);
  last_updated = now;
}

-- Returns the balance. `initial_balance` falls back on the configured one.
unfoldable pub ensure_user : Rates → (now : ℕ) → Text → Option ℤ → Db → ℤ × Db
ensure_user rates now user_id initial_balance db =
    let initial = or_else initial_balance rates.default_initial_balance in
    elim (lookup user_id db.user_credits) [
      | some row ↦ (row.balance, db)
      | none ↦ (
        initial,
        record db { user_credits = insert user_id (new_row now initial) db.user_credits },
      )
    ]

unfoldable pub get_balance : Text → Db → ℤ
get_balance user_id db = elim (lookup user_id db.user_credits) [
  | none ↦ pos 0
  | some row ↦ row.balance
]

-- `balance>=?` of the user's row; false if there is none
unfoldable pub covers : Text → ℤ → Db → Bool
covers user_id amount db = elim (lookup user_id db.user_credits) [
  | none ↦ false
  | some row ↦ leb_ℤ amount row.balance
]

abbrev pub paid_row : (now : ℕ) → ℤ → UserCredits → UserCredits
paid_row now amount row = record row { balance = row.balance -ℤ amount; last_updated = now }

abbrev pub credited_row : (now : ℕ) → ℤ → UserCredits → UserCredits
credited_row now amount row = record row { balance = row.balance +ℤ amount; last_updated = now }

-- `UPDATE … SET balance=balance-? WHERE user_id=? AND balance>=?`, and whether it met a row.
unfoldable pub deduct : (now : ℕ) → Text → ℤ → Db → Bool × Db
deduct now user_id amount db =
    let paid : Db = record db {
      user_credits = modify user_id (paid_row now amount) db.user_credits;
    } in
    if leb_ℤ amount (pos 0)
    then (true, db)
    else if covers user_id amount db
    then (true, paid)
    else (false, db)

unfoldable pub credit : Rates → (now : ℕ) → Text → ℤ → Db → Db
credit rates now user_id amount db =
    let known = (ensure_user rates now user_id (some (pos 0)) db).1 in
    if leb_ℤ amount (pos 0)
    then db
    else record known { user_credits = modify user_id (credited_row now amount) known.user_credits }
