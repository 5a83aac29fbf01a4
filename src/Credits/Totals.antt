-- ===== src/Credits/Totals.antt =====
-- The sum of all balances under each operation: where credits come from and where they go.
use the_grid_x.Base.{
  ℕ, ◌≡◌, refl, ℤ, pos, ◌+ℤ◌, ◌-ℤ◌, ◌≤ℤ◌, leb_ℤ, true, false, Option, none, some, or_else, [], ◌∷◌,
  Text, text_eq, text_eq_refl, Dict, lookup, lookup-insert, insert, modify, arith, int_laws,
  Option-cases, if◌then◌else◌, Bool-cases, inl, inr,
}
use the_grid_x.Database.{Db, UserCredits}
use the_grid_x.Credits.Pricing.{Rates}
use the_grid_x.Credits.Balance.{
  new_row, ensure_user, covers, paid_row, credited_row, deduct, credit,
}

abbrev pub sum_balances : Dict UserCredits → ℤ
sum_balances [] = pos 0
sum_balances ((_, row) ∷ d) = row.balance +ℤ sum_balances d

-- All credits that users hold.
abbrev pub total : Db → ℤ
total db = sum_balances db.user_credits

sum-insert :
    (k : Text) (row : UserCredits) (d : Dict UserCredits)
    → lookup k d ≡ none
    → sum_balances (insert k row d) ≡ sum_balances d +ℤ row.balance
unfolding insert lookup
sum-insert k row [] e = omega int_laws
sum-insert k row ((j, r) ∷ d) e = elim (Bool-cases (text_eq j k)) [
  | inl hit ↦ absurd (ground arith)
  | inr miss ↦ rw miss (rw (sum-insert k row d (ground arith)) (omega int_laws))
]

-- Where the row of a key gains `x`, so does the sum.
sum-modify :
    (k : Text) (f : UserCredits → UserCredits) (x : ℤ) (row : UserCredits) (d : Dict UserCredits)
    → lookup k d ≡ some row
    → ((r : UserCredits) → (f r).balance ≡ r.balance +ℤ x)
    → sum_balances (modify k f d) ≡ sum_balances d +ℤ x
unfolding modify lookup
sum-modify k f x row [] e gain = absurd (cc)
sum-modify k f x row ((j, r) ∷ d) e gain = elim (Bool-cases (text_eq j k)) [
  | inl hit ↦ rw hit (rw (gain r) (omega int_laws))
  | inr miss ↦ rw miss (rw (sum-modify k f x row d (ground arith) gain) (omega int_laws))
]

-- Where no row's balance changes, neither does the sum.
pub sum-modify_same :
    (k : Text) (f : UserCredits → UserCredits) (d : Dict UserCredits)
    → ((r : UserCredits) → (f r).balance ≡ r.balance)
    → sum_balances (modify k f d) ≡ sum_balances d
unfolding modify
sum-modify_same k f [] same = refl
sum-modify_same k f ((j, r) ∷ d) same = elim (Bool-cases (text_eq j k)) [
  | inl hit ↦ rw hit (rw (same r))
  | inr miss ↦ rw miss (rw (sum-modify_same k f d same))
]

module _ (rates : Rates) (now : ℕ) where
  -- A user that is not known yet brings the initial balance; a known one changes nothing.
  pub total-ensure_user :
      (user_id : Text) (initial : Option ℤ) (db : Db)
      → (lookup user_id db.user_credits ≡ none
          → total (ensure_user rates now user_id initial db).1
            ≡ total db +ℤ or_else initial rates.default_initial_balance)
        × ((row : UserCredits)
            → lookup user_id db.user_credits ≡ some row
            → ensure_user rates now user_id initial db ≡ (row.balance, db))
  unfolding ensure_user
  total-ensure_user user_id initial db = (
    λ e. rw (e, ensure_user) (sum-insert user_id _ db.user_credits e),
    λ row e. rw (e, ensure_user),
  )

  -- After `ensure_user` the user has a row.
  known :
      (user_id : Text) (initial : Option ℤ) (db : Db)
      → (row : UserCredits) × (lookup user_id
            (ensure_user rates now user_id initial db).1.user_credits
          ≡ some row)
  unfolding ensure_user
  known user_id initial db = elim (Option-cases (lookup user_id db.user_credits)) [
    | inl e ↦ (
      new_row now (or_else initial rates.default_initial_balance),
      rw (e, ensure_user) (rw lookup-insert (rw text_eq_refl)),
    )
    | inr (row, e) ↦ (row, rw (e, ensure_user) e)
  ]

  total-ensure_empty :
      (user_id : Text) (db : Db)
      → total (ensure_user rates now user_id (some (pos 0)) db).1 ≡ total db
  total-ensure_empty user_id db = elim (Option-cases (lookup user_id db.user_credits)) [
    | inl e ↦ rw ((total-ensure_user user_id (some (pos 0)) db).0 e) (omega int_laws)
    | inr (row, e) ↦ rw ((total-ensure_user user_id (some (pos 0)) db).1 row e)
  ]

  -- A credit of a positive amount adds exactly that amount, also where it creates the user; any
  -- other changes nothing.
  pub total-credit :
      (user_id : Text) (amount : ℤ) (db : Db)
      → total (credit rates now user_id amount db)
        ≡ total db +ℤ (if leb_ℤ amount (pos 0) then pos 0 else amount)
  unfolding credit
  total-credit user_id amount db = elim (Bool-cases (leb_ℤ amount (pos 0))) [
    | inl none_due ↦ rw none_due (omega int_laws)
    | inr due ↦
        let (row, e) = known user_id (some (pos 0)) db in
        rw due (
          rw (sum-modify user_id (credited_row now amount) amount row _ e (λ r. refl))
            (rw (total-ensure_empty user_id db)))
  ]

  covers-row :
      (user_id : Text) (amount : ℤ) (db : Db)
      → covers user_id amount db ≡ true
      → (row : UserCredits) × (lookup user_id db.user_credits ≡ some row)
  unfolding covers
  covers-row user_id amount db h = elim (Option-cases (lookup user_id db.user_credits)) [
    | inl e ↦ absurd (ground arith)
    | inr (row, e) ↦ (row, e)
  ]

  -- A deduction of a positive amount succeeds exactly where the user's balance covers it. It then
  -- takes that amount out of the sum of balances, and otherwise it changes no table.
  pub total-deduct :
      (user_id : Text) (amount : ℤ) (db : Db)
      → pos 1 ≤ℤ amount
      → ((deduct now user_id amount db).0 ≡ covers user_id amount db)
        × (total (deduct now user_id amount db).1
            ≡ total db -ℤ (if covers user_id amount db then amount else pos 0))
        × (covers user_id amount db ≡ false → (deduct now user_id amount db).1 ≡ db)
  unfolding deduct
  total-deduct user_id amount db h =
      let due : leb_ℤ amount (pos 0) ≡ false = ground arith in
      rw due (elim (Bool-cases (covers user_id amount db)) [
        | inl enough ↦
            let (row, e) = covers-row user_id amount db enough in
            let minus = pos 0 -ℤ amount in
            rw enough (
              refl,
              rw
                  (sum-modify user_id (paid_row now amount) minus row db.user_credits e
                    (λ r. omega int_laws))
                  (omega int_laws),
              λ no_cover. cc,
            )
        | inr short ↦ rw short (refl, omega int_laws, λ no_cover. refl)
      ])
