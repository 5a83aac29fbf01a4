-- ===== src/Database/Listed.antt =====
-- coordinator/database.py: what the listings return.
use the_grid_x.Base.{
  IsDescending, order_by-IsDescending, ℕ, ◌≤◌, ◌≤ℤ◌, le_max_left, max_le, min_le_right,
  length-order_by, order_by-Permᴰ, order_by, take, drop, append-take-drop, ◌++◌, zero, suc, ap, ◌∙◌,
  arith, Text, ◌≡◌, refl, ℤ, pos, negsuc, max_ℤ, min_ℤ, List, [], ◌∷◌, length, int_laws,
}
use mathlib.Core.List.{Permᴰ}
use the_grid_x.Database.Schema.{Db, Job}
use the_grid_x.Database.Listing.{limit_rows, clamp_limit, created_later, db_list_recent_jobs}

in_range : (z : ℤ) → pos 1 ≤ℤ z → z ≤ℤ pos 500 → (n : ℕ) × (z ≡ pos n) × (n ≤ 500)
in_range (pos n) low high = (n, refl, omega (int_laws, high))
in_range (negsuc n) low high = absurd (omega (int_laws, low))

-- A limit that is clamped is a number of at most 500.
clamped : (limit : ℤ) → (n : ℕ) × (clamp_limit limit ≡ pos n) × (n ≤ 500)
unfolding clamp_limit
clamped limit =
    in_range (max_ℤ (pos 1) (min_ℤ limit (pos 500))) (le_max_left (pos 1) (min_ℤ limit (pos 500))) (
      max_le (pos 1) (min_ℤ limit (pos 500)) (pos 500) (omega int_laws)
        (min_le_right limit (pos 500)))

length-take :
    {A : Type 0} (n : ℕ) (xs : List A) → pos (length (take n xs)) ≡ min_ℤ (pos (length xs)) (pos n)
unfolding min_ℤ
length-take zero xs = ground arith
length-take (suc n) [] = ground arith
length-take (suc n) (x ∷ xs) = ground (arith, length-take n xs)

abbrev pub created_at : Text × Job → ℕ
created_at row = row.1.created_at

-- `db_list_recent_jobs` returns as many rows of the table as its limit says, counted as 1 where it is
-- less and as 500 where it is more, or all where the table has fewer; the job that was created last
-- is in front, and no job that is left out was created after one that is returned.
pub db_list_recent_jobs-IsDescending :
    (limit : ℤ) (db : Db)
    → (left_out : List (Text × Job)) × Permᴰ (db_list_recent_jobs limit db ++ left_out) db.jobs
      × IsDescending created_at (db_list_recent_jobs limit db ++ left_out)
      × (pos (length (db_list_recent_jobs limit db))
          ≡ min_ℤ (pos (length db.jobs)) (max_ℤ (pos 1) (min_ℤ limit (pos 500))))
unfolding db_list_recent_jobs limit_rows clamp_limit
db_list_recent_jobs-IsDescending limit db =
    let (n, same, small) = clamped limit in
    let sorted = order_by created_later db.jobs in
    let size = length-order_by created_later db.jobs in
    rw (same, limit_rows)
      (
        drop n sorted,
        rw (append-take-drop n sorted) (order_by-Permᴰ created_later db.jobs),
        rw (append-take-drop n sorted) (order_by-IsDescending created_at db.jobs),
        length-take n sorted ∙ ap (λ k. min_ℤ (pos k) (pos n)) size,
      )
