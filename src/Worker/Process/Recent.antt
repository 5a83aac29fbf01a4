-- ===== src/Worker/Process/Recent.antt =====
-- worker/main.py: what `ActivityLogger` keeps.
use the_grid_x.Base.{
  ℕ, zero, suc, ◌+◌, ◌-◌, ◌≤◌, ◌<◌, ltb, ◌≡◌, refl, sym, ap, ◌∙◌, List, [], ◌∷◌, ◌++◌, length, drop,
  length-append, arith, Bool-cases, inl, inr,
}
use mathlib.Core.List.{append-nil, append_assoc}
use the_grid_x.Worker.Process.Activity.{
  LogEntry, ActivityLogger, new_logger, last_items, add_entry, get_recent,
}

module _ {A : Type 0} where
  -- The last `n` of a list.
  abbrev pub suffix : ℕ → List A → List A
  suffix n xs = drop (length xs - n) xs

  length-drop : (k : ℕ) (xs : List A) → length (drop k xs) ≡ length xs - k
  length-drop zero xs = omega arith
  length-drop (suc k) [] = omega arith
  length-drop (suc k) (x ∷ xs) = omega (arith, length-drop k xs)

  drop-append : (k : ℕ) (xs ys : List A) → k ≤ length xs → drop k (xs ++ ys) ≡ drop k xs ++ ys
  drop-append zero xs ys h = refl
  drop-append (suc k) [] ys h = absurd (omega arith)
  drop-append (suc k) (x ∷ xs) ys h = drop-append k xs ys (omega arith)

  drop-nil : (k : ℕ) → drop {A = A} k [] ≡ []
  drop-nil zero = refl
  drop-nil (suc k) = refl

  drop-drop : (j k : ℕ) (xs : List A) → drop j (drop k xs) ≡ drop (k + j) xs
  drop-drop j zero xs = ap (λ (n : ℕ). drop n xs) (omega arith)
  drop-drop j (suc k) [] = drop-nil j ∙ sym (drop-nil (suc k + j))
  drop-drop j (suc k) (x ∷ xs) =
      drop-drop j k xs
      ∙ ap (λ (n : ℕ). drop n (x ∷ xs)) (let e : suc (k + j) ≡ suc k + j = omega arith in e)

  suffix-suffix_append :
      (n : ℕ) (xs : List A) (x : A) → suffix n (suffix n xs ++ x ∷ []) ≡ suffix n (xs ++ x ∷ [])
  suffix-suffix_append n xs x =
      let k : ℕ = length xs - n in
      let j : ℕ = length (suffix n xs ++ x ∷ []) - n in
      ap (drop j) (sym (drop-append k xs (x ∷ []) (omega arith)))
      ∙ drop-drop j k (xs ++ x ∷ [])
      ∙ ap (λ (i : ℕ). drop i (xs ++ x ∷ []))
          (omega (
            arith,
            length-append (suffix n xs) (x ∷ []),
            length-append xs (x ∷ []),
            length-drop k xs,
          ))

  suffix-suffix : (c n : ℕ) (xs : List A) → c ≤ n → suffix c (suffix n xs) ≡ suffix c xs
  suffix-suffix c n xs le =
      drop-drop (length (suffix n xs) - c) (length xs - n) xs
      ∙ ap (λ (i : ℕ). drop i xs) (omega (arith, length-drop (length xs - n) xs))

  last_items-suffix : (n : ℕ) (xs : List A) → 0 < n → last_items n xs ≡ suffix n xs
  unfolding last_items
  last_items-suffix zero xs h = absurd (omega arith)
  last_items-suffix (suc n) xs h = ground arith

-- The entries, one after the other.
abbrev pub add_all : List LogEntry → ActivityLogger → ActivityLogger
add_all [] l = l
add_all (e ∷ es) l = add_all es (add_entry e l)

add_entry-suffix :
    (e : LogEntry) (l : ActivityLogger)
    → 0 < l.max_entries
    → (add_entry e l).log ≡ suffix l.max_entries (l.log ++ e ∷ [])
unfolding add_entry
add_entry-suffix e l h = elim (Bool-cases (ltb l.max_entries (length (l.log ++ e ∷ [])))) [
  | inl longer ↦ rw longer (last_items-suffix l.max_entries (l.log ++ e ∷ []) h)
  | inr short ↦
      let fits : length (l.log ++ e ∷ []) - l.max_entries ≡ 0 = ground arith in
      rw short (rw fits refl)
]

add_entry-max_entries :
    (e : LogEntry) (l : ActivityLogger) → (add_entry e l).max_entries ≡ l.max_entries
unfolding add_entry
add_entry-max_entries e l = refl

add_all_from :
    (n : ℕ) (es before : List LogEntry) (l : ActivityLogger)
    → 0 < n
    → l.max_entries ≡ n
    → l.log ≡ suffix n before
    → (add_all es l).log ≡ suffix n (before ++ es)
add_all_from n [] before l h m e = e ∙ ap (suffix n) (sym (append-nil before))
add_all_from n (x ∷ es) before l h m e =
    let next : (add_entry x l).log ≡ suffix n (before ++ x ∷ []) =
      add_entry-suffix x l (omega (arith, m))
      ∙ ap (λ (k : ℕ). suffix k (l.log ++ x ∷ [])) m
      ∙ ap (λ (log : List LogEntry). suffix n (log ++ x ∷ [])) e
      ∙ suffix-suffix_append n before x in
    add_all_from n es (before ++ x ∷ []) (add_entry x l) h (add_entry-max_entries x l ∙ m) next
    ∙ ap (suffix n) (append_assoc before (x ∷ []) es)

-- Of all the entries that were added to a new log, `get_recent` gives the last `count`, the latest
-- at the end, for a count that is neither 0 nor above the log's size.
pub get_recent-suffix :
    (max_entries count : ℕ) (es : List LogEntry)
    → 0 < count
    → count ≤ max_entries
    → get_recent count (add_all es (new_logger max_entries)) ≡ suffix count es
unfolding get_recent
get_recent-suffix max_entries count es h le =
    last_items-suffix count _ h
    ∙ ap (suffix count) (
        add_all_from max_entries es [] (new_logger max_entries) (omega arith) refl
          (sym (drop-nil (0 - max_entries))))
    ∙ suffix-suffix count max_entries es le
