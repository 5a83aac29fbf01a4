-- ===== src/Worker/Exec/Keeps.antt =====
-- What methods leave as it is, one rule for each way to build a method.
use the_grid_x.Base.{◌≡◌, refl, sym, subst, Bool, true, false, Option, none, some, if◌then◌else◌}
use the_grid_x.Worker.Exec.{
  Failure, Attempt, returned, raised, Exec, pure, raise, answered, gets, change, done, within,
  continue, ◌>>=◌,
}

-- Where `P` was true before `m`, it is afterwards, by a return or by an exception.
pub record Keeps {S A : Type 0} (P : S → Type 0) (m : Exec S A) : Type 0 where
  pub after : (s : S) → P s → P (m s).1

module _ {S A : Type 0} {P : S → Type 0} where
  -- A test that only chooses between two methods.
  pub Keeps-if : (b : Bool) (m n : Exec S A) → Keeps P m → Keeps P n → Keeps P (if b then m else n)
  Keeps-if true _ _ taken other = taken
  Keeps-if false _ _ taken other = other

  -- What does not touch the state keeps whatever holds of it.
  Keeps-still : (m : Exec S A) → ((s : S) → (m s).1 ≡ s) → Keeps P m
  Keeps-still m still = record { after = λ s p. subst P (sym (still s)) p }

  pub Keeps-answered : (r : Attempt A) → Keeps P (answered r)
  unfolding answered
  Keeps-answered r = Keeps-still (answered r) (λ _. refl)

  pub Keeps-gets : (f : S → A) → Keeps P (gets f)
  unfolding gets
  Keeps-gets f = Keeps-still (gets f) (λ _. refl)

  pub Keeps-raise : (e : Failure) → Keeps P (raise {A = A} e)
  unfolding raise
  Keeps-raise e = Keeps-still (raise e) (λ _. refl)

  pub Keeps-pure : (a : A) → Keeps P (pure a)
  unfolding pure
  Keeps-pure a = Keeps-still (pure a) (λ _. refl)

module _ {S : Type 0} {P : S → Type 0} where
  pub Keeps-change : (f : S → S) → ((s : S) → P s → P (f s)) → Keeps P (change f)
  unfolding change
  Keeps-change f h = record { after = h }

  pub Keeps-done : (e : Option Failure) → Keeps P (done e)
  unfolding done
  Keeps-done none = record { after = λ _ p. p }
  Keeps-done (some e) = record { after = λ _ p. p }

module _ {S A B : Type 0} {P : S → Type 0} where
  Keeps-continue :
      (r : Attempt A × S) (f : A → Exec S B)
      → P r.1
      → ((a : A) → Keeps P (f a))
      → P (continue r f).1
  Keeps-continue (returned a, s) f h k = (k a).after s h
  Keeps-continue (raised e, s) f h k = h

  -- Both parts of a sequence keep it, the second for each value of the first.
  pub Keeps-bind :
      (first : Exec S A) (then_by : A → Exec S B)
      → Keeps P first
      → ((a : A) → Keeps P (then_by a))
      → Keeps P (first >>= then_by)
  unfolding ◌>>=◌
  Keeps-bind m f h k = record { after = λ s p. Keeps-continue (m s) f (h.after s p) k }

-- A method of a part of the state keeps what is said of that part.
module _ {S T A : Type 0} {P : T → Type 0} where
  pub Keeps-within :
      (part : S → T) (put_back : T → S → S) (m : Exec T A)
      → ((t : T) (s : S) → P t → P (part (put_back t s)))
      → Keeps P m
      → Keeps (λ s. P (part s)) (within part put_back m)
  unfolding within
  Keeps-within part put_back m h k = record {
    after = λ s p. h (m (part s)).1 s (k.after (part s) p);
  }

pub ruleset keeps_rules =
    (Keeps-bind, Keeps-done, Keeps-if, Keeps-gets, Keeps-raise, Keeps-answered, Keeps-pure)
