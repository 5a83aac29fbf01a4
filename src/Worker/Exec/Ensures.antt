-- ===== src/Worker/Exec/Ensures.antt =====
-- What holds behind a method, as it returns or as it raises.
use the_grid_x.Base.{◌≡◌, sym, subst, Option, none, some, Bool, true, false, if◌then◌else◌}
use the_grid_x.Worker.Exec.{
  Failure, Attempt, returned, raised, Exec, pure, raise, answered, gets, change, done, within,
  continue, restore, ◌>>=◌,
}
use the_grid_x.Worker.Exec.Keeps.{Keeps}

module _ {S A : Type 0} where
  -- `Q` of a value and the state beside it, `E` of the state beside an exception.
  abbrev pub Post : (A → S → Type 0) → (S → Type 0) → Attempt A × S → Type 0
  Post Q E (returned a, s) = Q a s
  Post Q E (raised e, s) = E s

  pub record Ensures (P : S → Type 0) (m : Exec S A) (Q : A → S → Type 0) (E : S → Type 0)
      : Type 0 where
    pub at : (s : S) → P s → Post Q E (m s)

  of_state : (Q : S → Type 0) (r : Attempt A × S) → Q r.1 → Post (λ _ s. Q s) Q r
  of_state Q (returned a, s) h = h
  of_state Q (raised e, s) h = h

  pub Ensures-Keeps : {P : S → Type 0} (m : Exec S A) → Keeps P m → Ensures P m (λ _ s. P s) P
  Ensures-Keeps {P} m k = record { at = λ s p. of_state P (m s) (k.after s p) }

  both_of : (E : S → Type 0) (r : Attempt A × S) → Post (λ _ s. E s) E r → E r.1
  both_of E (returned a, s) h = h
  both_of E (raised e, s) h = h

  pub Ensures-both :
      {P E : S → Type 0} (m : Exec S A) → Ensures P m (λ _ s. E s) E → (s : S) → P s → E (m s).1
  Ensures-both {P} {E} m h s p = both_of E (m s) (h.at s p)

  pub Ensures-pure :
      {P : S → Type 0} (Q : A → S → Type 0) (E : S → Type 0) (a : A)
      → ((s : S) → P s → Q a s)
      → Ensures P (pure a) Q E
  unfolding pure
  Ensures-pure Q E a h = record { at = h }

  -- What the state does not matter for.
  pub Ensures-fact :
      {P : S → Type 0} (C : Type 0) (Q : A → S → Type 0) (E : S → Type 0) (m : Exec S A)
      → (C → Ensures P m Q E)
      → Ensures (λ s. C × P s) m Q E
  Ensures-fact C Q E m h = record { at = λ s p. (h p.0).at s p.1 }

  pub Ensures-gets :
      {P : S → Type 0} (Q : A → S → Type 0) (E : S → Type 0) (f : S → A)
      → ((s : S) → P s → Q (f s) s)
      → Ensures P (gets f) Q E
  unfolding gets
  Ensures-gets Q E f h = record { at = h }

  pub Ensures-raise : {P : S → Type 0} (Q : A → S → Type 0) (e : Failure) → Ensures P (raise e) Q P
  unfolding raise
  Ensures-raise Q e = record { at = λ s p. p }

  pub Ensures-if :
      {P : S → Type 0} (Q : A → S → Type 0) (E : S → Type 0) (b : Bool) (m n : Exec S A)
      → Ensures P m Q E
      → Ensures P n Q E
      → Ensures P (if b then m else n) Q E
  Ensures-if Q E true m n h k = h
  Ensures-if Q E false m n h k = k

module _ {S : Type 0} where
  pub Ensures-change :
      {P : S → Type 0} (Q : Unit {0} → S → Type 0) (E : S → Type 0) (f : S → S)
      → ((s : S) → P s → Q tt (f s))
      → Ensures P (change f) Q E
  unfolding change
  Ensures-change Q E f h = record { at = h }

-- Calls that do not raise.
module _ {S : Type 0} {P : S → Type 0} (E : S → Type 0) where
  pub Ensures-done : (e : Option Failure) → e ≡ none → Ensures P (done e) (λ _ s. P s) E
  unfolding done
  Ensures-done none h = record { at = λ s p. p }
  Ensures-done (some e) h = absurd (cc)

  pub Ensures-answered :
      {A : Type 0} (r : Attempt A) (a : A)
      → r ≡ returned a
      → Ensures P (answered r) (λ b s. (b ≡ a) × P s) E
  unfolding answered
  Ensures-answered (returned b) a h = record { at = λ s p. (of_returned h, p) }
    where
      of_returned : {A : Type 0} {b a : A} → returned b ≡ returned a → b ≡ a
      of_returned h = cc
  Ensures-answered (raised e) a h = absurd (cc)

module _ {S A : Type 0} (Q R : A → S → Type 0) (E F : S → Type 0) where
  Post-weaken :
      (r : Attempt A × S)
      → ((a : A) (s : S) → Q a s → R a s)
      → ((s : S) → E s → F s)
      → Post Q E r
      → Post R F r
  Post-weaken (returned a, s) f g h = f a s h
  Post-weaken (raised e, s) f g h = g s h

  pub Ensures-weaken :
      {P : S → Type 0} (m : Exec S A)
      → ((a : A) (s : S) → Q a s → R a s)
      → ((s : S) → E s → F s)
      → Ensures P m Q E
      → Ensures P m R F
  Ensures-weaken m f g h = record { at = λ s p. Post-weaken (m s) f g (h.at s p) }

-- What a method of a part of the state ensures of that part.
module _ {S T A : Type 0} (part : S → T) (put_back : T → S → S)
    (reads : (t : T) (s : S) → part (put_back t s) ≡ t) (Q : A → T → Type 0) (E : T → Type 0) where
  Post-part :
      (s : S) (r : Attempt A × T)
      → Post Q E r
      → Post (λ a u. Q a (part u)) (λ u. E (part u)) (restore {A = A} part put_back s r)
  Post-part s (returned a, t) h = subst (Q a) (sym (reads t s)) h
  Post-part s (raised e, t) h = subst E (sym (reads t s)) h

  pub Ensures-part :
      {P : T → Type 0} (m : Exec T A)
      → Ensures P m Q E
      → Ensures (λ s. P (part s)) (within part put_back m) (λ a s. Q a (part s)) (λ s. E (part s))
  unfolding within
  Ensures-part m h = record { at = λ s p. Post-part s (m (part s)) (h.at (part s) p) }

-- A method of a part of the state leaves what holds of the rest.
module _ {S T A : Type 0} (part : S → T) (put_back : T → S → S) (F : S → Type 0)
    (stays : (t : T) (s : S) → F s → F (put_back t s))
    (reads : (t : T) (s : S) → part (put_back t s) ≡ t) where
  Post-restore :
      (Q : A → T → Type 0) (E : T → Type 0) (s : S) (r : Attempt A × T)
      → F s
      → Post Q E r
      → Post (λ a u. F u × Q a (part u)) (λ u. F u × E (part u)) (restore {A = A} part put_back s r)
  Post-restore Q E s (returned a, t) f h = (stays t s f, subst (Q a) (sym (reads t s)) h)
  Post-restore Q E s (raised e, t) f h = (stays t s f, subst E (sym (reads t s)) h)

  pub Ensures-within :
      {P : T → Type 0} (Q : A → T → Type 0) (E : T → Type 0) (m : Exec T A)
      → Ensures P m Q E
      → Ensures
          (λ s. F s × P (part s))
          (within part put_back m)
          (λ a s. F s × Q a (part s))
          (λ s. F s × E (part s))
  unfolding within
  Ensures-within Q E m h = record {
    at = λ s p. Post-restore Q E s (m (part s)) p.0 (h.at (part s) p.1);
  }

module _ {S A B : Type 0} (P : S → Type 0) (Q : A → S → Type 0) (R : B → S → Type 0)
    (E : S → Type 0) where
  Post-continue :
      (r : Attempt A × S) (f : A → Exec S B)
      → Post Q E r
      → ((a : A) → Ensures (Q a) (f a) R E)
      → Post R E (continue r f)
  Post-continue (returned a, s) f h k = (k a).at s h
  Post-continue (raised e, s) f h k = h

  pub Ensures-bind :
      (m : Exec S A) (f : A → Exec S B)
      → Ensures P m Q E
      → ((a : A) → Ensures (Q a) (f a) R E)
      → Ensures P (m >>= f) R E
  unfolding ◌>>=◌
  Ensures-bind m f h k = record { at = λ s p. Post-continue (m s) f (h.at s p) k }
