-- ===== src/Worker/Exec.antt =====
-- A Python method that may raise: it gives its value or its exception, and beside either the state
-- that it leaves.
pub mod Keeps
pub mod Ensures
use the_grid_x.Base.{Option, none, some, Text}

-- An exception: asyncio's `TimeoutError`, or any other with its message.
pub data Failure : Type 0 where
  timed_out : Failure
  failure : (message : Text) → Failure

pub data Attempt (A : Type 0) : Type 0 where
  returned : A → Attempt A
  raised : Failure → Attempt A

abbrev pub Exec : Type 0 → Type 0 → Type 0
Exec S A = S → Attempt A × S

module _ {S : Type 0} where
  unfoldable pub change : (S → S) → Exec S (Unit {0})
  change f s = (returned tt, f s)

  -- A call that gives nothing, by the exception that it raises, if any.
  unfoldable pub done : Option Failure → Exec S (Unit {0})
  done none s = (returned tt, s)
  done (some e) s = (raised e, s)

module _ {S A : Type 0} where
  -- A call that gives a value or raises, and leaves the state alone.
  unfoldable pub answered : Attempt A → Exec S A
  answered answer s = (answer, s)

  unfoldable pub gets : (S → A) → Exec S A
  gets read s = (returned (read s), s)

  unfoldable pub raise : Failure → Exec S A
  raise e s = (raised e, s)

  unfoldable pub pure : A → Exec S A
  pure a s = (returned a, s)

module _ {S A B : Type 0} where
  abbrev pub continue : Attempt A × S → (A → Exec S B) → Attempt B × S
  continue (returned a, s) f = f a s
  continue (raised e, s) f = (raised e, s)

  infixl 10 ◌>>=◌ ◌>>◌
  unfoldable pub ◌>>=◌ : Exec S A → (A → Exec S B) → Exec S B
  ◌>>=◌ m f s = continue (m s) f

  abbrev pub ◌>>◌ : Exec S A → Exec S B → Exec S B
  m >> n = m >>= λ _. n

-- A method of a part of the state.
module _ {S T A : Type 0} (part : S → T) (put_back : T → S → S) where
  abbrev pub restore : S → Attempt A × T → Attempt A × S
  restore s (r, t) = (r, put_back t s)

  unfoldable pub within : Exec T A → Exec S A
  within m s = restore s (m (part s))
