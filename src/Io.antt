-- ===== src/Io.antt =====
-- Code that changes the world outside and may throw: a function from a world to the world it leaves
-- and a value or an exception.
pub mod Laws
use message_pusher.Base.{Bool, true, false}
use message_pusher.Result.{Error, Result, ok, err}

abbrev pub Io : Type 0 → Type 0 → Type 0
Io World A = World → World × Result A

module _ {World : Type 0} where
  abbrev pub continue_with : {A B : Type 0} → (A → Io World B) → World × Result A → World × Result B
  continue_with next (w, err thrown) = (w, err thrown)
  continue_with next (w, ok value) = next value w

  infixl 5 ◌>>=◌ ◌>>◌
  abbrev pub ◌>>=◌ : {A B : Type 0} → Io World A → (A → Io World B) → Io World B
  ◌>>=◌ first next w = continue_with next (first w)

  abbrev pub ◌>>◌ : {A B : Type 0} → Io World A → Io World B → Io World B
  ◌>>◌ first rest w = continue_with (λ _. rest) (first w)

  -- `return value`, `throw error`
  abbrev pub give : {A : Type 0} → A → Io World A
  give value w = (w, ok value)

  abbrev pub throw : {A : Type 0} → Error → Io World A
  throw error w = (w, err error)

  -- A step that cannot throw.
  abbrev pub always : {A : Type 0} → (World → World × A) → Io World A
  always step w = let (w', value) = step w in (w', ok value)

  -- A look at the world.
  abbrev pub look : {A : Type 0} → (World → A) → Io World A
  look see w = (w, ok (see w))

  -- A computation that only may throw.
  abbrev pub lift : {A : Type 0} → Result A → Io World A
  lift result w = (w, result)
