-- ===== src/Io/Laws.antt =====
-- What a sequence of steps that returned has done.
use message_pusher.Base.{◌≡◌, refl}
use message_pusher.Result.{Result, ok, err}
use message_pusher.Io.{Io, continue_with, ◌>>=◌}

module _ {World : Type 0} {A B : Type 0} where
  continue_with-eq-ok :
      (next : A → Io World B) (m : World × Result A) {b : B}
      → (continue_with next m).1 ≡ ok b
      → (a : A) × (m.1 ≡ ok a)
        × ((next a m.0).1 ≡ ok b)
        × ((continue_with next m).0 ≡ (next a m.0).0)
  continue_with-eq-ok next (w, err thrown) h = cc
  continue_with-eq-ok next (w, ok a) h = (a, refl, h, refl)

  -- The first step has returned a value, and the rest has run with it in the world it left.
  pub >>=-eq-ok :
      (first : Io World A) (next : A → Io World B) (w : World) {b : B}
      → ((first >>= next) w).1 ≡ ok b
      → (a : A) × ((first w).1 ≡ ok a)
        × ((next a (first w).0).1 ≡ ok b)
        × (((first >>= next) w).0 ≡ (next a (first w).0).0)
  >>=-eq-ok first next w h = continue_with-eq-ok next (first w) h
