-- ===== src/Prelude/Logged.antt =====
-- A method that makes calls of the outside: what it returns or raises, and the calls that it has made
-- by then, in their order.
use mathlib.Core.Path.{◌≡◌, refl, ap}
use mathlib.Core.List.{List, [], ◌∷◌, ◌++◌}
use rpa_group.Prelude.Errors.{Error, Result, ok, err, ok_injective}

abbrev pub Logged : Type 0 → Type 0 → Type 0
Logged W A = Result A × List W

module _ {W A : Type 0} where
  abbrev pub pure : A → Logged W A
  pure a = (ok a, [])

  abbrev pub raise : Error → Logged W A
  raise e = (err e, [])

  abbrev pub lift : Result A → Logged W A
  lift r = (r, [])

  -- A call, which is made whether or not it raises.
  abbrev pub call : W → Result A → Logged W A
  call w r = (r, w ∷ [])

  -- A call in a `try`, whose exception the block then looks at.
  abbrev pub tried : W → Result A → Logged W (Result A)
  tried w r = (ok r, w ∷ [])

module _ {W A B : Type 0} where
  infixl 5 ◌>>=◌ ◌>>◌
  abbrev pub ◌>>=◌ : Logged W A → (A → Logged W B) → Logged W B
  (ok a, made) >>= f = let (r, more) = f a in (r, made ++ more)
  (err e, made) >>= f = (err e, made)

  abbrev pub ◌>>◌ : Logged W A → Logged W B → Logged W B
  m >> k = m >>= λ _. k

  -- A block that returns has returned from its first call, and has made the calls of both parts.
  pub >>=-returns :
      (m : Logged W A) (f : A → Logged W B) (b : B)
      → (m >>= f).0 ≡ ok b
      → (a : A) × (m.0 ≡ ok a) × ((f a).0 ≡ ok b) × ((m >>= f).1 ≡ m.1 ++ (f a).1)
  >>=-returns (ok a, made) f b h = (a, refl, h, refl)
  >>=-returns (err e, made) f b h = cc

  -- A block whose first call returns gives what its rest gives.
  pub >>=-goes_on :
      (m : Logged W A) (f : A → Logged W B) (a : A) → m.0 ≡ ok a → (m >>= f).0 ≡ (f a).0
  >>=-goes_on (ok b, made) f a h = ap (λ c. (f c).0) (ok_injective h)
  >>=-goes_on (err e, made) f a h = cc
