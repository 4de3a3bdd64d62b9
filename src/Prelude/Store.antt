-- ===== src/Prelude/Store.antt =====
-- Objects that several names share: a list of them, and a name is a place in it.
use Prim.Native.Nat.{ℕ, zero, suc, ◌<◌}
use mathlib.Core.Path.{◌≡◌, refl}
use mathlib.Core.Option.{Option, none, some}
use mathlib.Core.List.{List, [], ◌∷◌, ◌++◌}
use native.Mathlib.Omega.{arith}
use roostos.Prelude.Tests.{eqb, if◌then◌else◌}
use roostos.Prelude.Lists.{length}

module _ {ℓ} {A : Type ℓ} where
  unfoldable pub get_elem? : List A → ℕ → Option A
  get_elem? [] n = none
  get_elem? (x ∷ xs) zero = some x
  get_elem? (x ∷ xs) (suc n) = get_elem? xs n

  -- The object at a place is replaced by what the function makes of it.
  unfoldable pub modify : ℕ → (A → A) → List A → List A
  modify n f [] = []
  modify zero f (x ∷ xs) = f x ∷ xs
  modify (suc n) f (x ∷ xs) = x ∷ modify n f xs

  -- What a function makes of an object that may be missing.
  abbrev pub changed : (A → A) → Option A → Option A
  changed f none = none
  changed f (some x) = some (f x)

  pub get_elem?-append :
      (xs : List A) (y : A) (n : ℕ)
      → get_elem? (xs ++ y ∷ []) n ≡ (if eqb n (length xs) then some y else get_elem? xs n)
  unfolding get_elem?
  get_elem?-append [] y zero = refl
  get_elem?-append [] y (suc n) = ground arith
  get_elem?-append (x ∷ xs) y zero = ground arith
  get_elem?-append (x ∷ xs) y (suc n) = ground (arith, get_elem?-append xs y n)

  pub get_elem?-modify :
      (n m : ℕ) (f : A → A) (xs : List A)
      → get_elem? (modify n f xs) m
        ≡ (if eqb n m then changed f (get_elem? xs m) else get_elem? xs m)
  unfolding get_elem? modify
  get_elem?-modify n m f [] = ground arith
  get_elem?-modify zero zero f (x ∷ xs) = refl
  get_elem?-modify zero (suc m) f (x ∷ xs) = ground arith
  get_elem?-modify (suc n) zero f (x ∷ xs) = ground arith
  get_elem?-modify (suc n) (suc m) f (x ∷ xs) = ground (arith, get_elem?-modify n m f xs)

  pub get_elem?-below : (xs : List A) (n : ℕ) (x : A) → get_elem? xs n ≡ some x → n < length xs
  unfolding get_elem?
  get_elem?-below [] n x h = cc
  get_elem?-below (y ∷ xs) zero x h = omega arith
  get_elem?-below (y ∷ xs) (suc n) x h = omega (arith, get_elem?-below xs n x h)

  pub length-modify : (n : ℕ) (f : A → A) (xs : List A) → length (modify n f xs) ≡ length xs
  unfolding modify
  length-modify n f [] = refl
  length-modify zero f (x ∷ xs) = refl
  length-modify (suc n) f (x ∷ xs) = omega (arith, length-modify n f xs)
