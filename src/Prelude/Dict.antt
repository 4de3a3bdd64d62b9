-- ===== src/Prelude/Dict.antt =====
-- A Python dict keyed by texts: its items in the order of insertion.
use Prim.Native.String.{String}
use text.Mathlib.Text.{◌==◌}
use text.Mathlib.TextEquality.{eq_iff}
use text.Mathlib.TextPositions.{eq_refl}
use mathlib.Core.Path.{◌≡◌, refl, ap, sym, ◌∙◌}
use mathlib.Core.Logic.{◌⊎◌, inl, inr}
use mathlib.Core.Bool.{Bool, true, false, ◌||◌}
use mathlib.Core.Option.{Option, none, some}
use mathlib.Core.List.{List, [], ◌∷◌, ◌++◌}
use native.Mathlib.Omega.{arith}
use roostos.Prelude.Tests.{Bool-cases, if◌then◌else◌, is_some}

abbrev pub Dict {ℓ} : Type ℓ → Type ℓ
Dict V = List (String × V)

module _ {ℓ} {V : Type ℓ} where
  -- `d.get(k)`
  unfoldable pub get : String → Dict V → Option V
  get k [] = none
  get k ((j, v) ∷ d) = if j == k then some v else get k d

  -- `k in d`
  abbrev pub contains : String → Dict V → Bool
  contains k d = is_some (get k d)

  -- `d[k] = v`: a key that is there keeps its place
  unfoldable pub put : String → V → Dict V → Dict V
  put k v [] = (k, v) ∷ []
  put k v ((j, w) ∷ d) = if j == k then (k, v) ∷ d else (j, w) ∷ put k v d

  -- `d.pop(k, None)`
  unfoldable pub pop : String → Dict V → Dict V
  pop k [] = []
  pop k ((j, w) ∷ d) = let rest = pop k d in if j == k then rest else (j, w) ∷ rest

  -- `d.update(e)`
  unfoldable pub merge : Dict V → Dict V → Dict V
  merge d [] = d
  merge d ((k, v) ∷ e) = merge (put k v d) e

  unfoldable pub keys : Dict V → List String
  keys [] = []
  keys ((k, _) ∷ d) = k ∷ keys d

  unfoldable pub values : Dict V → List V
  values [] = []
  values ((_, v) ∷ d) = v ∷ values d

  pub get-put :
      (k j : String) (v : V) (d : Dict V) → get j (put k v d) ≡ (if k == j then some v else get j d)
  unfolding get put
  get-put k j v [] = refl
  get-put k j v ((i, w) ∷ d) = ground (arith, eq_iff k j, eq_iff i k, eq_iff i j, get-put k j v d)

  pub get-pop : (k j : String) (d : Dict V) → get j (pop k d) ≡ (if k == j then none else get j d)
  unfolding get pop
  get-pop k j [] = ground arith
  get-pop k j ((i, w) ∷ d) = ground (arith, eq_iff k j, eq_iff i k, eq_iff i j, get-pop k j d)

  -- What stands under a key after a pop stood there before.
  pub get-pop-some :
      (k j : String) (v : V) (d : Dict V) → get j (pop k d) ≡ some v → get j d ≡ some v
  get-pop-some k j v d h = elim (Bool-cases (k == j)) [
    | inl e ↦ absurd (let q = sym (get-pop k j d) ∙ h in ground (arith, rw e at q))
    | inr e ↦ let q = sym (get-pop k j d) ∙ h in rw e at q
  ]

  -- What stands under a key after a put was put, or stood there before.
  pub get-put-some :
      (k j : String) (v w : V) (d : Dict V)
      → get j (put k v d) ≡ some w
      → ((k == j) ≡ true) × (v ≡ w) ⊎ (get j d ≡ some w)
  get-put-some k j v w d h = elim (Bool-cases (k == j)) [
    | inl e ↦ let q = sym (get-put k j v d) ∙ h in inl (e, (let p = rw e at q in cc))
    | inr e ↦ let q = sym (get-put k j v d) ∙ h in inr (rw e at q)
  ]

  pub get-put_self : (k : String) (v : V) (d : Dict V) → get k (put k v d) ≡ some v
  get-put_self k v d = ground (arith, get-put k k v d, eq_iff k k)

  pub contains-append :
      (k : String) (d e : Dict V) → contains k (d ++ e) ≡ (contains k d || contains k e)
  unfolding get
  contains-append k [] e = refl
  contains-append k ((j, w) ∷ d) e = elim (Bool-cases (j == k)) [
    | inl q ↦ rw q refl
    | inr q ↦ rw q (contains-append k d e)
  ]

  pub put-fresh :
      (k : String) (v : V) (d : Dict V) → contains k d ≡ false → put k v d ≡ d ++ (k, v) ∷ []
  unfolding get put
  put-fresh k v [] h = refl
  put-fresh k v ((j, w) ∷ d) h = elim (Bool-cases (j == k)) [
    | inl e ↦ absurd (ground (arith, h, e))
    | inr e ↦ rw e (ap (λ rest. (j, w) ∷ rest) (put-fresh k v d (rw e at h)))
  ]

pub ruleset dict_laws = (get-put, get-pop, eq_refl)
