-- ===== src/Prelude/Lists.antt =====
-- Lists and sets. A Python set is a list of its members in some order, and is read by `has`.
use Prim.Native.Nat.{ℕ, zero, suc, ◌+◌, ◌≤◌}
use Prim.Native.String.{String}
use text.Mathlib.Text.{◌==◌}
use text.Mathlib.TextEquality.{eq_iff}
use mathlib.Core.Path.{◌≡◌, refl, ap}
use mathlib.Core.Logic.{inl, inr}
use mathlib.Core.Bool.{Bool, true, false, not, ◌&&◌, ◌||◌}
use mathlib.Core.Option.{Option, none, some}
use mathlib.Core.List.{List, [], ◌∷◌, ◌++◌}
use native.Mathlib.Omega.{arith}
use roostos.Prelude.Tests.{Bool-cases, if◌then◌else◌}

module _ {ℓ} {A : Type ℓ} where
  abbrev pub length : List A → ℕ
  length [] = 0
  length (x ∷ xs) = suc (length xs)

  -- `xs[:n]`
  unfoldable pub take : ℕ → List A → List A
  take zero xs = []
  take (suc n) [] = []
  take (suc n) (x ∷ xs) = x ∷ take n xs

  -- `any(p(x) for x in xs)`
  unfoldable pub any : (A → Bool) → List A → Bool
  any p [] = false
  any p (x ∷ xs) = p x || any p xs

  -- `all(p(x) for x in xs)`
  unfoldable pub all : (A → Bool) → List A → Bool
  all p [] = true
  all p (x ∷ xs) = p x && all p xs

  -- `[x for x in xs if p(x)]`
  unfoldable pub keep : (A → Bool) → List A → List A
  keep p [] = []
  keep p (x ∷ xs) = let rest = keep p xs in if p x then x ∷ rest else rest

  -- `next((x for x in xs if p(x)), None)`
  unfoldable pub first : (A → Bool) → List A → Option A
  first p [] = none
  first p (x ∷ xs) = if p x then some x else first p xs

  -- `[y for x in xs for y in f(x)]`
  unfoldable pub flat {κ} : {B : Type κ} → (A → List B) → List A → List B
  flat f [] = []
  flat f (x ∷ xs) = f x ++ flat f xs

  -- What follows from each member that passes a test follows where one does.
  pub any_elim {κ} :
      {Q : Type κ} (p : A → Bool) (xs : List A) → ((x : A) → p x ≡ true → Q) → any p xs ≡ true → Q
  unfolding any
  any_elim p [] f h = absurd (ground arith)
  any_elim p (x ∷ xs) f h = elim (Bool-cases (p x)) [
    | inl e ↦ f x e
    | inr e ↦ any_elim p xs f (rw e at h)
  ]

-- `x in xs`, for a list or a set of texts
unfoldable pub has : String → List String → Bool
has a [] = false
has a (x ∷ xs) = x == a || has a xs

-- What all members pass a member passes.
pub all-has :
    (p : String → Bool) (a : String) (xs : List String)
    → all p xs ≡ true
    → has a xs ≡ true
    → p a ≡ true
unfolding all has
all-has p a [] h e = absurd (ground (arith, e))
all-has p a (x ∷ xs) h e = elim (Bool-cases (x == a)) [
  | inl q ↦ let same : p x ≡ p a = ap p ((eq_iff x a).0 q) in ground (arith, same, h)
  | inr q ↦ all-has p a xs (ground (arith, h)) (ground (arith, e, q))
]

-- `s.add(a)`
unfoldable pub add : String → List String → List String
unfolding has
add a s = if has a s then s else s ++ a ∷ []

-- `s.discard(a)`; `s.remove(a)` where `a` is in `s`
unfoldable pub discard : String → List String → List String
discard a [] = []
discard a (x ∷ xs) = let rest = discard a xs in if x == a then rest else x ∷ rest

-- `s - t`
unfoldable pub minus : List String → List String → List String
unfolding has
minus [] t = []
minus (x ∷ xs) t = let rest = minus xs t in if has x t then rest else x ∷ rest

-- `s.update(xs)`
unfoldable pub update : List String → List String → List String
unfolding add
update s [] = s
update s (x ∷ xs) = update (add x s) xs

pub has-append : (a : String) (s t : List String) → has a (s ++ t) ≡ (has a s || has a t)
unfolding has
has-append a [] t = refl
has-append a (x ∷ s) t = ground (arith, has-append a s t)

pub has-add : (a b : String) (s : List String) → has b (add a s) ≡ (a == b || has b s)
unfolding add has
has-add a b s = ground (arith, has-append b s (a ∷ []), eq_iff a b)

pub has-discard : (a b : String) (s : List String) → has b (discard a s) ≡ (has b s && not (a == b))
unfolding has discard
has-discard a b [] = refl
has-discard a b (x ∷ s) = ground (arith, has-discard a b s, eq_iff x a, eq_iff x b, eq_iff a b)

pub has-minus : (a : String) (s t : List String) → has a (minus s t) ≡ (has a s && not (has a t))
unfolding has minus
has-minus a [] t = refl
has-minus a (x ∷ s) t = ground (arith, has-minus a s t, eq_iff x a)

pub has-update : (a : String) (s xs : List String) → has a (update s xs) ≡ (has a s || has a xs)
unfolding has update
has-update a s [] = ground arith
has-update a s (x ∷ xs) = ground (arith, has-update a (add x s) xs, has-add x a s)

-- How often a text stands in a list.
unfoldable pub count : String → List String → ℕ
count a [] = 0
count a (x ∷ xs) = (if x == a then 1 else 0) + count a xs

-- A list that stands for a set: no member twice.
pub record Distinct (s : List String) : Type 0 where
  pub once : (a : String) → count a s ≤ 1

pub count-append : (a : String) (s t : List String) → count a (s ++ t) ≡ count a s + count a t
unfolding count
count-append a [] t = omega arith
count-append a (x ∷ s) t = omega (arith, count-append a s t)

pub count_of_absent : (a : String) (s : List String) → has a s ≡ false → count a s ≡ 0
unfolding count has
count_of_absent a [] h = refl
count_of_absent a (x ∷ s) h = ground (arith, count_of_absent a s)

pub count_of_member : (a : String) (s : List String) → has a s ≡ true → 1 ≤ count a s
unfolding count has
count_of_member a [] h = cc
count_of_member a (x ∷ s) h = ground (arith, count_of_member a s)

pub Distinct-nil : Distinct []
unfolding count
Distinct-nil = record { once = λ a. omega arith }

pub Distinct-tail : (x : String) (s : List String) → Distinct (x ∷ s) → Distinct s
unfolding count
Distinct-tail x s h = record { once = λ a. omega (arith, h.once a) }

pub Distinct-head :
    (x a : String) (s : List String) → Distinct (x ∷ s) → (x == a) ≡ true → has a s ≡ false
unfolding count has
Distinct-head x a s h e = ground (arith, h.once a, count_of_member a s)

pub Distinct-add : (a : String) (s : List String) → Distinct s → Distinct (add a s)
unfolding add count
Distinct-add a s h = record {
  once = λ b. ground (arith, h.once b, count-append b s (a ∷ []), count_of_absent a s, eq_iff a b);
}
