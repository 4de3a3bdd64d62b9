-- ===== src/Prelude/Text.antt =====
-- The methods of `str` that the source uses, on the native texts. Case is that of ASCII.
use Prim.Native.Nat.{ℕ, zero, suc, ◌/◌, ◌%◌, ◌+◌, ◌≤◌, ◌<◌}
use Prim.Native.Char.{Char, code}
use Prim.Native.String
use Prim.Native.String.{String}
use Prim.Native.String.append
use text.Mathlib.Text.{◌==◌}
use mathlib.Core.Path.{◌≡◌, refl, sym, ap, ap₂}
use mathlib.Core.Logic.{◌≢◌, ◌⊎◌, inl, inr}
use mathlib.Core.Option.{Option, none, some}
use mathlib.Core.Bool.{Bool, true, false, ◌&&◌, ◌||◌}
use mathlib.Core.List.{List, [], ◌∷◌}
use native.Mathlib.Omega.{arith}
use roostos.Prelude.Tests.{eqb, ltb, or_else, Option-cases, if◌then◌else◌}

-- The capital letters with their small letters.
abbrev capitals : List (ℕ × Char)
capitals =
    (65, "a")
    ∷ (66, "b")
    ∷ (67, "c")
    ∷ (68, "d")
    ∷ (69, "e")
    ∷ (70, "f")
    ∷ (71, "g")
    ∷ (72, "h")
    ∷ (73, "i")
    ∷ (74, "j")
    ∷ (75, "k")
    ∷ (76, "l")
    ∷ (77, "m")
    ∷ (78, "n")
    ∷ (79, "o")
    ∷ (80, "p")
    ∷ (81, "q")
    ∷ (82, "r")
    ∷ (83, "s")
    ∷ (84, "t")
    ∷ (85, "u")
    ∷ (86, "v")
    ∷ (87, "w")
    ∷ (88, "x")
    ∷ (89, "y")
    ∷ (90, "z")
    ∷ []

lookup_code : ℕ → List (ℕ × Char) → Option Char
lookup_code n [] = none
lookup_code n ((m, c) ∷ t) = if eqb n m then some c else lookup_code n t

-- `c.lower()`
unfoldable pub lower_char : Char → Char
unfolding lookup_code
lower_char c = or_else (lookup_code (code c) capitals) c

-- `s.lower()`
unfoldable pub lower : String → String
unfolding lower_char
lower String.[] = String.[]
lower (String.◌∷◌ c s) = String.◌∷◌ (lower_char c) (lower s)

small : List (ℕ × Char)
small =
    (97, "A")
    ∷ (98, "B")
    ∷ (99, "C")
    ∷ (100, "D")
    ∷ (101, "E")
    ∷ (102, "F")
    ∷ (103, "G")
    ∷ (104, "H")
    ∷ (105, "I")
    ∷ (106, "J")
    ∷ (107, "K")
    ∷ (108, "L")
    ∷ (109, "M")
    ∷ (110, "N")
    ∷ (111, "O")
    ∷ (112, "P")
    ∷ (113, "Q")
    ∷ (114, "R")
    ∷ (115, "S")
    ∷ (116, "T")
    ∷ (117, "U")
    ∷ (118, "V")
    ∷ (119, "W")
    ∷ (120, "X")
    ∷ (121, "Y")
    ∷ (122, "Z")
    ∷ []

-- `s.upper()`
unfoldable pub upper : String → String
unfolding lookup_code small
upper String.[] = String.[]
upper (String.◌∷◌ c s) = String.◌∷◌ (or_else (lookup_code (code c) small) c) (upper s)

-- `s.replace(a, b)` of one character
unfoldable pub replace : ℕ → Char → String → String
replace a b String.[] = String.[]
replace a b (String.◌∷◌ c s) = String.◌∷◌ (if eqb (code c) a then b else c) (replace a b s)

-- `s.rstrip(ch)` of one character
unfoldable pub rstrip : ℕ → String → String
rstrip ch String.[] = String.[]
rstrip ch (String.◌∷◌ c s) =
    let rest = rstrip ch s in
    if eqb (code c) ch && is_nil rest then String.[] else String.◌∷◌ c rest
  where
    is_nil : String → Bool
    is_nil String.[] = true
    is_nil (String.◌∷◌ d t) = false

-- `s.startswith(prefix)`
unfoldable pub starts_with : String → String → Bool
starts_with String.[] s = true
starts_with (String.◌∷◌ c p) String.[] = false
starts_with (String.◌∷◌ c p) (String.◌∷◌ d s) =
    let rest = starts_with p s in
    if String.◌∷◌ c String.[] == String.◌∷◌ d String.[] then rest else false

-- `s.endswith(suffix)`
unfoldable pub ends_with : String → String → Bool
ends_with suffix String.[] = suffix == ""
ends_with suffix (String.◌∷◌ c s) = String.◌∷◌ c s == suffix || ends_with suffix s

-- `len(s)`, in characters
unfoldable pub size : String → ℕ
size String.[] = 0
size (String.◌∷◌ c s) = suc (size s)

unfoldable pub prepend : Char → List String → List String
prepend c [] = String.◌∷◌ c String.[] ∷ []
prepend c (w ∷ ws) = String.◌∷◌ c w ∷ ws

-- `s.split(sep)` at one character
unfoldable pub split : ℕ → String → List String
unfolding prepend
split sep String.[] = String.[] ∷ []
split sep (String.◌∷◌ c s) =
    let ws = split sep s in if eqb (code c) sep then String.[] ∷ ws else prepend c ws

-- `sep.join(ws)` of one character
unfoldable pub join : Char → List String → String
join sep [] = String.[]
join sep (w ∷ []) = w
join sep (w ∷ v ∷ ws) = String.◌++◌ w (String.◌∷◌ sep (join sep (v ∷ ws)))

-- Whether a property of characters holds of all of a text.
abbrev pub EachChar : (Char → Type 0) → String → Type 0
EachChar P String.[] = Unit
EachChar P (String.◌∷◌ c s) = P c × EachChar P s

-- What `lower` leaves alone.
abbrev pub IsLower : Char → Type 0
IsLower c = lower_char c ≡ c

SmallLetters : List (ℕ × Char) → Type 0
SmallLetters [] = Unit
SmallLetters ((n, c) ∷ t) = IsLower c × SmallLetters t

capitals_small : SmallLetters capitals
unfolding SmallLetters lower_char
capitals_small = (
  refl,
  (
    refl,
    (
      refl,
      (
        refl,
        (
          refl,
          (
            refl,
            (
              refl,
              (
                refl,
                (
                  refl,
                  (
                    refl,
                    (
                      refl,
                      (
                        refl,
                        (
                          refl,
                          (
                            refl,
                            (
                              refl,
                              (
                                refl,
                                (
                                  refl,
                                  (
                                    refl,
                                    (
                                      refl,
                                      (refl, (refl, (refl, (refl, (refl, (refl, (refl, tt))))))),
                                    ),
                                  ),
                                ),
                              ),
                            ),
                          ),
                        ),
                      ),
                    ),
                  ),
                ),
              ),
            ),
          ),
        ),
      ),
    ),
  ),
)

lookup_code_small :
    (n : ℕ) (t : List (ℕ × Char)) (c : Char) → SmallLetters t → lookup_code n t ≡ some c → IsLower c
unfolding SmallLetters lookup_code
lookup_code_small n [] c h e = cc
lookup_code_small n ((m, d) ∷ t) c h e = ground (arith, lookup_code_small n t c h.1)

-- What takes the place of a capital is a letter.
Letters : List (ℕ × Char) → Type 0
Letters [] = Unit
Letters ((n, c) ∷ t) = (97 ≤ code c) × Letters t

capitals-Letters : Letters capitals
unfolding Letters
capitals-Letters = omega arith

lookup_code_letter :
    (n : ℕ) (t : List (ℕ × Char)) (c : Char) → Letters t → lookup_code n t ≡ some c → 97 ≤ code c
unfolding Letters lookup_code
lookup_code_letter n [] c h e = cc
lookup_code_letter n ((m, d) ∷ t) c h e = ground (arith, lookup_code_letter n t c h.1)

-- `lower` leaves a character alone or gives a small letter.
pub lower_char_cases : (c : Char) → (lower_char c ≡ c) ⊎ (97 ≤ code (lower_char c))
lower_char_cases c = elim (Option-cases (lookup_code (code c) capitals)) [
  | inl e ↦ inl (unfold lower_char in rw e refl)
  | inr (d, e) ↦
      let p : lower_char c ≡ d = unfold lower_char in rw e refl in
      inr (rw p (lookup_code_letter (code c) capitals d capitals-Letters e))
]

pub lower_char-IsLower : (c : Char) → IsLower (lower_char c)
lower_char-IsLower c = elim (Option-cases (lookup_code (code c) capitals)) [
  | inl e ↦ ap lower_char (unfold lower_char in rw e refl)
  | inr (d, e) ↦
      let p : lower_char c ≡ d = unfold lower_char in rw e refl in
      rw p (lookup_code_small (code c) capitals d capitals_small e)
]

pub lower_idem : (s : String) → lower (lower s) ≡ lower s
unfolding lower
lower_idem String.[] = refl
lower_idem (String.◌∷◌ c s) = ap₂ String.◌∷◌ (lower_char-IsLower c) (lower_idem s)

-- A text without the separator is one word.
pub split_word : (sep : ℕ) (w : String) → EachChar (λ c. code c ≢ sep) w → split sep w ≡ w ∷ []
unfolding split
split_word sep String.[] h = refl
split_word sep (String.◌∷◌ c w) h = rw (split_word sep w h.1) (ground arith)

split-append :
    (sep : Char) (w r : String)
    → EachChar (λ c. code c ≢ code sep) w
    → split (code sep) (String.◌++◌ w (String.◌∷◌ sep r)) ≡ w ∷ split (code sep) r
unfolding split
split-append sep String.[] r h = rw append.nil (ground arith)
split-append sep (String.◌∷◌ c w) r h = rw (append.cons, split-append sep w r h.1) (ground arith)

abbrev pub EachWord : Char → List String → Type 0
EachWord sep [] = Unit
EachWord sep (w ∷ ws) = EachChar (λ c. code c ≢ code sep) w × EachWord sep ws

-- Words without the separator come back from their join.
pub split-join :
    (sep : Char) (w : String) (ws : List String)
    → EachWord sep (w ∷ ws)
    → split (code sep) (join sep (w ∷ ws)) ≡ w ∷ ws
unfolding join
split-join sep w [] h = split_word (code sep) w h.0
split-join sep w (v ∷ ws) h =
    rw (split-append sep w (join sep (v ∷ ws)) h.0) (ap (◌∷◌ w) (split-join sep v ws h.1))

pub size-append : (s t : String) → size (String.◌++◌ s t) ≡ size s + size t
unfolding size
size-append String.[] t = rw append.nil (omega arith)
size-append (String.◌∷◌ c s) t = rw append.cons (omega (arith, size-append s t))

size-cons_pos : (c : Char) (s : String) → 0 < size (String.◌∷◌ c s)
unfolding size
size-cons_pos c s = omega arith

size-nil : size String.[] ≡ 0
unfolding size
size-nil = refl

longer_append :
    (c : Char) (t u : String) → ¬ (String.◌++◌ String.[] u ≡ String.◌++◌ (String.◌∷◌ c t) u)
longer_append c t u h = omega (
  arith,
  ap size h,
  size-append String.[] u,
  size-append (String.◌∷◌ c t) u,
  size-cons_pos c t,
  size-nil,
)

pub cons-append :
    (c : Char) (s t : String) → String.◌++◌ (String.◌∷◌ c s) t ≡ String.◌∷◌ c (String.◌++◌ s t)
cons-append c s t = rw append.cons refl

pub nil-append : (t : String) → String.◌++◌ String.[] t ≡ t
nil-append t = rw append.nil refl

-- A common end can be taken off.
pub append_cancel : (s t u : String) → String.◌++◌ s u ≡ String.◌++◌ t u → s ≡ t
append_cancel String.[] String.[] u h = refl
append_cancel String.[] (String.◌∷◌ c t) u h = absurd (longer_append c t u h)
append_cancel (String.◌∷◌ c s) String.[] u h = absurd (longer_append c s u (sym h))
append_cancel (String.◌∷◌ c s) (String.◌∷◌ d t) u h =
    let e : String.◌∷◌ c (String.◌++◌ s u) ≡ String.◌∷◌ d (String.◌++◌ t u) =
      cc (h, cons-append c s u, cons-append d t u) in
    let first : c ≡ d = cc in
    let rest : String.◌++◌ s u ≡ String.◌++◌ t u = cc in
    ap₂ String.◌∷◌ first (append_cancel s t u rest)

-- A common beginning can be taken off.
pub append_cancel_left : (u s t : String) → String.◌++◌ u s ≡ String.◌++◌ u t → s ≡ t
append_cancel_left String.[] s t h = cc (h, nil-append s, nil-append t)
append_cancel_left (String.◌∷◌ c u) s t h =
    let e : String.◌∷◌ c (String.◌++◌ u s) ≡ String.◌∷◌ c (String.◌++◌ u t) =
      cc (h, cons-append c u s, cons-append c u t) in
    append_cancel_left u s t (cc)

-- The pieces of a formatted text, put together.
unfoldable pub concat : List String → String
concat [] = String.[]
concat (w ∷ ws) = String.◌++◌ w (concat ws)

-- `sep.join(ws)` with any separator
unfoldable pub join_by : String → List String → String
join_by sep [] = String.[]
join_by sep (w ∷ []) = w
join_by sep (w ∷ v ∷ ws) = String.◌++◌ w (String.◌++◌ sep (join_by sep (v ∷ ws)))

-- Whether a text ends in a character.
unfoldable pub last_is : ℕ → String → Bool
last_is c String.[] = false
last_is c (String.◌∷◌ d String.[]) = eqb (code d) c
last_is c (String.◌∷◌ d (String.◌∷◌ e s)) = last_is c (String.◌∷◌ e s)

digit : ℕ → String
digit n =
    if eqb n 0
    then "0"
    else if eqb n 1
    then "1"
    else if eqb n 2
    then "2"
    else if eqb n 3
    then "3"
    else if eqb n 4
    then "4"
    else if eqb n 5
    then "5"
    else if eqb n 6
    then "6"
    else if eqb n 7
    then "7"
    else if eqb n 8
    then "8"
    else "9"

-- The fuel is more than the number of digits.
decimal : ℕ → ℕ → String
unfolding digit
decimal zero n = String.[]
decimal (suc fuel) n =
    let front = decimal fuel (n / 10) in
    if ltb n 10 then digit n else String.◌++◌ front (digit (n % 10))

-- `str(n)`
unfoldable pub str : ℕ → String
unfolding decimal
str n = decimal (suc n) n

str_examples : (str 0 ≡ "0") × (str 100 ≡ "100") × (str 51820 ≡ "51820")
unfolding str
str_examples = (refl, refl, refl)
