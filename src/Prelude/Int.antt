-- ===== src/Prelude/Int.antt =====
-- Python integers, with their order, and `int(s)` on a text of ASCII characters.
use Prim.Native.Nat.{ℕ, suc, ◌+◌, ◌-◌, ◌*◌}
use Prim.Native.Char.{code}
use Prim.Native.String.{String}
use mathlib.Core.Bool.{Bool, true, false, ◌&&◌, ◌||◌}
use mathlib.Core.Option.{Option, none, some}
use roostos.Prelude.Tests.{leb, eqb, if◌then◌else◌}

-- `negsuc n` is -(n + 1).
pub data ℤ : Type 0 where
  pos : ℕ → ℤ
  negsuc : ℕ → ℤ

abbrev pub pos_part : ℤ → ℕ
pos_part (pos n) = n
pos_part (negsuc n) = 0

abbrev pub neg_part : ℤ → ℕ
neg_part (pos n) = 0
neg_part (negsuc n) = suc n

-- `a <= b`
abbrev pub leb_ℤ : ℤ → ℤ → Bool
leb_ℤ a b = leb (pos_part a + neg_part b) (pos_part b + neg_part a)

abbrev pub eqb_ℤ : ℤ → ℤ → Bool
eqb_ℤ a b = eqb (pos_part a + neg_part b) (pos_part b + neg_part a)

-- -n
abbrev negate : ℕ → ℤ
negate n = if eqb n 0 then pos 0 else negsuc (n - 1)

is_space : ℕ → Bool
is_space c = (leb 9 c && leb c 13) || (leb 28 c && leb c 32)

blank : String → Bool
unfolding is_space
blank String.[] = true
blank (String.◌∷◌ c s) = is_space (code c) && blank s

-- Digits with single underscores between them, then white space; `after` tells that the character
-- before was a digit.
digits : ℕ → Bool → String → Option ℕ
unfolding blank
digits n after String.[] = if after then some n else none
digits n after (String.◌∷◌ c s) =
    let more = digits (n * 10 + (code c - 48)) true s in
    let gap = digits n false s in
    if leb 48 (code c) && leb (code c) 57
    then more
    else if eqb (code c) b'_' && after
    then gap
    else if is_space (code c) && blank s && after
    then some n
    else none

signed : String → Option ℤ
unfolding digits
signed String.[] = none
signed (String.◌∷◌ c s) =
    if eqb (code c) b'-'
    then elim (digits 0 false s) [ none ↦ none | some n ↦ some (negate n) ]
    else if eqb (code c) b'+'
    then elim (digits 0 false s) [ none ↦ none | some n ↦ some (pos n) ]
    else elim (digits 0 false (String.◌∷◌ c s)) [ none ↦ none | some n ↦ some (pos n) ]

-- `int(s)`; `none` is a `ValueError`
unfoldable pub int : String → Option ℤ
unfolding signed is_space
int String.[] = none
int (String.◌∷◌ c s) =
    let inner = int s in if is_space (code c) then inner else signed (String.◌∷◌ c s)
