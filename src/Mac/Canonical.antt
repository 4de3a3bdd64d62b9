-- ===== src/Mac/Canonical.antt =====
-- What `normalize_mac` makes of an address is left alone by `normalize_mac`.
use Prim.Native.Nat.{suc}
use Prim.Native.Char.{Char, code}
use Prim.Native.String
use Prim.Native.String.{String}
use Prim.Native.String.append
use mathlib.Core.Path.{◌≡◌, refl, ap, ap₂, ◌∙◌}
use mathlib.Core.Logic.{◌≢◌, inl, inr}
use mathlib.Core.Bool.{true, false, ◌||◌}
use mathlib.Core.List.{List, [], ◌∷◌, map}
use native.Mathlib.Omega.{arith}
use roostos.Prelude.{eqb, leb, length, all, Bool-cases, if◌then◌else◌}
use roostos.Prelude.Result.{ok, err}
use roostos.Prelude.Text.{
  lower_char, lower, replace, size, prepend, split, join, EachChar, EachWord, IsLower,
  lower_char-IsLower, split-join, lower_char_cases,
}
use roostos.Mac.{zfill, mac_parts, is_mac, normalize_mac}

-- The characters of an address on which `replace` and `lower` have no effect.
abbrev IsClean : Char → Type 0
IsClean c = (code c ≢ 45) × (code c ≢ 46) × IsLower c

abbrev IsPart : Char → Type 0
IsPart c = IsClean c × (code c ≢ 58)

abbrev AreParts : List String → Type 0
AreParts [] = Unit
AreParts (w ∷ ws) = EachChar IsPart w × AreParts ws

-- One character, through both calls of `replace` and through `lower`.
step : Char → Char
step c =
    let d = if eqb (code c) 45 then ":" else c in lower_char (if eqb (code d) 46 then ":" else d)

step-IsClean : (c : Char) → IsClean (step c)
unfolding step
step-IsClean c = elim (Bool-cases (eqb (code c) 45)) [
  | inl dash ↦ rw dash (unfold lower_char in (omega arith, omega arith, refl))
  | inr e ↦ rw e (elim (Bool-cases (eqb (code c) 46)) [
    | inl dot ↦ rw dot (unfold lower_char in (omega arith, omega arith, refl))
    | inr f ↦ rw f (elim (lower_char_cases c) [
      | inl same ↦ (rw same (ground arith), rw same (ground arith), lower_char-IsLower c)
      | inr letter ↦ (omega arith, omega arith, lower_char-IsLower c)
    ])
  ])
]

lowered-IsClean : (v : String) → EachChar IsClean (lower (replace b'.' ":" (replace b'-' ":" v)))
unfolding lower replace
lowered-IsClean String.[] = tt
lowered-IsClean (String.◌∷◌ c v) = (unfold step in step-IsClean c, lowered-IsClean v)

AreParts-prepend : (c : Char) (ws : List String) → IsPart c → AreParts ws → AreParts (prepend c ws)
unfolding prepend
AreParts-prepend c [] p h = ((p, tt), tt)
AreParts-prepend c (w ∷ ws) p h = ((p, h.0), h.1)

split-AreParts : (s : String) → EachChar IsClean s → AreParts (split b':' s)
unfolding split
split-AreParts String.[] h = (tt, tt)
split-AreParts (String.◌∷◌ c s) h = elim (Bool-cases (eqb (code c) 58)) [
  | inl e ↦ rw e ((tt, split-AreParts s h.1))
  | inr e ↦ rw e (AreParts-prepend c (split 58 s) (h.0, ground arith) (split-AreParts s h.1))
]

zero-IsPart : IsPart "0"
zero-IsPart = unfold lower_char in ((omega arith, omega arith, refl), omega arith)

zfill-IsPart : (w : String) → EachChar IsPart w → EachChar IsPart (zfill w)
unfolding zfill
zfill-IsPart String.[] h = (zero-IsPart, (zero-IsPart, tt))
zfill-IsPart (String.◌∷◌ c String.[]) h =
    elim (Bool-cases (eqb (code c) b'+' || eqb (code c) b'-')) [
      | inl e ↦ rw e ((h.0, (zero-IsPart, tt)))
      | inr e ↦ rw e ((zero-IsPart, (h.0, tt)))
    ]
zfill-IsPart (String.◌∷◌ c (String.◌∷◌ d w)) h = h

AreParts-zfill : (ws : List String) → AreParts ws → AreParts (map zfill ws)
AreParts-zfill [] h = tt
AreParts-zfill (w ∷ ws) h = (zfill-IsPart w h.0, AreParts-zfill ws h.1)

IsClean-append :
    (s t : String) → EachChar IsClean s → EachChar IsClean t → EachChar IsClean (String.◌++◌ s t)
IsClean-append String.[] t h k = rw append.nil k
IsClean-append (String.◌∷◌ c s) t h k = rw append.cons ((h.0, IsClean-append s t h.1 k))

IsClean-of_parts : (w : String) → EachChar IsPart w → EachChar IsClean w
IsClean-of_parts String.[] h = tt
IsClean-of_parts (String.◌∷◌ c w) h = (h.0.0, IsClean-of_parts w h.1)

colon-IsClean : IsClean ":"
colon-IsClean = unfold lower_char in (omega arith, omega arith, refl)

join-IsClean : (ws : List String) → AreParts ws → EachChar IsClean (join ":" ws)
unfolding join
join-IsClean [] h = tt
join-IsClean (w ∷ []) h = IsClean-of_parts w h.0
join-IsClean (w ∷ v ∷ ws) h =
    IsClean-append w _ (IsClean-of_parts w h.0) (colon-IsClean, join-IsClean (v ∷ ws) h.1)

lower_clean : (s : String) → EachChar IsClean s → lower s ≡ s
unfolding lower
lower_clean String.[] h = refl
lower_clean (String.◌∷◌ c s) h = ap₂ String.◌∷◌ h.0.2 (lower_clean s h.1)

replace_dash : (s : String) → EachChar IsClean s → replace b'-' ":" s ≡ s
unfolding replace
replace_dash String.[] h = refl
replace_dash (String.◌∷◌ c s) h = rw (replace_dash s h.1) (ground arith)

replace_dot : (s : String) → EachChar IsClean s → replace b'.' ":" s ≡ s
unfolding replace
replace_dot String.[] h = refl
replace_dot (String.◌∷◌ c s) h = rw (replace_dot s h.1) (ground arith)

IsWord_of_part : (w : String) → EachChar IsPart w → EachChar (λ c. code c ≢ 58) w
IsWord_of_part String.[] h = tt
IsWord_of_part (String.◌∷◌ c w) h = (h.0.1, IsWord_of_part w h.1)

EachWord-of_parts : (ws : List String) → AreParts ws → EachWord ":" ws
EachWord-of_parts [] h = tt
EachWord-of_parts (w ∷ ws) h = (IsWord_of_part w h.0, EachWord-of_parts ws h.1)

zfill_idem : (w : String) → leb (size w) 2 ≡ true → zfill (zfill w) ≡ zfill w
unfolding zfill size
zfill_idem String.[] h = refl
zfill_idem (String.◌∷◌ c String.[]) h = ground arith
zfill_idem (String.◌∷◌ c (String.◌∷◌ d w)) h = refl

size-zfill : (w : String) → leb (size w) 2 ≡ true → leb (size (zfill w)) 2 ≡ true
unfolding zfill size
size-zfill String.[] h = refl
size-zfill (String.◌∷◌ c String.[]) h = ground arith
size-zfill (String.◌∷◌ c (String.◌∷◌ d w)) h = h

map-zfill_idem :
    (ws : List String)
    → all (λ p. leb (size p) 2) ws ≡ true
    → map zfill (map zfill ws) ≡ map zfill ws
unfolding all
map-zfill_idem [] h = refl
map-zfill_idem (w ∷ ws) h = ground (arith, zfill_idem w, map-zfill_idem ws)

all-zfill :
    (ws : List String)
    → all (λ p. leb (size p) 2) ws ≡ true
    → all (λ p. leb (size p) 2) (map zfill ws) ≡ true
unfolding all
all-zfill [] h = refl
all-zfill (w ∷ ws) h = ground (arith, size-zfill w, all-zfill ws)

length-map-zfill : (ws : List String) → length (map zfill ws) ≡ length ws
length-map-zfill [] = refl
length-map-zfill (w ∷ ws) = ap suc (length-map-zfill ws)

-- Parts without separators, put together and taken apart again.
mac_parts-join :
    (w : String) (ws : List String) → AreParts (w ∷ ws) → mac_parts (join ":" (w ∷ ws)) ≡ w ∷ ws
unfolding mac_parts
mac_parts-join w ws h =
    let clean = join-IsClean (w ∷ ws) h in
    rw (replace_dash _ clean, replace_dot _ clean, lower_clean _ clean)
      (split-join ":" w ws (EachWord-of_parts (w ∷ ws) h))

normalize_mac_accepts :
    (v : String)
    → is_mac (mac_parts v) ≡ true
    → normalize_mac v ≡ ok (join ":" (map zfill (mac_parts v)))
unfolding normalize_mac
normalize_mac_accepts v h = rw h refl

normalize_mac_rejects :
    (v : String)
    → is_mac (mac_parts v) ≡ false
    → normalize_mac v ≡ err (String.◌++◌ "Invalid MAC address format: " v)
unfolding normalize_mac
normalize_mac_rejects v h = rw h refl

normalize_mac_inv :
    (v m : String)
    → normalize_mac v ≡ ok m
    → (is_mac (mac_parts v) ≡ true) × (m ≡ join ":" (map zfill (mac_parts v)))
normalize_mac_inv v m h = elim (Bool-cases (is_mac (mac_parts v))) [
  | inl e ↦ (e, cc (normalize_mac_accepts v e))
  | inr e ↦ cc (normalize_mac_rejects v e)
]

is_mac-zfill : (ws : List String) → is_mac ws ≡ true → is_mac (map zfill ws) ≡ true
unfolding is_mac
is_mac-zfill ws h = ground (arith, length-map-zfill ws, all-zfill ws)

is_mac-parts : (ws : List String) → is_mac ws ≡ true → all (λ p. leb (size p) 2) ws ≡ true
unfolding is_mac
is_mac-parts ws h = ground arith

normalized :
    (ws : List String)
    → AreParts ws
    → is_mac ws ≡ true
    → normalize_mac (join ":" (map zfill ws)) ≡ ok (join ":" (map zfill ws))
normalized [] h k = absurd (unfold is_mac in ground arith)
normalized (w ∷ ws) h k =
    let parts : mac_parts (join ":" (map zfill (w ∷ ws))) ≡ map zfill (w ∷ ws) =
      mac_parts-join (zfill w) (map zfill ws) (AreParts-zfill (w ∷ ws) h) in
    normalize_mac_accepts _ (rw parts (is_mac-zfill (w ∷ ws) k))
    ∙ ap (λ ps. ok (join ":" (map zfill ps))) parts
    ∙ ap (λ ps. ok (join ":" ps)) (map-zfill_idem (w ∷ ws) (is_mac-parts (w ∷ ws) k))

-- An address that `normalize_mac` returns is one that it accepts and returns unchanged.
pub normalize_mac_idem : (v m : String) → normalize_mac v ≡ ok m → normalize_mac m ≡ ok m
normalize_mac_idem v m h =
    let (accepted, e) = normalize_mac_inv v m h in
    rw e
      (normalized (mac_parts v) (unfold mac_parts in split-AreParts _ (lowered-IsClean v)) accepted)

-- A normalized address is in small letters.
pub lower-normalize_mac : (v m : String) → normalize_mac v ≡ ok m → lower m ≡ m
lower-normalize_mac v m h =
    let (accepted, e) = normalize_mac_inv v m h in
    let parts : AreParts (mac_parts v) = unfold mac_parts in split-AreParts _ (lowered-IsClean v) in
    rw e (lower_clean _ (join-IsClean _ (AreParts-zfill (mac_parts v) parts)))
