-- ===== src/Mac.antt =====
-- MAC addresses: `DeviceConfig.normalize_mac` of roostos-engine/src/roostos_engine/models/devices.py.
pub mod Canonical
use Prim.Native.Char.{code}
use Prim.Native.String
use Prim.Native.String.{String}
use mathlib.Core.Bool.{Bool, not, ◌&&◌, ◌||◌}
use mathlib.Core.List.{List, map}
use roostos.Prelude.{eqb, leb, length, all, if◌then◌else◌}
use roostos.Prelude.Result.{Result, ok, err}
use roostos.Prelude.Text.{lower, replace, size, split, join}

-- `p.zfill(2)`: zeros go in behind a sign
unfoldable pub zfill : String → String
zfill String.[] = "00"
zfill (String.◌∷◌ c String.[]) =
    if eqb (code c) b'+' || eqb (code c) b'-'
    then String.◌∷◌ c "0"
    else String.◌∷◌ "0" (String.◌∷◌ c String.[])
zfill (String.◌∷◌ c (String.◌∷◌ d s)) = String.◌∷◌ c (String.◌∷◌ d s)

-- the parts between separators, in small letters
unfoldable pub mac_parts : String → List String
mac_parts v = split b':' (lower (replace b'.' ":" (replace b'-' ":" v)))

unfoldable pub is_mac : List String → Bool
is_mac parts = eqb (length parts) 6 && all (λ p. leb (size p) 2) parts

unfoldable pub normalize_mac : String → Result String
unfolding zfill mac_parts is_mac
normalize_mac v =
    let parts = mac_parts v in
    if not (is_mac parts)
    then err (String.◌++◌ "Invalid MAC address format: " v)
    else ok (join ":" (map zfill parts))
