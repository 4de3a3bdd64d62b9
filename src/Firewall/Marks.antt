-- ===== src/Firewall/Marks.antt =====
-- The routing marks of the gateways: a mark stands for one gateway.
use Prim.Native.Nat.{ℕ, ◌+◌, ◌≤◌, ◌<◌}
use Prim.Native.String.{String}
use text.Mathlib.Text.{◌==◌}
use text.Mathlib.TextEquality.{eq_iff}
use mathlib.Core.Path.{◌≡◌, refl}
use mathlib.Core.Logic.{inl, inr}
use mathlib.Core.Bool.{Bool, true, not, ◌&&◌, ◌||◌}
use mathlib.Core.Option.{Option, none, some}
use mathlib.Core.List.{List, [], ◌∷◌, ◌++◌}
use native.Mathlib.Omega.{arith}
use roostos.Prelude.{any, eqb, is_some, Bool-cases}
use roostos.Prelude.Dict
use roostos.Prelude.Dict.{Dict, get-put}
use roostos.Models.{NetworkGateway, RoostConfig}
use roostos.Firewall.{
  assign_marks, gateway_marks, routing_cmds, routing_setup_cmds, compile_routing_setup_cmds,
}
use roostos.Allowance.Kernel.{AreIp}

-- Marks given so far: from 100 on, below the counter, one gateway each.
record AreFresh (counter : ℕ) (marks : Dict ℕ) : Type 0 where
  atleast : (i : String) (n : ℕ) → Dict.get i marks ≡ some n → 100 ≤ n
  below : (i : String) (n : ℕ) → Dict.get i marks ≡ some n → n < counter
  single :
      (i j : String) (n : ℕ)
      → Dict.get i marks ≡ some n
      → Dict.get j marks ≡ some n
      → (i == j) ≡ true

AreFresh-put :
    (id : String) (counter : ℕ) (marks : Dict ℕ)
    → 100 ≤ counter
    → AreFresh counter marks
    → AreFresh (counter + 1) (Dict.put id counter marks)
AreFresh-put id counter marks c v = record {
  atleast = λ i n h. ground (arith, get-put id i counter marks, v.atleast i n);
  below = λ i n h. ground (arith, get-put id i counter marks, v.below i n);
  single = λ i j n h k. ground (
    arith,
    get-put id i counter marks,
    get-put id j counter marks,
    v.below i n,
    v.below j n,
    v.single i j n,
    eq_iff id i,
    eq_iff id j,
    eq_iff i j,
  );
}

assign_marks-AreFresh :
    (gws : List NetworkGateway) (counter : ℕ) (marks : Dict ℕ)
    → 100 ≤ counter
    → AreFresh counter marks
    → (last : ℕ) × AreFresh last (assign_marks gws counter marks)
unfolding assign_marks
assign_marks-AreFresh [] counter marks c v = (counter, v)
assign_marks-AreFresh (gw ∷ gws) counter marks c v = elim (Bool-cases (gw.id == "default")) [
  | inl e ↦ rw e (assign_marks-AreFresh gws counter marks c v)
  | inr e ↦ rw e (
      assign_marks-AreFresh gws (counter + 1) _ (omega arith)
        (AreFresh-put gw.id counter marks c v))
]

-- A mark of a gateway is 100 or more, and no two gateways have the same mark.
pub gateway_marks-single :
    (config : RoostConfig) (i j : String) (n : ℕ)
    → Dict.get i (gateway_marks config) ≡ some n
    → Dict.get j (gateway_marks config) ≡ some n
    → (100 ≤ n) × (i ≡ j)
unfolding gateway_marks Dict.get
gateway_marks-single config i j n h k =
    let fresh : AreFresh 100 [] = record {
      atleast = λ i n h. cc;
      below = λ i n h. cc;
      single = λ i j n h k. cc;
    } in
    let (last, v) = assign_marks-AreFresh config.network.gateways 100 [] (omega arith) fresh in
    (v.atleast i n h, (eq_iff i j).0 (v.single i j n h k))

-- Whether a gateway other than the default has this id.
abbrev pub is_id : String → NetworkGateway → Bool
is_id i gw = gw.id == i

assign_marks-is_some :
    (i : String) (gws : List NetworkGateway) (counter : ℕ) (marks : Dict ℕ)
    → is_some (Dict.get i (assign_marks gws counter marks))
      ≡ (is_some (Dict.get i marks) || (any (is_id i) gws && not (i == "default")))
unfolding assign_marks any
assign_marks-is_some i [] counter marks = ground arith
assign_marks-is_some i (gw ∷ gws) counter marks = elim (Bool-cases (gw.id == "default")) [
  | inl e ↦ rw e (
      ground (
        arith,
        assign_marks-is_some i gws counter marks,
        eq_iff gw.id i,
        eq_iff gw.id "default",
        eq_iff i "default",
      ))
  | inr e ↦ rw e (
      ground (
        arith,
        assign_marks-is_some i gws (counter + 1) (Dict.put gw.id counter marks),
        get-put gw.id i counter marks,
        eq_iff gw.id i,
        eq_iff gw.id "default",
        eq_iff i "default",
      ))
]

-- An id has a mark exactly when a gateway has the id and it is not "default".
pub gateway_marks-is_some :
    (config : RoostConfig) (i : String)
    → is_some (Dict.get i (gateway_marks config))
      ≡ (any (is_id i) config.network.gateways && not (i == "default"))
unfolding gateway_marks Dict.get
gateway_marks-is_some config i = assign_marks-is_some i config.network.gateways 100 []

AreIp-append : (xs ys : List (List String)) → AreIp xs → AreIp ys → AreIp (xs ++ ys)
AreIp-append [] ys a b = b
AreIp-append (x ∷ xs) ys (p, a) b = (p, AreIp-append xs ys a b)

routing_cmds-AreIp : (mark : Option ℕ) (interface : String) → AreIp (routing_cmds mark interface)
routing_cmds-AreIp none interface = tt
routing_cmds-AreIp (some mark) interface = elim (Bool-cases (eqb mark 0)) [
  | inl e ↦ rw e tt
  | inr e ↦ rw e ((_, refl), ((_, refl), tt))
]

routing_setup_cmds-AreIp :
    (marks : Dict ℕ) (gws : List NetworkGateway) → AreIp (routing_setup_cmds marks gws)
unfolding routing_setup_cmds
routing_setup_cmds-AreIp marks [] = tt
routing_setup_cmds-AreIp marks (gw ∷ gws) =
    let rest = routing_setup_cmds-AreIp marks gws in
    elim (Bool-cases (gw.id == "default")) [
      | inl e ↦ rw e rest
      | inr e ↦
          rw e (AreIp-append _ _ (routing_cmds-AreIp (Dict.get gw.id marks) gw.interface) rest)
    ]

-- The commands for the routing tables are commands of `ip`, none of them one of `nft`.
pub compile_routing_setup_cmds-AreIp :
    (config : RoostConfig) → AreIp (compile_routing_setup_cmds config)
unfolding compile_routing_setup_cmds
compile_routing_setup_cmds-AreIp config =
    routing_setup_cmds-AreIp (gateway_marks config) config.network.gateways
