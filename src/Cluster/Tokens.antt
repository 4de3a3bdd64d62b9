-- ===== src/Cluster/Tokens.antt =====
-- The join tokens: each admits one node.
use Prim.Native.Nat.{ℕ, ◌+◌, ◌≤◌}
use Prim.Native.String.{String}
use text.Mathlib.Text.{◌==◌}
use text.Mathlib.TextEquality.{eq_iff}
use mathlib.Core.Path.{◌≡◌, refl, ap, ◌∙◌, sym}
use mathlib.Core.Logic.{inl, inr}
use mathlib.Core.Bool.{Bool, false, not, ◌&&◌}
use mathlib.Core.Option.{Option, none, some}
use mathlib.Core.List.{List, [], ◌∷◌}
use native.Mathlib.Omega.{arith}
use roostos.Prelude.{is_some, eqb, ltb, Bool-cases, if◌then◌else◌}
use roostos.Prelude.Dict
use roostos.Prelude.Dict.{get-put, get-pop}
use roostos.Prelude.Text.{concat}
use roostos.Cluster.{
  ClusterManager, Event, generate, validate, heartbeat, queue, pop, step, run, generate_join_token,
  validate_join_token, check_expiry, record_heartbeat, queue_node_command, pop_node_commands,
}

-- Whether a token is good at the moment.
abbrev pub held : {J : Type 0} → String → ClusterManager J → ℕ
held t m = if is_some (Dict.get t m.join_tokens) then 1 else 0

-- Whether a call makes a token, and whether it accepts one.
abbrev pub made_by : {J : Type 0} → String → Event J → ℕ
made_by t (generate now suffix ttl) = if concat ("roost-" ∷ suffix ∷ []) == t then 1 else 0
made_by t _ = 0

abbrev pub accepted_by : {J : Type 0} → String → Event J → ClusterManager J → ℕ
accepted_by t (validate now token) m =
    if token == t && (validate_join_token now token m).0 then 1 else 0
accepted_by t _ m = 0

-- How often a history makes a token, and how often it accepts it.
unfoldable pub made : {J : Type 0} → String → List (Event J) → ℕ
made t [] = 0
made t (e ∷ es) = made_by t e + made t es

unfoldable pub accepted : {J : Type 0} → String → List (Event J) → ClusterManager J → ℕ
accepted t [] m = 0
accepted t (e ∷ es) m = accepted_by t e m + accepted t es (step e m)

module _ {J : Type 0} (t : String) where
  check_expiry-held :
      (now : ℕ) (token : String) (m : ClusterManager J) (o : Option ℕ)
      → Dict.get token m.join_tokens ≡ o
      → (if token == t && (check_expiry now token o m).0 then 1 else 0)
          + held t (check_expiry now token o m).1
        ≤ held t m
  check_expiry-held now token m none h = ground arith
  check_expiry-held now token m (some expiry) h =
      elim (Bool-cases (not (eqb expiry 0) && ltb now expiry)) [
        | inl e ↦ rw e (elim (Bool-cases (token == t)) [
          | inl q ↦
              let same : Dict.get t m.join_tokens ≡ some expiry =
                ap (λ k. Dict.get k m.join_tokens) (sym ((eq_iff token t).0 q)) ∙ h in
              ground (arith, get-pop token t m.join_tokens, q, same)
          | inr q ↦ ground (arith, get-pop token t m.join_tokens, q)
        ])
        | inr e ↦ rw e (ground arith)
      ]

  validate_join_token-real :
      (now : ℕ) (token : String) (m : ClusterManager J)
      → m.mock ≡ false
      → validate_join_token now token m ≡ check_expiry now token (Dict.get token m.join_tokens) m
  unfolding validate_join_token
  validate_join_token-real now token m h = simp (h) refl

  validate-held :
      (now : ℕ) (token : String) (m : ClusterManager J)
      → m.mock ≡ false
      → (if token == t && (validate_join_token now token m).0 then 1 else 0)
          + held t (validate_join_token now token m).1
        ≤ held t m
  validate-held now token m h =
      rw (validate_join_token-real now token m h)
        (check_expiry-held now token m (Dict.get token m.join_tokens) refl)

  generate-held :
      (now : ℕ) (suffix : String) (ttl : ℕ) (m : ClusterManager J)
      → held t (generate_join_token now suffix ttl m).1
        ≤ held t m + (if concat ("roost-" ∷ suffix ∷ []) == t then 1 else 0)
  unfolding generate_join_token
  generate-held now suffix ttl m =
      ground (arith, get-put (concat ("roost-" ∷ suffix ∷ [])) t (now + ttl) m.join_tokens)

  step-held :
      (e : Event J) (m : ClusterManager J)
      → m.mock ≡ false
      → accepted_by t e m + held t (step e m) ≤ held t m + made_by t e
  unfolding step record_heartbeat queue_node_command pop_node_commands
  step-held (generate now suffix ttl) m h = omega (arith, generate-held now suffix ttl m)
  step-held (validate now token) m h = omega (arith, validate-held now token m h)
  step-held (heartbeat now node_id report) m h = omega arith
  step-held (queue node_id command) m h = omega arith
  step-held (pop node_id) m h = omega arith

  check_expiry-mock :
      (now : ℕ) (token : String) (o : Option ℕ) (m : ClusterManager J)
      → (check_expiry now token o m).1.mock ≡ m.mock
  check_expiry-mock now token none m = refl
  check_expiry-mock now token (some expiry) m =
      elim (Bool-cases (not (eqb expiry 0) && ltb now expiry)) [
        | inl e ↦ rw e refl
        | inr e ↦ rw e refl
      ]

  step-mock : (e : Event J) (m : ClusterManager J) → m.mock ≡ false → (step e m).mock ≡ false
  unfolding step generate_join_token record_heartbeat queue_node_command pop_node_commands
  step-mock (generate now suffix ttl) m h = h
  step-mock (validate now token) m h =
      ap (λ (r : Bool × ClusterManager J). r.1.mock) (validate_join_token-real now token m h)
      ∙ check_expiry-mock now token (Dict.get token m.join_tokens) m
      ∙ h
  step-mock (heartbeat now node_id report) m h = h
  step-mock (queue node_id command) m h = h
  step-mock (pop node_id) m h = h

  -- In any history of calls of the manager of a controller that is not a mock, the manager accepts a
  -- token no more often than it made it, and once more if it was good at the start: a token that it
  -- made once it accepts at most once.
  pub run-accepted :
      (es : List (Event J)) (m : ClusterManager J)
      → m.mock ≡ false
      → accepted t es m + held t (run es m) ≤ held t m + made t es
  unfolding run accepted made
  run-accepted [] m h = omega arith
  run-accepted (e ∷ es) m h =
      let rest = run-accepted es (step e m) (step-mock e m h) in
      let first = step-held e m h in omega (arith, rest, first)
