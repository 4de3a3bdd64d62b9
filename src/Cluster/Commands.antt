-- ===== src/Cluster/Commands.antt =====
-- The commands that the controller queues for its nodes.
use Prim.Native.String.{String}
use text.Mathlib.Text.{◌==◌}
use text.Mathlib.TextEquality.{eq_iff}
use mathlib.Core.Path.{◌≡◌, ap, ◌∙◌, sym}
use mathlib.Core.Logic.{inl, inr}
use mathlib.Core.List.{List, [], ◌∷◌, ◌++◌, append_assoc, append-nil}
use native.Mathlib.Omega.{arith}
use roostos.Prelude.{or_else, Bool-cases, if◌then◌else◌}
use roostos.Prelude.Dict
use roostos.Prelude.Dict.{get-put, get-pop}
use roostos.Cluster.{
  ClusterManager, Event, generate, validate, heartbeat, queue, pop, step, run, generate_join_token,
  validate_join_token, record_heartbeat, queue_node_command, pop_node_commands,
}

-- What waits for a node.
abbrev pub waiting : {J : Type 0} → String → ClusterManager J → List String
waiting n m = or_else (Dict.get n m.pending_commands) []

-- What a call queues for a node.
abbrev pub queued_by : {J : Type 0} → String → Event J → List String
queued_by n (queue i command) = if i == n then command ∷ [] else []
queued_by n _ = []

-- What a call delivers to a node.
abbrev pub delivered_by : {J : Type 0} → String → Event J → ClusterManager J → List String
delivered_by n (pop i) m = if i == n then (pop_node_commands i m).0 else []
delivered_by n _ m = []

-- All that a history queues for a node, and all that it delivers to it, in order.
unfoldable pub queued : {J : Type 0} → String → List (Event J) → List String
queued n [] = []
queued n (e ∷ es) = queued_by n e ++ queued n es

unfoldable pub delivered : {J : Type 0} → String → List (Event J) → ClusterManager J → List String
delivered n [] m = []
delivered n (e ∷ es) m = delivered_by n e m ++ delivered n es (step e m)

module _ {J : Type 0} (n : String) where
  validate-waiting :
      (now : _) (token : String) (m : ClusterManager J)
      → waiting n (validate_join_token now token m).1 ≡ waiting n m
  unfolding validate_join_token
  validate-waiting now token m = ground (arith, Dict.get token m.join_tokens)

  queue-waiting :
      (i command : String) (m : ClusterManager J)
      → waiting n (queue_node_command i command m)
        ≡ waiting n m ++ (if i == n then command ∷ [] else [])
  unfolding queue_node_command
  queue-waiting i command m = elim (Bool-cases (i == n)) [
    | inl e ↦ rw (get-put, e) (ap (λ k. waiting k m ++ command ∷ []) ((eq_iff i n).0 e))
    | inr e ↦ rw (get-put, e) (sym (append-nil (waiting n m)))
  ]

  pop-waiting :
      (i : String) (m : ClusterManager J)
      → (if i == n then (pop_node_commands i m).0 else []) ++ waiting n (pop_node_commands i m).1
        ≡ waiting n m ++ []
  unfolding pop_node_commands
  pop-waiting i m = elim (Bool-cases (i == n)) [
    | inl e ↦ rw (get-pop, e) (ap (λ k. waiting k m ++ []) ((eq_iff i n).0 e))
    | inr e ↦ rw (get-pop, e) (sym (append-nil (waiting n m)))
  ]

  step-waiting :
      (e : Event J) (m : ClusterManager J)
      → delivered_by n e m ++ waiting n (step e m) ≡ waiting n m ++ queued_by n e
  unfolding step generate_join_token record_heartbeat
  step-waiting (generate now suffix ttl) m = sym (append-nil (waiting n m))
  step-waiting (validate now token) m =
      validate-waiting now token m ∙ sym (append-nil (waiting n m))
  step-waiting (heartbeat now node_id report) m = sym (append-nil (waiting n m))
  step-waiting (queue i command) m = queue-waiting i command m
  step-waiting (pop i) m = pop-waiting i m

  -- In any history of calls, a node is given exactly the commands that waited for it and those that
  -- were queued for it since, each once and in their order, less those that still wait at the end.
  pub run-delivered :
      (es : List (Event J)) (m : ClusterManager J)
      → delivered n es m ++ waiting n (run es m) ≡ waiting n m ++ queued n es
  unfolding run delivered queued
  run-delivered [] m = sym (append-nil (waiting n m))
  run-delivered (e ∷ es) m =
      append_assoc (delivered_by n e m) (delivered n es (step e m)) (waiting n (run es (step e m)))
      ∙ ap (λ l. delivered_by n e m ++ l) (run-delivered es (step e m))
      ∙ sym (append_assoc (delivered_by n e m) (waiting n (step e m)) (queued n es))
      ∙ ap (λ l. l ++ queued n es) (step-waiting e m)
      ∙ append_assoc (waiting n m) (queued_by n e) (queued n es)
