-- ===== src/Alerts.antt =====
-- roostos-engine/src/roostos_engine/alert_manager.py: a round of the alert rules, and what an
-- administrator does to an alert. An alert is an object that the active alerts and the history share:
-- `store` holds the objects, and both name them by their place in it.
pub mod Keys
pub mod Objects
pub mod Lasting
use Prim.Native.Nat.{ℕ, ◌+◌}
use Prim.Native.String.{String}
use text.Mathlib.Text.{◌==◌}
use mathlib.Core.Bool.{Bool, true, false, not, ◌&&◌, ◌||◌}
use mathlib.Core.Option.{Option, none, some}
use mathlib.Core.List.{List, [], ◌∷◌, ◌++◌, map}
use native.Mathlib.Omega.{arith}
use roostos.Prelude.{length, take, keep, has, add, or_else, is_some, if◌then◌else◌}
use roostos.Prelude.Dict
use roostos.Prelude.Dict.{Dict}
use roostos.Prelude.Text.{concat}
use roostos.Prelude.Store.{get_elem?, modify}
use roostos.Notify.{NotificationPayload}

pub record AlertRule (V : Type 0) : Type 0 where
  pub id : String
  pub name : String
  pub query : String
  pub op : String
  pub threshold : V
  pub severity : String
  pub description_template : String

pub record ActiveAlert (V : Type 0) : Type 0 where
  pub id : String
  pub rule_id : String
  pub title : String
  pub message : String
  pub severity : String
  pub node_id : String
  pub state : String
  pub value : V
  pub fired_at : String
  pub resolved_at : Option String
  pub acknowledged : Bool

-- One series of an answer: its value's text and the label `node`, where they are there.
pub record Item : Type 0 where
  pub value : Option String
  pub node : Option String

-- What `query_instant` returns.
pub record Answer : Type 0 where
  pub status : String
  pub result : List Item

-- The floating-point numbers, as far as the rules use them.
pub record Floats : Type 1 where
  pub V : Type 0
  pub gt : V → V → Bool
  pub ge : V → V → Bool
  pub lt : V → V → Bool
  pub le : V → V → Bool
  pub eq : V → V → Bool
  pub float : String → Option V  -- `float(s)`, none where it raises
  pub format : String → String → V → String → String  -- of a template: name, value, node

pub record AlertManager (V : Type 0) : Type 0 where
  pub rules : List (AlertRule V)
  pub active_alerts : Dict ℕ
  pub history : List ℕ
  pub store : List (ActiveAlert V)
  pub sent : List (NotificationPayload V)  -- what the dispatcher was given, the latest first

-- A round under way: the manager, `current_firing_keys` and `new_alerts`.
pub record Round (V : Type 0) : Type 0 where
  pub manager : AlertManager V
  pub firing : List String
  pub fresh : List ℕ

unfoldable pub alert_key : String → Option String → String
alert_key rule node = concat (rule ∷ ":" ∷ or_else node "node-01" ∷ [])

-- `resolved_keys`
unfoldable pub quiet : List String → Dict ℕ → List String
quiet firing active = keep (λ k. not (has k firing)) (Dict.keys active)

module _ (F : Floats) where
  open F use {V, gt, ge, lt, le, eq, float, format}

  unfoldable pub compare_value : V → String → V → Bool
  compare_value val op threshold =
      if op == ">"
      then gt val threshold
      else if op == ">="
      then ge val threshold
      else if op == "<"
      then lt val threshold
      else if op == "<="
      then le val threshold
      else if op == "=="
      then eq val threshold
      else false

  -- the template of a rule is taken to be one that can be formatted
  unfoldable pub new_alert : String → AlertRule V → String → V → String → ActiveAlert V
  new_alert now rule node val key = record {
    id = key;
    rule_id = rule.id;
    title = rule.name;
    message = format rule.description_template rule.name val node;
    severity = rule.severity;
    node_id = node;
    state = "firing";
    value = val;
    fired_at = now;
    resolved_at = none;
    acknowledged = false;
  }

  unfoldable pub payload_of :
      String → String → String → String → ActiveAlert V → NotificationPayload V
  payload_of now title message state alert = record {
    alert_id = alert.id;
    rule_id = alert.rule_id;
    title = title;
    message = message;
    severity = alert.severity;
    state = state;
    node_id = alert.node_id;
    value = alert.value;
    timestamp = now;
  }

  -- an alert that was not active
  unfoldable pub fire : String → String → ActiveAlert V → AlertManager V → AlertManager V
  fire now key alert m = record {
    rules = m.rules;
    active_alerts = Dict.put key (length m.store) m.active_alerts;
    history = length m.store ∷ m.history;
    store = m.store ++ alert ∷ [];
    sent = payload_of now alert.title alert.message "firing" alert ∷ m.sent;
  }

  -- the value of a series is beyond its threshold
  unfoldable pub exceed : String → AlertRule V → String → V → String → Round V → Round V
  exceed now rule node val key r =
      if Dict.contains key r.manager.active_alerts
      then record { manager = r.manager; firing = add key r.firing; fresh = r.fresh }
      else record {
        manager = fire now key (new_alert now rule node val key) r.manager;
        firing = add key r.firing;
        fresh = r.fresh ++ length r.manager.store ∷ [];
      }

  abbrev pub measured : String → AlertRule V → Option String → Option V → Round V → Round V
  measured now rule label none r = r
  measured now rule label (some val) r =
      if compare_value val rule.op rule.threshold
      then exceed now rule (or_else label "node-01") val (alert_key rule.id label) r
      else r

  unfoldable pub evaluate_item : String → AlertRule V → Item → Round V → Round V
  evaluate_item now rule item r = measured now rule item.node (float (or_else item.value "0")) r

  unfoldable pub evaluate_items : String → AlertRule V → List Item → Round V → Round V
  evaluate_items now rule [] r = r
  evaluate_items now rule (item ∷ items) r =
      evaluate_items now rule items (evaluate_item now rule item r)

  unfoldable pub evaluate_all : (String → Answer) → String → List (AlertRule V) → Round V → Round V
  evaluate_all query_instant now [] r = r
  evaluate_all query_instant now (rule ∷ rules) r =
      let res = query_instant rule.query in
      evaluate_all query_instant now rules
        (if not (res.status == "success") then r else evaluate_items now rule res.result r)

  -- the two assignments to an alert that is no longer firing
  unfoldable pub resolved : String → ActiveAlert V → ActiveAlert V
  resolved now alert = record {
    id = alert.id;
    rule_id = alert.rule_id;
    title = alert.title;
    message = alert.message;
    severity = alert.severity;
    node_id = alert.node_id;
    state = "resolved";
    value = alert.value;
    fired_at = alert.fired_at;
    resolved_at = some now;
    acknowledged = alert.acknowledged;
  }

  abbrev pub resolved_payloads : String → Option (ActiveAlert V) → List (NotificationPayload V)
  resolved_payloads now none = []
  resolved_payloads now (some alert) =
      payload_of now (concat ("Resolved: " ∷ alert.title ∷ []))
        (concat ("Alert resolved on node " ∷ alert.node_id ∷ [])) "resolved" alert
      ∷ []

  abbrev pub resolve_at : String → String → Option ℕ → AlertManager V → AlertManager V
  resolve_at now key none m = m
  resolve_at now key (some ref) m = record {
    rules = m.rules;
    active_alerts = Dict.pop key m.active_alerts;
    history = m.history;
    store = modify ref (resolved now) m.store;
    sent = resolved_payloads now (get_elem? m.store ref) ++ m.sent;
  }

  unfoldable pub resolve : String → String → AlertManager V → AlertManager V
  resolve now key m = resolve_at now key (Dict.get key m.active_alerts) m

  unfoldable pub resolve_all : String → List String → AlertManager V → AlertManager V
  resolve_all now [] m = m
  resolve_all now (key ∷ keys) m = resolve_all now keys (resolve now key m)

  -- the rules' part of a round
  unfoldable pub first_half : (String → Answer) → String → AlertManager V → Round V
  first_half query_instant now m =
      evaluate_all query_instant now m.rules (record { manager = m; firing = []; fresh = [] })

  -- The new alerts and the manager after the round.
  unfoldable pub evaluate_rules :
      (String → Answer) → String → AlertManager V → List ℕ × AlertManager V
  evaluate_rules query_instant now m =
      let r = first_half query_instant now m in
      (r.fresh, resolve_all now (quiet r.firing r.manager.active_alerts) r.manager)

  -- `acknowledged = True`
  unfoldable pub acknowledged_of : ActiveAlert V → ActiveAlert V
  acknowledged_of alert = record {
    id = alert.id;
    rule_id = alert.rule_id;
    title = alert.title;
    message = alert.message;
    severity = alert.severity;
    node_id = alert.node_id;
    state = alert.state;
    value = alert.value;
    fired_at = alert.fired_at;
    resolved_at = alert.resolved_at;
    acknowledged = true;
  }

  unfoldable pub acknowledge_at : ℕ → AlertManager V → AlertManager V
  acknowledge_at ref m = record {
    rules = m.rules;
    active_alerts = m.active_alerts;
    history = m.history;
    store = modify ref acknowledged_of m.store;
    sent = m.sent;
  }

  abbrev pub has_id : String → Option (ActiveAlert V) → Bool
  has_id id none = false
  has_id id (some alert) = alert.id == id

  -- the loop over the history
  unfoldable pub acknowledge_in : String → List ℕ → AlertManager V → Bool × AlertManager V
  acknowledge_in alert_id [] m = (false, m)
  acknowledge_in alert_id (h ∷ hs) m =
      let rest = acknowledge_in alert_id hs m in
      if has_id alert_id (get_elem? m.store h) then (true, acknowledge_at h m) else rest

  abbrev pub acknowledge_active : String → Option ℕ → AlertManager V → Bool × AlertManager V
  acknowledge_active alert_id none m = acknowledge_in alert_id m.history m
  acknowledge_active alert_id (some ref) m = (true, acknowledge_at ref m)

  unfoldable pub acknowledge_alert : String → AlertManager V → Bool × AlertManager V
  acknowledge_alert alert_id m = acknowledge_active alert_id (Dict.get alert_id m.active_alerts) m

  unfoldable pub get_active_alerts : AlertManager V → List (Option (ActiveAlert V))
  get_active_alerts m = map (get_elem? m.store) (Dict.values m.active_alerts)

  unfoldable pub get_alert_history : ℕ → AlertManager V → List (Option (ActiveAlert V))
  get_alert_history limit m = map (get_elem? m.store) (take limit m.history)
