-- ===== src/Tests/Alarms.antt =====
-- Tests of the alerts and the notifications.
use Prim.Native.Nat.{ℕ, ◌+◌, ◌≤◌}
use Prim.Native.String.{String}
use text.Mathlib.Text.{◌==◌}
use mathlib.Core.Path.{◌≡◌, refl}
use mathlib.Core.Bool.{Bool, true, not, ◌&&◌}
use mathlib.Core.Option.{Option, none, some}
use mathlib.Core.List.{[], ◌∷◌}
use roostos.Prelude.{any, ltb, leb, eqb, if◌then◌else◌}
use roostos.Prelude.Dict
use roostos.Prelude.Store.{get_elem?}
use roostos.Notify.{
  NotificationChannelConfig, NotificationsConfig, NotificationPayload, Request, dispatch,
}
use roostos.Notify.Delivery.{eligible, reachable, dispatch-bound, dispatch-up}
use roostos.Alerts
use roostos.Alerts.{
  AlertRule, ActiveAlert, Answer, Floats, AlertManager, evaluate_rules, acknowledge_alert,
}
use roostos.Alerts.Keys.{announced, rule_fires, evaluate_rules-active, evaluate_rules-announced}
use roostos.Alerts.Objects.{IsSound, evaluate_rules-IsSound}
use roostos.Alerts.Lasting.{Holds, acknowledge_alert-lasts}

-- whole numbers in place of the floating-point ones
abbrev wholes : Floats
wholes = record {
  V = ℕ;
  gt = λ a b. ltb b a;
  ge = λ a b. leb b a;
  lt = ltb;
  le = leb;
  eq = eqb;
  float = λ s. if s == "95" then some 95 else if s == "0" then some 0 else none;
  format = λ template name value node. template;
}

abbrev disk : AlertRule ℕ
disk = record {
  id = "disk";
  name = "Disk";
  query = "usage";
  op = ">";
  threshold = 90;
  severity = "critical";
  description_template = "Disk usage";
}

abbrev full : String → Answer
full _ = record { status = "success"; result = record { value = some "95"; node = some "n1" } ∷ [] }

abbrev quiet_manager : AlertManager ℕ
quiet_manager = record {
  rules = disk ∷ [];
  active_alerts = [];
  history = [];
  store = [];
  sent = [];
}

evaluate_rules-active_example :
    Dict.contains "disk:n1" (evaluate_rules wholes full "t1" quiet_manager).1.active_alerts
    ≡ any (rule_fires wholes full "disk:n1") (disk ∷ [])
evaluate_rules-active_example = evaluate_rules-active wholes full "t1" "disk:n1" quiet_manager

evaluate_rules-announced_example :
    announced "firing" "disk:n1" (evaluate_rules wholes full "t1" quiet_manager).1.sent
    ≡ announced {V = ℕ} "firing" "disk:n1" []
      + (if any (rule_fires wholes full "disk:n1") (disk ∷ [])
            && not (Dict.contains "disk:n1" quiet_manager.active_alerts)
          then 1
          else 0)
evaluate_rules-announced_example = evaluate_rules-announced wholes full "t1" "disk:n1" quiet_manager

quiet_manager-IsSound : IsSound quiet_manager
unfolding Dict.get get_elem?
quiet_manager-IsSound = record { same = λ k r. refl }

evaluate_rules-IsSound_example : IsSound (evaluate_rules wholes full "t1" quiet_manager).1
evaluate_rules-IsSound_example =
    evaluate_rules-IsSound wholes full "t1" quiet_manager quiet_manager-IsSound

abbrev alarmed : AlertManager ℕ
alarmed = (evaluate_rules wholes full "t1" quiet_manager).1

alarmed-IsSound : IsSound alarmed
alarmed-IsSound = evaluate_rules-IsSound wholes full "t1" quiet_manager quiet_manager-IsSound

active_link : Dict.get "disk:n1" alarmed.active_alerts ≡ some 0
unfolding evaluate_rules Dict.get Alerts.resolve_all Alerts.quiet roostos.Prelude.keep Dict.keys
    Alerts.first_half Alerts.evaluate_all Alerts.evaluate_items Alerts.evaluate_item
    Alerts.compare_value Alerts.exceed Alerts.fire Dict.put roostos.Prelude.has roostos.Prelude.add
    Alerts.alert_key roostos.Prelude.Text.concat Alerts.new_alert Alerts.payload_of Alerts.resolve
    Alerts.resolved Dict.pop get_elem? roostos.Prelude.Store.modify
active_link = refl

still_firing : any (rule_fires wholes full "disk:n1") alarmed.rules ≡ true
unfolding evaluate_rules Dict.get Alerts.resolve_all Alerts.quiet roostos.Prelude.keep Dict.keys
    Alerts.first_half Alerts.evaluate_all Alerts.evaluate_items Alerts.evaluate_item
    Alerts.compare_value Alerts.exceed Alerts.fire Dict.put roostos.Prelude.has roostos.Prelude.add
    Alerts.alert_key roostos.Prelude.Text.concat Alerts.new_alert Alerts.payload_of Alerts.resolve
    Alerts.resolved Dict.pop get_elem? roostos.Prelude.Store.modify roostos.Prelude.any rule_fires
    roostos.Alerts.Keys.item_fires
still_firing = refl

acknowledge_alert-lasts_example :
    Holds "disk:n1" 0
      (evaluate_rules wholes full "t2" (acknowledge_alert wholes "disk:n1" alarmed).1).1
acknowledge_alert-lasts_example =
    acknowledge_alert-lasts wholes full "t2" "disk:n1" 0 alarmed alarmed-IsSound active_link
      still_firing

abbrev phone : NotificationChannelConfig
phone = record {
  id = "phone";
  name = "Phone";
  kind = "ntfy";
  url = "https://ntfy.example/alerts";
  enabled = true;
  min_severity = "warning";
  auth_token = none;
}

abbrev alarm : NotificationPayload ℕ
alarm = record {
  alert_id = "disk:n1";
  rule_id = "disk";
  title = "Disk";
  message = "Disk usage";
  severity = "critical";
  state = "firing";
  node_id = "n1";
  value = 95;
  timestamp = "t1";
}

abbrev to_phone : NotificationsConfig
to_phone = record { enabled = true; channels = phone ∷ [] }

answers : Request ℕ → Option ℕ
answers _ = some 200

dispatch-bound_example : dispatch answers to_phone alarm ≤ eligible alarm (phone ∷ [])
dispatch-bound_example = dispatch-bound answers to_phone alarm

-- the address of the phone is up, and no other
up : String → Bool
up url = url == phone.url

by_address : Request ℕ → Option ℕ
by_address r = some (if up r.url then 200 else 500)

dispatch-up_example : dispatch by_address to_phone alarm ≡ reachable up alarm (phone ∷ [])
dispatch-up_example = dispatch-up by_address up (λ r. unfold by_address in refl) to_phone alarm refl
