-- ===== src/Alerts/Keys.antt =====
-- Which alerts a round of the rules makes active, and which it announces.
use Prim.Native.Nat.{ℕ, ◌+◌}
use Prim.Native.String.{String}
use text.Mathlib.Text.{◌==◌}
use text.Mathlib.TextEquality.{eq_iff}
use mathlib.Core.Path.{◌≡◌, refl, ap, subst, ◌∙◌}
use mathlib.Core.Logic.{inl, inr}
use mathlib.Core.Bool.{Bool, false, not, ◌&&◌, ◌||◌}
use mathlib.Core.Option.{Option, none, some}
use mathlib.Core.List.{List, [], ◌∷◌, ◌++◌}
use native.Mathlib.Omega.{arith}
use roostos.Prelude.{
  any, keep, has, has-add, length, or_else, Bool-cases, Option-cases, or_assoc, if◌then◌else◌,
}
use roostos.Prelude.Dict
use roostos.Prelude.Dict.{Dict, get-put, get-pop}
use roostos.Prelude.Store.{get_elem?}
use roostos.Notify.{NotificationPayload}
use roostos.Alerts.{
  AlertRule, ActiveAlert, Item, Answer, Floats, AlertManager, Round, alert_key, compare_value,
  new_alert, payload_of, fire, exceed, measured, evaluate_item, evaluate_items, evaluate_all,
  resolve, resolve_all, quiet, first_half, evaluate_rules, resolved_payloads,
}

-- How many of the payloads announce the alert in this state.
unfoldable pub announced : {V : Type 0} → String → String → List (NotificationPayload V) → ℕ
announced state k [] = 0
announced state k (p ∷ ps) =
    (if p.alert_id == k && p.state == state then 1 else 0) + announced state k ps

announced-append :
    {V : Type 0} (state k : String) (xs ys : List (NotificationPayload V))
    → announced state k (xs ++ ys) ≡ announced state k xs + announced state k ys
unfolding announced
announced-append state k [] ys = omega arith
announced-append state k (x ∷ xs) ys = omega (arith, announced-append state k xs ys)

pub has-keys : {V : Type 0} (k : String) (d : Dict V) → has k (Dict.keys d) ≡ Dict.contains k d
unfolding has Dict.keys Dict.get
has-keys k [] = refl
has-keys k ((j, v) ∷ d) = ground (arith, has-keys k d)

pub has-quiet :
    (k : String) (firing : List String) (d : Dict ℕ)
    → has k (quiet firing d) ≡ (Dict.contains k d && not (has k firing))
unfolding quiet has keep
has-quiet k firing d = kept (Dict.keys d) ∙ ap (λ b. b && not (has k firing)) (has-keys k d)
  where
    kept :
        (ks : List String)
        → has k (keep (λ j. not (has j firing)) ks) ≡ (has k ks && not (has k firing))
    kept [] = refl
    kept (j ∷ ks) = ground (arith, kept ks, eq_iff j k)

module _ (F : Floats) where
  open F use {V, float}

  -- Whether a measured value is beyond the threshold of its rule.
  abbrev pub beyond : AlertRule V → Option V → Bool
  beyond rule none = false
  beyond rule (some val) = compare_value F val rule.op rule.threshold

  -- Whether a series makes an alert of this key fire.
  unfoldable pub item_fires : AlertRule V → String → Item → Bool
  item_fires rule k item =
      beyond rule (float (or_else item.value "0")) && alert_key rule.id item.node == k

  -- Whether a rule makes an alert of this key fire, by the answers of the telemetry.
  unfoldable pub rule_fires : (String → Answer) → String → AlertRule V → Bool
  rule_fires query_instant k rule =
      (query_instant rule.query).status == "success"
      && any (item_fires rule k) (query_instant rule.query).result

  module _ (k : String) (m : AlertManager V) where
    -- What a round has done to a key so far.
    pub record Follows (r : Round V) (fired : Bool) : Type 0 where
      pub seen : has k r.firing ≡ fired
      active : Dict.contains k r.manager.active_alerts ≡ (Dict.contains k m.active_alerts || fired)
      pub told :
          announced "firing" k r.manager.sent
          ≡ announced "firing" k m.sent
            + (if fired && not (Dict.contains k m.active_alerts) then 1 else 0)

    exceed-Follows :
        (now : String) (rule : AlertRule V) (node : String) (val : V) (key : String) (r : Round V)
        (fired : Bool)
        → Follows r fired
        → Follows (exceed F now rule node val key r) (fired || key == k)
    unfolding exceed fire payload_of new_alert announced
    exceed-Follows now rule node val key r fired v =
        elim (Bool-cases (Dict.contains key r.manager.active_alerts)) [
          | inl e ↦ rw e (record {
            seen = ground (arith, has-add key k r.firing, v.seen);
            active = ground (arith, v.active, eq_iff key k, e);
            told = ground (arith, v.told, v.active, eq_iff key k, e);
          })
          | inr e ↦ rw e (record {
            seen = ground (arith, has-add key k r.firing, v.seen);
            active = ground (
              arith,
              v.active,
              eq_iff key k,
              get-put key k (length r.manager.store) r.manager.active_alerts,
            );
            told = ground (arith, v.told, v.active, eq_iff key k, e);
          })
        ]

    evaluate_item-Follows :
        (now : String) (rule : AlertRule V) (item : Item) (r : Round V) (fired : Bool)
        → Follows r fired
        → Follows (evaluate_item F now rule item r) (fired || item_fires rule k item)
    unfolding evaluate_item item_fires
    evaluate_item-Follows now rule item r fired v = each (float (or_else item.value "0"))
      where
        each :
            (o : Option V)
            → Follows
                (measured F now rule item.node o r)
                (fired || (beyond rule o && alert_key rule.id item.node == k))
        each none = subst (Follows r) (ground arith) v
        each (some val) = elim (Bool-cases (compare_value F val rule.op rule.threshold)) [
          | inl e ↦ rw e (exceed-Follows now rule (or_else item.node "node-01") val _ r fired v)
          | inr e ↦ rw e (subst (Follows r) (ground arith) v)
        ]

    evaluate_items-Follows :
        (now : String) (rule : AlertRule V) (items : List Item) (r : Round V) (fired : Bool)
        → Follows r fired
        → Follows (evaluate_items F now rule items r) (fired || any (item_fires rule k) items)
    unfolding evaluate_items any
    evaluate_items-Follows now rule [] r fired v = subst (Follows r) (ground arith) v
    evaluate_items-Follows now rule (item ∷ items) r fired v =
        subst (Follows _) (or_assoc fired (item_fires rule k item) (any (item_fires rule k) items))
          (evaluate_items-Follows now rule items _ _
            (evaluate_item-Follows now rule item r fired v))

    evaluate_all-Follows :
        (query_instant : String → Answer) (now : String) (rules : List (AlertRule V)) (r : Round V)
        (fired : Bool)
        → Follows r fired
        → Follows
            (evaluate_all F query_instant now rules r)
            (fired || any (rule_fires query_instant k) rules)
    unfolding evaluate_all any rule_fires
    evaluate_all-Follows query_instant now [] r fired v = subst (Follows r) (ground arith) v
    evaluate_all-Follows query_instant now (rule ∷ rules) r fired v =
        subst (Follows _)
          (or_assoc fired (rule_fires query_instant k rule)
            (any (rule_fires query_instant k) rules))
          (evaluate_all-Follows query_instant now rules _ _ one)
      where
        one :
            Follows
              (if not ((query_instant rule.query).status == "success")
                then r
                else evaluate_items F now rule (query_instant rule.query).result r)
              (fired || rule_fires query_instant k rule)
        one = elim (Bool-cases ((query_instant rule.query).status == "success")) [
          | inl e ↦
              rw e (evaluate_items-Follows now rule (query_instant rule.query).result r fired v)
          | inr e ↦ rw e (subst (Follows r) (ground arith) v)
        ]

    pub first_half-Follows :
        (query_instant : String → Answer) (now : String)
        → Follows (first_half F query_instant now m) (any (rule_fires query_instant k) m.rules)
    unfolding first_half
    first_half-Follows query_instant now =
        evaluate_all-Follows query_instant now m.rules _ false
          (record { seen = unfold has in refl; active = ground arith; told = omega arith })

  resolve-contains :
      (now key k : String) (m : AlertManager V)
      → Dict.contains k (resolve F now key m).active_alerts
        ≡ (Dict.contains k m.active_alerts && not (key == k))
  unfolding resolve
  resolve-contains now key k m = elim (Option-cases (Dict.get key m.active_alerts)) [
    | inl e ↦ rw e (ground (arith, e, eq_iff key k))
    | inr (ref, e) ↦ rw e (ground (arith, get-pop key k m.active_alerts))
  ]

  resolve_all-contains :
      (now k : String) (ks : List String) (m : AlertManager V)
      → Dict.contains k (resolve_all F now ks m).active_alerts
        ≡ (Dict.contains k m.active_alerts && not (has k ks))
  unfolding resolve_all has
  resolve_all-contains now k [] m = ground arith
  resolve_all-contains now k (key ∷ ks) m =
      ground
        (arith, resolve_all-contains now k ks (resolve F now key m), resolve-contains now key k m)

  -- After a round, the active alerts are those that fire by the answers of the telemetry, and no
  -- others, whatever was active before.
  pub evaluate_rules-active :
      (query_instant : String → Answer) (now k : String) (m : AlertManager V)
      → Dict.contains k (evaluate_rules F query_instant now m).1.active_alerts
        ≡ any (rule_fires query_instant k) m.rules
  unfolding evaluate_rules
  evaluate_rules-active query_instant now k m =
      let r = first_half F query_instant now m in
      let v = first_half-Follows k m query_instant now in
      ground (
        arith,
        resolve_all-contains now k (quiet r.firing r.manager.active_alerts) r.manager,
        has-quiet k r.firing r.manager.active_alerts,
        v.seen,
        v.active,
      )

  resolve-told :
      (now key k : String) (m : AlertManager V)
      → announced "firing" k (resolve F now key m).sent ≡ announced "firing" k m.sent
  unfolding resolve
  resolve-told now key k m = elim (Option-cases (Dict.get key m.active_alerts)) [
    | inl e ↦ rw e refl
    | inr (ref, e) ↦ rw e (payloads (get_elem? m.store ref))
  ]
    where
      payloads :
          (o : Option (ActiveAlert V))
          → announced "firing" k (resolved_payloads F now o ++ m.sent) ≡ announced "firing" k m.sent
      payloads none = refl
      payloads (some alert) = unfold announced in (unfold payload_of in ground arith)

  resolve_all-told :
      (now k : String) (ks : List String) (m : AlertManager V)
      → announced "firing" k (resolve_all F now ks m).sent ≡ announced "firing" k m.sent
  unfolding resolve_all
  resolve_all-told now k [] m = refl
  resolve_all-told now k (key ∷ ks) m =
      resolve_all-told now k ks (resolve F now key m) ∙ resolve-told now key k m

  -- A round announces an alert as firing once where it fires and was not active, and not at all
  -- otherwise: an alert that goes on firing is not announced again.
  pub evaluate_rules-announced :
      (query_instant : String → Answer) (now k : String) (m : AlertManager V)
      → announced "firing" k (evaluate_rules F query_instant now m).1.sent
        ≡ announced "firing" k m.sent
          + (if any (rule_fires query_instant k) m.rules && not (Dict.contains k m.active_alerts)
              then 1
              else 0)
  unfolding evaluate_rules
  evaluate_rules-announced query_instant now k m =
      let r = first_half F query_instant now m in
      let v = first_half-Follows k m query_instant now in
      resolve_all-told now k (quiet r.firing r.manager.active_alerts) r.manager ∙ v.told
