-- ===== src/Alerts/Objects.antt =====
-- The active alerts are the objects in the state "firing", and an acknowledgement lasts.
use Prim.Native.Nat.{ℕ}
use Prim.Native.String.{String}
use text.Mathlib.Text.{◌==◌}
use text.Mathlib.TextEquality.{eq_iff}
use mathlib.Core.Path.{◌≡◌, refl, ap, ◌∙◌, sym}
use mathlib.Core.Logic.{inl, inr}
use mathlib.Core.Bool.{Bool, true, false, not, ◌&&◌}
use mathlib.Core.Option.{Option, none, some}
use mathlib.Core.List.{List, [], ◌∷◌}
use native.Mathlib.Omega.{arith}
use roostos.Prelude.{length, eqb, or_else, Bool-cases, Option-cases, if◌then◌else◌}
use roostos.Prelude.Dict
use roostos.Prelude.Dict.{Dict, get-put, get-pop}
use roostos.Prelude.Store.{get_elem?, changed, get_elem?-append, get_elem?-modify}
use roostos.Alerts.{
  AlertRule, ActiveAlert, Item, Answer, Floats, AlertManager, Round, compare_value, new_alert, fire,
  exceed, measured, evaluate_item, evaluate_items, evaluate_all, resolved, resolve, resolve_all,
  first_half, evaluate_rules, acknowledged_of, acknowledge_at, acknowledge_in, acknowledge_active,
  acknowledge_alert, has_id,
}

-- Whether a look-up gave this reference.
abbrev pub refers : ℕ → Option ℕ → Bool
refers r none = false
refers r (some x) = eqb x r

-- Whether there is an object, with this id and in the state "firing".
abbrev pub is_firing : {V : Type 0} → String → Option (ActiveAlert V) → Bool
is_firing k none = false
is_firing k (some a) = a.id == k && a.state == "firing"

-- The dict of active alerts leads to the objects that are firing, each under its id, and to no others.
pub record IsSound {V : Type 0} (m : AlertManager V) : Type 0 where
  pub same :
      (k : String) (r : ℕ)
      → refers r (Dict.get k m.active_alerts) ≡ is_firing k (get_elem? m.store r)

get_elem?-past {ℓ} : {A : Type ℓ} (xs : List A) → get_elem? xs (length xs) ≡ none
unfolding get_elem?
get_elem?-past [] = refl
get_elem?-past (x ∷ xs) = get_elem?-past xs

module _ (F : Floats) where
  open F use {V, float}

  fire-IsSound :
      (now key : String) (alert : ActiveAlert V) (m : AlertManager V)
      → alert.id ≡ key
      → alert.state ≡ "firing"
      → Dict.contains key m.active_alerts ≡ false
      → IsSound m
      → IsSound (fire F now key alert m)
  unfolding fire
  fire-IsSound now key alert m p q e v = record {
    same = λ k r. ground (
      arith,
      get-put key k (length m.store) m.active_alerts,
      get_elem?-append m.store alert r,
      get_elem?-past m.store,
      v.same k r,
      v.same k (length m.store),
      v.same key r,
      p,
      q,
      e,
      eq_iff key k,
      eq_iff alert.id k,
      eq_iff alert.state "firing",
    );
  }

  is_firing-resolved :
      (now k : String) (o : Option (ActiveAlert V))
      → is_firing k (changed (resolved F now) o) ≡ false
  unfolding resolved
  is_firing-resolved now k none = refl
  is_firing-resolved now k (some a) = ground arith

  is_firing-id :
      (j k : String) (o : Option (ActiveAlert V)) → is_firing j o ≡ true → is_firing k o ≡ (j == k)
  is_firing-id j k none h = cc
  is_firing-id j k (some a) h = ground (arith, eq_iff a.id j, eq_iff a.id k, eq_iff j k)

  resolved_same :
      (now key k : String) (ref r : ℕ) (g : Option ℕ) (o : Option (ActiveAlert V))
      → refers r g ≡ is_firing k o
      → eqb ref r ≡ is_firing key o
      → refers r (if key == k then none else g)
        ≡ is_firing k (if eqb ref r then changed (resolved F now) o else o)
  resolved_same now key k ref r g none h t = ground arith
  resolved_same now key k ref r g (some a) h t =
      unfold resolved in
      ground (arith, eq_iff key k, eq_iff a.id key, eq_iff a.id k, is_firing-id key k (some a))

  resolve-IsSound :
      (now key : String) (m : AlertManager V) → IsSound m → IsSound (resolve F now key m)
  unfolding resolve
  resolve-IsSound now key m v = elim (Option-cases (Dict.get key m.active_alerts)) [
    | inl e ↦ rw e v
    | inr (ref, e) ↦ rw e (record {
      same = λ k r.
          ap (refers r) (get-pop key k m.active_alerts)
          ∙ resolved_same now key k ref r (Dict.get k m.active_alerts) (get_elem? m.store r)
              (v.same k r) (sym (ap (refers r) e) ∙ v.same key r)
          ∙ sym (ap (is_firing k) (get_elem?-modify ref r (resolved F now) m.store));
    })
  ]

  resolve_all-IsSound :
      (now : String) (ks : List String) (m : AlertManager V)
      → IsSound m
      → IsSound (resolve_all F now ks m)
  unfolding resolve_all
  resolve_all-IsSound now [] m v = v
  resolve_all-IsSound now (key ∷ ks) m v =
      resolve_all-IsSound now ks (resolve F now key m) (resolve-IsSound now key m v)

  -- What each new alert keeps, the rules' part of a round keeps.
  module _ (P : AlertManager V → Type 0)
      (step : (now : String) (rule : AlertRule V) (node : String) (val : V) (key : String)
          (m : AlertManager V)
        → Dict.contains key m.active_alerts ≡ false
        → P m
        → P (fire F now key (new_alert F now rule node val key) m)) where
    exceed-keeps :
        (now : String) (rule : AlertRule V) (node : String) (val : V) (key : String) (r : Round V)
        → P r.manager
        → P (exceed F now rule node val key r).manager
    unfolding exceed
    exceed-keeps now rule node val key r v =
        elim (Bool-cases (Dict.contains key r.manager.active_alerts)) [
          | inl e ↦ rw e v
          | inr e ↦ rw e (step now rule node val key r.manager e v)
        ]

    evaluate_item-keeps :
        (now : String) (rule : AlertRule V) (item : Item) (r : Round V)
        → P r.manager
        → P (evaluate_item F now rule item r).manager
    unfolding evaluate_item
    evaluate_item-keeps now rule item r v = each (float (or_else item.value "0"))
      where
        each : (o : Option V) → P (measured F now rule item.node o r).manager
        each none = v
        each (some val) = elim (Bool-cases (compare_value F val rule.op rule.threshold)) [
          | inl e ↦ rw e (exceed-keeps now rule (or_else item.node "node-01") val _ r v)
          | inr e ↦ rw e v
        ]

    evaluate_items-keeps :
        (now : String) (rule : AlertRule V) (items : List Item) (r : Round V)
        → P r.manager
        → P (evaluate_items F now rule items r).manager
    unfolding evaluate_items
    evaluate_items-keeps now rule [] r v = v
    evaluate_items-keeps now rule (item ∷ items) r v =
        evaluate_items-keeps now rule items _ (evaluate_item-keeps now rule item r v)

    evaluate_all-keeps :
        (query_instant : String → Answer) (now : String) (rules : List (AlertRule V)) (r : Round V)
        → P r.manager
        → P (evaluate_all F query_instant now rules r).manager
    unfolding evaluate_all
    evaluate_all-keeps query_instant now [] r v = v
    evaluate_all-keeps query_instant now (rule ∷ rules) r v =
        evaluate_all-keeps query_instant now rules _ one
      where
        one :
            P
              (if not ((query_instant rule.query).status == "success")
                then r
                else evaluate_items F now rule (query_instant rule.query).result r).manager
        one = elim (Bool-cases ((query_instant rule.query).status == "success")) [
          | inl e ↦ rw e (evaluate_items-keeps now rule (query_instant rule.query).result r v)
          | inr e ↦ rw e v
        ]

    pub first_half-keeps :
        (query_instant : String → Answer) (now : String) (m : AlertManager V)
        → P m
        → P (first_half F query_instant now m).manager
    unfolding first_half
    first_half-keeps query_instant now m v = evaluate_all-keeps query_instant now m.rules _ v

  -- If the dict of active alerts leads to the objects that are firing, each under its id, and to no
  -- others, then it does so after a round.
  pub evaluate_rules-IsSound :
      (query_instant : String → Answer) (now : String) (m : AlertManager V)
      → IsSound m
      → IsSound (evaluate_rules F query_instant now m).1
  unfolding evaluate_rules
  evaluate_rules-IsSound query_instant now m v = resolve_all-IsSound now _ _ (
      first_half-keeps IsSound
        (λ now rule node val key m e v.
          fire-IsSound now key (new_alert F now rule node val key) m (unfold new_alert in refl)
            (unfold new_alert in refl) e v)
        query_instant now m v)

  is_firing-acknowledged :
      (k : String) (o : Option (ActiveAlert V))
      → is_firing k (changed (acknowledged_of F) o) ≡ is_firing k o
  unfolding acknowledged_of
  is_firing-acknowledged k none = refl
  is_firing-acknowledged k (some a) = refl

  acknowledge_at-IsSound :
      (ref : ℕ) (m : AlertManager V) → IsSound m → IsSound (acknowledge_at F ref m)
  unfolding acknowledge_at
  acknowledge_at-IsSound ref m v = record {
    same = λ k r. ground (
      arith,
      get_elem?-modify ref r (acknowledged_of F) m.store,
      v.same k r,
      is_firing-acknowledged k (get_elem? m.store r),
    );
  }

  acknowledge_in-IsSound :
      (alert_id : String) (hs : List ℕ) (m : AlertManager V)
      → IsSound m
      → IsSound (acknowledge_in F alert_id hs m).1
  unfolding acknowledge_in
  acknowledge_in-IsSound alert_id [] m v = v
  acknowledge_in-IsSound alert_id (h ∷ hs) m v =
      let rest = acknowledge_in-IsSound alert_id hs m v in
      elim (Bool-cases (has_id F alert_id (get_elem? m.store h))) [
        | inl e ↦ rw e (acknowledge_at-IsSound h m v)
        | inr e ↦ rw e rest
      ]

  -- An acknowledgement, of an active alert or of one in the history, keeps the active alerts and the
  -- firing objects the same.
  pub acknowledge_alert-IsSound :
      (alert_id : String) (m : AlertManager V)
      → IsSound m
      → IsSound (acknowledge_alert F alert_id m).1
  unfolding acknowledge_alert
  acknowledge_alert-IsSound alert_id m v = each (Dict.get alert_id m.active_alerts)
    where
      each : (o : Option ℕ) → IsSound (acknowledge_active F alert_id o m).1
      each none = acknowledge_in-IsSound alert_id m.history m v
      each (some ref) = acknowledge_at-IsSound ref m v
