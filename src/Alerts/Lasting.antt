-- ===== src/Alerts/Lasting.antt =====
-- What becomes of an alert that an administrator has acknowledged.
use Prim.Native.Nat.{ℕ}
use Prim.Native.String.{String}
use text.Mathlib.Text.{◌==◌}
use text.Mathlib.TextEquality.{eq_iff}
use mathlib.Core.Path.{◌≡◌, refl, ap, ◌∙◌}
use mathlib.Core.Logic.{inl, inr}
use mathlib.Core.Bool.{Bool, true, false}
use mathlib.Core.Option.{Option, none, some}
use mathlib.Core.List.{List, [], ◌∷◌}
use native.Mathlib.Omega.{arith}
use roostos.Prelude.{any, has, length, eqb, is_some, Bool-cases, Option-cases}
use roostos.Prelude.Dict
use roostos.Prelude.Dict.{Dict, get-put, get-pop}
use roostos.Prelude.Store.{get_elem?, changed, get_elem?-append, get_elem?-modify, get_elem?-below}
use roostos.Alerts.{
  ActiveAlert, Answer, Floats, AlertManager, new_alert, fire, resolved, resolve, resolve_all, quiet,
  first_half, evaluate_rules, acknowledged_of, acknowledge_at, acknowledge_alert,
}
use roostos.Alerts.Keys.{rule_fires, first_half-Follows, has-quiet}
use roostos.Alerts.Objects.{IsSound, first_half-keeps}

-- Whether there is an object, and it is acknowledged.
abbrev pub is_acknowledged : {V : Type 0} → Option (ActiveAlert V) → Bool
is_acknowledged none = false
is_acknowledged (some a) = a.acknowledged

-- The key is active, its object is the one with this reference, and that is acknowledged.
pub record Holds {V : Type 0} (k : String) (ref : ℕ) (m : AlertManager V) : Type 0 where
  pub link : Dict.get k m.active_alerts ≡ some ref
  pub acked : is_acknowledged (get_elem? m.store ref) ≡ true

acknowledged-below :
    {V : Type 0} (xs : List (ActiveAlert V)) (ref : ℕ)
    → is_acknowledged (get_elem? xs ref) ≡ true
    → eqb ref (length xs) ≡ false
acknowledged-below xs ref h = elim (Option-cases (get_elem? xs ref)) [
  | inl e ↦ absurd (ground (arith, e))
  | inr (a, e) ↦ ground (arith, get_elem?-below xs ref a e)
]

module _ (F : Floats) where
  open F use {V}

  module _ (k : String) (ref : ℕ) where
    fire-Holds :
        (now key : String) (alert : ActiveAlert V) (m : AlertManager V)
        → Dict.contains key m.active_alerts ≡ false
        → Holds k ref m
        → Holds k ref (fire F now key alert m)
    unfolding fire
    fire-Holds now key alert m e v = record {
      link = elim (Bool-cases (key == k)) [
        | inl h ↦ absurd (
            ground
              (arith, v.link, e, ap (λ x. Dict.contains x m.active_alerts) ((eq_iff key k).0 h)))
        | inr h ↦ ground (arith, get-put key k (length m.store) m.active_alerts, v.link)
      ];
      acked = ground (
        arith,
        get_elem?-append m.store alert ref,
        v.acked,
        acknowledged-below m.store ref v.acked,
      );
    }

    acknowledged-resolved :
        (now : String) (o : Option (ActiveAlert V))
        → is_acknowledged (changed (resolved F now) o) ≡ is_acknowledged o
    unfolding resolved
    acknowledged-resolved now none = refl
    acknowledged-resolved now (some a) = refl

    resolve-Holds :
        (now key : String) (m : AlertManager V)
        → (key == k) ≡ false
        → Holds k ref m
        → Holds k ref (resolve F now key m)
    unfolding resolve
    resolve-Holds now key m h v = elim (Option-cases (Dict.get key m.active_alerts)) [
      | inl e ↦ rw e v
      | inr (other, e) ↦ rw e (record {
        link = ground (arith, get-pop key k m.active_alerts, v.link);
        acked = ground (
          arith,
          get_elem?-modify other ref (resolved F now) m.store,
          v.acked,
          acknowledged-resolved now (get_elem? m.store ref),
        );
      })
    ]

    resolve_all-Holds :
        (now : String) (ks : List String) (m : AlertManager V)
        → has k ks ≡ false
        → Holds k ref m
        → Holds k ref (resolve_all F now ks m)
    unfolding resolve_all has
    resolve_all-Holds now [] m h v = v
    resolve_all-Holds now (key ∷ ks) m h v =
        resolve_all-Holds now ks (resolve F now key m) (ground arith)
          (resolve-Holds now key m (ground arith) v)

    evaluate_rules-Holds :
        (query_instant : String → Answer) (now : String) (m : AlertManager V)
        → any (rule_fires F query_instant k) m.rules ≡ true
        → Holds k ref m
        → Holds k ref (evaluate_rules F query_instant now m).1
    unfolding evaluate_rules
    evaluate_rules-Holds query_instant now m h v =
        let r = first_half F query_instant now m in
        let f = first_half-Follows F k m query_instant now in
        resolve_all-Holds now (quiet r.firing r.manager.active_alerts) r.manager
          (ground (arith, has-quiet k r.firing r.manager.active_alerts, f.seen, h))
          (first_half-keeps F (Holds k ref)
            (λ now rule node val key m e v.
              fire-Holds now key (new_alert F now rule node val key) m e v)
            query_instant now m v)

  acknowledged-set :
      (o : Option (ActiveAlert V)) → is_acknowledged (changed (acknowledged_of F) o) ≡ is_some o
  unfolding acknowledged_of
  acknowledged-set none = refl
  acknowledged-set (some a) = refl

  acknowledge_alert-Holds :
      (k : String) (ref : ℕ) (m : AlertManager V)
      → IsSound m
      → Dict.get k m.active_alerts ≡ some ref
      → Holds k ref (acknowledge_alert F k m).1
  unfolding acknowledge_alert acknowledge_at
  acknowledge_alert-Holds k ref m v e = rw e (record {
    link = e;
    acked = ground (
      arith,
      get_elem?-modify ref ref (acknowledged_of F) m.store,
      acknowledged-set (get_elem? m.store ref),
      v.same k ref,
      e,
    );
  })

  acknowledge_alert-rules :
      (k : String) (ref : ℕ) (m : AlertManager V)
      → Dict.get k m.active_alerts ≡ some ref
      → (acknowledge_alert F k m).1.rules ≡ m.rules
  unfolding acknowledge_alert acknowledge_at
  acknowledge_alert-rules k ref m e = rw e refl

  -- Where an active alert is acknowledged and fires in the next round too, it is the same object
  -- after the round, still active and acknowledged.
  pub acknowledge_alert-lasts :
      (query_instant : String → Answer) (now k : String) (ref : ℕ) (m : AlertManager V)
      → IsSound m
      → Dict.get k m.active_alerts ≡ some ref
      → any (rule_fires F query_instant k) m.rules ≡ true
      → Holds k ref (evaluate_rules F query_instant now (acknowledge_alert F k m).1).1
  acknowledge_alert-lasts query_instant now k ref m v e h =
      evaluate_rules-Holds k ref query_instant now (acknowledge_alert F k m).1
        (ap (any (rule_fires F query_instant k)) (acknowledge_alert-rules k ref m e) ∙ h)
        (acknowledge_alert-Holds k ref m v e)
