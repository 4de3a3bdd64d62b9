-- ===== src/Allowance/Kernel.antt =====
-- The firewall's set of blocked devices follows the tracker.

use Prim.Native.String
use Prim.Native.String.{String}
use Prim.Native.String.append
use text.Mathlib.Text.{◌==◌}
use text.Mathlib.TextEquality.{eq_iff}
use mathlib.Core.Path.{◌≡◌, refl, ap, ap₂, subst, ◌∙◌, sym}
use mathlib.Core.Logic.{inl, inr}
use mathlib.Core.Bool.{Bool, true, not, ◌&&◌, ◌||◌}
use mathlib.Core.List.{List, [], ◌∷◌, ◌++◌}
use native.Mathlib.Omega.{arith}
use roostos.Prelude.{has, minus, has-minus, has-add, has-discard, Bool-ext, Bool-cases}
use roostos.Prelude.Text.{lower, append_cancel, append_cancel_left}
use roostos.Allowance.{
  Tracker, element, block_mac_cmd, unblock_mac_cmd, execute_system_cmd, block_mac, unblock_mac,
  block_all, unblock_all, enforce, setup_policy_routing,
}

-- A kernel on which every command of `nft` and `ip` succeeds: its state, the effect of a command, and
-- the members of the set `blocked_clients`.
pub record Kernel : Type 1 where
  pub State : Type 0
  pub run : List String → State → State
  pub holds : State → String → Bool
  pub holds_add :
      (e f : String) (k : State)
      → holds (run ("nft" ∷ "add" ∷ "element" ∷ "inet" ∷ "filter" ∷ "blocked_clients" ∷ e ∷ []) k) f
        ≡ (e == f || holds k f)
  pub holds_delete :
      (e f : String) (k : State)
      → holds
          (run ("nft" ∷ "delete" ∷ "element" ∷ "inet" ∷ "filter" ∷ "blocked_clients" ∷ e ∷ []) k)
          f
        ≡ (holds k f && not (e == f))
  pub holds_ip :
      (args : List String) (f : String) (k : State) → holds (run ("ip" ∷ args) k) f ≡ holds k f

-- Every member of a list is in small letters.
pub record AllLower (xs : List String) : Type 0 where
  pub small : (m : String) → has m xs ≡ true → lower m ≡ m

element_injective : (x m : String) → lower x ≡ x → lower m ≡ m → element x ≡ element m → x ≡ m
unfolding element
element_injective x m p q h =
    let inner : String.◌++◌ (lower x) " }" ≡ String.◌++◌ (lower m) " }" =
      append_cancel_left "{ " _ _ h in
    sym p ∙ append_cancel (lower x) (lower m) " }" inner ∙ q

element_test : (x m : String) → lower x ≡ x → lower m ≡ m → (element x == element m) ≡ (x == m)
element_test x m p q =
    Bool-ext _ _ (λ h. (eq_iff x m).1 (element_injective x m p q ((eq_iff _ _).0 h)))
      (λ h. (eq_iff _ _).1 (ap element ((eq_iff x m).0 h)))

AllLower-head : (x : String) (xs : List String) → AllLower (x ∷ xs) → lower x ≡ x
unfolding has
AllLower-head x xs a = a.small x (ground (arith, eq_iff x x))

AllLower-tail : (x : String) (xs : List String) → AllLower (x ∷ xs) → AllLower xs
unfolding has
AllLower-tail x xs a = record { small = λ m h. a.small m (ground arith) }

AllLower-minus : (xs ys : List String) → AllLower xs → AllLower (minus xs ys)
AllLower-minus xs ys a = record { small = λ m h. a.small m (ground (arith, has-minus m xs ys)) }

-- The commands are those of `ip`.
abbrev pub AreIp : List (List String) → Type 0
AreIp [] = Unit
AreIp (cmd ∷ cmds) = ((args : List String) × (cmd ≡ "ip" ∷ args)) × AreIp cmds

module _ (K : Kernel) where
  open K use {State, run, holds, holds_add, holds_delete, holds_ip}

  -- The kernel after a history of commands.
  unfoldable pub ran : List (List String) → State → State
  ran [] k = k
  ran (cmd ∷ cmds) k = ran cmds (run cmd k)

  ran-append :
      (cmds : List (List String)) (cmd : List String) (k : State)
      → ran (cmds ++ cmd ∷ []) k ≡ run cmd (ran cmds k)
  unfolding ran
  ran-append [] cmd k = refl
  ran-append (c ∷ cmds) cmd k = ran-append cmds cmd (run c k)

  -- The set of the kernel that has run the history holds the blocked devices and no others.
  pub record IsSynced (start : State) (s : Tracker) : Type 0 where
    pub lowered : AllLower s.currently_blocked
    pub same :
        (m : String)
        → lower m ≡ m
        → holds (ran s.nft_call_history start) (element m) ≡ has m s.currently_blocked

  module _ (start : State) where
    block_mac-IsSynced :
        (x : String) (s : Tracker) → lower x ≡ x → IsSynced start s → IsSynced start (block_mac x s)
    unfolding block_mac block_mac_cmd
    block_mac-IsSynced x s p v = record {
      lowered = record {
        small = λ m h. elim (Bool-cases (x == m)) [
          | inl e ↦ subst (λ y. lower y ≡ y) ((eq_iff x m).0 e) p
          | inr e ↦ v.lowered.small m (ground (arith, has-add x m s.currently_blocked))
        ];
      };
      same = λ m q. rw ran-append (
          holds_add (element x) (element m) (ran s.nft_call_history start)
          ∙ ap₂ ◌||◌ (element_test x m p q) (v.same m q)
          ∙ sym (has-add x m s.currently_blocked));
    }

    unblock_mac-IsSynced :
        (x : String) (s : Tracker)
        → lower x ≡ x
        → IsSynced start s
        → IsSynced start (unblock_mac x s)
    unfolding unblock_mac unblock_mac_cmd
    unblock_mac-IsSynced x s p v = record {
      lowered = record {
        small = λ m h. v.lowered.small m (ground (arith, has-discard x m s.currently_blocked));
      };
      same = λ m q. rw ran-append (
          holds_delete (element x) (element m) (ran s.nft_call_history start)
          ∙ ap₂ (λ a b. a && not b) (v.same m q) (element_test x m p q)
          ∙ sym (has-discard x m s.currently_blocked));
    }

    block_all-IsSynced :
        (macs : List String) (s : Tracker)
        → AllLower macs
        → IsSynced start s
        → IsSynced start (block_all macs s)
    unfolding block_all
    block_all-IsSynced [] s a v = v
    block_all-IsSynced (mac ∷ macs) s a v =
        block_all-IsSynced macs (block_mac mac s) (AllLower-tail mac macs a)
          (block_mac-IsSynced mac s (AllLower-head mac macs a) v)

    unblock_all-IsSynced :
        (macs : List String) (s : Tracker)
        → AllLower macs
        → IsSynced start s
        → IsSynced start (unblock_all macs s)
    unfolding unblock_all
    unblock_all-IsSynced [] s a v = v
    unblock_all-IsSynced (mac ∷ macs) s a v =
        unblock_all-IsSynced macs (unblock_mac mac s) (AllLower-tail mac macs a)
          (unblock_mac-IsSynced mac s (AllLower-head mac macs a) v)

    pub enforce-IsSynced :
        (blocked bypasses : List String) (s : Tracker)
        → AllLower blocked
        → IsSynced start s
        → IsSynced start (enforce blocked bypasses s)
    unfolding enforce
    enforce-IsSynced blocked bypasses s a v =
        let final = minus blocked bypasses in
        let a' = AllLower-minus blocked bypasses a in
        unblock_all-IsSynced (minus s.currently_blocked final) _
          (AllLower-minus s.currently_blocked final v.lowered)
          (block_all-IsSynced (minus final s.currently_blocked) s
            (AllLower-minus final s.currently_blocked a') v)

    pub setup_policy_routing-IsSynced :
        (cmds : List (List String)) (s : Tracker)
        → AreIp cmds
        → IsSynced start s
        → IsSynced start (setup_policy_routing cmds s)
    unfolding setup_policy_routing execute_system_cmd
    setup_policy_routing-IsSynced [] s a v = v
    setup_policy_routing-IsSynced (cmd ∷ cmds) s ((args, e), a) v =
        setup_policy_routing-IsSynced cmds _ a (record {
          lowered = v.lowered;
          same = λ m q. rw (ran-append, e) (holds_ip args (element m) _ ∙ v.same m q);
        })
