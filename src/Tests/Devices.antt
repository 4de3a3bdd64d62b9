-- ===== src/Tests/Devices.antt =====
-- Tests of the addresses, the schedules and the tracker.
use Prim.Native.Nat.{◌+◌, ◌-◌, ◌*◌}
use Prim.Native.String.{String}
use text.Mathlib.Text.{◌==◌}
use mathlib.Core.Path.{◌≡◌, refl}
use mathlib.Core.Bool.{true, false, not, ◌&&◌, ◌||◌}
use mathlib.Core.Option.{some}
use mathlib.Core.List.{List, [], ◌∷◌, map}
use native.Mathlib.Omega.{arith}
use roostos.Prelude.{has, add, discard, has-add, has-discard, Distinct, if◌then◌else◌}
use roostos.Prelude.Dict
use roostos.Prelude.Result.{ok}
use roostos.Prelude.Text
use roostos.Prelude.Int
use roostos.Prelude.Text.{lower}
use roostos.Mac
use roostos.Mac.{normalize_mac}
use roostos.Mac.Canonical.{normalize_mac_idem}
use roostos.Schedule
use roostos.Schedule.{
  Datetime, parse_hm, is_schedule_active, resolve_schedule_targets, day_of, minutes_of,
}
use roostos.Schedule.Windows.{window_holds, is_schedule_active-windows}
use roostos.Schedule.Targets.{schedule_names, has-resolve_schedule_targets}
use roostos.Schedule.Distinct.{IsMacSet, resolve_schedule_targets-IsMacSet}
use roostos.Allowance
use roostos.Allowance.{run_scheduler_check, grant_time_extension, limited, seconds}
use roostos.Allowance.Usage.{over_limit}
use roostos.Allowance.Blocking.{scheduled, has_bypass, usage_today, run_scheduler_check-blocked}
use roostos.Allowance.Extensions.{naming, run_scheduler_check-usage, grant_time_extension-unblocks}
use roostos.Allowance.Success.{IsAddressed, run_scheduler_check-succeeds}
use roostos.Allowance.Kernel.{Kernel, IsSynced, AllLower}
use roostos.Tests.Household.{home, bedtime, night, at_night, fresh}

laptop_mac : normalize_mac "AA-BB-CC-DD-EE-2" ≡ ok "aa:bb:cc:dd:ee:02"
unfolding normalize_mac Text.split Text.lower Text.replace roostos.Prelude.all Text.size Text.join
laptop_mac = refl

normalize_mac_idem_example : normalize_mac "aa:bb:cc:dd:ee:02" ≡ ok "aa:bb:cc:dd:ee:02"
normalize_mac_idem_example = normalize_mac_idem "AA-BB-CC-DD-EE-2" "aa:bb:cc:dd:ee:02" laptop_mac

bedtime_macs : resolve_schedule_targets bedtime home ≡ ok ("aa:bb:cc:dd:ee:01" ∷ [])
unfolding resolve_schedule_targets normalize_mac Schedule.add_target Schedule.add_devices
    Schedule.add_device Text.split Text.lower Text.replace roostos.Prelude.all Text.size
    roostos.Prelude.add Text.join
bedtime_macs = refl

has-resolve_schedule_targets_example :
    has "aa:bb:cc:dd:ee:01" ("aa:bb:cc:dd:ee:01" ∷ [])
    ≡ schedule_names home bedtime "aa:bb:cc:dd:ee:01"
has-resolve_schedule_targets_example =
    has-resolve_schedule_targets bedtime home "aa:bb:cc:dd:ee:01" bedtime_macs

resolve_schedule_targets-IsMacSet_example : IsMacSet ("aa:bb:cc:dd:ee:01" ∷ [])
resolve_schedule_targets-IsMacSet_example =
    resolve_schedule_targets-IsMacSet bedtime home ("aa:bb:cc:dd:ee:01" ∷ []) bedtime_macs

start_parsed : parse_hm "21:30" ≡ some (Int.pos 21, Int.pos 30)
unfolding parse_hm Text.split Int.int
start_parsed = refl

end_parsed : parse_hm "07:00" ≡ some (Int.pos 7, Int.pos 0)
unfolding parse_hm Text.split Int.int
end_parsed = refl

night_check : (run_scheduler_check at_night fresh).0 ≡ ok tt
unfolding run_scheduler_check Allowance.check_schedules Allowance.check_schedule
    Schedule.is_schedule_active Schedule.parse_hm Text.split Int.int Schedule.in_force
    Schedule.hm_le roostos.Prelude.has Text.lower Schedule.day_name resolve_schedule_targets
    Schedule.add_target Schedule.add_devices Schedule.add_device normalize_mac Text.replace
    Allowance.block_all Allowance.block_mac Allowance.block_mac_cmd Allowance.bypassed
    Allowance.charge Allowance.charge_all Allowance.charge_schedules Allowance.element
    Allowance.enforce Allowance.execute_system_cmd Allowance.expired_macs Allowance.limited
    Allowance.reset_usage Allowance.run_bypasses Allowance.seconds Allowance.setup_policy_routing
    Allowance.unblock_all Allowance.unblock_mac Allowance.unblock_mac_cmd Allowance.valid_bypasses
    Mac.is_mac Mac.mac_parts Mac.zfill Dict.get Dict.put roostos.Prelude.add roostos.Prelude.all
    roostos.Prelude.discard roostos.Prelude.keep roostos.Prelude.minus roostos.Prelude.update
    Text.join Text.lower_char Text.prepend Text.size Schedule.add_targets
night_check = refl

is_schedule_active-windows_example : is_schedule_active bedtime night ≡ (
    window_holds
      (map lower bedtime.days)
      (21 * 60 + 30)
      (7 * 60 + 0)
      (day_of night)
      (minutes_of night)
    || window_holds
        (map lower bedtime.days)
        (21 * 60 + 30)
        (7 * 60 + 0)
        (day_of night - 1)
        (minutes_of night))
is_schedule_active-windows_example =
    is_schedule_active-windows bedtime "21:30" "07:00" 21 30 7 0 night refl refl start_parsed
      end_parsed (omega arith) (omega arith) (omega arith) (omega arith) (omega arith)

run_scheduler_check-blocked_example :
    has "aa:bb:cc:dd:ee:01" (run_scheduler_check at_night fresh).1.currently_blocked ≡ (
      (scheduled home night "aa:bb:cc:dd:ee:01" home.schedules
        || over_limit home at_night.active_macs "aa:bb:cc:dd:ee:01"
            (limited home.schedules)
            (seconds "aa:bb:cc:dd:ee:01" (usage_today at_night fresh)))
      && not (has_bypass night "aa:bb:cc:dd:ee:01" []))
run_scheduler_check-blocked_example =
    run_scheduler_check-blocked at_night fresh "aa:bb:cc:dd:ee:01" night_check

run_scheduler_check-usage_example :
    seconds "aa:bb:cc:dd:ee:01" (run_scheduler_check at_night fresh).1.allowance_usage
    ≡ seconds "aa:bb:cc:dd:ee:01" (usage_today at_night fresh)
      + (if has "aa:bb:cc:dd:ee:01" at_night.active_macs
          then 60 * naming home "aa:bb:cc:dd:ee:01" (limited home.schedules)
          else 0)
run_scheduler_check-usage_example =
    run_scheduler_check-usage at_night fresh "aa:bb:cc:dd:ee:01" night_check

tablet_mac : normalize_mac "AA.BB.CC.DD.EE.1" ≡ ok "aa:bb:cc:dd:ee:01"
unfolding normalize_mac Text.split Text.lower Text.replace roostos.Prelude.all Text.size Text.join
tablet_mac = refl

granted : (grant_time_extension at_night night "AA.BB.CC.DD.EE.1" 1800 fresh).0 ≡ true
unfolding run_scheduler_check Allowance.check_schedules Allowance.check_schedule
    Schedule.is_schedule_active Schedule.parse_hm Text.split Int.int Schedule.in_force
    Schedule.hm_le roostos.Prelude.has Text.lower Schedule.day_name resolve_schedule_targets
    Schedule.add_target Schedule.add_devices Schedule.add_device normalize_mac Text.replace
    Allowance.block_all Allowance.block_mac Allowance.block_mac_cmd Allowance.bypassed
    Allowance.charge Allowance.charge_all Allowance.charge_schedules Allowance.element
    Allowance.enforce Allowance.execute_system_cmd Allowance.expired_macs Allowance.limited
    Allowance.reset_usage Allowance.run_bypasses Allowance.seconds Allowance.setup_policy_routing
    Allowance.unblock_all Allowance.unblock_mac Allowance.unblock_mac_cmd Allowance.valid_bypasses
    Mac.is_mac Mac.mac_parts Mac.zfill Dict.get Dict.put roostos.Prelude.add roostos.Prelude.all
    roostos.Prelude.discard roostos.Prelude.keep roostos.Prelude.minus roostos.Prelude.update
    Text.join Text.lower_char Text.prepend Text.size Schedule.add_targets grant_time_extension
granted = refl

grant_time_extension-unblocks_example :
    has "aa:bb:cc:dd:ee:01"
      (grant_time_extension at_night night "AA.BB.CC.DD.EE.1" 1800 fresh).1.currently_blocked
    ≡ false
grant_time_extension-unblocks_example =
    grant_time_extension-unblocks at_night night "AA.BB.CC.DD.EE.1" "aa:bb:cc:dd:ee:01" 1800 fresh
      tablet_mac (omega arith) granted

-- a kernel that keeps the elements of the set
nft : List String → List String → List String
nft (verb ∷ _ ∷ _ ∷ _ ∷ _ ∷ e ∷ []) k =
    if verb == "add" then add e k else if verb == "delete" then discard e k else k
nft _ k = k

run_command : List String → List String → List String
run_command [] k = k
run_command (program ∷ args) k = if program == "nft" then nft args k else k

abbrev elements : Kernel
elements = record {
  State = List String;
  run = run_command;
  holds = λ k e. has e k;
  holds_add = λ e f k. unfold run_command in (unfold nft in has-add e f k);
  holds_delete = λ e f k. unfold run_command in (unfold nft in has-discard e f k);
  holds_ip = λ args f k. unfold run_command in refl;
}

fresh-IsSynced : IsSynced elements [] fresh
unfolding roostos.Prelude.has roostos.Allowance.Kernel.ran
fresh-IsSynced = record { lowered = record { small = λ m h. cc }; same = λ m q. refl }

home-IsAddressed : IsAddressed home
unfolding roostos.Prelude.all normalize_mac Text.split Text.lower Text.replace Text.size Text.join
home-IsAddressed = record { of_devices = refl; of_targets = refl }

run_scheduler_check-succeeds_example : (run_scheduler_check at_night fresh).0 ≡ ok tt
run_scheduler_check-succeeds_example = run_scheduler_check-succeeds at_night fresh home-IsAddressed
