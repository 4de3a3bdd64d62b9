-- ===== src/Tests/Domain.antt =====
-- Tests of the accounts of the domain.

use mathlib.Core.Path.{◌≡◌, refl}
use mathlib.Core.Bool.{true}
use mathlib.Core.Option.{none, some}
use mathlib.Core.List.{List, [], ◌∷◌}
use roostos.Prelude.Result.{ok}
use roostos.Identity.{
  DomainUser, DomainUserCreate, DomainUserUpdate, IdentityManager, Json, Call, create, update,
  delete, reset, init, run, load_state,
}
use roostos.Identity.Accounts.{is_good, run-keeps}
use roostos.Identity.Restart.{IsJson, run-restart}
use roostos.Tests.Household.{home}

-- A file that holds the accounts as they are.
abbrev pub plain : Json DomainUser (List DomainUser)
plain = record {
  dump = λ items. items;
  load = λ items. ok items;
  model_dump = λ u. u;
  fields = λ u. ok u;
}

plain-IsJson : IsJson plain
plain-IsJson = record { loads = λ items. refl; reads = λ u. refl }

abbrev pub new_manager : IdentityManager (List DomainUser)
new_manager = init plain "roost.local" "roost" "roost-dc" none true

abbrev kid : DomainUserCreate
kid = record {
  username = "kid";
  password = "secret";
  first_name = some "Kid";
  last_name = none;
  email = none;
  role = "member";
  person = some "kid";
  groups = [];
}

abbrev promotion : DomainUserUpdate
promotion = record {
  first_name = none;
  last_name = none;
  email = some "kid@roost.local";
  role = some "parent";
  person = some "";
  groups = none;
  enabled = none;
  password = none;
}

abbrev calls : List Call
calls =
    create (some (ok home)) kid
    ∷ create (some (ok home)) (record kid { username = "ghost"; person = some "nobody" })
    ∷ update (some (ok home)) "kid" promotion
    ∷ delete "Administrator"
    ∷ reset "kid" "changed"
    ∷ []

run-keeps_example : is_good (run plain calls new_manager).users ≡ true
unfolding roostos.Prelude.all roostos.Identity.Accounts.is_valid roostos.Prelude.has
    roostos.Identity.Accounts.is_sound init load_state roostos.Identity.administrator
    roostos.Prelude.Dict.get
run-keeps_example = run-keeps plain calls new_manager refl refl

run-restart_example :
    load_state plain (run plain calls new_manager).state_file ≡ (run plain calls new_manager).users
unfolding roostos.Prelude.all roostos.Identity.Accounts.is_valid roostos.Prelude.has
    roostos.Identity.Accounts.is_sound init load_state roostos.Identity.administrator
    roostos.Prelude.Dict.get
run-restart_example = run-restart plain plain-IsJson calls new_manager refl refl refl refl
