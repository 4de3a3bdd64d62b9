-- ===== src/Tests/Login.antt =====
-- Tests of the providers that let users log in.
use Prim.Native.String.{String}
use mathlib.Core.Path.{◌≡◌, refl}
use mathlib.Core.Bool.{Bool, false}
use mathlib.Core.Option.{none, some}
use mathlib.Core.List.{List}
use roostos.Prelude.Result.{ok}
use roostos.Identity.{
  update_user, DomainUserUpdate, DomainUser, administrator, after, reset_password,
}
use roostos.AuthProviders.{Reader, StoredUser, ldap_provider, multi_provider, parse_authority}
use roostos.AuthProviders.Domain.{
  IsReader, authenticate-update_user, authenticate-reset_password, gets_through, stored,
}
use roostos.Tests.Domain.{new_manager, plain}

abbrev reader : Reader DomainUser (List DomainUser)
reader = record { load = λ items. ok items; fields = stored }

reader-IsReader : IsReader plain reader
reader-IsReader = record { loads = λ items. refl; shows = λ u. refl }

abbrev nobody_bound : String → String → Bool
nobody_bound user_dn password = false

authenticate-reset_password_example :
    (ldap_provider reader nobody_bound "roost.local"
        (after
          (reset_password plain "Administrator" "new" new_manager)
          new_manager).state_file).authenticate
      "ADMINISTRATOR" "new" none
    ≡ gets_through administrator "new" "ADMINISTRATOR" "new"
unfolding roostos.Identity.Accounts.is_sound roostos.Identity.init roostos.Identity.load_state
    administrator roostos.Prelude.has roostos.Prelude.Dict.get roostos.AuthProviders.Domain.is_apart
    roostos.AuthProviders.Domain.is_taken roostos.Prelude.Text.lower
authenticate-reset_password_example =
    authenticate-reset_password plain reader reader-IsReader nobody_bound "roost.local" none
      new_manager "Administrator" "ADMINISTRATOR" "new" "new" administrator refl refl refl refl refl
      refl

abbrev disabling : DomainUserUpdate
disabling = record {
  first_name = none;
  last_name = none;
  email = none;
  role = none;
  person = none;
  groups = none;
  enabled = some false;
  password = none;
}

authenticate-update_user_example :
    (ldap_provider reader nobody_bound "roost.local"
        (after
          (update_user plain none "Administrator" disabling new_manager)
          new_manager).state_file).authenticate
      "ADMINISTRATOR" "password" none
    ≡ false
unfolding roostos.Identity.Accounts.is_sound roostos.Identity.init roostos.Identity.load_state
    administrator roostos.Prelude.has roostos.Prelude.Dict.get roostos.AuthProviders.Domain.is_apart
    roostos.AuthProviders.Domain.is_taken roostos.Identity.check_person roostos.Prelude.Text.lower
authenticate-update_user_example =
    authenticate-update_user plain reader reader-IsReader nobody_bound "roost.local" none none
      new_manager "Administrator" "ADMINISTRATOR" "password" disabling administrator refl refl refl
      refl refl refl refl refl refl

-- a name of another domain that ends as one of the router is a name of the router
parse_authority-prefixes :
    (parse_authority "central" ".\\mom" none ≡ ("mom", "local"))
    × (parse_authority "local" "ROOST\\mom" none ≡ ("mom", "central"))
    × (parse_authority "central" "ROOST\\mom@Local" none ≡ ("ROOST\\mom", "local"))
    × (parse_authority "local" "mom" (some "Central") ≡ ("mom", "central"))
unfolding parse_authority roostos.Prelude.Text.starts_with roostos.AuthProviders.after_first
    roostos.Prelude.Text.lower roostos.Prelude.Text.ends_with roostos.AuthProviders.before_last
parse_authority-prefixes = (refl, refl, refl, refl)
