-- ===== src/AuthProviders.antt =====
-- Who may log in, and as what: roostos-web/src/roostos_web/interfaces/auth.py. PAM, the account
-- database of the system and the directory server are parameters. The provider of the domain reads
-- the state file of the identity manager, an item of which may miss fields.
pub mod Domain
use Prim.Native.Nat.{ℕ}
use Prim.Native.Char.{Char, code}
use Prim.Native.String.{String}
use text.Mathlib.Text.{◌==◌}
use mathlib.Core.Bool.{Bool, true, false, not, ◌&&◌, ◌||◌}
use mathlib.Core.Option.{Option, none, some}
use mathlib.Core.List.{List, [], ◌∷◌}
use roostos.Prelude.{any, eqb, first, has, or_else, if◌then◌else◌}
use roostos.Prelude.Dict
use roostos.Prelude.Dict.{Dict}
use roostos.Prelude.Result.{Result, ok, err}
use roostos.Prelude.Text.{concat, ends_with, lower, starts_with, upper}
use roostos.Models.{RoostConfig, UserConfig, truthy}

pub record AuthProvider : Type 0 where
  pub authenticate : String → String → Option String → Bool
  pub resolve_role : String → RoostConfig → Option String → String × Option String

-- the account of a name in the configuration
abbrev pub user_record : String → RoostConfig → Option UserConfig
user_record username config = first (λ (u : UserConfig). u.username == username) config.users

abbrev pub person_of : Option UserConfig → Option String
person_of none = none
person_of (some u) = u.person

-- pwd.getpwnam, os.getgrouplist and grp.getgrnam; what raises answers nothing
pub record Accounts : Type 0 where
  pub pw_gid : String → Option ℕ
  pub getgrouplist : String → ℕ → Option (List ℕ)
  pub gr_gid : String → Option ℕ

abbrev pub in_group : Accounts → List ℕ → String → Bool
in_group os gids group_name = elim (os.gr_gid group_name) [
  | none ↦ false
  | some gid ↦ any (eqb gid) gids
]

abbrev pub is_roostos_group_member : Accounts → String → Bool
is_roostos_group_member os username = elim (os.pw_gid username) [
  | none ↦ false
  | some user_gid ↦ elim (os.getgrouplist username user_gid) [
    | none ↦ false
    | some gids ↦ any (in_group os gids) ("roostos" ∷ "sudo" ∷ "wheel" ∷ [])
  ]
]

-- what the call of PAM answers, or that it raises
abbrev pub answered : Result Bool → Bool
answered (err e) = false
answered (ok answer) = answer

abbrev pub role_of : Option UserConfig → String × Option String
role_of none = ("member", none)
role_of (some u) = (u.role, u.person)

unfoldable pub pam_provider : (String → String → Result Bool) → Accounts → AuthProvider
pam_provider pam os = record {
  authenticate = λ username password authority. answered (pam username password);
  resolve_role = λ username config authority.
      let u = user_record username config in
      if is_roostos_group_member os username then ("admin", person_of u) else role_of u;
}

abbrev pub equals : Option String → String → Bool
equals none password = false
equals (some p) password = p == password

-- an unknown user whose name ends in "admin" is one, "admin" itself included
abbrev pub mock_role : String → Option UserConfig → String × Option String
mock_role username (some u) = (u.role, u.person)
mock_role username none =
    if username == "admin" || ends_with "admin" username then ("admin", none) else ("member", none)

-- a missing dict and an empty one give the accounts of the tests
abbrev pub mocks_or : Dict String → Option (Dict String) → Dict String
mocks_or preset none = preset
mocks_or preset (some []) = preset
mocks_or preset (some (m ∷ ms)) = m ∷ ms

unfoldable pub mock_provider : Option (Dict String) → Option (Dict String) → AuthProvider
mock_provider mock_users central_mock_users =
    let preset = ("admin", "password") ∷ ("mom", "password") ∷ ("kid1", "password") ∷ [] in
    let valid_mocks = mocks_or preset mock_users in
    let central = ("centraladmin", "centralpass") ∷ ("matt", "domainpass") ∷ [] in
    let central_mocks = mocks_or central central_mock_users in
    record {
      authenticate = λ username password authority.
          if lower (or_else (truthy authority) "local") == "central"
          then equals (Dict.get username central_mocks) password
          else equals (Dict.get username valid_mocks) password;
      resolve_role = λ username config authority. mock_role username (user_record username config);
    }

-- what follows the first `sep` of a text that has one: `s.split(sep, 1)[1]`
unfoldable pub after_first : ℕ → String → Option String
after_first sep String.[] = none
after_first sep (String.◌∷◌ c s) =
    let rest = after_first sep s in if eqb (code c) sep then some s else rest

-- what stands before the last `sep` of a text: `s.rsplit(sep, 1)[0]`
unfoldable pub before_last : ℕ → String → Option String
before_last sep String.[] = none
before_last sep (String.◌∷◌ c s) = elim (before_last sep s) [
  | some r ↦ some (String.◌∷◌ c r)
  | none ↦ if eqb (code c) sep then some String.[] else none
]

-- a backslash is the character 92, and an at sign the character 64
unfoldable pub parse_authority : String → String → Option String → String × String
parse_authority default_authority username authority =
    if starts_with ".\\" username || starts_with "local\\" (lower username)
    then (or_else (after_first 92 username) username, "local")
    else if ends_with "@local" (lower username)
    then (or_else (before_last 64 username) username, "local")
    else elim (after_first 92 username) [
      | some clean_user ↦ (clean_user, "central")
      | none ↦ (username, lower (or_else (truthy authority) default_authority))
    ]

-- the provider that a target stands for, and the authority that it is told
abbrev pub target : AuthProvider → Option AuthProvider → String → AuthProvider × String
target local_provider none target_auth = (local_provider, "local")
target local_provider (some central_provider) target_auth =
    if target_auth == "local" then (local_provider, "local") else (central_provider, "central")

unfoldable pub multi_provider : AuthProvider → Option AuthProvider → String → AuthProvider
multi_provider local_provider central_provider default_authority = record {
  authenticate = λ username password authority.
      let parsed = parse_authority default_authority username authority in
      let t = target local_provider central_provider parsed.1 in
      t.0.authenticate parsed.0 password (some t.1);
  resolve_role = λ username config authority.
      let parsed = parse_authority default_authority username authority in
      let t = target local_provider central_provider parsed.1 in
      t.0.resolve_role parsed.0 config (some t.1);
}

-- the fields that are read of an item of the state file; one that the item misses is none
pub record StoredUser : Type 0 where
  pub username : Option String
  pub enabled : Option Bool
  pub locked : Option Bool
  pub password : Option String
  pub role : Option String
  pub person : Option String

-- the items of the state file, and the fields of one
pub record Reader (Item File : Type 0) : Type 0 where
  pub load : File → Result (List Item)
  pub fields : Item → StoredUser

abbrev pub is_named : String → StoredUser → Bool
is_named username u = lower (or_else u.username "") == lower username

module _ {Item File : Type 0} (reader : Reader Item File) where
  unfoldable pub find_user : String → List Item → Option StoredUser
  find_user username [] = none
  find_user username (item ∷ items) =
      let rest = find_user username items in
      let u = reader.fields item in if is_named username u then some u else rest

  abbrev pub loaded_user : String → Result (List Item) → Option StoredUser
  loaded_user username (err e) = none
  loaded_user username (ok items) = find_user username items

  unfoldable pub get_stored_user : Option File → String → Option StoredUser
  get_stored_user none username = none
  get_stored_user (some file) username = loaded_user username (reader.load file)

abbrev pub is_usable : StoredUser → Bool
is_usable u = or_else u.enabled true && not (or_else u.locked false)

abbrev pub is_fixed : String → String → Bool
is_fixed username password =
    lower username == "administrator"
    && has password ("RoostOS!Admin2026" ∷ "password" ∷ "centralpass" ∷ [])

unfoldable pub authenticate_stored : Option StoredUser → String → String → Bool
authenticate_stored none username password = is_fixed username password
authenticate_stored (some u) username password =
    if is_usable u then equals (truthy u.password) password || is_fixed username password else false

unfoldable pub stored_role : Option StoredUser → String → String × Option String
stored_role (some u) username = (or_else u.role "member", u.person)
stored_role none username =
    if has (lower username) ("administrator" ∷ "admin" ∷ [])
    then ("admin", none)
    else ("member", none)

-- `bind` says whether the directory server lets a name of the domain in
unfoldable pub ldap_provider :
    {Item File : Type 0}
    → Reader Item File
    → (String → String → Bool)
    → String
    → Option File
    → AuthProvider
ldap_provider reader bind domain state_file = record {
  authenticate = λ username password authority.
      let user_dn = concat (username ∷ "@" ∷ upper domain ∷ []) in
      if bind user_dn password
      then true
      else authenticate_stored (get_stored_user reader state_file username) username password;
  resolve_role = λ username config authority.
      stored_role (get_stored_user reader state_file username) username;
}
