-- ===== src/Identity.antt =====
-- The accounts of the domain: roostos-engine/src/roostos_engine/identity_manager.py, and their models
-- in models/identity.py. The state file is the text it holds, or nothing while it does not exist;
-- what the repository's `get_config` answers is an argument of the calls that ask it.
pub mod Accounts
pub mod Restart
use Prim.Native.Nat.{ℕ}
use Prim.Native.String.{String}
use text.Mathlib.Text.{◌==◌}
use mathlib.Core.Bool.{Bool, true, false, not, ◌&&◌}
use mathlib.Core.Option.{Option, none, some}
use mathlib.Core.List.{List, [], ◌∷◌, map}
use roostos.Prelude.{length, any, has, or_else, if◌then◌else◌}
use roostos.Prelude.Dict
use roostos.Prelude.Dict.{Dict}
use roostos.Prelude.Result.{Result, ok, err, ◌>>=◌}
use roostos.Prelude.Text.{lower, upper, concat}
use roostos.Models.{PersonConfig, RoostConfig, truthy}

pub record DomainUser : Type 0 where
  pub username : String
  pub first_name : Option String
  pub last_name : Option String
  pub email : Option String
  pub role : String
  pub person : Option String
  pub groups : List String
  pub enabled : Bool
  pub locked : Bool
  pub password : Option String

pub record DomainUserCreate : Type 0 where
  pub username : String
  pub password : String
  pub first_name : Option String
  pub last_name : Option String
  pub email : Option String
  pub role : String
  pub person : Option String
  pub groups : List String

pub record DomainUserUpdate : Type 0 where
  pub first_name : Option String
  pub last_name : Option String
  pub email : Option String
  pub role : Option String
  pub person : Option String
  pub groups : Option (List String)
  pub enabled : Option Bool
  pub password : Option String

abbrev pub is_role : String → Bool
is_role v = has v ("admin" ∷ "parent" ∷ "member" ∷ [])

-- the validator of a DomainUser, which runs when one is built and not when a field is set
unfoldable pub validate_role : DomainUser → Result DomainUser
validate_role u = if is_role u.role then ok u else err "must be 'admin', 'parent', or 'member'"

pub record DomainStatus : Type 0 where
  pub realm : String
  pub workgroup : String
  pub dc_hostname : String
  pub user_count : ℕ
  pub ldap_port : ℕ
  pub ldaps_port : ℕ
  pub kerberos_port : ℕ

pub record WorkstationEnrollmentInfo : Type 0 where
  pub realm : String
  pub domain : String
  pub dc_ip : String
  pub dns_server : String
  pub enrollment_command : String
  pub powershell_command : String

pub record SrvRecord : Type 0 where
  pub name : String
  pub priority : ℕ
  pub weight : ℕ
  pub port : ℕ
  pub target : String

-- Python's json and the fields that pydantic reads from an item
pub record Json (Item File : Type 0) : Type 0 where
  pub dump : List Item → File
  pub load : File → Result (List Item)
  pub model_dump : DomainUser → Item
  pub fields : Item → Result DomainUser

pub record IdentityManager (File : Type 0) : Type 0 where
  pub realm : String
  pub workgroup : String
  pub dc_hostname : String
  pub users : Dict DomainUser
  pub state_file : Option File
  -- whether the state file can be written
  pub writable : Bool

unfoldable pub administrator : DomainUser
administrator = record {
  username = "Administrator";
  first_name = some "Domain";
  last_name = some "Administrator";
  email = none;
  role = "admin";
  person = none;
  groups = "Domain Admins" ∷ "Enterprise Admins" ∷ "Schema Admins" ∷ [];
  enabled = true;
  locked = false;
  password = none;
}

-- the person of an account, when one is named and there is a repository
abbrev pub find_person : RoostConfig → String → Result (Unit {0})
find_person c id =
    if any (λ (p : PersonConfig). p.id == id) c.people then ok tt else err "Person ID not found"

unfoldable pub check_person : Option (Result RoostConfig) → Option String → Result (Unit {0})
check_person none person = ok tt
check_person (some answer) none = ok tt
check_person (some answer) (some id) = answer >>= λ c. find_person c id

unfoldable pub new_user : DomainUserCreate → DomainUser
new_user p = record {
  username = p.username;
  first_name = p.first_name;
  last_name = p.last_name;
  email = p.email;
  role = p.role;
  person = p.person;
  groups = p.groups;
  enabled = true;
  locked = false;
  password = some p.password;
}

abbrev pub or_unset {ℓ} : {A : Type ℓ} → Option A → Option A → Option A
or_unset none a = a
or_unset (some b) a = some b

-- an empty text takes the person away
abbrev pub relinked : Option String → Option String → Option String
relinked none person = person
relinked (some id) person = if id == "" then none else some id

unfoldable pub updated : DomainUserUpdate → DomainUser → DomainUser
updated p u = record u {
  first_name = or_unset p.first_name u.first_name;
  last_name = or_unset p.last_name u.last_name;
  email = or_unset p.email u.email;
  role = or_else p.role u.role;
  person = relinked p.person u.person;
  groups = or_else p.groups u.groups;
  enabled = or_else p.enabled u.enabled;
  password = or_unset (truthy p.password) u.password;
}

module _ {Item File : Type 0} (json : Json Item File) where
  unfoldable pub model_validate : Item → Result DomainUser
  model_validate item = json.fields item >>= validate_role

  -- the loop of _load_state: what stood before an item that raises has been read
  unfoldable pub load_users : List Item → Dict DomainUser → Dict DomainUser
  load_users [] us = us
  load_users (item ∷ items) us = elim (model_validate item) [
    | err e ↦ us
    | ok u ↦ load_users items (Dict.put u.username u us)
  ]

  abbrev pub load_data : Result (List Item) → Dict DomainUser
  load_data (err e) = []
  load_data (ok items) = load_users items []

  unfoldable pub load_state : Option File → Dict DomainUser
  load_state none = (administrator.username, administrator) ∷ []
  load_state (some file) = load_data (json.load file)

  unfoldable pub init : String → String → String → Option File → Bool → IdentityManager File
  init realm workgroup dc_hostname state_file writable = record {
    realm = upper realm;
    workgroup = upper workgroup;
    dc_hostname = dc_hostname;
    users = load_state state_file;
    state_file = state_file;
    writable = writable;
  }

  unfoldable pub save_state : IdentityManager File → IdentityManager File
  save_state m =
      if m.writable
      then record m { state_file = some (json.dump (map json.model_dump (Dict.values m.users))) }
      else m

  unfoldable pub set_user :
      String → DomainUser → IdentityManager File → DomainUser × IdentityManager File
  set_user name u m = (u, save_state (record m { users = Dict.put name u m.users }))

  unfoldable pub create_user :
      Option (Result RoostConfig)
      → DomainUserCreate
      → IdentityManager File
      → Result (DomainUser × IdentityManager File)
  create_user config p m =
      if Dict.contains p.username m.users
      then err "already exists"
      else check_person config (truthy p.person) >>= λ _.
          (validate_role (new_user p) >>= λ u. ok (set_user u.username u m))

  abbrev pub update_found :
      Option (Result RoostConfig)
      → String
      → DomainUserUpdate
      → Option DomainUser
      → IdentityManager File
      → Result (DomainUser × IdentityManager File)
  update_found config name p none m = err "not found"
  update_found config name p (some u) m =
      check_person config (truthy p.person) >>= λ _. ok (set_user name (updated p u) m)

  unfoldable pub update_user :
      Option (Result RoostConfig)
      → String
      → DomainUserUpdate
      → IdentityManager File
      → Result (DomainUser × IdentityManager File)
  update_user config name p m = update_found config name p (Dict.get name m.users) m

  unfoldable pub delete_user : String → IdentityManager File → Result (Bool × IdentityManager File)
  delete_user name m =
      if lower name == "administrator"
      then err "The built-in Domain Administrator cannot be deleted"
      else if Dict.contains name m.users
      then ok (true, save_state (record m { users = Dict.pop name m.users }))
      else ok (false, m)

  abbrev pub reset_found :
      String
      → String
      → Option DomainUser
      → IdentityManager File
      → Result (Bool × IdentityManager File)
  reset_found name new_password none m = err "not found"
  reset_found name new_password (some u) m =
      ok (true, (set_user name (record u { password = some new_password }) m).1)

  -- the account that is changed is the one in the dict
  unfoldable pub reset_password :
      String → String → IdentityManager File → Result (Bool × IdentityManager File)
  reset_password name new_password m = reset_found name new_password (Dict.get name m.users) m

unfoldable pub get_status : {File : Type 0} → IdentityManager File → DomainStatus
get_status m = record {
  realm = m.realm;
  workgroup = m.workgroup;
  dc_hostname = m.dc_hostname;
  user_count = length m.users;
  ldap_port = 389;
  ldaps_port = 636;
  kerberos_port = 88;
}

unfoldable pub list_users : {File : Type 0} → IdentityManager File → List DomainUser
list_users m = Dict.values m.users

unfoldable pub get_user : {File : Type 0} → String → IdentityManager File → Option DomainUser
get_user name m = Dict.get name m.users

unfoldable pub get_enrollment_info :
    {File : Type 0} → String → IdentityManager File → WorkstationEnrollmentInfo
get_enrollment_info router_ip m = record {
  realm = m.realm;
  domain = lower m.realm;
  dc_ip = router_ip;
  dns_server = router_ip;
  enrollment_command =
      concat ("curl -sSf http://" ∷ router_ip ∷ ":8000/api/v1/identity/join.sh | sudo bash" ∷ []);
  powershell_command = concat ("Add-Computer -DomainName '" ∷ m.realm ∷ "' -Restart" ∷ []);
}

abbrev pub srv_record : {File : Type 0} → IdentityManager File → String → ℕ → SrvRecord
srv_record m service port = record {
  name = concat (service ∷ "." ∷ lower m.realm ∷ []);
  priority = 0;
  weight = 100;
  port = port;
  target = concat (m.dc_hostname ∷ "." ∷ lower m.realm ∷ []);
}

unfoldable pub get_dns_srv_records : {File : Type 0} → IdentityManager File → List SrvRecord
get_dns_srv_records m =
    srv_record m "_ldap._tcp" 389
    ∷ srv_record m "_ldap._tcp.dc._msdcs" 389
    ∷ srv_record m "_kerberos._tcp" 88
    ∷ srv_record m "_kerberos._udp" 88
    ∷ srv_record m "_kpasswd._tcp" 464
    ∷ srv_record m "_kpasswd._udp" 464
    ∷ []

-- A call of the manager with what the repository answers at that moment.
pub data Call : Type 0 where
  create : Option (Result RoostConfig) → DomainUserCreate → Call
  update : Option (Result RoostConfig) → String → DomainUserUpdate → Call
  delete : String → Call
  reset : String → String → Call

-- A call that raises leaves the manager as it was.
abbrev pub after {ℓ} :
    {A : Type ℓ} {File : Type 0}
    → Result (A × IdentityManager File)
    → IdentityManager File
    → IdentityManager File
after (err e) m = m
after (ok (a, m1)) m = m1

module _ {Item File : Type 0} (json : Json Item File) where
  unfoldable pub step : Call → IdentityManager File → IdentityManager File
  step (create config p) m = after (create_user json config p m) m
  step (update config name p) m = after (update_user json config name p m) m
  step (delete name) m = after (delete_user json name m) m
  step (reset name new_password) m = after (reset_password json name new_password m) m

  unfoldable pub run : List Call → IdentityManager File → IdentityManager File
  run [] m = m
  run (c ∷ cs) m = run cs (step c m)
