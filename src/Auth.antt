-- ===== src/Auth.antt =====
-- The sessions of the web service: roostos-web/src/roostos_web/auth.py. A time is a number of
-- seconds; what `secrets` draws, the signature of a token and PAM are arguments.
pub mod Codes
pub mod Sessions
use Prim.Native.Nat.{ℕ, zero, suc, ◌+◌, ◌*◌}
use Prim.Native.String.{String}
use text.Mathlib.Text.{◌==◌}
use mathlib.Core.Bool.{Bool, true, false, not, ◌&&◌, ◌||◌}
use mathlib.Core.Option.{Option, none, some}
use mathlib.Core.List.{List, [], ◌∷◌}
use roostos.Prelude.{ltb, has, or_else, if◌then◌else◌}
use roostos.Prelude.Dict
use roostos.Prelude.Dict.{Dict}
use roostos.Prelude.Result.{Result, ok, err, ◌>>=◌}
use roostos.Prelude.Text.{lower, rstrip}
use roostos.Models.{truthy, is}

-- An item of `_auth_codes`.
pub record CodeRecord : Type 0 where
  pub username : String
  pub redirect_uri : String
  pub authority : String
  pub expires_at : ℕ

abbrev pub Codes : Type 0
Codes = Dict CodeRecord

abbrev pub new_record : ℕ → String → String → Option String → CodeRecord
new_record now username redirect_uri authority = record {
  username = username;
  redirect_uri = redirect_uri;
  authority = or_else (truthy authority) "local";
  expires_at = now + 5 * 60;
}

unfoldable pub generate_authorization_code :
    ℕ → String → String → String → Option String → Codes → String × Codes
generate_authorization_code now code username redirect_uri authority codes = (
  code,
  Dict.put code
      (record {
        username = username;
        redirect_uri = redirect_uri;
        authority = or_else (truthy authority) "local";
        expires_at = now + 5 * 60;
      })
      codes,
)

-- `a.rstrip("/") == b.rstrip("/")`; 47 is the code of the slash
abbrev pub same_uri : String → String → Bool
same_uri a b = rstrip 47 a == rstrip 47 b

abbrev pub validate_found :
    ℕ → String → String → Option CodeRecord → Codes → Option CodeRecord × Codes
validate_found now code redirect_uri none codes = (none, codes)
validate_found now code redirect_uri (some r) codes =
    if ltb r.expires_at now
    then (none, Dict.pop code codes)
    else if same_uri r.redirect_uri redirect_uri
    then (some r, Dict.pop code codes)
    else (none, codes)

unfoldable pub validate_authorization_record :
    ℕ → String → String → Codes → Option CodeRecord × Codes
validate_authorization_record now code redirect_uri codes =
    validate_found now code redirect_uri (Dict.get code codes) codes

abbrev pub username_of : Option CodeRecord → Option String
username_of none = none
username_of (some r) = some r.username

unfoldable pub validate_authorization_code : ℕ → String → String → Codes → Option String × Codes
validate_authorization_code now code redirect_uri codes =
    let (r, rest) = validate_authorization_record now code redirect_uri codes in
    (username_of r, rest)

pub record UserSession : Type 0 where
  pub username : String
  pub role : String
  pub authority : String
  pub realm : Option String
  pub person : Option String
  pub scopes : List String
  pub service_id : Option String

abbrev pub valid_mocks : Dict String
valid_mocks = ("admin", "password") ∷ ("mom", "password") ∷ ("kid1", "password") ∷ []

abbrev pub central_mocks : Dict String
central_mocks = ("centraladmin", "centralpass") ∷ ("matt", "domainpass") ∷ []

-- the `try` around PAM
abbrev pub pam_answer : Result Bool → Bool
pam_answer (err e) = false
pam_answer (ok res) = res

unfoldable pub authenticate_user :
    (String → String → Result Bool) → Option String → String → String → Option String → Bool
authenticate_user pam mock_auth username password authority =
    if is mock_auth "1"
    then if lower (or_else (truthy authority) "local") == "central"
      then is (Dict.get username central_mocks) password
      else is (Dict.get username valid_mocks) password
    else pam_answer (pam username password)

-- The claims of a token that the code reads or sets; one that is missing is `none`.
pub record Claims : Type 0 where
  pub sub : Option String
  pub role : Option String
  pub authority : Option String
  pub realm : Option String
  pub person : Option String
  pub scopes : Option (List String)
  pub service_id : Option String
  pub iss : Option String
  pub exp : Option ℕ

-- PyJWT with the key and the algorithm of the service
pub record Jwt : Type 0 where
  pub encode : Claims → String
  pub decode : ℕ → String → Option Claims

-- a claim that is set when it is missing
abbrev pub default {ℓ} : {A : Type ℓ} → Option A → A → Option A
default none d = some d
default (some a) d = some a

unfoldable pub access_claims : ℕ → Claims → Option ℕ → Claims
access_claims now c expires_delta = record c {
  iss = default c.iss "urn:roostos:node:local";
  authority = default c.authority "local";
  exp = some (now + or_else (truthy_delta expires_delta) (60 * 60));
}
  where
    -- a zero timedelta is false
    truthy_delta : Option ℕ → Option ℕ
    truthy_delta none = none
    truthy_delta (some zero) = none
    truthy_delta (some (suc n)) = some (suc n)

unfoldable pub create_access_token : Jwt → ℕ → Claims → Option ℕ → String
create_access_token jwt now c expires_delta = jwt.encode (access_claims now c expires_delta)

unfoldable pub decode_access_token : Jwt → ℕ → String → Option Claims
decode_access_token jwt now token = jwt.decode now token

-- The answer of a dependency: a value, or a status and what the caller is told.
pub data Http {ℓ} (A : Type ℓ) : Type ℓ where
  raises : ℕ → String → Http A
  returns : A → Http A

unfoldable pub mock_session : UserSession
mock_session = record {
  username = "admin";
  role = "admin";
  authority = "local";
  realm = none;
  person = some "dad";
  scopes = "admin" ∷ "root" ∷ "write" ∷ "read" ∷ [];
  service_id = none;
}

abbrev pub unauthorized : Http UserSession
unauthorized = raises 401 "Could not validate credentials"

abbrev pub session_of : Option String → Claims → Http UserSession
session_of none c = unauthorized
session_of (some username) c = returns (record {
  username = username;
  role = or_else c.role "user";
  authority = or_else c.authority "local";
  realm = c.realm;
  person = c.person;
  scopes = or_else c.scopes [];
  service_id = c.service_id;
})

abbrev pub decoded : Option Claims → Http UserSession
decoded none = unauthorized
decoded (some c) = session_of c.sub c

-- `auto_auth` of the settings, false when they cannot be read, and the two variables of the
-- environment that stand for a mock
pub record Environment : Type 0 where
  pub auto_auth : Result Bool
  pub mock : Option String
  pub dev_mock : Option String

abbrev pub is_open : Environment → Bool
is_open e = pam_answer e.auto_auth || is e.mock "1" || is e.dev_mock "1"

abbrev pub user_of : Jwt → Environment → ℕ → Option String → Http UserSession
user_of jwt e now none = if is_open e then returns mock_session else unauthorized
user_of jwt e now (some token) = decoded (jwt.decode now token)

-- `token or roostos_token`
abbrev pub or_token : Option String → Option String → Option String
or_token none cookie = truthy cookie
or_token (some token) cookie = some token

unfoldable pub get_current_user :
    Jwt → Environment → ℕ → Option String → Option String → Http UserSession
get_current_user jwt e now token roostos_token =
    user_of jwt e now (or_token (truthy token) roostos_token)

unfoldable pub require_scope : String → UserSession → Http UserSession
require_scope required_scope u =
    if u.role == "admin"
    then returns u
    else if has required_scope u.scopes || has "*" u.scopes
    then returns u
    else raises 403 "Required scope missing from credentials."

unfoldable pub get_current_parent : UserSession → Http UserSession
get_current_parent u =
    if has u.role ("admin" ∷ "parent" ∷ [])
    then returns u
    else raises 403 "Operation restricted to administrative roles."

unfoldable pub get_current_admin : UserSession → Http UserSession
get_current_admin u =
    if u.role == "admin"
    then returns u
    else raises 403 "Operation restricted strictly to system administrators."
