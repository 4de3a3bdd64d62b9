-- ===== src/Tests/Access.antt =====
-- Tests of authorization codes, tokens and sessions.
use Prim.Native.Nat.{ℕ, ◌+◌, ◌≤◌, ◌<◌}
use Prim.Native.String.{String}
use mathlib.Core.Path.{◌≡◌, refl}
use mathlib.Core.Logic.{◌⊎◌}
use mathlib.Core.Bool.{true, false}
use mathlib.Core.Option.{none, some}
use mathlib.Core.List.{List, [], ◌∷◌}
use native.Mathlib.Omega.{arith}
use roostos.Prelude.{any, has, ltb, lt→ltb, or_else, if◌then◌else◌}
use roostos.Prelude.Result.{ok}
use roostos.Auth.{
  CodeRecord, UserSession, Claims, Jwt, Environment, returns, access_claims, create_access_token,
  get_current_user, require_scope, get_current_parent, get_current_admin, session_of, same_uri,
}
use roostos.Auth.Codes.{
  Call, generate, validate, run, held, made, accepted, issues, run-single, validate-issued,
}
use roostos.Auth.Sessions.{Signs, get_current_user-create_access_token, get_current_user-authentic}

abbrev calls : List Call
calls =
    generate 100 "c1" "mom" "https://app/" (some "")
    ∷ validate 150 "c1" "https://other"
    ∷ validate 160 "c1" "https://app"
    ∷ validate 170 "c1" "https://app"
    ∷ []

run-single_example :
    accepted "c1" calls [] + held "c1" (run calls []) ≤ held "c1" [] + made "c1" calls
run-single_example = run-single "c1" calls []

abbrev of_mom : CodeRecord
of_mom = record {
  username = "mom";
  redirect_uri = "https://app/";
  authority = "local";
  expires_at = 400;
}

abbrev issue : List Call
issue = generate 100 "c1" "mom" "https://app/" (some "") ∷ []

validate-issued_example :
    (any (issues "c1" of_mom) issue ≡ true)
    × (160 ≤ of_mom.expires_at)
    × (same_uri of_mom.redirect_uri "https://app" ≡ true)
unfolding roostos.Auth.validate_authorization_record roostos.Prelude.Dict.get run
    roostos.Auth.Codes.step roostos.Auth.generate_authorization_code roostos.Prelude.Dict.put
    roostos.Prelude.Text.rstrip
validate-issued_example = validate-issued issue 160 "c1" "https://app" of_mom refl

abbrev mom_claims : Claims
mom_claims = record {
  sub = some "mom";
  role = some "parent";
  authority = none;
  realm = none;
  person = some "mom";
  scopes = none;
  service_id = none;
  iss = none;
  exp = none;
}

-- A service that signs the claims of one user only.
abbrev for_mom : Jwt
for_mom = record {
  encode = λ c. "token";
  decode = λ now t. if ltb now 3700 then some (access_claims 100 mom_claims (some 3600)) else none;
}

early : (now exp : ℕ) → some 3700 ≡ some exp → now < exp → now < 3700
early now exp e h = let p : 3700 ≡ exp = cc in omega (arith, p, h)

mom_signed : Signs for_mom (access_claims 100 mom_claims (some 3600))
unfolding access_claims
mom_signed = record {
  reads = λ now exp e h. rw (lt→ltb now 3700 (early now exp e h)) refl;
  shows = refl;
}

abbrev closed : Environment
closed = record { auto_auth = ok false; mock = none; dev_mock = none }

get_current_user-create_access_token_example :
    (u : UserSession) × (get_current_user for_mom closed 3000
        (some (create_access_token for_mom 100 mom_claims (some 3600)))
        none
      ≡ returns u)
    × (get_current_user for_mom closed 3000 none
          (some (create_access_token for_mom 100 mom_claims (some 3600)))
        ≡ returns u)
    × (u.username ≡ "mom")
    × (u.role ≡ "parent")
    × (u.authority ≡ "local")
    × (u.scopes ≡ [])
    × (u.realm ≡ none)
    × (u.person ≡ some "mom")
    × (u.service_id ≡ none)
get_current_user-create_access_token_example =
    get_current_user-create_access_token for_mom closed 100 3000 3599 mom_claims "mom" none refl
      mom_signed (omega arith)

abbrev mom : UserSession
mom = record {
  username = "mom";
  role = "parent";
  authority = "local";
  realm = none;
  person = some "mom";
  scopes = [];
  service_id = none;
}

get_current_user-authentic_example :
    (t : String) × (c : Claims) × ((some "token" ≡ some t) ⊎ (none ≡ some t))
    × (for_mom.decode 3000 t ≡ some c)
    × (c.sub ≡ some mom.username)
    × (mom.role ≡ or_else c.role "user")
    × (mom.scopes ≡ or_else c.scopes [])
unfolding get_current_user access_claims
get_current_user-authentic_example =
    get_current_user-authentic for_mom closed 3000 (some "token") none mom refl refl
