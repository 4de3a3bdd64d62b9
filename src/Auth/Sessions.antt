-- ===== src/Auth/Sessions.antt =====
-- The sessions that tokens give, and what each role and scope opens.
use Prim.Native.Nat.{ℕ, suc, ◌+◌, ◌<◌}
use Prim.Native.String.{String}
use text.Mathlib.Text.{◌==◌}
use text.Mathlib.TextEquality.{eq_iff}
use mathlib.Core.Path.{◌≡◌, refl, sym, ap, ◌∙◌}
use mathlib.Core.Logic.{◌⊎◌, inl, inr}
use mathlib.Core.Bool.{Bool, true, false, ◌||◌}
use mathlib.Core.Option.{Option, none, some}
use mathlib.Core.List.{[], ◌∷◌}
use native.Mathlib.Omega.{arith}
use roostos.Prelude.{has, or_else, Bool-cases, Option-cases, if◌then◌else◌}
use roostos.Models.{truthy}
use roostos.Auth.{
  UserSession, Claims, Jwt, Environment, Http, returns, raises, access_claims, create_access_token,
  get_current_user, require_scope, get_current_parent, get_current_admin, session_of, is_open,
  or_token, unauthorized, default,
}

-- What is relied on of PyJWT: the token that it makes of some claims is read until it expires, and
-- is not empty.
pub record Signs (jwt : Jwt) (c : Claims) : Type 0 where
  pub reads : (now exp : ℕ) → c.exp ≡ some exp → now < exp → jwt.decode now (jwt.encode c) ≡ some c
  pub shows : (jwt.encode c == "") ≡ false

or_else-default : (o : Option String) (d : String) → or_else (default o d) d ≡ or_else o d
or_else-default none d = refl
or_else-default (some a) d = refl

session_of-access_claims :
    (now : ℕ) (c : Claims) (delta : Option ℕ) (sub : Option String)
    → session_of sub (access_claims now c delta) ≡ session_of sub c
unfolding access_claims
session_of-access_claims now c delta none = refl
session_of-access_claims now c delta (some n) = rw (or_else-default c.authority "local") refl

-- A token for a user, made for some seconds, gives at any moment before it expires, whether it is
-- sent as a header or as a cookie, and whatever cookie is sent beside a header, a session: of the
-- user, with the realm, the person and the service of its claims, and with their role, authority and
-- scopes, or the role user, the authority local and no scopes where they give none.
pub get_current_user-create_access_token :
    (jwt : Jwt) (e : Environment) (now later seconds : ℕ) (c : Claims) (username : String)
    (cookie : Option String)
    → c.sub ≡ some username
    → Signs jwt (access_claims now c (some (suc seconds)))
    → later < now + suc seconds
    → (u : UserSession) × (get_current_user jwt e later
          (some (create_access_token jwt now c (some (suc seconds))))
          cookie
        ≡ returns u)
      × (get_current_user jwt e later none
            (some (create_access_token jwt now c (some (suc seconds))))
          ≡ returns u)
      × (u.username ≡ username)
      × (u.role ≡ or_else c.role "user")
      × (u.authority ≡ or_else c.authority "local")
      × (u.scopes ≡ or_else c.scopes [])
      × (u.realm ≡ c.realm)
      × (u.person ≡ c.person)
      × (u.service_id ≡ c.service_id)
unfolding create_access_token get_current_user access_claims
get_current_user-create_access_token jwt e now later seconds c username cookie named laws h =
    let read = laws.reads later (now + suc seconds) refl h in
    let given =
      session_of-access_claims now c (some (suc seconds)) c.sub ∙ ap (λ n. session_of n c) named in
    (
      _,
      rw (laws.shows, read) given,
      rw (laws.shows, read) given,
      refl,
      refl,
      refl,
      refl,
      refl,
      refl,
      refl,
    )

-- Whether a dependency lets the session pass.
abbrev pub passes : {A : Type 0} → Http A → Bool
passes (raises status detail) = false
passes (returns a) = true

truthy-some : (o : Option String) (t : String) → truthy o ≡ some t → o ≡ some t
truthy-some none t h = h
truthy-some (some s) t h = elim (Bool-cases (s == "")) [
  | inl e ↦ absurd (let q = rw e at h in cc)
  | inr e ↦ rw e at h
]

or_token-some :
    (token cookie : Option String) (t : String)
    → or_token (truthy token) cookie ≡ some t
    → (token ≡ some t) ⊎ (cookie ≡ some t)
or_token-some token cookie t h = elim (Option-cases (truthy token)) [
  | inl e ↦ inr (truthy-some cookie t (rw e at h))
  | inr (s, e) ↦ inl (truthy-some token t (e ∙ (rw e at h)))
]

denied : {u : UserSession} → unauthorized ≡ returns u → ⊥
denied h = cc

answered : UserSession → Http UserSession → UserSession
answered u (raises status detail) = u
answered u (returns s) = s

session_of-returns :
    (sub : Option String) (c : Claims) (u : UserSession)
    → session_of sub c ≡ returns u
    → (sub ≡ some u.username) × (u.role ≡ or_else c.role "user") × (u.scopes ≡ or_else c.scopes [])
unfolding answered
session_of-returns none c u h = absurd cc
session_of-returns (some n) c u h =
    let p = ap (answered u) h in
    (
      ap (λ (s : UserSession). some s.username) p,
      sym (ap (λ (s : UserSession). s.role) p),
      sym (ap (λ (s : UserSession). s.scopes) p),
    )

-- A request that gets a session, outside the mocks and where the settings do not open the service,
-- carries a token, as a header or as a cookie, that PyJWT reads at this moment, and its claims name
-- the user, the role and the scopes of the session.
pub get_current_user-authentic :
    (jwt : Jwt) (e : Environment) (now : ℕ) (token cookie : Option String) (u : UserSession)
    → is_open e ≡ false
    → get_current_user jwt e now token cookie ≡ returns u
    → (t : String) × (c : Claims) × ((token ≡ some t) ⊎ (cookie ≡ some t))
      × (jwt.decode now t ≡ some c)
      × (c.sub ≡ some u.username)
      × (u.role ≡ or_else c.role "user")
      × (u.scopes ≡ or_else c.scopes [])
unfolding get_current_user
get_current_user-authentic jwt e now token cookie u closed h =
    elim (Option-cases (or_token (truthy token) cookie)) [
      | inl q ↦ absurd (let r = rw (q, closed) at h in denied {u = u} r)
      | inr (t, q) ↦ elim (Option-cases (jwt.decode now t)) [
        | inl r ↦ absurd (let s = rw (q, r) at h in denied {u = u} s)
        | inr (c, r) ↦
            let (named, role, scopes) = session_of-returns c.sub c u (rw (q, r) at h) in
            (t, c, or_token-some token cookie t q, r, named, role, scopes)
      ]
    ]

module _ (u : UserSession) (status : ℕ) (detail : String) where
  passes_if : (b : Bool) → passes (if b then returns u else raises status detail) ≡ b
  passes_if true = refl
  passes_if false = refl

  passes_if_either :
      (a b : Bool)
      → passes (if a then returns u else if b then returns u else raises status detail) ≡ (a || b)
  passes_if_either true b = refl
  passes_if_either false b = passes_if b

has_either :
    (role : String) → has role ("admin" ∷ "parent" ∷ []) ≡ (role == "admin" || role == "parent")
unfolding has
has_either role =
    ground
      (arith, eq_iff role "admin", eq_iff "admin" role, eq_iff role "parent", eq_iff "parent" role)

-- What opens to a session: the administrator's part opens to the role admin only, the parents' part
-- to admin and parent, and a scope's part to the role admin and to whoever holds the scope or `*`;
-- so whoever passes for an administrator passes for a parent and for every scope.
pub require_scope-passes :
    (scope : String) (u : UserSession)
    → (passes (get_current_admin u) ≡ (u.role == "admin"))
      × (passes (get_current_parent u) ≡ (u.role == "admin" || u.role == "parent"))
      × (passes (require_scope scope u)
          ≡ (u.role == "admin" || (has scope u.scopes || has "*" u.scopes)))
unfolding require_scope get_current_parent get_current_admin
require_scope-passes scope u = (
  elim (Bool-cases (u.role == "admin")) [ inl e ↦ rw e refl | inr e ↦ rw e refl ],
  passes_if u 403 _ (has u.role ("admin" ∷ "parent" ∷ [])) ∙ has_either u.role,
  passes_if_either u 403 _ (u.role == "admin") (has scope u.scopes || has "*" u.scopes),
)
