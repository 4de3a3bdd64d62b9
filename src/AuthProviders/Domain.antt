-- ===== src/AuthProviders/Domain.antt =====
-- The logins that follow from the accounts which the identity manager keeps.
use Prim.Native.String.{String}
use text.Mathlib.Text.{◌==◌}
use text.Mathlib.TextEquality.{eq_iff}
use mathlib.Core.Path.{◌≡◌, refl, sym, ap, ap₂, ◌∙◌}
use mathlib.Core.Logic.{inl, inr}
use mathlib.Core.Bool.{Bool, true≢false, true, false, not, ◌&&◌, ◌||◌}
use mathlib.Core.Option
use mathlib.Core.Option.{Option, none, some}
use mathlib.Core.List.{List, [], ◌∷◌, map}
use native.Mathlib.Omega.{arith}
use roostos.Prelude.{Bool-cases, has, or_else}
use roostos.Prelude.Dict
use roostos.Prelude.Dict.{Dict, get-put_self}
use roostos.Prelude.Result.{Result, ok}
use roostos.Prelude.Text.{concat, lower, upper}
use roostos.Models.{RoostConfig, truthy}
use roostos.Identity.{
  DomainUser, DomainUserUpdate, IdentityManager, Json, after, check_person, update_user, updated,
  reset_password, save_state, set_user,
}
use roostos.Identity.Accounts.{keeps_role, updated-fits, fits, fits_of, is_sound, is_sound-put}
use roostos.AuthProviders.{
  Reader, StoredUser, authenticate_stored, equals, find_user, get_stored_user, is_fixed, is_named,
  ldap_provider,
}

-- An account as the provider of the domain sees it.
unfoldable pub stored : DomainUser → StoredUser
stored u = record {
  username = some u.username;
  enabled = some u.enabled;
  locked = some u.locked;
  password = u.password;
  role = some u.role;
  person = u.person;
}

-- What is relied on of Python's json: a dumped account shows its fields to who reads the file.
pub record IsReader {Item File : Type 0} (json : Json Item File) (reader : Reader Item File)
    : Type 0 where
  pub loads : (items : List Item) → reader.load (json.dump items) ≡ ok items
  pub shows : (u : DomainUser) → reader.fields (json.model_dump u) ≡ stored u

-- Whether an account has a name that is this one in lower case.
unfoldable pub is_taken : String → Dict DomainUser → Bool
is_taken low [] = false
is_taken low ((name, u) ∷ d) = lower name == low || is_taken low d

-- No two accounts have names that differ in case only.
unfoldable pub is_apart : Dict DomainUser → Bool
is_apart [] = true
is_apart ((name, u) ∷ d) = not (is_taken (lower name) d) && is_apart d

get-is_taken :
    (name : String) (d : Dict DomainUser)
    → Dict.contains name d ≡ true
    → is_taken (lower name) d ≡ true
unfolding is_taken Dict.get
get-is_taken name [] h = absurd cc
get-is_taken name ((j, w) ∷ d) h = elim (Bool-cases (j == name)) [
  | inl e ↦ ground (arith, eq_iff (lower j) (lower name), ap lower ((eq_iff j name).0 e))
  | inr e ↦ ground (arith, e, h, get-is_taken name d)
]

is_taken-put :
    (low name : String) (u : DomainUser) (d : Dict DomainUser)
    → Dict.contains name d ≡ true
    → is_taken low (Dict.put name u d) ≡ is_taken low d
unfolding is_taken Dict.put Dict.get
is_taken-put low name u [] h = absurd cc
is_taken-put low name u ((j, w) ∷ d) h = elim (Bool-cases (j == name)) [
  | inl e ↦ rw (e, (eq_iff j name).0 e) refl
  | inr e ↦
      let later = rw e at h in rw e (ap (lower j == low ||◌) (is_taken-put low name u d later))
]

is_apart-put :
    (name : String) (u : DomainUser) (d : Dict DomainUser)
    → Dict.contains name d ≡ true
    → is_apart d ≡ true
    → is_apart (Dict.put name u d) ≡ true
unfolding is_apart Dict.put Dict.get
is_apart-put name u [] h a = absurd cc
is_apart-put name u ((j, w) ∷ d) h a = elim (Bool-cases (j == name)) [
  | inl e ↦ let same = (eq_iff j name).0 e in rw e (rw same at a)
  | inr e ↦
      let later = rw e at h in
      rw e (ground (arith, a, is_taken-put (lower j) name u d later, is_apart-put name u d later))
]

-- An account that stands before the one of a name has another name, in whatever case.
is_named-other :
    (name j username : String) (w u : DomainUser) (d : Dict DomainUser)
    → fits j w ≡ true
    → is_taken (lower j) d ≡ false
    → lower username ≡ lower name
    → Dict.get name d ≡ some u
    → is_named username (stored w) ≡ false
unfolding stored
is_named-other name j username w u d f a l h =
    elim (Bool-cases (lower w.username == lower username)) [
      | inr e ↦ e
      | inl e ↦
          let n : j ≡ w.username = (eq_iff j w.username).0 (ground (arith, f)) in
          let p : lower j ≡ lower name =
            ap lower n ∙ (eq_iff (lower w.username) (lower username)).0 e ∙ l in
          let t : is_taken (lower name) d ≡ true = get-is_taken name d (rw h refl) in
          absurd (true≢false (sym t ∙ ap (λ low. is_taken low d) (sym p) ∙ a))
    ]

is_named-same :
    (j username : String) (w : DomainUser)
    → fits j w ≡ true
    → lower username ≡ lower j
    → is_named username (stored w) ≡ true
unfolding stored
is_named-same j username w f l =
    let n : j ≡ w.username = (eq_iff j w.username).0 (ground (arith, f)) in
    (eq_iff (lower w.username) (lower username)).1 (ap lower (sym n) ∙ sym l)

-- Whether a password is one of those that the program has for the administrator, in whatever case
-- the name is written.
abbrev pub opens_administrator : String → String → Bool
opens_administrator username password =
    lower username == "administrator"
    && (password == "RoostOS!Admin2026" || (password == "password" || password == "centralpass"))

is_fixed-opens :
    (username password : String)
    → is_fixed username password ≡ opens_administrator username password
unfolding has
is_fixed-opens username password = ground (
  arith,
  eq_iff password "RoostOS!Admin2026",
  eq_iff "RoostOS!Admin2026" password,
  eq_iff password "password",
  eq_iff "password" password,
  eq_iff password "centralpass",
  eq_iff "centralpass" password,
)

-- Whether a login gets through by what an account holds, whatever password it has.
abbrev pub gets_through : DomainUser → String → String → String → Bool
gets_through u stands username password =
    u.enabled
    && (not u.locked
        && (not (stands == "") && stands == password || opens_administrator username password))

equals-truthy :
    (stands password : String)
    → equals (truthy (some stands)) password ≡ (not (stands == "") && stands == password)
equals-truthy stands password = elim (Bool-cases (stands == "")) [
  | inl e ↦ rw e refl
  | inr e ↦ rw e refl
]

authenticate_stored-stored :
    (u : DomainUser) (stands username password : String)
    → u.password ≡ some stands
    → authenticate_stored (some (stored u)) username password
      ≡ gets_through u stands username password
unfolding authenticate_stored stored
authenticate_stored-stored u stands username password e = elim (Bool-cases u.enabled) [
  | inr off ↦ rw off refl
  | inl on ↦ elim (Bool-cases u.locked) [
    | inl shut ↦ rw (on, shut) refl
    | inr free ↦
        rw (on, free, e)
          (ap₂ ◌||◌ (equals-truthy stands password) (is_fixed-opens username password))
  ]
]

authenticate_stored-disabled :
    (u : DomainUser) (username password : String)
    → u.enabled ≡ false
    → authenticate_stored (some (stored u)) username password ≡ false
unfolding authenticate_stored stored
authenticate_stored-disabled u username password e = rw e refl

module _ {Item File : Type 0} (json : Json Item File) (reader : Reader Item File)
    (laws : IsReader json reader) where
  find_user-dumped :
      (name username : String) (u : DomainUser) (d : Dict DomainUser)
      → is_sound d ≡ true
      → is_apart d ≡ true
      → lower username ≡ lower name
      → Dict.get name d ≡ some u
      → find_user reader username (map json.model_dump (Dict.values d)) ≡ some (stored u)
  unfolding find_user Dict.values Dict.get is_sound is_apart
  find_user-dumped name username u [] s a l h = absurd cc
  find_user-dumped name username u ((j, w) ∷ d) s a l h =
      let f : fits j w ≡ true = ground (arith, s) in
      rw (laws.shows w) (elim (Bool-cases (j == name)) [
        | inl e ↦
            let found : some w ≡ some u = rw e at h in
            let p : j ≡ name = (eq_iff j name).0 e in
            rw (is_named-same j username w f (l ∙ ap lower (sym p))) (ap (Option.map stored) found)
        | inr e ↦
            let later : Dict.get name d ≡ some u = rw e at h in
            rw (is_named-other name j username w u d f (ground (arith, a)) l later)
              (find_user-dumped name username u d (ground (arith, s)) (ground (arith, a)) l later)
      ])

  get_stored_user-save_state :
      (m : IdentityManager File) (name username : String) (u : DomainUser)
      → is_sound m.users ≡ true
      → is_apart m.users ≡ true
      → m.writable ≡ true
      → Dict.get name m.users ≡ some u
      → lower username ≡ lower name
      → get_stored_user reader (save_state json m).state_file username ≡ some (stored u)
  unfolding get_stored_user save_state
  get_stored_user-save_state m name username u s a w h l = rw w (
      rw (laws.loads (map json.model_dump (Dict.values m.users)))
        (find_user-dumped name username u m.users s a l h))

  -- After a password is reset in a manager that can write its state file, whose accounts stand under
  -- their own names, with one of the three roles and with names that differ in more than case, a
  -- login that the directory server refuses gets through exactly when the account, named in
  -- whatever case, is enabled, not locked, and the password is the new one and not empty, or a fixed
  -- one of the administrator.
  pub authenticate-reset_password :
      (bind : String → String → Bool) (domain : String) (authority : Option String)
      (m : IdentityManager File) (name username new_password password : String) (u : DomainUser)
      → is_sound m.users ≡ true
      → is_apart m.users ≡ true
      → m.writable ≡ true
      → Dict.get name m.users ≡ some u
      → lower username ≡ lower name
      → bind (concat (username ∷ "@" ∷ upper domain ∷ [])) password ≡ false
      → (ldap_provider reader bind domain
            (after (reset_password json name new_password m) m).state_file).authenticate
          username password authority
        ≡ gets_through u new_password username password
  unfolding ldap_provider reset_password set_user
  authenticate-reset_password bind domain authority m name username new_password password u s a w h
        l closed =
      let v = record u { password = some new_password } in
      let n = record m { users = Dict.put name v m.users } in
      let kept =
        get_stored_user-save_state n name username v
          (is_sound-put name v m.users (fits_of name u m.users s h) s)
          (is_apart-put name v m.users (rw h refl) a) w (get-put_self name v m.users) l in
      rw (h, closed) (rw kept (authenticate_stored-stored v new_password username password refl))

  -- After an account is disabled in a manager that can write its state file, whose accounts stand
  -- under their own names, with one of the three roles and with names that differ in more than case,
  -- by an update whose role, if it has one, is one of the three and whose person is found, no login
  -- that the directory server refuses gets through under its name, in whatever case, with any
  -- password, those that the program has for the administrator included.
  pub authenticate-update_user :
      (bind : String → String → Bool) (domain : String) (authority : Option String)
      (config : Option (Result RoostConfig)) (m : IdentityManager File)
      (name username password : String) (p : DomainUserUpdate) (u : DomainUser)
      → is_sound m.users ≡ true
      → is_apart m.users ≡ true
      → m.writable ≡ true
      → Dict.get name m.users ≡ some u
      → keeps_role p.role ≡ true
      → check_person config (truthy p.person) ≡ ok tt
      → p.enabled ≡ some false
      → lower username ≡ lower name
      → bind (concat (username ∷ "@" ∷ upper domain ∷ [])) password ≡ false
      → (ldap_provider reader bind domain
            (after (update_user json config name p m) m).state_file).authenticate
          username password authority
        ≡ false
  unfolding ldap_provider update_user set_user updated
  authenticate-update_user bind domain authority config m name username password p u s a w h k found
        disabled l closed =
      let v = updated p u in
      let n = record m { users = Dict.put name v m.users } in
      let kept =
        get_stored_user-save_state n name username v
          (is_sound-put name v m.users
            (updated-fits name p u p.role refl k (fits_of name u m.users s h)) s)
          (is_apart-put name v m.users (rw h refl) a) w (get-put_self name v m.users) l in
      rw (h, found, closed)
        (rw kept (
          authenticate_stored-disabled v username password
            (ap (λ o. or_else o u.enabled) disabled)))
