-- ===== src/Identity/Accounts.antt =====
-- The accounts that the manager holds: each stands under its own name with one of the three roles,
-- and the built-in administrator stays.
use Prim.Native.String.{String}
use text.Mathlib.Text.{◌==◌}
use text.Mathlib.TextEquality.{eq_iff}
use text.Mathlib.TextPositions.{eq_refl}
use mathlib.Core.Path.{◌≡◌, refl, sym, ap, ◌∙◌}
use mathlib.Core.Logic.{inl, inr}
use mathlib.Core.Bool.{Bool, true≢false, true, false, not, ◌&&◌}
use mathlib.Core.Option.{Option, none, some}
use mathlib.Core.List.{List, [], ◌∷◌}
use native.Mathlib.Omega.{arith}
use roostos.Prelude.{all, Bool-cases, Option-cases}
use roostos.Prelude.Dict
use roostos.Prelude.Dict.{Dict, get-put, get-pop}
use roostos.Prelude.Result.{Result, Result-cases}
use roostos.Prelude.Text.{lower}
use roostos.Models.{RoostConfig, truthy}
use roostos.Identity.{
  DomainUser, DomainUserCreate, DomainUserUpdate, IdentityManager, Json, Call, create, update,
  delete, reset, is_role, new_user, updated, check_person, set_user, save_state, create_user,
  update_user, delete_user, reset_password, validate_role, after, step, run,
}

abbrev pub fits : String → DomainUser → Bool
fits name u = name == u.username && is_role u.role

-- Every account stands once, under its own name, and has a role.
unfoldable pub is_sound : Dict DomainUser → Bool
is_sound [] = true
is_sound ((name, u) ∷ d) = fits name u && (not (Dict.contains name d) && is_sound d)

pub is_sound-put :
    (name : String) (u : DomainUser) (d : Dict DomainUser)
    → fits name u ≡ true
    → is_sound d ≡ true
    → is_sound (Dict.put name u d) ≡ true
unfolding is_sound Dict.put Dict.get
is_sound-put name u [] f h = ground arith
is_sound-put name u ((j, w) ∷ d) f h =
    ground (arith, eq_iff j name, eq_iff name j, get-put name j u d, is_sound-put name u d)

pub is_sound-pop :
    (name : String) (d : Dict DomainUser) → is_sound d ≡ true → is_sound (Dict.pop name d) ≡ true
unfolding is_sound Dict.pop
is_sound-pop name [] h = refl
is_sound-pop name ((j, w) ∷ d) h =
    ground (arith, eq_iff j name, eq_iff name j, get-pop name j d, is_sound-pop name d)

-- What a name stands for, if anything, fits it.
abbrev pub fits_found : String → Option DomainUser → Bool
fits_found name none = true
fits_found name (some u) = fits name u

pub is_sound-get :
    (name : String) (d : Dict DomainUser)
    → is_sound d ≡ true
    → fits_found name (Dict.get name d) ≡ true
unfolding is_sound Dict.get
is_sound-get name [] h = refl
is_sound-get name ((j, w) ∷ d) h = elim (Bool-cases (j == name)) [
  | inl e ↦ rw e (ground (arith, e, (eq_iff j name).0 e))
  | inr e ↦ rw e (ground (arith, is_sound-get name d))
]

pub fits_of :
    (name : String) (u : DomainUser) (d : Dict DomainUser)
    → is_sound d ≡ true
    → Dict.get name d ≡ some u
    → fits name u ≡ true
fits_of name u d h e = let found = is_sound-get name d h in rw e at found

pub save_state-users :
    {Item File : Type 0} (json : Json Item File) (m : IdentityManager File)
    → (save_state json m).users ≡ m.users
unfolding save_state
save_state-users json m = elim (Bool-cases m.writable) [ inl e ↦ rw e refl | inr e ↦ rw e refl ]

-- What holds of the manager before a call, and of the one that it saves, holds after the call.
module _ {ℓ} {Item File : Type 0} (json : Json Item File) (P : IdentityManager File → Type ℓ) where
  create_user-cases :
      (config : Option (Result RoostConfig)) (p : DomainUserCreate) (m : IdentityManager File)
      → P m
      → (is_role p.role ≡ true
          → Dict.get p.username m.users ≡ none
          → P (save_state json (record m { users = Dict.put p.username (new_user p) m.users })))
      → P (after (create_user json config p m) m)
  unfolding create_user set_user validate_role new_user
  create_user-cases config p m b f = elim (Option-cases (Dict.get p.username m.users)) [
    | inr (u, e) ↦ rw e b
    | inl e ↦ rw e (elim (Result-cases (check_person config (truthy p.person))) [
      | inr (message, q) ↦ rw q b
      | inl (x, q) ↦
          rw q (elim (Bool-cases (is_role p.role)) [ inr r ↦ rw r b | inl r ↦ rw r (f r e) ])
    ])
  ]

-- An update names a role of the three, or leaves the role.
abbrev pub keeps_role : Option String → Bool
keeps_role none = true
keeps_role (some role) = is_role role

unfoldable pub is_valid : Call → Bool
is_valid (update config name p) = keeps_role p.role
is_valid _ = true

pub updated-fits :
    (name : String) (p : DomainUserUpdate) (u : DomainUser) (role : Option String)
    → p.role ≡ role
    → keeps_role role ≡ true
    → fits name u ≡ true
    → fits name (updated p u) ≡ true
unfolding updated
updated-fits name p u none e v f = rw e f
updated-fits name p u (some role) e v f = rw e (ground (arith, f, v))

module _ {ℓ} {Item File : Type 0} (json : Json Item File) (P : IdentityManager File → Type ℓ) where
  -- A manager that a call leaves is the one before it, or the saved one with an account put that
  -- fits its name, or the saved one with an account taken that is not the administrator's.
  pub step-cases :
      (c : Call) (m : IdentityManager File)
      → is_valid c ≡ true
      → is_sound m.users ≡ true
      → P m
      → ((name : String) (u : DomainUser)
          → fits name u ≡ true
          → P (save_state json (record m { users = Dict.put name u m.users })))
      → ((name : String)
          → (lower name == "administrator") ≡ false
          → P (save_state json (record m { users = Dict.pop name m.users })))
      → P (step json c m)
  unfolding step is_valid update_user delete_user reset_password set_user new_user
  step-cases (create config p) m v s b puts pops =
      create_user-cases json P config p m b
        (λ r absent. puts p.username (new_user p) (ground (arith, eq_refl p.username, r)))
  step-cases (update config name p) m v s b puts pops =
      elim (Option-cases (Dict.get name m.users)) [
        | inl e ↦ rw e b
        | inr (u, e) ↦ rw e (elim (Result-cases (check_person config (truthy p.person))) [
          | inr (message, q) ↦ rw q b
          | inl (x, q) ↦ rw q (
              puts name (updated p u)
                (updated-fits name p u p.role refl v (fits_of name u m.users s e)))
        ])
      ]
  step-cases (delete name) m v s b puts pops = elim (Bool-cases (lower name == "administrator")) [
    | inl e ↦ rw e b
    | inr e ↦ rw e (elim (Option-cases (Dict.get name m.users)) [
      | inl q ↦ rw q b
      | inr (u, q) ↦ rw q (pops name e)
    ])
  ]
  step-cases (reset name new_password) m v s b puts pops =
      elim (Option-cases (Dict.get name m.users)) [
        | inl e ↦ rw e b
        | inr (u, e) ↦
            rw e
              (puts name (record u { password = some new_password }) (fits_of name u m.users s e))
      ]

-- The accounts are sound and the administrator's is one of them.
abbrev pub is_good : Dict DomainUser → Bool
is_good d = is_sound d && Dict.contains "Administrator" d

lower_administrator : (lower "Administrator" == "administrator") ≡ true
unfolding lower
lower_administrator = refl

not_administrator :
    (name : String) → (lower name == "administrator") ≡ false → (name == "Administrator") ≡ false
not_administrator name h = elim (Bool-cases (name == "Administrator")) [
  | inr e ↦ e
  | inl e ↦ absurd (
      true≢false (
        sym lower_administrator
        ∙ ap (λ n. lower n == "administrator") (sym ((eq_iff name "Administrator").0 e))
        ∙ h))
]

is_good-put :
    (name : String) (u : DomainUser) (d : Dict DomainUser)
    → fits name u ≡ true
    → is_good d ≡ true
    → is_good (Dict.put name u d) ≡ true
is_good-put name u d f h = ground (arith, is_sound-put name u d f, get-put name "Administrator" u d)

is_good-pop :
    (name : String) (d : Dict DomainUser)
    → (lower name == "administrator") ≡ false
    → is_good d ≡ true
    → is_good (Dict.pop name d) ≡ true
is_good-pop name d e h =
    ground (arith, is_sound-pop name d, get-pop name "Administrator" d, not_administrator name e)

module _ {Item File : Type 0} (json : Json Item File) where
  step-is_good :
      (c : Call) (m : IdentityManager File)
      → is_valid c ≡ true
      → is_good m.users ≡ true
      → is_good (step json c m).users ≡ true
  step-is_good c m v h =
      step-cases json (λ (n : IdentityManager File). is_good n.users ≡ true) c m v
        (ground (arith, h)) h
        (λ name u f. rw (save_state-users json) (is_good-put name u m.users f h))
        (λ name e. rw (save_state-users json) (is_good-pop name m.users e h))

  -- A history of calls in which no update sets a role other than the three keeps every account
  -- under its own name, once, with a role, and keeps the account of the administrator, when they
  -- were so before.
  pub run-keeps :
      (cs : List Call) (m : IdentityManager File)
      → all is_valid cs ≡ true
      → is_good m.users ≡ true
      → is_good (run json cs m).users ≡ true
  unfolding run all
  run-keeps [] m v h = h
  run-keeps (c ∷ cs) m v h =
      run-keeps cs (step json c m) (ground (arith, v)) (step-is_good c m (ground (arith, v)) h)
