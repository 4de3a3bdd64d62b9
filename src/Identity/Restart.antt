-- ===== src/Identity/Restart.antt =====
-- What a manager that starts anew reads from the state file of one that ran.
use Prim.Native.String.{String}
use text.Mathlib.TextEquality.{eq_iff}
use mathlib.Core.Path.{◌≡◌, refl, sym, ap, ◌∙◌}
use mathlib.Core.Bool.{true, false}
use mathlib.Core.Option.{some}
use mathlib.Core.List.{List, [], ◌∷◌, ◌++◌, map, append-nil, append_assoc}
use native.Mathlib.Omega.{arith}
use roostos.Prelude.{all}
use roostos.Prelude.Dict
use roostos.Prelude.Dict.{Dict, put-fresh, contains-append}
use roostos.Prelude.Result.{ok}
use roostos.Identity.{
  DomainUser, IdentityManager, Json, Call, is_role, model_validate, validate_role, load_users,
  load_state, save_state, step, run,
}
use roostos.Identity.Accounts.{fits, is_sound, is_valid, is_sound-put, is_sound-pop, step-cases}

-- What is relied on of Python's json and of pydantic: a dumped account is read again.
pub record IsJson {Item File : Type 0} (json : Json Item File) : Type 0 where
  pub loads : (items : List Item) → json.load (json.dump items) ≡ ok items
  pub reads : (u : DomainUser) → json.fields (json.model_dump u) ≡ ok u

is_sound-last :
    (acc : Dict DomainUser) (name : String) (u : DomainUser) (d : Dict DomainUser)
    → is_sound (acc ++ (name, u) ∷ d) ≡ true
    → fits name u ≡ true
unfolding is_sound
is_sound-last [] name u d h = ground (arith, h)
is_sound-last ((j, w) ∷ acc) name u d h = is_sound-last acc name u d (ground (arith, h))

is_sound-fresh :
    (acc : Dict DomainUser) (name : String) (u : DomainUser) (d : Dict DomainUser)
    → is_sound (acc ++ (name, u) ∷ d) ≡ true
    → Dict.contains name acc ≡ false
unfolding is_sound Dict.get
is_sound-fresh [] name u d h = refl
is_sound-fresh ((j, w) ∷ acc) name u d h = ground (
  arith,
  contains-append j acc ((name, u) ∷ d),
  eq_iff j name,
  eq_iff name j,
  is_sound-fresh acc name u d,
)

module _ {Item File : Type 0} (json : Json Item File) (laws : IsJson json) where
  model_validate-model_dump :
      (u : DomainUser) → is_role u.role ≡ true → model_validate json (json.model_dump u) ≡ ok u
  unfolding model_validate validate_role
  model_validate-model_dump u h = rw (laws.reads u, h) refl

  load_users-cons :
      (item : Item) (items : List Item) (u : DomainUser) (us : Dict DomainUser)
      → model_validate json item ≡ ok u
      → load_users json (item ∷ items) us ≡ load_users json items (Dict.put u.username u us)
  unfolding load_users
  load_users-cons item items u us h = rw (load_users, h) refl

  load_users-append :
      (d acc : Dict DomainUser)
      → is_sound (acc ++ d) ≡ true
      → load_users json (map json.model_dump (Dict.values d)) acc ≡ acc ++ d
  unfolding load_users Dict.values
  load_users-append [] acc h = sym (append-nil acc)
  load_users-append ((name, u) ∷ d) acc h =
      let f = is_sound-last acc name u d h in
      let r : is_role u.role ≡ true = ground (arith, f) in
      let n : name ≡ u.username = (eq_iff name u.username).0 (ground (arith, f)) in
      let placed : Dict.put u.username u acc ≡ acc ++ (name, u) ∷ [] =
        ap (λ k. Dict.put k u acc) (sym n) ∙ put-fresh name u acc (is_sound-fresh acc name u d h) in
      load_users-cons (json.model_dump u) (map json.model_dump (Dict.values d)) u acc
        (model_validate-model_dump u r)
      ∙ ap (load_users json (map json.model_dump (Dict.values d))) placed
      ∙ load_users-append d (acc ++ (name, u) ∷ []) (rw append_assoc h)
      ∙ append_assoc acc ((name, u) ∷ []) d

  -- Whether a restart gives back the accounts that the manager holds.
  abbrev pub Persists : IdentityManager File → Type 0
  Persists m = load_state json m.state_file ≡ m.users

  load_state-dump :
      (d : Dict DomainUser)
      → is_sound d ≡ true
      → load_state json (some (json.dump (map json.model_dump (Dict.values d)))) ≡ d
  unfolding load_state
  load_state-dump d h =
      rw (laws.loads (map json.model_dump (Dict.values d))) (load_users-append d [] h)

  -- what a history keeps
  record Keeps (m : IdentityManager File) : Type 0 where
    sound : is_sound m.users ≡ true
    writes : m.writable ≡ true
    persists : Persists m

  saved :
      (m : IdentityManager File) (d : Dict DomainUser)
      → m.writable ≡ true
      → is_sound d ≡ true
      → Keeps (save_state json (record m { users = d }))
  unfolding save_state
  saved m d w h = rw w (record { sound = h; writes = refl; persists = load_state-dump d h })

  step-Keeps :
      (c : Call) (m : IdentityManager File) → is_valid c ≡ true → Keeps m → Keeps (step json c m)
  step-Keeps c m v k =
      step-cases json Keeps c m v k.sound k
        (λ name u f.
          saved m (Dict.put name u m.users) k.writes (is_sound-put name u m.users f k.sound))
        (λ name e. saved m (Dict.pop name m.users) k.writes (is_sound-pop name m.users k.sound))

  run-Keeps :
      (cs : List Call) (m : IdentityManager File)
      → all is_valid cs ≡ true
      → Keeps m
      → Keeps (run json cs m)
  unfolding run all
  run-Keeps [] m v k = k
  run-Keeps (c ∷ cs) m v k =
      run-Keeps cs (step json c m) (ground (arith, v)) (step-Keeps c m (ground (arith, v)) k)

  -- After a history of calls in which no update sets a role other than the three, on a state file
  -- that can be written, a manager that starts from the state file holds the same accounts in the
  -- same order, when they were sound and a restart gave them back before the history.
  pub run-restart :
      (cs : List Call) (m : IdentityManager File)
      → all is_valid cs ≡ true
      → is_sound m.users ≡ true
      → m.writable ≡ true
      → Persists m
      → load_state json (run json cs m).state_file ≡ (run json cs m).users
  run-restart cs m v s w p =
      (run-Keeps cs m v (record { sound = s; writes = w; persists = p })).persists
