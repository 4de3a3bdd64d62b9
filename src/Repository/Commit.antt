-- ===== src/Repository/Commit.antt =====
-- A commit and a discard of the staged files.

use Prim.Native.String.{String}
use text.Mathlib.Text.{◌==◌}
use text.Mathlib.TextEquality.{eq_iff}
use text.Mathlib.TextPositions.{eq_refl}
use mathlib.Core.Path.{◌≡◌, refl, ap, ◌∙◌}
use mathlib.Core.Logic.{inl, inr}
use mathlib.Core.Bool.{true, false, ◌&&◌}
use mathlib.Core.Option.{Option, none, some}
use mathlib.Core.List.{List, [], ◌∷◌}
use native.Mathlib.Omega.{arith}
use roostos.Prelude.{length, has, keep, ltb, Bool-cases, Option-cases, if_same, if◌then◌else◌}
use roostos.Prelude.Dict
use roostos.Prelude.Dict.{Dict, get-put, get-pop}
use roostos.Prelude.Result.{Result, ok, err, ◌>>=◌}
use roostos.Models.{RoostConfig}
use roostos.ConfigFiles.{Yaml, load_config_directory}
use roostos.Repository.{
  StagingConfigRepository, is_yaml, staged_files, remove_files, copy_file, copy_files,
  has_staged_changes, discard_staged_changes, overlay, get_config, get_active,
}
use roostos.Repository.Staged.{no_models, no_models-Reads, overlay-Reads}

has-staged_files :
    (name : String) (staged : Dict String)
    → has name (staged_files staged) ≡ (is_yaml name && Dict.contains name staged)
unfolding staged_files has keep Dict.keys Dict.get
has-staged_files name [] = ground arith
has-staged_files name ((j, text) ∷ staged) =
    ground (arith, eq_iff j name, has-staged_files name staged)

get-remove_files :
    (name : String) (names : List String) (staged : Dict String)
    → Dict.get name (remove_files names staged)
      ≡ (if has name names then none else Dict.get name staged)
unfolding remove_files has
get-remove_files name [] staged = refl
get-remove_files name (j ∷ names) staged =
    ground
      (arith, eq_iff j name, get-pop j name staged, get-remove_files name names (Dict.pop j staged))

-- the file of a name after a copy
abbrev pub replaced : {A : Type 0} → Option A → Option A → Option A
replaced none old = old
replaced (some a) old = some a

replaced_twice : {A : Type 0} (o old : Option A) → replaced o (replaced o old) ≡ replaced o old
replaced_twice none old = refl
replaced_twice (some a) old = refl

get-copy_file :
    (name j : String) (o : Option String) (active : Dict String)
    → Dict.get name (copy_file j o active)
      ≡ (if j == name then replaced o (Dict.get name active) else Dict.get name active)
get-copy_file name j none active = ground arith
get-copy_file name j (some text) active = get-put j name text active

get-copy_files :
    (name : String) (names : List String) (staged active : Dict String)
    → Dict.get name (copy_files names staged active) ≡ (
        if has name names
        then replaced (Dict.get name staged) (Dict.get name active)
        else Dict.get name active)
unfolding copy_files has
get-copy_files name [] staged active = refl
get-copy_files name (j ∷ names) staged active =
    let next = copy_file j (Dict.get j staged) active in
    let rest = get-copy_files name names staged next in
    let copied = get-copy_file name j (Dict.get j staged) active in
    elim (Bool-cases (j == name)) [
      | inr e ↦ rest ∙ rw (copied, e) refl
      | inl e ↦
          let same : Dict.get j staged ≡ Dict.get name staged =
            ap (λ k. Dict.get k staged) ((eq_iff j name).0 e) in
          rest
          ∙ rw (copied, e, same, replaced_twice (Dict.get name staged) (Dict.get name active))
              (if_same (has name names) (replaced (Dict.get name staged) (Dict.get name active)))
    ]

-- A YAML file after a commit is the staged one, or the active one where none is staged.
pub get-committed :
    (name : String) (staged active : Dict String)
    → is_yaml name ≡ true
    → Dict.get name (copy_files (staged_files staged) staged active)
      ≡ replaced (Dict.get name staged) (Dict.get name active)
get-committed name staged active y =
    get-copy_files name (staged_files staged) staged active
    ∙ rw (has-staged_files name staged, y)
        (elim (Option-cases (Dict.get name staged)) [
          | inl e ↦ rw e refl
          | inr (text, e) ↦ rw e refl
        ])

get-removed :
    (name : String) (staged : Dict String)
    → is_yaml name ≡ true
    → Dict.get name (remove_files (staged_files staged) staged) ≡ none
get-removed name staged y =
    get-remove_files name (staged_files staged) staged
    ∙ rw (has-staged_files name staged, y)
        (elim (Option-cases (Dict.get name staged)) [
          | inl e ↦ rw e refl
          | inr (text, e) ↦ rw e refl
        ])

length_of_none :
    (xs : List String) → ((name : String) → has name xs ≡ false) → ltb 0 (length xs) ≡ false
unfolding has
length_of_none [] h = refl
length_of_none (x ∷ xs) h = absurd (ground (arith, h x, eq_refl x))

pub no_changes :
    (staged : Dict String)
    → ltb 0 (length (staged_files (remove_files (staged_files staged) staged))) ≡ false
no_changes staged =
    length_of_none (staged_files (remove_files (staged_files staged) staged)) (λ name.
      has-staged_files name (remove_files (staged_files staged) staged)
      ∙ elim (Bool-cases (is_yaml name)) [
        | inl y ↦ rw (get-removed name staged y, y) refl
        | inr y ↦ rw y refl
      ])

module _ {Content : Type 0} (yaml : Yaml Content) where
  pub overlay-removed :
      (staged : Dict String) (config : Result RoostConfig)
      → (config >>= overlay yaml (remove_files (staged_files staged) staged)) ≡ config
  overlay-removed staged (err e) = refl
  overlay-removed staged (ok c) =
      overlay-Reads yaml (remove_files (staged_files staged) staged) no_models c (
        no_models-Reads yaml (remove_files (staged_files staged) staged)
          (λ name y. get-removed name staged y))

  not_staged : (config : Result RoostConfig) → (config >>= λ c. ok c) ≡ config
  not_staged (err e) = refl
  not_staged (ok c) = refl

  -- After a discard nothing is staged, the active files are as they were, and the repository answers
  -- what the active directory holds, an error included, whatever was staged before.
  pub get_config-discard :
      (r : StagingConfigRepository)
      → (has_staged_changes (discard_staged_changes r) ≡ false)
        × ((discard_staged_changes r).active_repo ≡ r.active_repo)
        × ((get_config yaml (discard_staged_changes r)).1
            ≡ (load_config_directory yaml r.active_repo.files).1)
  unfolding has_staged_changes discard_staged_changes get_config get_active
  get_config-discard r = elim (Option-cases r.staged) [
    | inl e ↦ rw e (refl, refl, not_staged (load_config_directory yaml r.active_repo.files).1)
    | inr (staged, e) ↦ rw e (
      no_changes staged,
      refl,
      overlay-removed staged (load_config_directory yaml r.active_repo.files).1,
    )
  ]
