-- ===== src/Replicator/Convergence.antt =====
-- What a replica holds once it has applied the bundle of a controller.
use Prim.Native.Nat.{ℕ}
use Prim.Native.String.{String}
use text.Mathlib.Text.{◌==◌}
use text.Mathlib.TextEquality.{eq_iff}
use text.Mathlib.TextPositions.{eq_refl}
use mathlib.Core.Path.{◌≡◌, refl, sym, ap, ◌∙◌}
use mathlib.Core.Logic.{inl, inr}
use mathlib.Core.Bool.{Bool, true, false, not}
use mathlib.Core.Option.{Option, none, some}
use mathlib.Core.List.{List, [], ◌∷◌}
use native.Mathlib.Omega.{arith}
use roostos.Prelude.{all, all-has, has, or_else, Bool-cases, Option-cases, if_same, if◌then◌else◌}
use roostos.Prelude.Dict
use roostos.Prelude.Dict.{Dict, get-put}
use roostos.Prelude.Text.{concat}
use roostos.Replicator.{
  ClusterReplicator, config_files, content_of, text_of, read_file, hash_of, compute_file_hash,
  hashes_of, compute_hashes, generate_manifest, mismatches, compare_manifest, texts_of,
  export_bundle, backup_file, write_files, apply_bundle,
}

-- the file of a name after the bundle
abbrev chosen : Option String → Option String → Option String
chosen none old = old
chosen (some text) old = some text

-- A backup of a shared file is none of the shared files.
abbrev is_apart : String → Bool
is_apart filename = not (has (concat (filename ∷ ".bak" ∷ [])) config_files)

all_apart : all is_apart config_files ≡ true
unfolding all has concat
all_apart = refl

backup_name :
    (filename name : String)
    → has filename config_files ≡ true
    → has name config_files ≡ true
    → (concat (filename ∷ ".bak" ∷ []) == name) ≡ false
backup_name filename name f h =
    let apart = all-has is_apart filename config_files all_apart f in
    elim (Bool-cases (concat (filename ∷ ".bak" ∷ []) == name)) [
      | inr e ↦ e
      | inl e ↦
          let same : has (concat (filename ∷ ".bak" ∷ [])) config_files ≡ has name config_files =
            ap (λ s. has s config_files) ((eq_iff (concat (filename ∷ ".bak" ∷ [])) name).0 e) in
          absurd (ground (arith, apart, same, h))
    ]

get-backup_file :
    (backup : Bool) (filename name : String) (files : Dict String)
    → has filename config_files ≡ true
    → has name config_files ≡ true
    → Dict.get name (backup_file backup filename files) ≡ Dict.get name files
unfolding backup_file
get-backup_file false filename name files f h = refl
get-backup_file true filename name files f h = elim (Option-cases (Dict.get filename files)) [
  | inl e ↦ rw e refl
  | inr (old, e) ↦ rw e (
      get-put (concat (filename ∷ ".bak" ∷ [])) name old files
      ∙ rw (backup_name filename name f h) refl)
]

-- The last text of a name in a bundle takes the place of its file.
unfoldable written : String → Dict String → Option String → Option String
written name [] old = old
written name ((filename, content) ∷ bundle) old =
    if filename == name then written name bundle (some content) else written name bundle old

abbrev pub nothing_fails : String → Bool
nothing_fails filename = false

written_if :
    (b : Bool) (name : String) (bundle : Dict String) (x y : Option String)
    → written name bundle (if b then x else y)
      ≡ (if b then written name bundle x else written name bundle y)
written_if true name bundle x y = refl
written_if false name bundle x y = refl

-- A bundle of shared files whose writes do not raise is written whole.
get-write_files :
    (backup : Bool) (name : String) (bundle files : Dict String)
    → has name config_files ≡ true
    → all (λ f. has f config_files) (Dict.keys bundle) ≡ true
    → ((write_files nothing_fails backup bundle files).0 ≡ true)
      × (Dict.get name (write_files nothing_fails backup bundle files).1
          ≡ written name bundle (Dict.get name files))
unfolding write_files written all Dict.keys
get-write_files backup name [] files h k = (refl, refl)
get-write_files backup name ((filename, content) ∷ bundle) files h k =
    let f : has filename config_files ≡ true = ground (arith, k) in
    let saved = backup_file backup filename files in
    let (done, got) =
      get-write_files backup name bundle (Dict.put filename content saved) h (ground (arith, k)) in
    let placed =
      get-put filename name content saved
      ∙ ap (λ o. if filename == name then some content else o)
          (get-backup_file backup filename name files f h) in
    rw f (
      done,
      got
          ∙ ap (written name bundle) placed
          ∙ written_if (filename == name) name bundle (some content) (Dict.get name files),
    )

chosen_twice : (o old : Option String) → chosen o (chosen o old) ≡ chosen o old
chosen_twice none old = refl
chosen_twice (some text) old = refl

written-texts_of :
    (c : ClusterReplicator) (name : String) (names : List String) (old : Option String)
    → written name (texts_of c names) old
      ≡ (if has name names then chosen (text_of c name) old else old)
unfolding written texts_of has
written-texts_of c name [] old = refl
written-texts_of c name (n ∷ names) old =
    let rest = written-texts_of c name names in
    elim (Bool-cases (n == name)) [
      | inl e ↦
          let same : text_of c n ≡ text_of c name = ap (text_of c) ((eq_iff n name).0 e) in
          elim (Option-cases (text_of c name)) [
            | inl t ↦ rw (e, same, t) (rest old ∙ rw t (if_same (has name names) old))
            | inr (text, t) ↦
                rw (e, same, t, e) (rest (some text) ∙ rw t (if_same (has name names) (some text)))
          ]
      | inr e ↦ elim (Option-cases (text_of c n)) [
        | inl t ↦ rw (e, t) (rest old)
        | inr (text, t) ↦ rw (e, t, e) (rest old)
      ]
    ]

-- whether a name is one of a shared file
abbrev is_shared : String → Bool
is_shared name = has name config_files

all-texts_of :
    (c : ClusterReplicator) (names : List String)
    → all is_shared names ≡ true
    → all is_shared (Dict.keys (texts_of c names)) ≡ true
unfolding texts_of all Dict.keys
all-texts_of c [] h = refl
all-texts_of c (n ∷ names) h =
    let rest = all-texts_of c names (ground (arith, h)) in
    elim (Option-cases (text_of c n)) [
      | inl t ↦ rw t rest
      | inr (text, t) ↦ rw t (ground (arith, rest, h))
    ]

all_shared : all is_shared config_files ≡ true
unfolding all has
all_shared = refl

module _ (epoch : ℕ) (node_id : String) (backup : Bool) (c r : ClusterReplicator)
    (real : c.mock ≡ false) (real_replica : r.mock ≡ false) where
  abbrev applied : Bool × ClusterReplicator
  applied = apply_bundle nothing_fails (export_bundle epoch node_id c) backup r

  -- A shared file of the replica is the one of the controller, read as text, where it has one.
  get-applied :
      (name : String)
      → has name config_files ≡ true
      → (applied.0 ≡ true)
        × (applied.1.mock ≡ false)
        × (Dict.get name applied.1.files ≡ chosen (text_of c name) (Dict.get name r.files))
  unfolding apply_bundle export_bundle
  get-applied name h =
      let (done, got) =
        get-write_files backup name (texts_of c config_files) r.files h
          (all-texts_of c config_files all_shared) in
      rw real_replica
        (done, refl, got ∙ written-texts_of c name config_files (Dict.get name r.files) ∙ rw h refl)

content_of-real :
    (r : ClusterReplicator) (name : String)
    → r.mock ≡ false
    → content_of r name ≡ Dict.get name r.files
unfolding content_of
content_of-real r name h = rw h refl

text_of-real :
    (r : ClusterReplicator) (name : String)
    → r.mock ≡ false
    → text_of r name ≡ read_file (Dict.get name r.files)
unfolding text_of
text_of-real r name h = rw h refl

if_empty : (b : Bool) {s : String} → (s == "") ≡ true → (if b then s else "") ≡ s
if_empty b {s = s} z =
    let e = (eq_iff s "").0 z in ap (λ x. if b then x else "") e ∙ if_same b "" ∙ sym e

module _ (sha256 : String → String) where
  get-hashes_of :
      (r : ClusterReplicator) (name : String) (names : List String)
      → or_else (Dict.get name (hashes_of sha256 r names)) ""
        ≡ (if has name names then compute_file_hash sha256 r name else "")
  unfolding hashes_of has Dict.get
  get-hashes_of r name [] = refl
  get-hashes_of r name (n ∷ names) =
      let rest = get-hashes_of r name names in
      elim (Bool-cases (n == name)) [
        | inl e ↦
            let same : compute_file_hash sha256 r n ≡ compute_file_hash sha256 r name =
              ap (compute_file_hash sha256 r) ((eq_iff n name).0 e) in
            elim (Bool-cases (compute_file_hash sha256 r name == "")) [
              | inl z ↦ rw (e, same, z) (rest ∙ if_empty (has name names) z)
              | inr z ↦ rw (e, same, z, e) refl
            ]
        | inr e ↦ elim (Bool-cases (compute_file_hash sha256 r n == "")) [
          | inl z ↦ rw (e, z) rest
          | inr z ↦ rw (e, z, e) rest
        ]
      ]

  -- Hashes that are found among the local ones do not differ.
  mismatches-hashes_of :
      (c : ClusterReplicator) (local : Dict String) (names : List String)
      → all is_shared names ≡ true
      → ((name : String)
          → has name config_files ≡ true
          → (compute_file_hash sha256 c name == "") ≡ false
          → or_else (Dict.get name local) "" ≡ compute_file_hash sha256 c name)
      → mismatches sha256 local (hashes_of sha256 c names) ≡ []
  unfolding mismatches hashes_of all
  mismatches-hashes_of c local [] k found = refl
  mismatches-hashes_of c local (n ∷ names) k found =
      let rest = mismatches-hashes_of c local names (ground (arith, k)) found in
      elim (Bool-cases (compute_file_hash sha256 c n == "")) [
        | inl z ↦ rw z rest
        | inr z ↦
            let there = found n (ground (arith, k)) z in
            rw (z, there, eq_refl (compute_file_hash sha256 c n)) rest
      ]

  hash-chosen :
      (o old : Option String)
      → (hash_of sha256 o == "") ≡ false
      → hash_of sha256 (chosen o old) ≡ hash_of sha256 o
  hash-chosen none old z = absurd (ground (arith, z))
  hash-chosen (some text) old z = refl

  same_hash :
      (c replica : ClusterReplicator) (name : String) (old : Option String)
      → c.mock ≡ false
      → replica.mock ≡ false
      → read_file (Dict.get name c.files) ≡ Dict.get name c.files
      → Dict.get name replica.files ≡ chosen (text_of c name) old
      → (compute_file_hash sha256 c name == "") ≡ false
      → compute_file_hash sha256 replica name ≡ compute_file_hash sha256 c name
  unfolding compute_file_hash
  same_hash c replica name old real still plain got z =
      let hash = ap (hash_of sha256) (content_of-real c name real) in
      let text = text_of-real c name real ∙ plain in
      ap (hash_of sha256) (content_of-real replica name still ∙ got ∙ ap (λ o. chosen o old) text)
      ∙ hash-chosen (Dict.get name c.files) old (ap (λ x. x == "") (sym hash) ∙ z)
      ∙ sym hash

  -- Once a replica has applied the bundle of a controller, both with files of their own and no write
  -- raising, the replica agrees with the manifest of the controller: no file is named as different.
  -- The controller's shared files are without carriage returns, which reading them as text changes.
  pub compare_manifest-apply_bundle :
      (now_iso node_id : String) (epoch : ℕ) (url : Option String) (backup : Bool)
      (c r : ClusterReplicator)
      → c.mock ≡ false
      → r.mock ≡ false
      → ((name : String)
          → has name config_files ≡ true
          → read_file (Dict.get name c.files) ≡ Dict.get name c.files)
      → let (done, replica) = apply_bundle nothing_fails (export_bundle epoch node_id c) backup r in
        (done ≡ true)
        × (compare_manifest sha256 (generate_manifest sha256 now_iso epoch node_id url c) replica
            ≡ [])
  unfolding compare_manifest generate_manifest compute_hashes has
  compare_manifest-apply_bundle now_iso node_id epoch url backup c r real real_replica plain =
      let replica = (applied epoch node_id backup c r real real_replica).1 in
      (
        (get-applied epoch node_id backup c r real real_replica "system.yaml" refl).0,
        mismatches-hashes_of c (hashes_of sha256 replica config_files) config_files all_shared
            (λ name h z.
              let (done, still, got) =
                get-applied epoch node_id backup c r real real_replica name h in
              get-hashes_of replica name config_files
              ∙ rw h (
                  same_hash c replica name (Dict.get name r.files) real still (plain name h) got
                    z)),
      )
