-- ===== src/Replicator.antt =====
-- roostos-engine/src/roostos_engine/cluster_replicator.py: manifests and bundles of the files that a
-- cluster shares. A directory is a dict of texts; SHA-256 is an argument, and so is what the
-- controller answers.
pub mod Convergence
use Prim.Native.Nat.{ℕ}
use Prim.Native.Char.{code}
use Prim.Native.String
use Prim.Native.String.{String}
use text.Mathlib.Text.{◌==◌}
use mathlib.Core.Bool.{Bool, true, false, not, ◌&&◌}
use mathlib.Core.Option.{Option, none, some}
use mathlib.Core.List.{List, [], ◌∷◌}
use roostos.Prelude.{has, eqb, or_else, if◌then◌else◌}
use roostos.Prelude.Dict
use roostos.Prelude.Dict.{Dict}
use roostos.Prelude.Result.{Result, ok, err}
use roostos.Prelude.Text.{concat}

abbrev pub config_files : List String
config_files =
    "system.yaml" ∷ "network.yaml" ∷ "devices.yaml" ∷ "schedules.yaml" ∷ "plugins.yaml"
    ∷ "nodes.yaml" ∷ []

pub record ClusterStateManifest : Type 0 where
  pub epoch : ℕ
  pub master_node_id : String
  pub controller_url : Option String
  pub generated_at : String
  pub hashes : Dict String

pub record ClusterStateBundle : Type 0 where
  pub epoch : ℕ
  pub master_node_id : String
  pub files : Dict String

pub record ClusterReplicator : Type 0 where
  pub mock : Bool
  pub mock_files : Dict String
  -- the files of the configuration directory
  pub files : Dict String

abbrev pub starts_with_lf : String → Bool
starts_with_lf String.[] = false
starts_with_lf (String.◌∷◌ c s) = eqb (code c) 10

-- What reading a file as text makes of its ends of lines: a carriage return, with a line feed after
-- it or without, is one line feed.
unfoldable pub read_text : String → String
read_text String.[] = String.[]
read_text (String.◌∷◌ c s) =
    let rest = read_text s in
    if eqb (code c) 13
    then if starts_with_lf s then rest else String.◌∷◌ "\n" rest
    else String.◌∷◌ c rest

-- the content of a shared file: the one of the mock, or the one in the directory
unfoldable pub content_of : ClusterReplicator → String → Option String
content_of r filename =
    if r.mock
    then elim (Dict.get filename r.mock_files) [
      | some text ↦ some text
      | none ↦ Dict.get filename r.files
    ]
    else Dict.get filename r.files

-- the same for a bundle, which reads the file as text
abbrev pub read_file : Option String → Option String
read_file none = none
read_file (some text) = some (read_text text)

unfoldable pub text_of : ClusterReplicator → String → Option String
text_of r filename =
    if r.mock
    then elim (Dict.get filename r.mock_files) [
      | some text ↦ some text
      | none ↦ read_file (Dict.get filename r.files)
    ]
    else read_file (Dict.get filename r.files)

module _ (sha256 : String → String) where
  abbrev pub hash_of : Option String → String
  hash_of none = ""
  hash_of (some content) = concat ("sha256:" ∷ sha256 content ∷ [])

  unfoldable pub compute_file_hash : ClusterReplicator → String → String
  compute_file_hash r filename = hash_of (content_of r filename)

  -- the loop over the names, which leaves out an empty hash
  unfoldable pub hashes_of : ClusterReplicator → List String → Dict String
  hashes_of r [] = []
  hashes_of r (name ∷ names) =
      let hash = compute_file_hash r name in
      let rest = hashes_of r names in if hash == "" then rest else (name, hash) ∷ rest

  unfoldable pub compute_hashes : ClusterReplicator → Dict String
  compute_hashes r = hashes_of r config_files

  unfoldable pub generate_manifest :
      String → ℕ → String → Option String → ClusterReplicator → ClusterStateManifest
  generate_manifest now_iso epoch master_node_id controller_url r = record {
    epoch = epoch;
    master_node_id = master_node_id;
    controller_url = controller_url;
    generated_at = now_iso;
    hashes = compute_hashes r;
  }

  -- the loop over the hashes of a manifest
  unfoldable pub mismatches : Dict String → Dict String → List String
  mismatches local [] = []
  mismatches local ((filename, remote_hash) ∷ hashes) =
      let rest = mismatches local hashes in
      if or_else (Dict.get filename local) "" == remote_hash then rest else filename ∷ rest

  unfoldable pub compare_manifest : ClusterStateManifest → ClusterReplicator → List String
  compare_manifest remote_manifest r = mismatches (compute_hashes r) remote_manifest.hashes

abbrev pub with_text : String → Option String → Dict String → Dict String
with_text name none rest = rest
with_text name (some text) rest = (name, text) ∷ rest

-- the loop over the names of the shared files
unfoldable pub texts_of : ClusterReplicator → List String → Dict String
texts_of r [] = []
texts_of r (name ∷ names) = with_text name (text_of r name) (texts_of r names)

unfoldable pub export_bundle : ℕ → String → ClusterReplicator → ClusterStateBundle
export_bundle epoch master_node_id r = record {
  epoch = epoch;
  master_node_id = master_node_id;
  files = texts_of r config_files;
}

abbrev pub backup_as : String → Option String → Dict String → Dict String
backup_as filename none files = files
backup_as filename (some old) files = Dict.put (concat (filename ∷ ".bak" ∷ [])) old files

unfoldable pub backup_file : Bool → String → Dict String → Dict String
backup_file backup filename files =
    if backup then backup_as filename (Dict.get filename files) files else files

-- The loop over the files of a bundle; `fails` are the files whose write raises. The temporary file
-- is gone once it has taken the place of the other.
unfoldable pub write_files : (String → Bool) → Bool → Dict String → Dict String → Bool × Dict String
write_files fails backup [] files = (true, files)
write_files fails backup ((filename, content) ∷ bundle) files =
    let skipped = write_files fails backup bundle files in
    let saved = backup_file backup filename files in
    let written = write_files fails backup bundle (Dict.put filename content saved) in
    if not (has filename config_files)
    then skipped
    else if fails filename
    then (false, saved)
    else written

unfoldable pub apply_bundle :
    (String → Bool) → ClusterStateBundle → Bool → ClusterReplicator → Bool × ClusterReplicator
apply_bundle fails bundle backup r =
    if r.mock
    then (true, record r { mock_files = Dict.merge r.mock_files bundle.files })
    else (let (done, files) = write_files fails backup bundle.files r.files in
        (done, record r { files = files }))

-- `answer` is the bundle that the controller sent, or the exception
unfoldable pub sync_from_controller :
    (String → Bool) → Result ClusterStateBundle → ClusterReplicator → Bool × ClusterReplicator
sync_from_controller fails answer r = elim answer [
  | err e ↦ (false, r)
  | ok bundle ↦ apply_bundle fails bundle true r
]
