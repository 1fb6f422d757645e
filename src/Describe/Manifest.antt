-- ===== src/Describe/Manifest.antt =====
-- The prefix, what it holds of a dependency, and the manifest.
use libpglite.Prelude.Options.{◌>>=◌}
use libpglite.Prelude.{
  ℕ, String, ◌<>◌, Bool, true, false, Option, none, some, List, [], ◌∷◌, ◌++◌, not, ◌&&◌, ◌||◌,
  is_empty, map, keep, strip, ends_with, contains, file_name, if◌then◌else◌,
}
use libpglite.Json.{Fields, end, field, Value, text, boolean, array, object, get, has, as_text}
use libpglite.Fetch.{items_of}
use libpglite.Fetch.Archive.{characters, unpacked}

-- The prefix: its resolved path, what it holds, and the answers of `pkg-config` about it.
pub record Prefix : Type 0 where
  pub path : String
  pub is_dir : Bool
  -- `(prefix / rel).exists()`
  pub exists : String → Bool
  -- `sorted(path.relative_to(prefix).as_posix() for path in prefix.rglob("*") if path.is_file())`
  pub files : List String
  -- `pkg-config --modversion`: its standard output, or `none` where it fails; `none` where it
  -- cannot be started
  pub pkg_config : String → Option (Option String)

-- `x + y` of two lists or two texts, by its items; nothing where it or the loop over it raises
unfoldable pub concatenated : Value → Value → Option (List Value)
concatenated (array vs) (array ws) = elim (unpacked (array vs)) [
  | none ↦ none
  | some xs ↦ elim (unpacked (array ws)) [ none ↦ none | some ys ↦ some (xs ++ ys) ]
]
concatenated (text s) (text t) = some (characters s ++ characters t)
concatenated _ _ = none

-- `dependency.get(key, [])`
abbrev pub get_list : Fields → String → Value
get_list dependency key = if has dependency key then get dependency key else array (items_of [])

unfoldable pub all_texts : List Value → Option (List String)
all_texts [] = some []
all_texts (v ∷ vs) = do s ← as_text v; ss ← all_texts vs; some (s ∷ ss)

-- The paths of the loop over the headers and the libraries; nothing where `prefix / rel` raises.
unfoldable pub artifacts_of : Fields → Option (List String)
artifacts_of dependency = do
  rels ← concatenated (get_list dependency "headers") (get_list dependency "libraries")
  all_texts rels

unfoldable pub packages_of : Fields → Option (List String)
packages_of dependency = do
  packages ← unpacked (get_list dependency "pkgConfig")
  all_texts packages

-- The texts of a JSON list.
abbrev pub texts : List String → Value
texts ss = array (items_of (map text ss))

-- What a round of the loop over the dependencies appends to `missing` and to `dependencies`.
pub record Described : Type 0 where
  pub missing : List String
  pub entry : Value

abbrev pub missing_of : List Described → List String
missing_of [] = []
missing_of (x ∷ xs) = x.missing ++ missing_of xs

abbrev pub entries_of : List Described → List Value
entries_of [] = []
entries_of (x ∷ xs) = x.entry ∷ entries_of xs

abbrev pub is_dynamic : String → Bool
is_dynamic rel =
    let name = file_name rel in
    ends_with name ".dylib"
    || ends_with name ".bundle"
    || ends_with name ".so"
    || contains name ".so."

module _ (prefix : Prefix) where
  unfoldable pub artifact_result : String → Value
  artifact_result rel =
      object (field "path" (text rel) (field "present" (boolean (prefix.exists rel)) end))

  unfoldable pub absent : List String → List String
  absent rels = keep (λ rel. not (prefix.exists rel)) rels

  unfoldable pub probe_result : String → Option String → Value
  probe_result name none = object (
      field "package" (text name) (field "present" (boolean false) (field "version" (text "") end)))
  probe_result name (some stdout) = object (
      field "package" (text name)
        (field "present" (boolean true) (field "version" (text (strip stdout)) end)))

  unfoldable pub pkg_config_probe : String → Option Value
  pkg_config_probe name = do answer ← prefix.pkg_config name; some (probe_result name answer)

  unfoldable pub probes : List String → Option (List Value)
  probes [] = some []
  probes (name ∷ names) = do v ← pkg_config_probe name; vs ← probes names; some (v ∷ vs)

  unfoldable pub entry_of : Fields → List String → List Value → Value
  entry_of dependency rels packages = object (
      field "name" (get dependency "name") (
        field "version" (get dependency "version") (
          field "source" (get dependency "source") (
            field "buildSystem" (get dependency "buildSystem") (
              field "role" (get dependency "role") (
                field "artifacts" (array (items_of (map artifact_result rels)))
                  (field "pkgConfig" (array (items_of packages)) end)))))))

  unfoldable pub describe_dependency : Fields → Option Described
  describe_dependency dependency = do
    name ← as_text (get dependency "name")
    rels ← artifacts_of dependency
    packages ← packages_of dependency
    answers ← probes packages
    some record {
      missing = map (λ rel. name <> (":" <> rel)) (absent rels);
      entry = entry_of dependency rels answers;
    }

  unfoldable pub describe_all : List Fields → Option (List Described)
  describe_all [] = some []
  describe_all (dependency ∷ dependencies) = do
    x ← describe_dependency dependency
    xs ← describe_all dependencies
    some (x ∷ xs)

  unfoldable pub dynamic_prefix_objects : List String
  dynamic_prefix_objects = keep is_dynamic prefix.files

  -- The keys of the manifest.
  unfoldable pub manifest : String → String → List Described → Fields
  manifest inventory digest described =
      field "format" (text "libpglite-native-dependency-prefix-v1") (
        field "prefix" (text prefix.path) (
          field "inventory" (text inventory) (
            field "inventorySha256" (text digest) (
              field "complete" (boolean (is_empty (missing_of described))) (
                field "staticOnly" (boolean (is_empty dynamic_prefix_objects)) (
                  field "missing" (texts (missing_of described)) (
                    field "dynamicObjects" (texts dynamic_prefix_objects)
                      (field "dependencies" (array (items_of (entries_of described))) end))))))))

  -- The end of `main`, after the manifest has been written.
  unfoldable pub exit_status : Bool → Bool → List Described → ℕ
  exit_status require_complete require_static described =
      if not (is_empty (missing_of described)) && require_complete
      then 1
      else if not (is_empty dynamic_prefix_objects) && require_static
      then 1
      else 0
