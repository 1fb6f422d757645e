-- ===== src/Doctor/Dependencies.antt =====
-- `validate_dependencies` and `loader_relative_escapes_package`.
pub mod Portable
use libpglite.Prelude.{
  String, Bool, false, not, Option, none, some, List, [], ◌∷◌, ◌++◌, ◌&&◌, ◌||◌, is_empty, keep,
  take, join, contains, starts_with, strip_prefix, ends_with, has_parent_part, if◌then◌else◌,
}
use libpglite.Json.{
  Fields, Value, get, is_text, is_num, is_null, is_true, is_hashable, is_one_of, as_text, as_list,
  as_object, as_nonempty_text,
}
use libpglite.Check.{
  Check, Message, lit, repr, str, type_error, pure, done, raise, error, require, ◌>>=◌, ◌>>◌,
}
use libpglite.Manifest.{nonempty_lines}
use libpglite.Doctor.{
  Doctor, in_set, is_production, error_if_strict, diagnostic_path_if_present, with_diagnostic,
  with_document,
}
use libpglite.Doctor.Prefix.{looks_like_build_path}

abbrev pub loader_prefixes : List String
loader_prefixes = "@loader_path/" ∷ "@rpath/" ∷ "@executable_path/" ∷ "$ORIGIN/" ∷ []

unfoldable pub escapes : List String → String → Bool
escapes [] raw = false
escapes (prefix ∷ prefixes) raw =
    let rest = escapes prefixes raw in
    elim (strip_prefix raw prefix) [ none ↦ rest | some suffix ↦ has_parent_part suffix ]

unfoldable pub loader_relative_escapes_package : String → Bool
loader_relative_escapes_package = escapes loader_prefixes

abbrev pub classifications : List String
classifications =
    "package" ∷ "platform" ∷ "loader-relative" ∷ "local-provider" ∷ "build-machine"
    ∷ "absolute-external" ∷ "missing" ∷ "unknown" ∷ []

abbrev pub bad_classifications : List String
bad_classifications =
    "local-provider" ∷ "build-machine" ∷ "absolute-external" ∷ "missing" ∷ "unknown" ∷ []

-- The entries of `bad_dependency_paths` are messages: a path may be any value.
abbrev pub Bad : Type 0
Bad = List Message

-- `expected_platform`
unfoldable pub platform_of : Option String → Option String
platform_of none = none
platform_of (some target) =
    if ends_with target "apple-darwin"
    then some "Darwin"
    else if ends_with target "linux-gnu"
    then some "Linux"
    else none

-- The bad entry that a dependency of a supported classification adds.
unfoldable pub bad_entry : Value → Value → Value → Bad
bad_entry path raw classification =
    if is_one_of classification bad_classifications
    then (str path ∷ lit ": " ∷ str raw ∷ lit " (" ∷ str classification ∷ lit ")" ∷ []) ∷ []
    else if is_text classification "loader-relative"
    then elim (as_text raw) [
      | none ↦ []
      | some s ↦
          if loader_relative_escapes_package s
          then (str path ∷ lit ": " ∷ str raw ∷ lit " (loader-relative parent traversal)" ∷ []) ∷ []
          else []
    ]
    else []

-- One round of the inner loop.
unfoldable pub validate_dependency : Value → Value → Check Bad
validate_dependency path dependency = elim (as_object dependency) [
  | none ↦ do
    error (lit "dependency manifest dependency must be an object: " ∷ str path ∷ [])
    pure []
  | some fields ↦ do
    (elim (as_nonempty_text (get fields "raw")) [
      | none ↦ error (lit "dependency manifest dependency raw path is missing: " ∷ str path ∷ [])
      | some raw ↦ done
    ])
    supported ← in_set (get fields "classification") classifications
    (if supported
        then pure (bad_entry path (get fields "raw") (get fields "classification"))
        else (do
          error (
              lit "dependency manifest has unsupported classification: "
              ∷ repr (get fields "classification")
              ∷ [])
          pure []))
]

unfoldable pub collect_bad {ℓ} : {A : Type ℓ} → (A → Check Bad) → List A → Check Bad
collect_bad f [] = pure []
collect_bad f (x ∷ xs) = do bad ← f x; rest ← collect_bad f xs; pure (bad ++ rest)

-- `obj.get("toolExitCode") not in {0, None}`, which raises where the value cannot be hashed
unfoldable pub require_exit_code : Value → Message → Check (Unit {0})
require_exit_code v message =
    if is_hashable v then require (is_num v 0 || is_null v) message else raise type_error

-- One round of the outer loop.
unfoldable pub validate_object : Value → Check Bad
validate_object obj = elim (as_object obj) [
  | none ↦ do error (lit "dependency manifest object entry must be an object" ∷ []); pure []
  | some fields ↦ do
    (elim (as_nonempty_text (get fields "path")) [
      | none ↦ error (lit "dependency manifest object path is missing" ∷ [])
      | some path ↦ done
    ])
    known_kind ← in_set (get fields "kind") ("plugin" ∷ "postgres-lib" ∷ [])
    require known_kind
        (lit "dependency manifest object has unsupported kind: " ∷ repr (get fields "kind") ∷ [])
    require_exit_code (get fields "toolExitCode")
        (lit "dependency scan failed for object: " ∷ str (get fields "path") ∷ [])
    elim (as_list (get fields "dependencies")) [
      | none ↦ do
        error (
            lit "dependency manifest object has invalid dependencies: "
            ∷ str (get fields "path")
            ∷ [])
        pure []
      | some dependencies ↦ collect_bad (validate_dependency (get fields "path")) dependencies
    ]
]

-- The path of an object stands in the dependencies diagnostic.
unfoldable pub path_seen : String → Value → Bool
path_seen joined obj = elim (as_object obj) [
  | none ↦ false
  | some fields ↦ elim (as_nonempty_text (get fields "path")) [
    | none ↦ false
    | some path ↦ contains joined path
  ]
]

-- `package_object_seen`
unfoldable pub is_seen : String → List Value → Bool
is_seen joined [] = false
is_seen joined (obj ∷ objects) = path_seen joined obj || is_seen joined objects

-- `"; ".join(…)`
unfoldable pub join_messages : List Message → Message
join_messages [] = []
join_messages (m ∷ []) = m
join_messages (m ∷ n ∷ rest) = m ++ (lit "; " ∷ join_messages (n ∷ rest))

-- `isinstance(v, list) and v`
abbrev pub is_nonempty_list : Value → Bool
is_nonempty_list v = elim (as_list v) [ none ↦ false | some vs ↦ not (is_empty vs) ]

unfoldable pub is_leaking_line : String → Bool
is_leaking_line line = looks_like_build_path line && not (starts_with line "binary=")

module _ (d : Doctor) where
  unfoldable pub validate_tool : Value → Value → Check (Unit {0})
  validate_tool manifest_platform tool = do
    supported ← in_set tool ("otool -L" ∷ "ldd" ∷ [])
    (if not supported
        then error (lit "dependency manifest has unsupported tool: " ∷ repr tool ∷ [])
        else if is_text manifest_platform "Darwin" && not (is_text tool "otool -L")
        then error
            (lit "dependency manifest tool mismatch: platform='Darwin' tool=" ∷ repr tool ∷ [])
        else if is_text manifest_platform "Linux" && not (is_text tool "ldd")
        then error
            (lit "dependency manifest tool mismatch: platform='Linux' tool=" ∷ repr tool ∷ [])
        else done)

  unfoldable pub validate_platform : Value → Check (Unit {0})
  validate_platform manifest_platform = elim (platform_of (as_text (get d.bundle "target"))) [
    | none ↦ done
    | some expected ↦ require (is_text manifest_platform expected) (
        lit "dependency manifest platform mismatch: target="
        ∷ repr (get d.bundle "target")
        ∷ lit " manifest="
        ∷ repr manifest_platform
        ∷ [])
  ]

  unfoldable pub validate_prefix_manifest : Fields → Check (Unit {0})
  validate_prefix_manifest prefix = do
    require (is_text (get prefix "format") "libpglite-native-dependency-prefix-v1")
        (lit "dependency prefix manifest has wrong format" ∷ [])
    require (is_true (get prefix "complete"))
        (lit "dependency prefix manifest is not complete" ∷ [])
    require (is_nonempty_list (get prefix "dependencies"))
        (lit "dependency prefix manifest dependencies must be nonempty" ∷ [])

  unfoldable pub validate_dependency_prefix : Check (Unit {0})
  validate_dependency_prefix = do
    prefix_manifest ← diagnostic_path_if_present d "dependencyPrefix"
    elim prefix_manifest [
      | none ↦
          if is_production d.bundle
          then error (lit "production package is missing diagnostics.dependencyPrefix" ∷ [])
          else done
      | some path ↦
          with_document d.root path (lit "dependency prefix manifest is not readable: " ∷ [])
            (lit "dependency prefix manifest root must be an object" ∷ []) validate_prefix_manifest
    ]

  unfoldable pub validate_objects : String → List Value → Check (Unit {0})
  validate_objects joined objects = do
    bad ← collect_bad validate_object objects
    require (is_seen joined objects)
        (lit "dependency manifest does not correspond to dependencies.txt" ∷ [])
    (if is_empty bad
        then done
        else error_if_strict d (
            lit "dependency manifest contains non-relocatable or unresolved dependencies: "
            ∷ join_messages (take 10 bad)))
    validate_dependency_prefix

  unfoldable pub validate_manifest : String → Fields → Check (Unit {0})
  validate_manifest joined manifest = do
    require (is_text (get manifest "format") "libpglite-native-dependencies-v1")
        (lit "dependency manifest has wrong format" ∷ [])
    validate_platform (get manifest "platform")
    validate_tool (get manifest "platform") (get manifest "tool")
    elim (as_list (get manifest "objects")) [
      | none ↦ error (lit "dependency manifest objects must be a nonempty list" ∷ [])
      | some objects ↦
          if is_empty objects
          then error (lit "dependency manifest objects must be a nonempty list" ∷ [])
          else validate_objects joined objects
    ]

  unfoldable pub validate_dependency_lines : List String → Check (Unit {0})
  validate_dependency_lines lines = do
    require (contains (join "\n" lines) "tool=otool -L" || contains (join "\n" lines) "tool=ldd")
        (lit "dependencies diagnostic does not identify otool or ldd" ∷ [])
    (if is_empty (keep is_leaking_line lines)
        then done
        else error_if_strict d (
            lit
              "dependency diagnostics include build-machine paths; this is allowed for development artifacts but blocks production relocatability"
            ∷ []))

  unfoldable pub validate_dependencies : Check (Unit {0})
  validate_dependencies = with_diagnostic d "dependencies" λ dependencies. do
    lines ← nonempty_lines d.root dependencies
    validate_dependency_lines lines
    with_diagnostic d "dependencyManifest" (λ dependency_manifest.
        with_document d.root dependency_manifest (lit "dependency manifest is not readable: " ∷ [])
          (lit "dependency manifest root must be an object" ∷ [])
          (validate_manifest (join "\n" lines)))
