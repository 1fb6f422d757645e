-- ===== src/Generator.antt =====
-- scripts/generate-native-dependency-manifest.py: the linker's report on the plugin and its
-- modules, as a text and as the dependency manifest that the doctor reads.
pub mod Records
pub mod Roots
use Prim.Native.Nat.{◌-◌}
use Prim.Native.Char.{code}
use libpglite.Prelude.{
  ℕ, zero, suc, String, ◌<>◌, Bool, Option, none, some, true, false, not, List, [], ◌∷◌, ◌++◌, ◌||◌,
  ◌&&◌, ◌==◌, any, map, is_blank, join, str_eq, starts_with, ends_with, contains, strip,
  strip_prefix, splitlines, before, codes, length, if◌then◌else◌,
}
use libpglite.Prelude.Text.{relative_to, rstrip}
use libpglite.Json.{Value, text, array, object, Fields, end, field, Items, nil, cons}

-- What a run of `ldd` or `otool -L` gives back.
pub record Scan : Type 0 where
  pub stdout : String
  pub stderr : String
  pub returncode : Value

-- The resolved arguments of the command line, with what the program asks of the file system and of
-- the linker's tool.
pub record Build : Type 0 where
  pub package_root : String
  pub plugin : String
  -- `os.uname().sysname`
  pub sysname : String
  -- `sorted(postgres_lib_dir.glob(pattern))`
  pub modules : String → List String
  -- `subprocess.run([*tool, str(obj)], …)`
  pub scan : List String → String → Scan
  -- `pathlib.Path(path).resolve()` and `str(pathlib.Path(path))`
  pub resolve : String → String
  pub path_text : String → String

-- `line.split(sep, 1)` where `sep` occurs
unfoldable pub split_at : String → String → Option (String × String)
split_at sep String.[] = none
split_at sep (String.◌∷◌ c s) = elim (strip_prefix (String.◌∷◌ c s) sep) [
  | some right ↦ some ("", right)
  | none ↦ elim (split_at sep s) [
    | none ↦ none
    | some (left, right) ↦ some (String.◌∷◌ c left, right)
  ]
]

-- `s.replace(old, new)` for a text `old` that is not empty; the first `skip` characters belong to
-- an occurrence that has been replaced
unfoldable pub replace_from : ℕ → String → String → String → String
replace_from skip old new String.[] = String.[]
replace_from (suc skip) old new (String.◌∷◌ c s) = replace_from skip old new s
replace_from zero old new (String.◌∷◌ c s) = elim (starts_with (String.◌∷◌ c s) old) [
  | true ↦ new <> replace_from (length (codes old) - 1) old new s
  | false ↦ String.◌∷◌ c (replace_from zero old new s)
]

-- `s.rstrip("\n")`
unfoldable pub rstrip_newlines : String → String
rstrip_newlines String.[] = String.[]
rstrip_newlines (String.◌∷◌ c s) =
    let rest = rstrip_newlines s in
    if is_blank rest && code c == 10 then String.[] else String.◌∷◌ c rest

unfoldable pub otool_lines : List String → List String
otool_lines [] = []
otool_lines (line ∷ lines) =
    let rest = otool_lines lines in
    if is_blank (strip line) then rest else before b' ' (strip line) ∷ rest

-- `lines[1:]`
unfoldable pub tail : List String → List String
tail [] = []
tail (line ∷ lines) = lines

unfoldable pub parse_otool : String → List String
parse_otool output = otool_lines (tail (splitlines output))

-- The path that a line of `ldd` names: after the arrow, if there is one.
unfoldable pub ldd_path : String → String
ldd_path stripped = elim (split_at "=>" stripped) [
  | none ↦ before b' ' stripped
  | some (left, right) ↦
      if contains stripped "=> not found"
      then strip left <> " => not found"
      else before b' ' (strip right)
]

unfoldable pub ldd_lines : List String → List String
ldd_lines [] = []
ldd_lines (line ∷ lines) =
    let rest = ldd_lines lines in
    if is_blank (strip line) || str_eq (strip line) "statically linked"
    then rest
    else ldd_path (strip line) ∷ rest

unfoldable pub parse_ldd : String → List String
parse_ldd output = ldd_lines (splitlines output)

abbrev pub starts_with_any : String → List String → Bool
starts_with_any raw prefixes = any (starts_with raw) prefixes

-- The chain of tests in `dependency_record`.
unfoldable pub classify : String → String → String
classify package_root raw =
    if ends_with raw "=> not found"
    then "missing"
    else if starts_with_any raw ("@loader_path/" ∷ "@rpath/" ∷ "@executable_path/" ∷ [])
    then "loader-relative"
    else if starts_with raw "$ORIGIN/"
    then "loader-relative"
    else if starts_with raw package_root
    then "package"
    else if starts_with_any raw ("./" ∷ "postgres/" ∷ "diagnostics/" ∷ [])
    then "package"
    else if starts_with raw "linux-vdso.so."
    then "platform"
    else if starts_with_any raw ("/usr/lib/" ∷ "/System/Library/" ∷ [])
    then "platform"
    else if starts_with_any raw ("/lib/" ∷ "/lib64/" ∷ "/usr/lib/" ∷ "/usr/lib64/" ∷ [])
    then "platform"
    else if starts_with_any raw ("/opt/homebrew/" ∷ "/usr/local/" ∷ [])
    then "local-provider"
    else if starts_with_any raw
        ("/Users/" ∷ "/home/" ∷ "/private/var/" ∷ "/tmp/" ∷ "/var/folders/" ∷ [])
    then "build-machine"
    else if starts_with raw "/"
    then "absolute-external"
    else "unknown"

-- The branch of the chain that resolves the path.
unfoldable pub is_resolved : String → String → Bool
is_resolved package_root raw =
    not (ends_with raw "=> not found")
    && not
        (starts_with_any raw ("@loader_path/" ∷ "@rpath/" ∷ "@executable_path/" ∷ "$ORIGIN/" ∷ []))
    && starts_with raw package_root

module _ (build : Build) where
  unfoldable pub relpath : String → String
  relpath path = elim (relative_to (build.resolve path) build.package_root) [
    | none ↦ build.path_text path
    | some rel ↦ rel
  ]

  -- The dictionary of one dependency, with its keys in the order that `json.dumps` sorts them.
  unfoldable pub dependency_record : String → Fields
  dependency_record raw = field "classification" (text (classify build.package_root raw)) (
      field "path" (text (if is_resolved build.package_root raw then relpath raw else raw))
        (field "raw" (text raw) end))

  unfoldable pub items_of : List Value → Items
  items_of [] = nil
  items_of (v ∷ vs) = cons v (items_of vs)

  unfoldable pub manifest_object : String → String → Value → List String → Value
  manifest_object relative kind returncode raws = object (
      field "dependencies" (array (items_of (map (λ raw. object (dependency_record raw)) raws))) (
        field "kind" (text kind)
          (field "path" (text relative) (field "toolExitCode" returncode end))))

  -- The lines of one object in the text.
  unfoldable pub object_lines : String → List String
  object_lines raw_output =
      splitlines (rstrip_newlines (replace_from 0 build.package_root "." raw_output))

  unfoldable pub output_of : List String → String → String
  output_of tool obj =
      let result = build.scan tool obj in
      if is_blank result.stderr then result.stdout else result.stdout <> result.stderr

  -- The rounds of the loop after the first: the modules.
  unfoldable pub module_lines : List String → List String → List String
  module_lines tool [] = []
  module_lines tool (obj ∷ objects) =
      ""
      ∷ ("module=" <> relpath obj)
      ∷ (object_lines (output_of tool obj) ++ module_lines tool objects)

  unfoldable pub scanned_object : List String → (String → List String) → String → String → Value
  scanned_object tool parser kind obj =
      manifest_object (relpath obj) kind (build.scan tool obj).returncode
        (parser (output_of tool obj))

  unfoldable pub text_of : List String → List String → String
  text_of tool modules =
      let lines =
        "format=libpglite-native-dependencies-v1"
        ∷ ("tool=" <> join " " tool)
        ∷ ("binary=" <> relpath build.plugin)
        ∷ (object_lines (output_of tool build.plugin) ++ module_lines tool modules) in
      rstrip (join "\n" lines) <> "\n"

  unfoldable pub manifest_of : List String → (String → List String) → List String → Fields
  manifest_of tool parser modules = field "format" (text "libpglite-native-dependencies-v1") (
      field "objects"
        (array (
          items_of (
            scanned_object tool parser "plugin" build.plugin
            ∷ map (scanned_object tool parser "postgres-lib") modules)))
        (field "packageRoot" (text ".")
          (field "platform" (text build.sysname) (field "tool" (text (join " " tool)) end))))

  -- What the program writes, the text and the manifest; nothing on another platform, where it
  -- returns 2.
  unfoldable pub generate : Option (String × Fields)
  generate =
      if str_eq build.sysname "Darwin"
      then some (
        text_of ("otool" ∷ "-L" ∷ []) (build.modules "*.dylib"),
        manifest_of ("otool" ∷ "-L" ∷ []) parse_otool (build.modules "*.dylib"),
      )
      else if str_eq build.sysname "Linux"
      then some (
        text_of ("ldd" ∷ []) (build.modules "*.so"),
        manifest_of ("ldd" ∷ []) parse_ldd (build.modules "*.so"),
      )
      else none
