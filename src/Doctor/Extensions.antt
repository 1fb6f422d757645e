-- ===== src/Doctor/Extensions.antt =====
-- `validate_extensions` and the methods that it calls for the entries of the inventory, with
-- `control_value` and `native_module_exists`.
use Prim.Native.Char.{code}
pub mod Installable
use libpglite.Prelude.{
  ℕ, String, ◌<>◌, Bool, false, Option, none, some, List, [], ◌∷◌, ◌++◌, ◌&&◌, ◌||◌, ◌==◌, leb, any,
  map, is_empty, is_blank, str_eq, strip, strip_prefix, remove_prefix, starts_with, contains,
  splitlines, file_name, is_hex, if◌then◌else◌,
}
use libpglite.Prelude.Text.{lstrip}
use libpglite.Prelude.Dict.{Dict, lookup, sort_unique}
use libpglite.Json.{is_some_text}
use libpglite.Check.{Check, Message, lit, pure, done, error, warning, require, each, ◌>>=◌, ◌>>◌}
use libpglite.Package.{Package}
use libpglite.Manifest.{read_text, nonempty_lines, parse_inventory_line}
use libpglite.Extension.{extension_can_install_version}
use libpglite.Doctor.{Doctor, is_production, with_diagnostic}

-- `([^']+)'\s*$`, from the character after the first quote
unfoldable pub until_quote : String → Option String
until_quote String.[] = none
until_quote (String.◌∷◌ c s) =
    let more = until_quote s in
    if code c == b'\''
    then (if is_blank (strip s) then some String.[] else none)
    else elim more [ none ↦ none | some v ↦ some (String.◌∷◌ c v) ]

unfoldable pub quoted : String → Option String
quoted s = elim (until_quote s) [ none ↦ none | some v ↦ if is_blank v then none else some v ]

-- The pattern of `control_value` on one line.
unfoldable pub control_line : String → String → Option String
control_line key line = elim (strip_prefix (lstrip line) key) [
  | none ↦ none
  | some t ↦ elim (strip_prefix (lstrip t) "=") [
    | none ↦ none
    | some u ↦ elim (strip_prefix (lstrip u) "'") [ none ↦ none | some v ↦ quoted v ]
  ]
]

unfoldable pub first_line : String → List String → Option String
first_line key [] = none
first_line key (line ∷ lines) =
    let rest = first_line key lines in
    elim (control_line key line) [ none ↦ rest | some v ↦ some v ]

unfoldable pub control_value : String → String → Option String
control_value control_text key = first_line key (splitlines control_text)

-- `[A-Za-z0-9_.+-]`
unfoldable pub is_module_char : ℕ → Bool
is_module_char c =
    (leb b'A' c && leb c b'Z')
    || (leb b'a' c && leb c b'z')
    || (leb b'0' c && leb c b'9')
    || c == b'_'
    || c == b'.'
    || c == b'+'
    || c == b'-'

unfoldable pub module_run : String → String
module_run String.[] = String.[]
module_run (String.◌∷◌ c s) =
    let rest = module_run s in if is_module_char (code c) then String.◌∷◌ c rest else String.[]

-- `re.findall(r"\$libdir/[A-Za-z0-9_.+-]+", sql_text)` without the prefix of each match. A match
-- holds no other start of one, so the scan goes on at the next character.
unfoldable pub libdir_modules : String → List String
libdir_modules String.[] = []
libdir_modules (String.◌∷◌ c s) =
    let rest = libdir_modules s in
    elim (strip_prefix (String.◌∷◌ c s) "$libdir/") [
      | none ↦ rest
      | some t ↦ if is_blank (module_run t) then rest else module_run t ∷ rest
    ]

unfoldable pub native_module_exists : Package → String → String → Bool
native_module_exists root lib_dir module_name =
    let path = lib_dir <> ("/" <> file_name module_name) in
    root.is_file path || root.is_file (path <> ".dylib") || root.is_file (path <> ".so")

unfoldable pub path_modules : Option String → List String
path_modules none = []
path_modules (some module_pathname) = remove_prefix module_pathname "$libdir/" ∷ []

unfoldable pub text_modules : List String → List String
text_modules [] = []
text_modules (sql_text ∷ rest) = libdir_modules sql_text ++ text_modules rest

-- The modules that an extension refers to.
unfoldable pub module_names : String → String → List String → List String
module_names extension control_text sql_texts =
    let named =
      path_modules (control_value control_text "module_pathname") ++ text_modules sql_texts in
    if is_empty named && any (λ sql_text. contains sql_text "MODULE_PATHNAME") sql_texts
    then extension ∷ []
    else sort_unique named

unfoldable pub read_texts : Package → List String → Check (List String)
read_texts root [] = pure []
read_texts root (path ∷ paths) = do
  content ← read_text root path
  rest ← read_texts root paths
  pure (content ∷ rest)

module _ (d : Doctor) where
  unfoldable pub validate_versions : String → List String → Option String → Check (Unit {0})
  validate_versions extension [] default_version =
      error (lit "extension has no SQL files: " ∷ lit extension ∷ [])
  validate_versions extension (path ∷ paths) none =
      error (lit "extension control is missing default_version: " ∷ lit extension ∷ [])
  validate_versions extension (path ∷ paths) (some version) =
      require (extension_can_install_version extension (map file_name (path ∷ paths)) version) (
        lit "extension has no SQL install path to default_version "
        ∷ lit version
        ∷ lit ": "
        ∷ lit extension
        ∷ [])

  unfoldable pub validate_contrib_extension : String → Check (Unit {0})
  validate_contrib_extension extension =
      let control = "postgres/share/extension/" <> (extension <> ".control") in
      if d.root.is_file control
      then (do
        control_text ← read_text d.root control
        let sql_files = d.root.glob "postgres/share/extension" (extension <> "--*.sql")
        validate_versions extension sql_files (control_value control_text "default_version")
        sql_texts ← read_texts d.root sql_files
        each (module_names extension control_text sql_texts) (λ module_name.
            require (native_module_exists d.root "postgres/lib" module_name) (
              lit "extension "
              ∷ lit extension
              ∷ lit " references missing native module: "
              ∷ lit module_name
              ∷ [])))
      else error (lit "inventoried extension is missing control file: " ∷ lit extension ∷ [])

  unfoldable pub validate_contrib_module_inventory : Dict String → Check (Unit {0})
  validate_contrib_module_inventory fields = elim (lookup "name" fields) [
    | none ↦ error (lit "extension inventory contrib_module is missing name" ∷ [])
    | some module_name ↦
        if is_blank module_name
        then error (lit "extension inventory contrib_module is missing name" ∷ [])
        else require (is_some_text (lookup "source" fields) ("contrib/" <> module_name))
            (lit "contrib module has wrong source path: " ∷ lit module_name ∷ [])
  ]

  unfoldable pub validate_postgis_runtime_data : Check (Unit {0})
  validate_postgis_runtime_data =
      if d.root.is_file "postgres/share/proj/proj.db"
      then require (d.root.is_sqlite "postgres/share/proj/proj.db") (
          lit
            "PostGIS projection data is not a readable SQLite database: postgres/share/proj/proj.db ("
          ∷ [])
      else error (lit "PostGIS projection data is missing: postgres/share/proj/proj.db" ∷ [])

  unfoldable pub is_commit : Option String → Bool
  is_commit none = false
  is_commit (some s) = is_hex 40 s

  unfoldable pub is_https : Option String → Bool
  is_https none = false
  is_https (some s) = starts_with s "https://"

  unfoldable pub validate_extension_status : String → Option String → Check (Unit {0})
  validate_extension_status extension status =
      let message : Message =
        lit "PGlite other extension submodule is missing from the native extension inventory: "
        ∷ lit extension
        ∷ [] in
      if is_some_text status "missing"
      then (if is_production d.bundle then error message else warning message)
      else if is_some_text status "present"
      then (do
        validate_contrib_extension extension
        (if str_eq extension "postgis" then validate_postgis_runtime_data else done))
      else error (lit "PGlite other extension has invalid status: " ∷ lit extension ∷ [])

  unfoldable pub validate_other_extension_inventory : String → Dict String → Check (Unit {0})
  validate_other_extension_inventory extension fields = do
    require (is_some_text (lookup "source" fields) ("pglite/other_extensions/" <> extension))
        (lit "PGlite other extension has wrong source path: " ∷ lit extension ∷ [])
    require (is_commit (lookup "submodule_commit" fields))
        (lit "PGlite other extension is missing pinned submodule commit: " ∷ lit extension ∷ [])
    require (is_https (lookup "submodule_url" fields))
        (lit "PGlite other extension is missing submodule URL: " ∷ lit extension ∷ [])
    validate_extension_status extension (lookup "status" fields)

  unfoldable pub named : Dict String → Message → (String → Check (Unit {0})) → Check (Unit {0})
  named fields message rest = elim (lookup "name" fields) [
    | none ↦ error message
    | some name ↦ if is_blank name then error message else rest name
  ]

  unfoldable pub validate_entry : String → Dict String → Check (Unit {0})
  validate_entry key fields =
      if str_eq key "format"
      then done
      else if str_eq key "contrib_extension"
      then named fields (lit "extension inventory contrib_extension is missing name" ∷ [])
          validate_contrib_extension
      else if str_eq key "contrib_module"
      then validate_contrib_module_inventory fields
      else if str_eq key "other_extension"
      then named fields (lit "extension inventory other_extension is missing name" ∷ [])
          (λ name. validate_other_extension_inventory name fields)
      else error (lit "extension inventory has unknown entry: " ∷ lit key ∷ [])

  -- One line of the inventory.
  unfoldable pub validate_inventory_line : String → Check (Unit {0})
  validate_inventory_line line = elim (parse_inventory_line line) [
    | none ↦ error (lit "extension inventory line is malformed: " ∷ lit line ∷ [])
    | some (key, fields) ↦ validate_entry key fields
  ]

  unfoldable pub validate_extensions : Check (Unit {0})
  validate_extensions =
      with_diagnostic d "extensionInventory"
        λ inventory. do lines ← nonempty_lines d.root inventory; each lines validate_inventory_line
