-- ===== src/Doctor/Prefix.antt =====
-- `validate_postgres_prefix`, `validate_postgres_prefix_text_paths` and
-- `validate_native_only_payload`.
pub mod Clean
use libpglite.Prelude.{
  String, Bool, true, false, not, Option, none, some, List, [], ◌∷◌, ◌&&◌, ◌||◌, any, is_empty,
  take, join, mem, contains, lower, suffix, file_name, if◌then◌else◌,
}
use libpglite.Json.{Fields, get, is_text, as_object, as_nonempty_text}
use libpglite.Check.{Check, lit, repr, pure, done, error, require, each, ◌>>=◌, ◌>>◌}
use libpglite.Package.{Package}
use libpglite.Manifest.{read_text}
use libpglite.Doctor.{Doctor, error_if_strict}

-- `looks_like_build_path`: the alternatives of its pattern.
abbrev pub build_path_fragments : List String
build_path_fragments =
    "/Users/" ∷ "/home/" ∷ "/private/var/" ∷ "/tmp/" ∷ "/var/folders/" ∷ "/opt/homebrew/" ∷ []

unfoldable pub looks_like_build_path : String → Bool
looks_like_build_path line = any (contains line) build_path_fragments

abbrev pub postgres_prefix_layout : List (String × String)
postgres_prefix_layout =
    ("path", "postgres")
    ∷ ("bin", "postgres/bin")
    ∷ ("share", "postgres/share")
    ∷ ("lib", "postgres/lib")
    ∷ ("initdb", "postgres/bin/initdb")
    ∷ ("postgres", "postgres/bin/postgres")
    ∷ []

abbrev pub prefix_keys : List String
prefix_keys = "path" ∷ "bin" ∷ "share" ∷ "lib" ∷ "initdb" ∷ "postgres" ∷ []

abbrev pub directory_keys : List String
directory_keys = "path" ∷ "bin" ∷ "share" ∷ "lib" ∷ []

abbrev pub required_prefix_files : List String
required_prefix_files =
    "postgres/bin/pg_config" ∷ "postgres/lib/pgxs/src/Makefile.global"
    ∷ "postgres/lib/pgxs/src/makefiles/pgxs.mk" ∷ "postgres/share/postgres.bki"
    ∷ "postgres/share/snowball_create.sql" ∷ "postgres/share/extension/plpgsql.control" ∷ []

abbrev pub text_suffixes : List String
text_suffixes = ".control" ∷ ".sql" ∷ ".conf" ∷ ".sample" ∷ ".txt" ∷ []

-- The texts with a build-machine path among the files of the prefix, in their order.
unfoldable pub leaked_paths : Package → List String → Check (List String)
leaked_paths root [] = pure []
leaked_paths root (path ∷ paths) =
    let rest = leaked_paths root paths in
    if root.is_file path && mem (lower (suffix path)) text_suffixes
    then (do
      content ← read_text root path
      leaked ← rest
      pure (if looks_like_build_path content then path ∷ leaked else leaked))
    else rest

module _ (d : Doctor) where
  unfoldable pub validate_postgres_prefix_text_paths : Check (Unit {0})
  validate_postgres_prefix_text_paths =
      if d.root.is_dir "postgres"
      then (do
        leaked ← leaked_paths d.root (d.root.rglob "postgres")
        (if is_empty leaked
            then done
            else error_if_strict d (
                lit "PostgreSQL prefix text metadata contains build-machine paths: "
                ∷ lit (join ", " (take 10 leaked))
                ∷ [])))
      else done

  -- One key of the second loop.
  unfoldable pub validate_prefix_entry : Fields → String → Check (Unit {0})
  validate_prefix_entry prefix key = elim (as_nonempty_text (get prefix key)) [
    | none ↦ error (lit "bundle postgresPrefix." ∷ lit key ∷ lit " is missing" ∷ [])
    | some value ↦
        if mem key directory_keys
        then require (d.root.is_dir value)
            (lit "postgresPrefix." ∷ lit key ∷ lit " directory is missing: " ∷ lit value ∷ [])
        else require (d.root.is_file value)
            (lit "postgresPrefix." ∷ lit key ∷ lit " file is missing: " ∷ lit value ∷ [])
  ]

  unfoldable pub validate_postgres_prefix : Check (Unit {0})
  validate_postgres_prefix = elim (as_object (get d.bundle "postgresPrefix")) [
    | none ↦ error (lit "bundle postgresPrefix field must be an object" ∷ [])
    | some prefix ↦ do
      each postgres_prefix_layout (λ (key, expected). require (is_text (get prefix key) expected) (
          lit "bundle postgresPrefix."
          ∷ lit key
          ∷ lit " must be "
          ∷ lit expected
          ∷ lit ", got "
          ∷ repr (get prefix key)
          ∷ []))
      each prefix_keys (validate_prefix_entry prefix)
      each required_prefix_files (λ rel.
          require (d.root.is_file rel)
            (lit "required PostgreSQL prefix file is missing: " ∷ lit rel ∷ []))
      validate_postgres_prefix_text_paths
  ]

  -- A file that a native package must not hold.
  unfoldable pub is_non_native : String → Bool
  is_non_native path =
      mem (lower (suffix path)) (".wasm" ∷ ".js" ∷ ".mjs" ∷ ".bc" ∷ [])
      || any (contains (lower (file_name path))) ("emscripten" ∷ "wasm2c" ∷ [])

  unfoldable pub validate_native_only_payload : Check (Unit {0})
  validate_native_only_payload = each (d.root.rglob "") (λ path.
      require (not (d.root.is_file path && is_non_native path))
        (lit "native package contains non-native payload: " ∷ lit path ∷ []))
