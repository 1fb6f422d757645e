-- ===== src/Materialize.antt =====
-- scripts/materialize-native-pglite-other-extensions.py: the sources of the other extensions, at
-- the commits of the extension inventory.
pub mod Parsed
pub mod Refused
pub mod Settled
pub mod Complete
pub mod Provenance
use libpglite.Prelude.{
  ℕ, zero, suc, String, ◌<>◌, Bool, true, false, Option, none, some, List, [], ◌∷◌, ◌++◌, not, ◌&&◌,
  is_empty, map, is_blank, join, str_eq, strip, splitlines, mem, is_hex, strip_prefix, nonblank,
  if◌then◌else◌,
}
use libpglite.Prelude.Text.{relative_to}
use libpglite.Prelude.Dict.{Dict, lookup}
use libpglite.Script.{
  Message, Part, lit, str, Result, returned, exited, failed, Action, of_option, pure, exit, fail,
  lift, ask, require_some, continue, ◌>>=◌, ◌>>◌, each,
}
use libpglite.System.{Process, System}
use libpglite.Manifest.{parse_semicolon_fields}

-- The dictionary of an extension.
pub record Extension : Type 0 where
  pub name : String
  pub source : String
  pub commit : String
  pub url : String

abbrev pub provenance_file : String
provenance_file = ".libpglite-extension-source"

unfoldable pub provenance_text : Extension → String
provenance_text extension = join "\n" (
    "format=libpglite-native-other-extension-source-v1"
    ∷ ("name=" <> extension.name)
    ∷ ("source=" <> extension.source)
    ∷ ("url=" <> extension.url)
    ∷ ("commit=" <> extension.commit)
    ∷ ""
    ∷ [])

module _ {W : Type 0} where
  unfoldable pub required_field : String → Dict String → String → Action W String
  required_field name fields key = elim (lookup key fields) [
    | none ↦ exit (lit "inventory is missing " ∷ lit key ∷ lit " for " ∷ lit name ∷ [])
    | some value ↦ pure value
  ]

  -- `if not condition: raise SystemExit(message)`
  abbrev pub expect : Bool → Message → Action W (Unit {0})
  expect condition message = if condition then pure tt else exit message

  -- A round of the loop for the value of an `other_extension` line, after the names seen.
  unfoldable pub parse_extension : List String → String × Dict String → Action W Extension
  parse_extension seen (name, fields) = do
    expect (not (mem name seen)) (lit "inventory repeats other_extension: " ∷ lit name ∷ [])
    source ← required_field name fields "source"
    expect (str_eq source ("pglite/other_extensions/" <> name)) (
        lit "inventory source for "
        ∷ lit name
        ∷ lit " must be pglite/other_extensions/"
        ∷ lit name
        ∷ lit ", got "
        ∷ lit source
        ∷ [])
    commit ← required_field name fields "submodule_commit"
    expect (is_hex 40 commit)
        (lit "inventory has invalid submodule_commit for " ∷ lit name ∷ lit ": " ∷ lit commit ∷ [])
    url ← required_field name fields "submodule_url"
    expect (not (is_blank url)) (lit "inventory has empty submodule_url for " ∷ lit name ∷ [])
    pure record { name = name; source = source; commit = commit; url = url }

  unfoldable pub parse_lines : List String → List String → Action W (List Extension)
  parse_lines [] seen = pure []
  parse_lines (raw_line ∷ lines) seen = elim (strip_prefix (strip raw_line) "other_extension=") [
    | none ↦ parse_lines lines seen
    | some value ↦ do
      extension ← parse_extension seen (parse_semicolon_fields value)
      extensions ← parse_lines lines (extension.name ∷ seen)
      pure (extension ∷ extensions)
  ]

module _ {W : Type 0} (sys : System W) where
  unfoldable pub parse_other_extensions : String → Action W (List Extension)
  parse_other_extensions inventory = do
    content ← require_some (sys.read_text inventory)
    parse_lines (splitlines content) []

  -- `subprocess.run(command, check=True)`
  unfoldable pub checked : Option Process → Result (Unit {0})
  checked none = failed
  checked (some result) = if result.success then returned tt else failed

  unfoldable pub run : List String → Action W (Unit {0})
  run command w = let (process, w') = sys.run none command w in (checked process, w')

  abbrev pub attempts : String → String → List (List String)
  attempts destination commit =
      ("git" ∷ "-C" ∷ destination ∷ "fetch" ∷ "-q" ∷ "--depth=1" ∷ "origin" ∷ commit ∷ [])
      ∷ ("git" ∷ "-C" ∷ destination ∷ "fetch" ∷ "-q" ∷ "origin" ∷ commit ∷ [])
      ∷ ("git" ∷ "-C" ∷ destination ∷ "fetch" ∷ "-q" ∷ "origin"
          ∷ "+refs/heads/*:refs/remotes/origin/*" ∷ "+refs/tags/*:refs/tags/*" ∷ [])
      ∷ []

  -- The errors that are not empty, with ` | ` between them.
  unfoldable pub joined_errors : List String → String
  joined_errors errors = join " | " (nonblank errors)

  -- The loop over the attempts: the first that succeeds ends it.
  unfoldable pub try_fetches : String → List (List String) → List String → Action W (Unit {0})
  try_fetches commit [] errors = exit (
      lit "could not fetch pinned extension commit "
      ∷ lit commit
      ∷ lit ": "
      ∷ lit (joined_errors errors)
      ∷ [])
  try_fetches commit (command ∷ commands) errors = do
    process ← λ w. let (process, w') = sys.run none command w in (of_option process, w')
    elim process.success [
      | true ↦ pure tt
      | false ↦ try_fetches commit commands (errors ++ (strip process.stderr ∷ []))
    ]

  unfoldable pub fetch_commit : String → String → Action W (Unit {0})
  fetch_commit destination commit = try_fetches commit (attempts destination commit) []

  -- `provenance_path.is_file() and provenance_path.read_text() == provenance`
  unfoldable pub is_materialized : String → String → Action W Bool
  is_materialized provenance_path provenance = do
    present ← ask (sys.is_file provenance_path)
    (if present
        then (do
          content ← require_some (sys.read_text provenance_path)
          pure (str_eq content provenance))
        else pure false)

  -- The part of `materialize_extension` that changes the destination.
  unfoldable pub populate : String → Extension → Action W (Unit {0})
  populate destination extension = do
    present ← ask (sys.exists destination)
    (if present then sys.rmtree destination else pure tt)
    sys.mkdir (sys.parent destination)
    run ("git" ∷ "init" ∷ "-q" ∷ destination ∷ [])
    run ("git" ∷ "-C" ∷ destination ∷ "remote" ∷ "add" ∷ "origin" ∷ extension.url ∷ [])
    fetch_commit destination extension.commit
    run ("git" ∷ "-C" ∷ destination ∷ "checkout" ∷ "-q" ∷ "--detach" ∷ extension.commit ∷ [])
    sys.write_text (sys.join destination provenance_file) (provenance_text extension)

  -- The part after the test of the destination.
  unfoldable pub materialize_at : String → Extension → Bool → Action W (Unit {0})
  materialize_at destination extension dry_run = do
    done ← is_materialized (sys.join destination provenance_file) (provenance_text extension)
    (if done then pure tt else if dry_run then pure tt else populate destination extension)

  abbrev pub destination_of : String → Extension → W → String
  destination_of out_root extension = sys.resolve (sys.join out_root extension.source)

  abbrev pub allowed_root_of : String → W → String
  allowed_root_of out_root = sys.resolve (sys.join (sys.join out_root "pglite") "other_extensions")

  -- The test of the destination, by what it is below the root, if anything.
  unfoldable pub materialize_below : String → Extension → Bool → Option String → Action W (Unit {0})
  materialize_below destination extension dry_run none =
      exit (lit "refusing to write outside other_extensions: " ∷ lit destination ∷ [])
  materialize_below destination extension dry_run (some below) =
      materialize_at destination extension dry_run

  unfoldable pub materialize_extension : String → Bool → Extension → Action W (Unit {0})
  materialize_extension out_root dry_run extension = do
    destination ← ask (destination_of out_root extension)
    allowed_root ← ask (allowed_root_of out_root)
    materialize_below destination extension dry_run (relative_to destination allowed_root)

  -- `main` with the parsed options; it returns 0.
  unfoldable pub main : String → String → Bool → Action W (Unit {0})
  main inventory_path out_path dry_run = do
    inventory ← ask (sys.resolve inventory_path)
    out_root ← ask (sys.resolve out_path)
    extensions ← parse_other_extensions inventory
    expect (not (is_empty extensions))
        (lit "inventory has no PGlite other_extension entries: " ∷ lit inventory ∷ [])
    each (materialize_extension out_root dry_run) extensions
    pure tt
