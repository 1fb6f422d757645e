-- ===== src/Fetch/Inventory.antt =====
-- `read_inventory`: the lock file of the dependencies. An entry is its dictionary.
use libpglite.Prelude.{String, Option, none, some, List, [], ◌∷◌, is_empty, if◌then◌else◌}
use libpglite.Json.{Fields, Value, get, has, is_text, as_object, as_list, as_nonempty_text}
use libpglite.Script.{lit, str, Action, pure, exit, fail, ask, ◌>>=◌, ◌>>◌, each}
use libpglite.System.{System}

module _ {W : Type 0} where
  unfoldable pub require_string : Fields → String → Action W (Unit {0})
  require_string dependency key = elim (as_nonempty_text (get dependency key)) [
    | none ↦ exit (
        lit "dependency inventory "
        ∷ str (get dependency "name")
        ∷ lit " is missing "
        ∷ lit key
        ∷ [])
    | some s ↦ pure tt
  ]

  unfoldable pub require_source : Fields → Action W (Unit {0})
  require_source dependency =
      if has dependency "gitCommit"
      then (do
        require_string dependency "source"
        require_string dependency "gitRef"
        require_string dependency "gitCommit")
      else (do
        require_string dependency "source"
        require_string dependency "archive"
        require_string dependency "sha256")

  -- One round of the loop. An entry that is no dictionary has no method `get`.
  unfoldable pub read_dependency : Value → Action W Fields
  read_dependency v = elim (as_object v) [
    | none ↦ fail
    | some dependency ↦ elim (as_nonempty_text (get dependency "name")) [
      | none ↦ exit (lit "dependency inventory entry is missing name" ∷ [])
      | some name ↦ do require_source dependency; pure dependency
    ]
  ]

  unfoldable pub read_dependencies : Value → Action W (List Fields)
  read_dependencies v = elim (as_list v) [
    | none ↦ exit (lit "dependency inventory must contain dependencies" ∷ [])
    | some dependencies ↦
        if is_empty dependencies
        then exit (lit "dependency inventory must contain dependencies" ∷ [])
        else each read_dependency dependencies
  ]

  -- The message of a document that cannot be read is without the text of the exception.
  unfoldable pub read_document : String → Option Value → Action W (List Fields)
  read_document path none = exit (lit "could not read dependency inventory " ∷ lit path ∷ [])
  read_document path (some document) = elim (as_object document) [
    | none ↦ fail
    | some inventory ↦
        if is_text (get inventory "format") "libpglite-native-dependency-inventory-v1"
        then read_dependencies (get inventory "dependencies")
        else exit (lit "dependency inventory has wrong format: " ∷ lit path ∷ [])
  ]

  -- Returns `inventory["dependencies"]`.
  unfoldable pub read_inventory : System W → String → Action W (List Fields)
  read_inventory sys path = do document ← ask (sys.load_json path); read_document path document
