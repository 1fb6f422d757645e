-- ===== src/Describe/Inventory.antt =====
-- `read_inventory`: the lock file of the dependencies. An entry is its dictionary.
use libpglite.Prelude.{String, Option, none, some, List, [], ◌∷◌, is_empty, mem, if◌then◌else◌}
use libpglite.Json.{Fields, Value, get, has, is_text, as_object, as_list, as_nonempty_text}
use libpglite.Script.{lit, Action, pure, exit, fail, ask, ◌>>=◌, ◌>>◌}
use libpglite.System.{System}

module _ {W : Type 0} where
  unfoldable pub require_keys : String → Fields → List String → Action W (Unit {0})
  require_keys name dependency [] = pure tt
  require_keys name dependency (key ∷ keys) =
      let rest = require_keys name dependency keys in
      if has dependency key
      then rest
      else exit (lit "dependency inventory " ∷ lit name ∷ lit " is missing " ∷ lit key ∷ [])

  -- One round of the loop, which appends the name to those seen.
  unfoldable pub read_dependency : List String → Value → Action W (String × Fields)
  read_dependency names v = elim (as_object v) [
    | none ↦ exit (lit "dependency inventory entry must be an object" ∷ [])
    | some dependency ↦ elim (as_nonempty_text (get dependency "name")) [
      | none ↦ exit (lit "dependency inventory entry is missing name" ∷ [])
      | some name ↦
          if mem name names
          then exit (lit "dependency inventory repeats name: " ∷ lit name ∷ [])
          else (do
            require_keys name dependency ("version" ∷ "source" ∷ "buildSystem" ∷ "role" ∷ [])
            pure (name, dependency))
    ]
  ]

  unfoldable pub read_each : List String → List Value → Action W (List Fields)
  read_each names [] = pure []
  read_each names (v ∷ vs) = do
    entry ← read_dependency names v
    rest ← read_each (entry.0 ∷ names) vs
    pure (entry.1 ∷ rest)

  unfoldable pub read_dependencies : Value → Action W (List Fields)
  read_dependencies v = elim (as_list v) [
    | none ↦ exit (lit "dependency inventory must contain dependencies" ∷ [])
    | some dependencies ↦
        if is_empty dependencies
        then exit (lit "dependency inventory must contain dependencies" ∷ [])
        else read_each [] dependencies
  ]

  -- The message of a document that cannot be read is without the text of the exception.
  unfoldable pub read_document : String → Option Value → Action W (List Fields)
  read_document path none = exit (lit "could not read dependency inventory " ∷ lit path ∷ [])
  read_document path (some document) = elim (as_object document) [
    | none ↦ fail
    | some inventory ↦
        if is_text (get inventory "format") "libpglite-native-dependency-inventory-v1"
        then read_dependencies (get inventory "dependencies")
        else exit (lit "dependency inventory has wrong format: " ∷ lit path ∷ [])
  ]

  -- Returns `inventory["dependencies"]`.
  unfoldable pub read_inventory : System W → String → Action W (List Fields)
  read_inventory sys path = do document ← ask (sys.load_json path); read_document path document
