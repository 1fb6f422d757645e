-- ===== src/Fetch.antt =====
-- scripts/fetch-native-dependency-sources.py: the pinned sources of the native dependencies,
-- fetched and verified.
pub mod Inventory
pub mod Archive
pub mod Git
pub mod Status
use libpglite.Prelude.{
  ℕ, String, ◌<>◌, Bool, true, false, Option, none, some, List, [], ◌∷◌, ◌++◌, not, is_empty,
  is_blank, join, str_eq, strip, if◌then◌else◌,
}
use libpglite.Json.{
  Fields, end, field, Value, text, array, object, Items, nil, cons, get, has, is_text, as_text,
  as_object, as_list, as_nonempty_text,
}
use libpglite.Script.{
  Message, Part, lit, str, Result, returned, exited, failed, Action, of_option, pure, exit, fail,
  lift, ask, require_some, continue, ◌>>=◌, ◌>>◌, each,
}
use libpglite.System.{Download, fetched, refused, broken, Process, System}
use libpglite.Fetch.Inventory.{read_inventory}
use libpglite.Fetch.Archive.{fetch_archive}
use libpglite.Fetch.Git.{fetch_git}

unfoldable pub items_of : List Value → Items
items_of [] = nil
items_of (v ∷ vs) = cons v (items_of vs)

module _ {W : Type 0} (sys : System W) where
  unfoldable pub fetch_dependency : String → Bool → Fields → Action W Value
  fetch_dependency out verify_only dependency =
      if has dependency "gitCommit"
      then fetch_git sys dependency out verify_only
      else fetch_archive sys dependency out verify_only

  -- The document `sources.json`.
  unfoldable pub sources_manifest : String → String → List Value → Value
  sources_manifest inventory_path digest entries = object (
      field "format" (text "libpglite-native-dependency-sources-v1") (
        field "inventory" (text inventory_path)
          (field "inventorySha256" (text digest) (field "sources" (array (items_of entries)) end))))

  -- `main` with the parsed options; it returns 0. Returns the entries that it has written.
  unfoldable pub main : String → String → Bool → Action W (List Value)
  main inventory_path out verify_only = do
    dependencies ← read_inventory sys inventory_path
    sys.mkdir out
    entries ← each (fetch_dependency out verify_only) dependencies
    digest ← require_some (sys.hash inventory_path)
    sys.write_json (sys.join out "sources.json") (sources_manifest inventory_path digest entries)
    pure entries
