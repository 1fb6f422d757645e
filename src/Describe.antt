-- ===== src/Describe.antt =====
-- scripts/describe-native-dependency-prefix.py: what a prefix holds of the locked dependencies.
pub mod Manifest
pub mod Inventory
pub mod Complete
pub mod Status
use libpglite.Prelude.{
  ℕ, String, ◌<>◌, Bool, true, false, Option, none, some, List, [], ◌∷◌, ◌++◌, not, ◌&&◌, ◌||◌,
  is_empty, map, keep, strip, ends_with, contains, file_name, if◌then◌else◌,
}
use libpglite.Prelude.Text.{relative_to}
use libpglite.Json.{Fields, end, field, Value, text, boolean, array, object, get, has, as_text}
use libpglite.Script.{
  Result, returned, exited, failed, Action, of_option, pure, lift, require_some, ◌>>=◌, ◌>>◌,
}
use libpglite.System.{System}
use libpglite.Describe.Manifest.{Prefix, Described, describe_all, manifest, exit_status}
use libpglite.Describe.Inventory.{read_inventory}

-- `REPO_ROOT` is the parent directory of the scripts.
unfoldable pub inventory_text : String → String → String
inventory_text repo_root inventory_path = elim (relative_to inventory_path repo_root) [
  | none ↦ inventory_path
  | some rel ↦ rel
]

module _ {W : Type 0} (sys : System W) (repo_root : String) (prefix : Prefix) where
  -- `main` for a prefix that is a directory.
  unfoldable pub describe : String → String → Bool → Bool → Action W ℕ
  describe inventory_path out require_complete require_static = do
    dependencies ← read_inventory sys inventory_path
    described ← lift (of_option (describe_all prefix dependencies))
    digest ← require_some (sys.hash inventory_path)
    sys.mkdir (sys.parent out)
    sys.write_json out
        (object (manifest prefix (inventory_text repo_root inventory_path) digest described))
    pure (exit_status prefix require_complete require_static described)

  -- `main` with the parsed options
  unfoldable pub main : String → String → Bool → Bool → Action W ℕ
  main inventory_path out require_complete require_static =
      if prefix.is_dir then describe inventory_path out require_complete require_static else pure 2
