-- ===== src/Package.antt =====
-- What the scripts read of an extracted native package: the file system below its root, with the
-- standard library's `json`, `hashlib` and `sqlite3` and the command `nm` applied to its files.
-- Paths are those below the root, with `/`.
use libpglite.Prelude.{ℕ, String, Bool, Option, List}
use libpglite.Json.{Value}

pub record Package : Type 0 where
  -- `(root / path).is_file()` and `.is_dir()`
  pub is_file : String → Bool
  pub is_dir : String → Bool
  -- `path.read_text()`; `none` where it raises
  pub read_text : String → Option String
  -- `json.load`; `none` where opening or decoding raises
  pub load_json : String → Option Value
  -- `hashlib.sha256` of the content in hexadecimal; `none` where the file cannot be opened
  pub hash : String → Option String
  -- the standard output of `nm` for the defined and the undefined dynamic symbols; `none` where
  -- `nm` cannot be started
  pub nm_defined : String → Option String
  pub nm_undefined : String → Option String
  -- `os.uname().sysname`
  pub sysname : String
  -- `sorted(path.rglob("*"))`, `sorted(path.iterdir())` and `sorted(path.glob(pattern))`, each as
  -- paths below the root
  pub rglob : String → List String
  pub iterdir : String → List String
  pub glob : String → String → List String
  -- `sqlite3` opens the file and reads its schema
  pub is_sqlite : String → Bool
  -- the value of a decimal digit of Unicode, the class `\d`
  pub digit : ℕ → Option ℕ
