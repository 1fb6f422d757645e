-- ===== src/System.antt =====
-- What the scripts that fetch and materialise sources ask of the machine, over a type of worlds:
-- Python's `pathlib`, `shutil`, `hashlib`, `json`, `urllib` and `subprocess`. Paths are texts.
use libpglite.Prelude.{String, Bool, Option, List}
use libpglite.Json.{Value}
use libpglite.Script.{Action}

-- `urllib.request.urlretrieve`: it returns, raises an error that the caller reports, or another.
pub data Download : Type 0 where
  fetched : Download
  refused : String → Download
  broken : Download

-- A process that has ended: whether its return code is 0, and its output.
pub record Process : Type 0 where
  pub success : Bool
  pub stdout : String
  pub stderr : String

pub record System (W : Type 0) : Type 0 where
  -- `str(pathlib.Path(a) / b)`, `str(pathlib.Path(path).parent)` and
  -- `str(pathlib.Path(path).resolve())`
  pub join : String → String → String
  pub parent : String → String
  pub resolve : String → W → String
  pub is_file : String → W → Bool
  pub is_dir : String → W → Bool
  pub exists : String → W → Bool
  -- `path.read_text()`, `json.loads` of it, and the SHA-256 of the content; `none` where it raises
  pub read_text : String → W → Option String
  pub load_json : String → W → Option Value
  pub hash : String → W → Option String
  -- `path.write_text(text)`, and the same of `json.dumps(value, …)`
  pub write_text : String → String → Action W (Unit {0})
  pub write_json : String → Value → Action W (Unit {0})
  -- `path.mkdir(parents=True, exist_ok=True)`, `shutil.rmtree`, `path.unlink(missing_ok=True)` and
  -- `shutil.move`
  pub mkdir : String → Action W (Unit {0})
  pub rmtree : String → Action W (Unit {0})
  pub unlink : String → Action W (Unit {0})
  pub move : String → String → Action W (Unit {0})
  -- `tempfile.TemporaryDirectory(dir=…)`, its name, and its clean-up
  pub make_tempdir : String → Action W String
  pub remove_tempdir : String → Action W (Unit {0})
  pub urlretrieve : String → String → W → Download × W
  -- `subprocess.run` in a directory, or in the current one; `none` where it cannot be started
  pub run : Option String → List String → W → Option Process × W
