-- ===== src/Tests/Materialized.antt =====
-- The materialiser over an inventory with one extension.
use libpglite.Prelude.{◌≡◌, refl, true, false, none, some, [], ◌∷◌, All, mem}
use libpglite.Prelude.Text
use libpglite.Prelude.Text.{relative_to}
use libpglite.Prelude.Dict.{lookup, insert, remove}
use libpglite.Json.{null}
use libpglite.Check.{pure}
use libpglite.Script.{◌>>=◌}
use libpglite.Script.Laws.{Returns, Keeps}
use libpglite.System.{System}
use libpglite.Manifest
use libpglite.Inventory.{Source, materialized_metadata}
use libpglite.Materialize
use libpglite.Materialize.{
  Extension, provenance_text, parse_other_extensions, materialize_extension, main,
}
use libpglite.Materialize.Parsed.{IsWellFormed, AreFresh, parse_other_extensions-AreWellFormed}
use libpglite.Materialize.Refused.{main-Keeps}
use libpglite.Materialize.Settled.{materialize_extension_again}
use libpglite.Materialize.Provenance.{recorded, materialized_metadata-provenance_text}
use libpglite.Tests.Machine.{World, machine, machine-KeepsText}

abbrev vector : Extension
vector = record {
  name = "vector";
  source = "pglite/other_extensions/vector";
  commit = "35ab919bf5da677709b2ebb8be07480bb25e97cf";
  url = "https://v.git";
}

abbrev sys : System World
sys = machine null ""

abbrev fresh : World
fresh =
    (
      "inv",
      "format=libpglite-native-extension-inventory-v1\nother_extension=vector;source=pglite/other_extensions/vector;submodule_commit=35ab919bf5da677709b2ebb8be07480bb25e97cf;submodule_url=https://v.git\n",
    )
    ∷ []

abbrev populated : World
populated = (materialize_extension sys "root" false vector fresh).1

parsed : Returns (parse_other_extensions sys "inv") fresh (vector ∷ []) fresh
unfolding Materialize.parse_other_extensions Materialize.parse_lines Materialize.parse_extension
    Materialize.required_field Manifest.parse_semicolon_fields ◌>>=◌ lookup insert Text.strip
    Text.lstrip Text.rstrip Text.strip_prefix Text.splitlines Text.starts_with Text.split
    Text.split_once Text.is_hex Text.mem
parsed = refl

parse_other_extensions-AreWellFormed_example :
    All IsWellFormed (vector ∷ []) × AreFresh [] (vector ∷ [])
parse_other_extensions-AreWellFormed_example =
    parse_other_extensions-AreWellFormed sys "inv" (vector ∷ []) fresh fresh parsed

main-Keeps_example : Keeps (main sys "inv" "root" true)
main-Keeps_example = main-Keeps sys "inv" "root"

materialized : Returns (materialize_extension sys "root" false vector) fresh tt populated
unfolding Materialize.materialize_extension Materialize.materialize_below Materialize.materialize_at
    Materialize.is_materialized Materialize.populate Materialize.run Materialize.checked
    Materialize.fetch_commit Materialize.try_fetches relative_to Text.strip_prefix ◌>>=◌ lookup
    insert remove
materialized = refl

materialize_extension_again_example :
    Returns (materialize_extension sys "root" true vector) populated tt populated
materialize_extension_again_example =
    materialize_extension_again sys (machine-KeepsText null "") "root" true vector fresh populated
      materialized refl refl

abbrev tree : Source
tree = record {
  is_file = λ path. true;
  is_dir = λ path. true;
  has_entries = λ path. true;
  read_text = λ path. some (provenance_text vector);
  git = λ args. none;
}

materialized_metadata-provenance_text_example :
    materialized_metadata tree "pglite/other_extensions/vector" ≡ pure (recorded vector)
materialized_metadata-provenance_text_example =
    materialized_metadata-provenance_text tree "pglite/other_extensions/vector" vector refl refl
      record { name = refl; source = refl; url = refl; commit = refl }
