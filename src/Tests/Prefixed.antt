-- ===== src/Tests/Prefixed.antt =====
-- The describer over a prefix with one dependency.
use libpglite.Prelude.{◌≡◌, refl, true, some, [], ◌∷◌, All, mem}
use libpglite.Prelude.Text
use libpglite.Prelude.Dict.{lookup, insert}
use libpglite.Json.{Fields, end, field, Value, text, array, object, nil, cons, get, has}
use libpglite.Check.Laws.{Passes}
use libpglite.Script.{◌>>=◌}
use libpglite.Script.Laws.{Returns}
use libpglite.System.{System}
use libpglite.Fetch
use libpglite.Fetch.Archive
use libpglite.Doctor.Dependencies.{validate_prefix_manifest}
use libpglite.Check
use libpglite.Describe
use libpglite.Describe.{main}
use libpglite.Describe.Inventory
use libpglite.Describe.Manifest
use libpglite.Describe.Manifest.{Prefix, Described, describe_all, manifest}
use libpglite.Describe.Complete.{HasArtifacts, manifest-Passes}
use libpglite.Describe.Status.{IsAccepted, main-IsAccepted}
use libpglite.Tests.Machine.{World, machine}
use libpglite.Tests.Runs.{doctor}

abbrev zlib : Fields
zlib = field "name" (text "zlib") (
    field "version" (text "1.3") (
      field "source" (text "https://a") (
        field "buildSystem" (text "make") (
          field "role" (text "runtime") (
            field "headers" (array (cons (text "include/zlib.h") nil)) (
              field "libraries" (array (cons (text "lib/libz.a") nil))
                (field "pkgConfig" (array (cons (text "zlib") nil)) end)))))))

abbrev prefix : Prefix
prefix = record {
  path = "/prefix";
  is_dir = true;
  exists = λ rel. mem rel ("include/zlib.h" ∷ "lib/libz.a" ∷ []);
  files = "include/zlib.h" ∷ "lib/libz.a" ∷ [];
  pkg_config = λ name. some (some "1.3\n");
}

abbrev lock_file : Value
lock_file = object (
    field "format" (text "libpglite-native-dependency-inventory-v1")
      (field "dependencies" (array (cons (object zlib) nil)) end))

abbrev sys : System World
sys = machine lock_file ""

abbrev world : World
world = ("lock.json", "lock") ∷ []

abbrev described : Described
described = record {
  missing = [];
  entry = object (
      field "name" (text "zlib") (
        field "version" (text "1.3") (
          field "source" (text "https://a") (
            field "buildSystem" (text "make") (
              field "role" (text "runtime") (
                field "artifacts"
                  (array (
                    Fetch.items_of (
                      Manifest.artifact_result prefix "include/zlib.h"
                      ∷ Manifest.artifact_result prefix "lib/libz.a"
                      ∷ [])))
                  (field "pkgConfig"
                    (array
                      (Fetch.items_of (Manifest.probe_result prefix "zlib" (some "1.3\n") ∷ [])))
                    end)))))));
}

all_described : describe_all prefix (zlib ∷ []) ≡ some (described ∷ [])
unfolding Manifest.describe_all Manifest.describe_dependency Manifest.artifacts_of
    Manifest.packages_of Manifest.concatenated Manifest.all_texts Manifest.absent Manifest.entry_of
    Manifest.probes Manifest.pkg_config_probe Manifest.artifact_result Manifest.probe_result
    Archive.unpacked Archive.characters Fetch.items_of get has Text.mem
all_described = refl

prefix_accepted :
    Passes
      (validate_prefix_manifest doctor (manifest prefix "lock.json" "lock" (described ∷ [])))
      tt
unfolding validate_prefix_manifest manifest get Fetch.items_of Check.require Check.◌>>=◌
prefix_accepted = record { returns = refl; clean = refl }

manifest-Passes_example : All (HasArtifacts prefix) (zlib ∷ [])
manifest-Passes_example =
    (manifest-Passes prefix doctor "lock.json" "lock" (zlib ∷ []) (described ∷ []) refl
        all_described).0
      prefix_accepted

abbrev after : World
after = ("lock.json", "lock") ∷ (".", "directory") ∷ ("out.json", "json") ∷ []

run : Returns (main sys "/repo" prefix "lock.json" "out.json" true true) world 0 after
unfolding Describe.main Describe.describe Describe.inventory_text Inventory.read_inventory
    Inventory.read_document Inventory.read_dependencies Inventory.read_each
    Inventory.read_dependency Inventory.require_keys Manifest.describe_all
    Manifest.describe_dependency Manifest.artifacts_of Manifest.packages_of Manifest.concatenated
    Manifest.all_texts Manifest.absent Manifest.entry_of Manifest.probes Manifest.pkg_config_probe
    Manifest.artifact_result Manifest.probe_result Manifest.exit_status
    Manifest.dynamic_prefix_objects Archive.unpacked Archive.characters Fetch.items_of get has
    Text.mem Text.file_name Text.ends_with Text.contains Text.starts_with Text.split ◌>>=◌ lookup
    insert
run = refl

main-IsAccepted_example : IsAccepted sys "/repo" prefix "lock.json" "out.json" true true world after
main-IsAccepted_example =
    main-IsAccepted sys "/repo" prefix "lock.json" "out.json" true true world after run
