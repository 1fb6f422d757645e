-- ===== src/Tests/Generated.antt =====
-- Runs of the generator of the dependency manifest, and its theorems at concrete inputs.
use libpglite.Prelude.{◌≡◌, refl, ◌↔◌, String, List, [], ◌∷◌, All, map, starts_with, ends_with}
use libpglite.Prelude.Text
use libpglite.Json.{nat}
use libpglite.Check.Laws.{Passes}
use libpglite.Doctor.Dependencies.{Bad, validate_object}
use libpglite.Generator
use libpglite.Generator.{Build, classify, manifest_object, parse_otool, parse_ldd}
use libpglite.Generator.Records.{IsMovable, manifest_object-Passes}
use libpglite.Generator.Roots.{classify-package}

otool_paths :
    parse_otool
      "libpglite.dylib:\n\t@loader_path/libcrypto.3.dylib (compatibility version 3.0.0)\n\t/usr/lib/libSystem.B.dylib (x)\n"
    ≡ "@loader_path/libcrypto.3.dylib" ∷ "/usr/lib/libSystem.B.dylib" ∷ []
unfolding parse_otool Generator.otool_lines Generator.tail Text.splitlines Text.strip Text.lstrip
    Text.rstrip Text.before Text.starts_with
otool_paths = refl

ldd_paths :
    parse_ldd
      "linux-vdso.so.1 (0x00007ffc)\nlibcrypto.so.3 => /tmp/build/libcrypto.so.3 (0x00007f)\nlibmissing.so => not found\nstatically linked\n/lib64/ld-linux-x86-64.so.2 (0x00007f)\n"
    ≡ "linux-vdso.so.1" ∷ "/tmp/build/libcrypto.so.3" ∷ "libmissing.so => not found"
      ∷ "/lib64/ld-linux-x86-64.so.2" ∷ []
unfolding parse_ldd Generator.ldd_lines Generator.ldd_path Generator.split_at Text.splitlines
    Text.strip Text.lstrip Text.rstrip Text.before Text.starts_with Text.contains Text.strip_prefix
ldd_paths = refl

classes :
    map (classify "/tmp/package") (
      "@loader_path/libcrypto.3.dylib" ∷ "/tmp/package/postgres/lib/libpq.dylib"
      ∷ "/usr/lib/libSystem.B.dylib" ∷ "/opt/homebrew/lib/libcrypto.3.dylib"
      ∷ "/tmp/build/libcrypto.so.3" ∷ "libmissing.so => not found" ∷ "/elsewhere/libcustom.so"
      ∷ "/tmp/package-old/libpq.so" ∷ [])
    ≡ "loader-relative" ∷ "package" ∷ "platform" ∷ "local-provider" ∷ "build-machine" ∷ "missing"
      ∷ "absolute-external" ∷ "package" ∷ []
unfolding classify Text.ends_with Text.starts_with
classes = refl

abbrev build : Build
build = record {
  package_root = "/tmp/package";
  plugin = "/tmp/package/plugin.so";
  sysname = "Linux";
  modules = λ pattern. [];
  scan = λ tool path. record {
    stdout =
        "linux-vdso.so.1 (0x00007ffc)\nlibcrypto.so.3 => /opt/homebrew/lib/libcrypto.so.3 (0x00007f)\n";
    stderr = "";
    returncode = nat 0;
  };
  resolve = λ path. path;
  path_text = λ path. path;
}

abbrev raws : List String
raws = "linux-vdso.so.1" ∷ "/opt/homebrew/lib/libcrypto.so.3" ∷ []

manifest_object-Passes_example :
    (bad : Bad) × Passes
      (validate_object (manifest_object build "plugin.so" "plugin" (nat 0) raws))
      bad
    × ((bad ≡ []) ↔ All (IsMovable build) raws)
manifest_object-Passes_example =
    manifest_object-Passes build "plugin.so" "plugin" (nat 0) raws refl refl refl refl
      (refl, (refl, tt))

classify-package_example : classify "/tmp/package" "/tmp/package-old/libpq.so" ≡ "package"
unfolding starts_with ends_with
classify-package_example = classify-package "/tmp/package" "-old/libpq.so" refl refl
