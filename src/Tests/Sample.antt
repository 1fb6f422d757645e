-- ===== src/Tests/Sample.antt =====
-- A small package that the doctor accepts: the files of its root, in a development build for Linux.
use libpglite.Prelude.{
  ℕ, ◌-◌, String, ◌<>◌, false, Option, none, some, List, [], ◌∷◌, ◌++◌, ◌&&◌, map, mem, join, leb,
  is_blank, if◌then◌else◌,
}
use libpglite.Prelude.Dict.{Dict, lookup}
use libpglite.Json.{Fields, end, field, Items, nil, cons, Value, boolean, nat, text, array, object}
use libpglite.Package.{Package}
use libpglite.Doctor.{abi_symbols}
use libpglite.Doctor.Conformance.{conformance_results, raw_protocol_cases}

abbrev pub fields : List (String × Value) → Fields
fields [] = end
fields ((k, v) ∷ rest) = field k v (fields rest)

abbrev pub items : List Value → Items
items [] = nil
items (v ∷ vs) = cons v (items vs)

abbrev pub record_of : List (String × Value) → Value
record_of entries = object (fields entries)

abbrev pub list_of : List Value → Value
list_of vs = array (items vs)

abbrev pub commit : String
commit = "0123456789abcdef0123456789abcdef01234567"

abbrev pub digest : String
digest = "0123456789abcdef0123456789abcdef0123456789abcdef0123456789abcdef"

abbrev pub target : String
target = "x86_64-unknown-linux-gnu"

abbrev pub diagnostics : Fields
diagnostics = fields (
    ("buildProvenance", text "d/provenance.txt")
    ∷ ("nativeLinkManifest", text "d/link.txt")
    ∷ ("extensionInventory", text "d/inventory.txt")
    ∷ ("dependencies", text "d/dependencies.txt")
    ∷ ("dependencyManifest", text "d/dependencies.json")
    ∷ ("pluginDefinedSymbols", text "d/symbols.txt")
    ∷ ("backendExportSymbols", text "d/exports.txt")
    ∷ ("platformBaseline", text "d/platform.json")
    ∷ ("sourceProvenance", text "d/sources.json")
    ∷ ("runtimeLifecycle", text "d/lifecycle.json")
    ∷ ("conformanceResults", text "d/conformance")
    ∷ [])

abbrev pub bundle : Fields
bundle = fields (
    ("target", text target)
    ∷ ("pluginAbiVersion", nat 1)
    ∷ ("libpgliteReleaseVersion", text "0.1.0")
    ∷ ("libpgliteGitCommit", text commit)
    ∷ ("releaseMode", text "development")
    ∷ ("runtimeStatus", text "native-runtime-development")
    ∷ ("plugin", record_of (("filename", text "plugin.so") ∷ ("sha256", text digest) ∷ []))
    ∷ (
      "postgresPrefix",
      record_of (
          ("path", text "postgres")
          ∷ ("bin", text "postgres/bin")
          ∷ ("share", text "postgres/share")
          ∷ ("lib", text "postgres/lib")
          ∷ ("initdb", text "postgres/bin/initdb")
          ∷ ("postgres", text "postgres/bin/postgres")
          ∷ []),
    )
    ∷ ("diagnostics", object diagnostics)
    ∷ [])

abbrev pub lines : List String → String
lines ss = join "\n" ss

abbrev texts : Dict String
texts =
    (
      "d/provenance.txt",
      lines (
          "format=libpglite-native-build-provenance-v1"
          ∷ ("target=" <> target)
          ∷ "release_version=0.1.0"
          ∷ "release_mode=development"
          ∷ "runtime_status=native-runtime-development"
          ∷ ("libpglite_git_commit=" <> commit)
          ∷ "plugin_filename=plugin.so"
          ∷ ("plugin_sha256=" <> digest)
          ∷ "native_manifest=link.txt"
          ∷ "extension_inventory=inventory.txt"
          ∷ "plugin_defined_symbols=symbols.txt"
          ∷ "backend_export_symbols=exports.txt"
          ∷ "dependencies=dependencies.txt"
          ∷ "dependency_manifest=dependencies.json"
          ∷ "platform_baseline=platform.json"
          ∷ "source_provenance=sources.json"
          ∷ "runtime_lifecycle=lifecycle.json"
          ∷ "conformance_results=conformance"
          ∷ "linux_baseline_id=ubuntu"
          ∷ "linux_baseline_version_id=24.04"
          ∷ "packaged_at_utc=2026-05-01T10:20:30Z"
          ∷ "uname=Linux"
          ∷ "rustc_begin"
          ∷ "rustc_end"
          ∷ "cc_begin"
          ∷ "cc_end"
          ∷ []),
    )
    ∷ (
      "d/link.txt",
      lines (
          "format=libpglite-native-link-manifest-v1"
          ∷ "backend_export_symbol=palloc"
          ∷ "source_repository=https://example.org/postgres"
          ∷ ("patch_fingerprint=" <> commit)
          ∷ "patch=patches/a.patch"
          ∷ ("patch_sha256=patches/a.patch;sha256=" <> digest)
          ∷ []),
    )
    ∷ (
      "d/inventory.txt",
      lines (
          "format=libpglite-native-extension-inventory-v1"
          ∷ "contrib_extension=hstore;source=contrib/hstore"
          ∷ "contrib_module=auth_delay;source=contrib/auth_delay" ∷ []),
    )
    ∷ (
      "d/dependencies.txt",
      lines ("format=libpglite-native-dependencies-v1" ∷ "tool=ldd" ∷ "binary=plugin.so" ∷ []),
    )
    ∷ ("d/symbols.txt", lines (abi_symbols ++ ("palloc" ∷ [])))
    ∷ ("d/exports.txt", "palloc")
    ∷ (
      "postgres/share/extension/hstore.control",
      "default_version = '1.1'\nmodule_pathname = '$libdir/hstore'\n",
    )
    ∷ ("postgres/share/extension/hstore--1.0.sql", "create function f() as 'MODULE_PATHNAME';")
    ∷ ("postgres/share/extension/hstore--1.0--1.1.sql", "select 1;")
    ∷ []

abbrev conformance_result : String → String → Value
conformance_result name command = record_of (
    ("format", text "libpglite-native-conformance-result-v1")
    ∷ ("name", text name)
    ∷ ("status", text "passed")
    ∷ ("exitCode", nat 0)
    ∷ ("startedAt", text "2026-05-01T09:00:00Z")
    ∷ ("endedAt", text "2026-05-01T09:00:05Z")
    ∷ ("command", text command)
    ∷ ("log", text (name <> ".log"))
    ∷ ("logSha256", text digest)
    ∷ ("cases", list_of (map text raw_protocol_cases))
    ∷ [])

abbrev results : List (String × List String) → Dict Value
results [] = []
results ((name, fragments) ∷ rest) =
    ("d/conformance/" <> (name <> ".json"), conformance_result name (join " " fragments))
    ∷ results rest

abbrev documents : Dict Value
documents =
    ("libpglite-native-bundle.json", object bundle)
    ∷ (
      "d/dependencies.json",
      record_of (
          ("format", text "libpglite-native-dependencies-v1")
          ∷ ("platform", text "Linux")
          ∷ ("tool", text "ldd")
          ∷ (
            "objects",
            list_of (
                record_of (
                  ("path", text "plugin.so")
                  ∷ ("kind", text "plugin")
                  ∷ ("toolExitCode", nat 0)
                  ∷ (
                    "dependencies",
                    list_of (
                        record_of (
                          ("raw", text "/lib/libc.so.6") ∷ ("classification", text "platform") ∷ [])
                        ∷ []),
                  )
                  ∷ [])
                ∷ []),
          )
          ∷ []),
    )
    ∷ (
      "d/platform.json",
      record_of (
          ("format", text "libpglite-native-platform-baseline-v1")
          ∷ ("system", text "Linux")
          ∷ ("machine", text "x86_64")
          ∷ ("target", text target)
          ∷ (
            "baseline",
            record_of (
                ("kind", text "linux-distro")
                ∷ ("id", text "ubuntu")
                ∷ ("versionId", text "24.04")
                ∷ []),
          )
          ∷ ("osRelease", record_of (("versionId", text "24.04") ∷ ("id", text "ubuntu") ∷ []))
          ∷ ("libcVersionLine", text "ldd 2.39")
          ∷ []),
    )
    ∷ (
      "d/sources.json",
      record_of (
          ("format", text "libpglite-native-source-provenance-v1")
          ∷ (
            "postgresPglite",
            record_of (
                ("repository", text "https://example.org/postgres")
                ∷ ("ref", text "main")
                ∷ ("commit", text commit)
                ∷ []),
          )
          ∷ ("patchFingerprint", text commit)
          ∷ (
            "patches",
            list_of
                (record_of (("path", text "patches/a.patch") ∷ ("sha256", text digest) ∷ []) ∷ []),
          )
          ∷ []),
    )
    ∷ (
      "d/lifecycle.json",
      record_of (
          ("format", text "libpglite-native-runtime-lifecycle-v1")
          ∷ ("contract", text "single-start-per-process")
          ∷ ("restartSupported", boolean false)
          ∷ ("concurrentRuntimeSupported", boolean false)
          ∷ ("secondStartupBehavior", text "fails-before-entering-postgres")
          ∷ ("provenByConformance", list_of (text "raw-protocol" ∷ []))
          ∷ []),
    )
    ∷ results conformance_results

abbrev names : {V : Type 0} → Dict V → List String
names [] = []
names ((k, v) ∷ d) = k ∷ names d

abbrev logs : List (String × List String) → List String
logs [] = []
logs ((name, fragments) ∷ rest) = ("d/conformance/" <> (name <> ".log")) ∷ logs rest

abbrev pub binaries : List String
binaries =
    "plugin.so" ∷ "postgres/bin/initdb" ∷ "postgres/bin/postgres" ∷ "postgres/bin/pg_config"
    ∷ "postgres/lib/pgxs/src/Makefile.global" ∷ "postgres/lib/pgxs/src/makefiles/pgxs.mk"
    ∷ "postgres/share/postgres.bki" ∷ "postgres/share/snowball_create.sql"
    ∷ "postgres/share/extension/plpgsql.control" ∷ "postgres/lib/hstore.so" ∷ []

abbrev pub files : List String
files = binaries ++ (names texts ++ (names documents ++ logs conformance_results))

abbrev pub prefix_texts : List String
prefix_texts =
    "postgres/share/extension/hstore.control" ∷ "postgres/share/extension/hstore--1.0.sql"
    ∷ "postgres/share/extension/hstore--1.0--1.1.sql" ∷ []

abbrev nm_line : List String → List String
nm_line [] = []
nm_line (symbol ∷ symbols) = ("0000000000001000 T " <> (symbol <> "@@LIBPGLITE")) ∷ nm_line symbols

abbrev pub ascii_digit : ℕ → Option ℕ
ascii_digit c = if leb b'0' c && leb c b'9' then some (c - b'0') else none

-- What `nm` shows of the plugin.
abbrev pub symbols : List String
symbols = abi_symbols ++ ("palloc" ∷ [])

abbrev pub sample : Package
sample = record {
  is_file = λ path. mem path files;
  is_dir = λ path.
      mem path
        ("postgres" ∷ "postgres/bin" ∷ "postgres/share" ∷ "postgres/lib" ∷ "d/conformance" ∷ []);
  read_text = λ path. lookup path texts;
  load_json = λ path. lookup path documents;
  hash = λ path. some digest;
  nm_defined = λ path. some (lines (nm_line symbols));
  nm_undefined = λ path. some "                 U palloc\n";
  sysname = "Linux";
  rglob = λ path. if is_blank path then files else prefix_texts;
  iterdir = λ path. "postgres/lib/hstore.so" ∷ [];
  glob = λ path pattern.
      "postgres/share/extension/hstore--1.0--1.1.sql" ∷ "postgres/share/extension/hstore--1.0.sql"
      ∷ [];
  is_sqlite = λ path. false;
  digit = ascii_digit;
}
