-- ===== src/Doctor/SelfTest/Suites.antt =====
-- What a passing self-test says, and what its test runs see of the environment.
use libpglite.Prelude.{◌≡◌, refl, String, true, false, none, some, All, str_eq}
use libpglite.Prelude.Dict.{Dict, lookup, lookup-insert, lookup-remove}
use libpglite.Json.{Fields, object, text, get, as_object, as_nonempty_text}
use libpglite.Json.Laws.{as_object-eq-some, as_nonempty_text-eq-some}
use libpglite.Check.Laws.{Passes, Passes-each-require, Passes-some, Passes-then, Passes-error}
use libpglite.Package.{Package}
use libpglite.Doctor.SelfTest.{
  Host, is_success, command, suites, explicit_env, bundled_env, run_suite, test_prefix,
  run_self_test,
}

-- Every test run ends with status 0, on the plugin and the prefix that the bundle names.
pub record IsTested (host : Host) (root : Package) (bundle : Fields) : Type 0 where
  pub plugin : Fields
  pub postgres_prefix : Fields
  pub filename : String
  pub path : String
  pub cargo : host.has_cargo ≡ true
  pub bundled : get bundle "plugin" ≡ object plugin
  pub named : get plugin "filename" ≡ text filename
  pub there : root.is_file filename ≡ true
  pub prefixed : get bundle "postgresPrefix" ≡ object postgres_prefix
  pub located : get postgres_prefix "path" ≡ text path
  pub unpacked : root.is_dir path ≡ true
  pub succeed :
      All
        (λ suite. is_success (host.run (command suite) suite.env) ≡ true)
        (suites host (host.path_text filename) (host.path_text path))

-- A self-test that passes has found cargo, the plugin file and the prefix directory that the bundle
-- names, and each of the six test runs has ended with status 0.
pub run_self_test-IsTested :
    (host : Host) (root : Package) (bundle : Fields)
    → Passes (run_self_test host root bundle) tt
    → IsTested host root bundle
unfolding run_self_test test_prefix run_suite
run_self_test-IsTested host root bundle p =
    let (cargo, p1) = Passes-then host.has_cargo _ _ Passes-error p in
    let (plugin, is_object, p2) =
      Passes-some (as_object (get bundle "plugin")) _ _ Passes-error p1 in
    let (filename, is_name, p3) =
      Passes-some (as_nonempty_text (get plugin "filename")) _ _ Passes-error p2 in
    let (there, p4) = Passes-then (root.is_file filename) _ _ Passes-error p3 in
    let (postgres_prefix, is_prefix, p5) =
      Passes-some (as_object (get bundle "postgresPrefix")) _ _ Passes-error p4 in
    let (path, is_path, p6) =
      Passes-some (as_nonempty_text (get postgres_prefix "path")) _ _ Passes-error p5 in
    let (unpacked, p7) = Passes-then (root.is_dir path) _ _ Passes-error p6 in
    record {
      plugin = plugin;
      postgres_prefix = postgres_prefix;
      filename = filename;
      path = path;
      cargo = cargo;
      bundled = as_object-eq-some _ is_object;
      named = (as_nonempty_text-eq-some _ is_name).0;
      there = there;
      prefixed = as_object-eq-some _ is_prefix;
      located = (as_nonempty_text-eq-some _ is_path).0;
      unpacked = unpacked;
      succeed =
          (Passes-each-require (λ suite. is_success (host.run (command suite) suite.env)) _
              (suites host (host.path_text filename) (host.path_text path))).0
            p7;
    }

-- A run that is told where the plugin and the prefix are, and one that can find them only from the
-- package.
pub data Sees (root plugin_path postgres_root : String) (env : Dict String) : Type 0 where
  told :
      lookup "LIBPGLITE_TEST_PLUGIN_PATH" env ≡ some plugin_path
      → lookup "LIBPGLITE_TEST_POSTGRES_PREFIX" env ≡ some postgres_root
      → Sees root plugin_path postgres_root env
  finds :
      lookup "LIBPGLITE_TEST_PLUGIN_DIR" env ≡ some root
      → lookup "LIBPGLITE_TEST_PLUGIN_PATH" env ≡ none
      → lookup "LIBPGLITE_TEST_POSTGRES_PREFIX" env ≡ none
      → lookup "LIBPGLITE_PLUGIN_PATH" env ≡ none
      → lookup "LIBPGLITE_HOME" env ≡ none
      → Sees root plugin_path postgres_root env

ruleset environment = (lookup-insert, lookup-remove)

module _ (host : Host) (plugin_path postgres_root : String) where
  explicit-Sees :
      (env : Dict String)
      → Sees host.root plugin_path postgres_root (explicit_env host plugin_path postgres_root env)
  unfolding explicit_env
  explicit-Sees env = told (simp environment) (simp environment)

  bundled-Sees :
      (child : String)
      → str_eq child "LIBPGLITE_TEST_PLUGIN_DIR" ≡ false
      → Sees host.root plugin_path postgres_root (bundled_env host plugin_path postgres_root child)
  unfolding bundled_env
  bundled-Sees child other =
      finds (simp (environment, other)) (simp environment) (simp environment) (simp environment)
        (simp environment)

  -- Whatever the environment of the doctor holds, every test run sees either the plugin path and
  -- the prefix it is told, or the package's directory and none of the variables that name a plugin,
  -- a prefix or a home elsewhere.
  pub suites-Sees :
      All
        (λ suite. Sees host.root plugin_path postgres_root suite.env)
        (suites host plugin_path postgres_root)
  unfolding suites
  suites-Sees = (
    explicit-Sees _,
    (
      explicit-Sees _,
      (explicit-Sees _, (bundled-Sees _ refl, (bundled-Sees _ refl, (bundled-Sees _ refl, tt)))),
    ),
  )
