-- ===== src/Doctor/SelfTest.antt =====
-- `run_self_test`: the six test runs of the packaged plugin, each in its own environment.
pub mod Suites
use libpglite.Prelude.{
  ℕ, String, ◌<>◌, Bool, true, false, Option, none, some, List, [], ◌∷◌, ◌++◌, ◌==◌, not,
  if◌then◌else◌,
}
use libpglite.Prelude.Dict.{Dict, insert, remove}
use libpglite.Json.{Fields, get, as_object, as_nonempty_text}
use libpglite.Check.{Check, Message, lit, num, done, error, require, each, ◌>>◌}
use libpglite.Package.{Package}

-- `result.returncode`: a status, or the number of the signal that ended the process.
pub data ReturnCode : Type 0 where
  exited : ℕ → ReturnCode
  killed : ℕ → ReturnCode

abbrev pub is_success : ReturnCode → Bool
is_success (exited n) = n == 0
is_success (killed n) = false

abbrev pub code_text : ReturnCode → Message
code_text (exited n) = num n ∷ []
code_text (killed n) = lit "-" ∷ num n ∷ []

-- What the program asks of the machine: `shutil.which` of cargo and of tar, `os.environ`,
-- `subprocess.run` in the repository, and the text of a path inside the package.
pub record Host : Type 0 where
  pub has_cargo : Bool
  pub has_tar : Bool
  pub environ : Dict String
  pub run : List String → Dict String → ReturnCode
  pub root : String
  pub path_text : String → String

-- One test run: `env` is the copy of the environment with the changes.
pub record Suite : Type 0 where
  pub label : String
  pub features : String
  pub test : String
  pub env : Dict String

unfoldable pub command : Suite → List String
command suite =
    "cargo" ∷ "test" ∷ "--features" ∷ suite.features ∷ "--test" ∷ "dynamic_plugin" ∷ suite.test
    ∷ "--" ∷ "--nocapture" ∷ []

module _ (host : Host) (plugin_path postgres_root : String) where
  -- The environment of the runs that are told where the plugin and its prefix are.
  unfoldable pub explicit_env : Dict String → Dict String
  explicit_env env =
      insert "LIBPGLITE_TEST_POSTGRES_PREFIX" postgres_root
        (insert "LIBPGLITE_TEST_PLUGIN_PATH" plugin_path env)

  -- The environment of the runs that must find them from the package.
  unfoldable pub bundled_env : String → Dict String
  bundled_env child = remove "LIBPGLITE_HOME" (
      remove "LIBPGLITE_PLUGIN_PATH" (
        remove "LIBPGLITE_TEST_POSTGRES_PREFIX" (
          remove "LIBPGLITE_TEST_PLUGIN_PATH" (
            insert child "1" (
              insert "LIBPGLITE_TEST_PLUGIN_DIR" host.root
                (insert "RUST_TEST_THREADS" "1" host.environ))))))

  unfoldable pub suites : List Suite
  suites =
      record {
        label = "";
        features = "dynamic-loading";
        test =
            "dynamic_plugin_executes_queries_and_contrib_extensions_when_native_prefix_is_available";
        env = explicit_env (insert "RUST_TEST_THREADS" "1" host.environ);
      }
      ∷ record {
        label = "tokio-postgres ";
        features = "dynamic-loading,client-tokio-postgres";
        test = "dynamic_plugin_tokio_postgres_client_child";
        env = explicit_env (
            insert "LIBPGLITE_RUN_TOKIO_POSTGRES_CHILD" "1"
              (insert "RUST_TEST_THREADS" "1" host.environ));
      }
      ∷ record {
        label = "stdin-seal ";
        features = "dynamic-loading";
        test = "dynamic_plugin_native_startup_seals_inherited_stdin";
        env = explicit_env (insert "RUST_TEST_THREADS" "1" host.environ);
      }
      ∷ record {
        label = "bundled-prefix ";
        features = "dynamic-loading";
        test = "dynamic_plugin_uses_bundled_postgres_prefix_from_plugin_dir";
        env = bundled_env "LIBPGLITE_RUN_BUNDLED_PREFIX_CHILD";
      }
      ∷ record {
        label = "current-exe bundled-plugin ";
        features = "dynamic-loading";
        test = "dynamic_plugin_open_uses_current_exe_bundled_plugin_default";
        env = bundled_env "LIBPGLITE_RUN_CURRENT_EXE_BUNDLED_PLUGIN_CHILD";
      }
      ∷ record {
        label = "symlinked-host bundled-plugin ";
        features = "dynamic-loading";
        test = "dynamic_plugin_resolves_bundled_plugin_for_symlinked_host_binary_from_package";
        env = bundled_env "LIBPGLITE_RUN_SYMLINKED_HOST_BUNDLED_PLUGIN_CHILD";
      }
      ∷ []

-- One run; its failure is reported, and the next one starts.
unfoldable pub run_suite : Host → Suite → Check (Unit {0})
run_suite host suite =
    let code = host.run (command suite) suite.env in
    require (is_success code)
      (lit "package " ∷ lit suite.label ∷ lit "self-test failed with exit code " ∷ code_text code)

-- The directory and the runs, once the plugin is there.
unfoldable pub test_prefix : Host → Package → Fields → String → Check (Unit {0})
test_prefix host root bundle plugin_filename = elim (as_object (get bundle "postgresPrefix")) [
  | none ↦ error (lit "package self-test cannot read bundle postgresPrefix field" ∷ [])
  | some postgres_prefix ↦ elim (as_nonempty_text (get postgres_prefix "path")) [
    | none ↦ error (lit "package self-test cannot read bundle postgresPrefix.path" ∷ [])
    | some path ↦
        if root.is_dir path
        then each (suites host (host.path_text plugin_filename) (host.path_text path))
            (run_suite host)
        else error (lit "package self-test Postgres prefix is missing: " ∷ lit path ∷ [])
  ]
]

unfoldable pub run_self_test : Host → Package → Fields → Check (Unit {0})
run_self_test host root bundle =
    if host.has_cargo
    then elim (as_object (get bundle "plugin")) [
      | none ↦ error (lit "package self-test cannot read bundle plugin field" ∷ [])
      | some plugin ↦ elim (as_nonempty_text (get plugin "filename")) [
        | none ↦ error (lit "package self-test cannot read bundle plugin.filename" ∷ [])
        | some plugin_filename ↦
            if root.is_file plugin_filename
            then test_prefix host root bundle plugin_filename
            else error (lit "package self-test plugin is missing: " ∷ lit plugin_filename ∷ [])
      ]
    ]
    else error (lit "package self-test requires cargo in PATH" ∷ [])
