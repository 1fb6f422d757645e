-- ===== src/Lib.antt =====
-- A model of the native plugin doctor (scripts/doctor-native-plugin-package.py), which decides
-- whether a packaged native plugin may be released, with what its acceptance means, and of the
-- generators of the dependency manifest and the extension inventory that it reads
-- (scripts/generate-native-dependency-manifest.py, scripts/inventory-native-pglite-extensions.py).
-- Beside them stand the scripts that fetch the locked sources, describe the dependency prefix and
-- materialise the sources of the extensions, as actions on a world, and the audit of the records.
--
-- The doctor is a class with the attributes `root`, `strict_relocatable`, `bundle`,
-- `actual_plugin_symbols`, `errors` and `warnings`. `run` reads the bundle description, calls the
-- validators one after the other, and `finish` turns what they appended into an exit status. Here
-- a validator is a value of `Check`: its outcome (a result, or the exception that ends the run),
-- and the errors and warnings it appends, in order. A message keeps its parts, with the values it
-- formats.
--
-- Files and code (all of scripts/doctor-native-plugin-package.py unless another is named):
-- Package: what the program asks of the file system and of the tools (files, texts, JSON documents,
--   hashes, nm, the platform); it is an argument of the model, a function for each question.
-- Json: the values of `json.load`, with Python's tests and comparisons on them.
-- Check: appending to `self.errors` and `self.warnings`, exceptions, `for` loops.
-- Manifest: `read_text`, `nonempty_lines`, `parse_key_value_file`, `manifest_values`,
--   `manifest_patch_sha256s`, `parse_inventory_line`, `parse_semicolon_fields`.
-- Symbols: `defined_symbols`, `undefined_symbols`, `native_extension_modules`.
-- Timestamp: `parse_utc_timestamp`.
-- Extension: `extension_can_install_version`.
-- Doctor: the class, `diagnostic_path` and `diagnostic_path_if_present`; its child modules hold
--   the validators: Bundle, Plugin, Prefix, Diagnostics, Provenance, Baseline, Sources, Lifecycle,
--   Conformance, Extensions, Dependencies; Run has `run` and `finish`, SelfTest `run_self_test`,
--   and Main `main`, `maybe_extract` and, as `process`, the guard on tar before `main`.
-- Generator: scripts/generate-native-dependency-manifest.py, with `main` as `generate`; Records
--   relates what it writes to the doctor's checks, Roots says which paths count as the package's.
-- Inventory: scripts/inventory-native-pglite-extensions.py, with `main` as `inventory`; Makefile
--   and Git read the makefiles, git's output and the provenance files.
-- Script: an action on a world, which returns, ends by `SystemExit` or ends in another exception;
--   System: what the scripts below ask of the machine (files, downloads, processes), an argument.
-- Fetch: scripts/fetch-native-dependency-sources.py; Inventory has `read_inventory`, Archive
--   `fetch_archive_dependency` as `fetch_archive`, Git `fetch_git_dependency` as `fetch_git`.
-- Materialize: scripts/materialize-native-pglite-other-extensions.py; Provenance relates the file
--   that it leaves in a source to the inventory generator, which reads it; Complete is about a
--   whole run, and Refused about dry runs.
-- Describe: scripts/describe-native-dependency-prefix.py; Inventory has `read_inventory`, Manifest
--   what is found in the prefix, Complete relates the manifest to the doctor's check of it.
-- Audit: scripts/audit-adr-closure.py; Document has the patterns that it looks for in the records.
-- Tests: a package that the doctor accepts, runs over it, and the theorems at it.
-- Prelude: lists, texts and dictionaries as Python has them; Laws modules hold lemmas.
--
-- Bounds and fuel: the only loop that is not a recursion on its data is the `while` loop of
-- `extension_can_install_version`. It runs on fuel, one more than the number of base versions and
-- of upgrade scripts; a version is pending at most once, so this is enough. The loop of the
-- fetcher over the sources and that of the materialiser over its three fetches are recursions on
-- their lists.
--
-- Not modelled: argument parsing, what is printed, the environment that the describer gives to
-- pkg-config, the shell scripts, and the Rust crates. What tar, git, cargo and the test runs do is
-- a parameter. A path inside the package is the text that names it from the root; a set is a list
-- whose order no result depends on, and where the code sorts, the model sorts. Where an
-- exception's own text goes into a message, the message of the model is without it. A text is
-- compared with a digest as it is: SHA-256 is a function of the machine.
pub mod Audit
pub mod Check
pub mod Describe
pub mod Doctor
pub mod Extension
pub mod Fetch
pub mod Generator
pub mod Inventory
pub mod Json
pub mod Manifest
pub mod Materialize
pub mod Package
pub mod Prelude
pub mod Script
pub mod Symbols
pub mod System
pub mod Tests
pub mod Timestamp
