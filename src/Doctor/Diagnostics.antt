-- ===== src/Doctor/Diagnostics.antt =====
-- `validate_diagnostics`, with the cross-checks of the symbol tables.
pub mod Agrees
use libpglite.Prelude.{
  String, ◌<>◌, not, Option, none, some, List, [], ◌∷◌, ◌++◌, ◌&&◌, is_empty, keep, take, join, mem,
  splitlines, ends_with, if◌then◌else◌,
}
use libpglite.Prelude.Dict.{missing_from, sort_unique}
use libpglite.Json.{get, as_object, as_text}
use libpglite.Check.{Check, lit, pure, done, error, require, each, ◌>>=◌, ◌>>◌}
use libpglite.Package.{Package}
use libpglite.Manifest.{read_text, nonempty_lines, manifest_values, format_symbol_delta}
use libpglite.Symbols.{is_version_node, undefined_symbols, native_extension_modules}
use libpglite.Doctor.{Doctor, abi_symbols, diagnostic_path, with_diagnostic}

abbrev pub format_headers : List (String × String)
format_headers =
    ("buildProvenance", "format=libpglite-native-build-provenance-v1")
    ∷ ("nativeLinkManifest", "format=libpglite-native-link-manifest-v1")
    ∷ ("extensionInventory", "format=libpglite-native-extension-inventory-v1")
    ∷ ("dependencies", "format=libpglite-native-dependencies-v1")
    ∷ []

-- `sorted(a - b)` must be empty; the message ends in the delta.
unfoldable pub require_within : List String → List String → String → Check (Unit {0})
require_within a b message =
    require (is_empty (missing_from a b)) (lit message ∷ format_symbol_delta (missing_from a b) 20)

-- The claims of one extension module that are missing, in order.
unfoldable pub claims_of : List String → List String → String → List String → List String
claims_of actual_symbols backend_symbols rel [] = []
claims_of actual_symbols backend_symbols rel (symbol ∷ symbols) =
    let rest = claims_of actual_symbols backend_symbols rel symbols in
    if mem symbol abi_symbols
    then rest
    else if mem symbol actual_symbols && not (mem symbol backend_symbols)
    then (rel <> (": " <> symbol)) ∷ rest
    else rest

unfoldable pub missing_claims :
    Package → List String → List String → List String → Check (List String)
missing_claims root actual_symbols backend_symbols [] = pure []
missing_claims root actual_symbols backend_symbols (module_path ∷ modules) = do
  undefined ← undefined_symbols root module_path
  rest ← missing_claims root actual_symbols backend_symbols modules
  pure (claims_of actual_symbols backend_symbols module_path (sort_unique undefined) ++ rest)

module _ (d : Doctor) where
  unfoldable pub validate_format_header : String × String → Check (Unit {0})
  validate_format_header (key, header) = with_diagnostic d key λ path. do
    content ← read_text d.root path
    require (mem header (take 3 (splitlines content)))
        (lit "diagnostic " ∷ lit key ∷ lit " has wrong or missing format header" ∷ [])

  unfoldable pub validate_not_empty : String → Check (Unit {0})
  validate_not_empty key = with_diagnostic d key λ path. do
    lines ← nonempty_lines d.root path
    require (not (is_empty lines)) (lit "diagnostic " ∷ lit key ∷ lit " is empty" ∷ [])

  -- The two comparisons with `actual_plugin_symbols`, if they are known.
  unfoldable pub validate_freshness : List String → Option (List String) → Check (Unit {0})
  validate_freshness symbols none = done
  validate_freshness symbols (some actual_symbols) = do
    require_within actual_symbols symbols
        "pluginDefinedSymbols is stale; missing actual plugin symbols: "
    require_within symbols actual_symbols
        "pluginDefinedSymbols is stale; lists symbols absent from plugin: "

  unfoldable pub validate_plugin_symbols : Check (Unit {0})
  validate_plugin_symbols = with_diagnostic d "pluginDefinedSymbols" λ path. do
    symbols ← nonempty_lines d.root path
    require (is_empty (missing_from abi_symbols symbols)) (
        lit "pluginDefinedSymbols is missing ABI symbols: "
        ∷ lit (join ", " (missing_from abi_symbols symbols))
        ∷ [])
    validate_freshness symbols d.actual_plugin_symbols

  unfoldable pub validate_extension_backend_symbol_claims : List String → Check (Unit {0})
  validate_extension_backend_symbol_claims backend_symbols = elim d.actual_plugin_symbols [
    | none ↦ done
    | some actual_symbols ↦
        if d.root.is_dir "postgres/lib"
        then (do
          missing ←
              missing_claims d.root actual_symbols backend_symbols
                (native_extension_modules d.root "postgres/lib")
          require (is_empty missing) (
              lit
                "extension modules reference plugin-exported backend symbols missing from backendExportSymbols: "
              ∷ lit (join "; " (take 10 missing))
              ∷ []))
        else done
  ]

  unfoldable pub validate_linux_plugin_symbol_boundary : List String → Check (Unit {0})
  validate_linux_plugin_symbol_boundary backend_symbols = elim (as_text (get d.bundle "target")) [
    | none ↦ done
    | some target ↦
        if ends_with target "linux-gnu"
        then with_diagnostic d "pluginDefinedSymbols" (λ path. do
          lines ← nonempty_lines d.root path
          require_within (keep (λ symbol. not (is_version_node symbol)) lines)
              (abi_symbols ++ backend_symbols)
              "Linux pluginDefinedSymbols contains symbols outside the host ABI and generated backend export set: ")
        else done
  ]

  unfoldable pub validate_exports : List String → Option (List String) → Check (Unit {0})
  validate_exports backend_symbols none = done
  validate_exports backend_symbols (some actual_symbols) = do
    require_within backend_symbols actual_symbols
        "backendExportSymbols lists symbols not exported by plugin: "
    validate_extension_backend_symbol_claims backend_symbols

  unfoldable pub validate_link_manifest : List String → Option String → Check (Unit {0})
  validate_link_manifest backend_symbols none = done
  validate_link_manifest backend_symbols (some native_manifest_path) = do
    manifest_symbols ← manifest_values d.root native_manifest_path "backend_export_symbol"
    require_within manifest_symbols backend_symbols
        "backendExportSymbols is missing native link manifest symbols: "
    require_within backend_symbols manifest_symbols
        "backendExportSymbols lists symbols absent from native link manifest: "

  unfoldable pub validate_backend_symbols : Check (Unit {0})
  validate_backend_symbols = do
    backend_symbols_path ← diagnostic_path d "backendExportSymbols"
    native_manifest_path ← diagnostic_path d "nativeLinkManifest"
    elim backend_symbols_path [
      | none ↦ done
      | some path ↦ do
        backend_symbols ← nonempty_lines d.root path
        validate_exports backend_symbols d.actual_plugin_symbols
        validate_link_manifest backend_symbols native_manifest_path
        validate_linux_plugin_symbol_boundary backend_symbols
    ]

  unfoldable pub validate_diagnostics : Check (Unit {0})
  validate_diagnostics = elim (as_object (get d.bundle "diagnostics")) [
    | none ↦ error (lit "bundle diagnostics field must be an object" ∷ [])
    | some diagnostics ↦ do
      each format_headers validate_format_header
      each ("pluginDefinedSymbols" ∷ "backendExportSymbols" ∷ []) validate_not_empty
      validate_plugin_symbols
      validate_backend_symbols
  ]
