-- ===== src/Symbols.antt =====
-- The symbol tables that `nm` prints: `defined_symbols`, `undefined_symbols` and
-- `native_extension_modules` of scripts/doctor-native-plugin-package.py.
use libpglite.Prelude.{
  String, Bool, false, Option, none, some, List, [], ◌∷◌, ◌||◌, ◌&&◌, if◌then◌else◌, str_eq, keep,
  is_empty, is_blank, last_of, strip_prefix, remove_prefix, before, is_digits, splitlines, words,
  lower, suffix, mem,
}
use libpglite.Check.{Check, os_error, pure, raise, ◌>>=◌}
use libpglite.Package.{Package}

-- `re.fullmatch(r"LIBPGLITE_PLUGIN_NATIVE_[0-9]+", symbol)`
unfoldable pub is_version_node : String → Bool
unfolding strip_prefix is_digits
is_version_node symbol = elim (strip_prefix symbol "LIBPGLITE_PLUGIN_NATIVE_") [
  | none ↦ false
  | some digits ↦ is_digits digits
]

-- The symbol of a line that has words.
symbol_of : List String → String
symbol_of parts = before b'@' (remove_prefix (last_of parts) "_")

defined_in : List String → List String
defined_in [] = []
defined_in (line ∷ lines) =
    let rest = defined_in lines in
    let parts = words line in
    if is_empty parts
    then rest
    else if is_version_node (symbol_of parts)
    then rest
    else symbol_of parts ∷ rest

undefined_in : List String → List String
undefined_in [] = []
undefined_in (line ∷ lines) =
    let rest = undefined_in lines in
    let parts = words line in
    if is_empty parts
    then rest
    else if is_blank (symbol_of parts)
    then rest
    else symbol_of parts ∷ rest

-- A command that cannot be started raises.
unfoldable pub output_of : Option String → Check String
output_of none = raise os_error
output_of (some stdout) = pure stdout

unfoldable pub defined_symbols : Package → String → Check (List String)
unfolding output_of defined_in symbol_of is_version_node before remove_prefix splitlines words ◌>>=◌
defined_symbols root binary =
    if str_eq root.sysname "Darwin" || str_eq root.sysname "Linux"
    then (do stdout ← output_of (root.nm_defined binary); pure (defined_in (splitlines stdout)))
    else pure []

unfoldable pub undefined_symbols : Package → String → Check (List String)
unfolding output_of undefined_in symbol_of before remove_prefix splitlines words ◌>>=◌
undefined_symbols root binary = do
  stdout ← output_of (root.nm_undefined binary)
  pure (undefined_in (splitlines stdout))

-- `path.is_file() and path.suffix.lower() in {".dylib", ".so"}`
unfoldable pub native_extension_modules : Package → String → List String
unfolding suffix lower mem
native_extension_modules root lib_dir =
    keep (λ path. root.is_file path && mem (lower (suffix path)) (".dylib" ∷ ".so" ∷ []))
      (root.iterdir lib_dir)
