-- ===== src/Manifest.antt =====
-- The readers of line-based diagnostics in scripts/doctor-native-plugin-package.py: texts, lines,
-- `key=value` files, the native link manifest, and `name;field=value` entries.
pub mod Fields
use libpglite.Prelude.{
  ℕ, String, ◌<>◌, Option, none, some, List, [], ◌∷◌, map, length, take, leb, ◌-◌, if◌then◌else◌,
  is_blank, nonblank, join, strip, splitlines, split, split_once, starts_with, is_hex,
}
use libpglite.Prelude.Dict.{Dict, lookup, insert, set_default, has_key}
use libpglite.Check.{Check, Message, lit, num, done, pure, error, ◌>>=◌, ◌>>◌}
use libpglite.Package.{Package}

-- `raw_value.split(";")` and its `field=value` parts; a part with no `=` is skipped.
add_fields : List String → Dict String → Dict String
add_fields [] fields = fields
add_fields (part ∷ parts) fields = add_fields parts (elim (split_once b'=' part) [
  | none ↦ fields
  | some (field, value) ↦ insert field value fields
])

name_and_fields : List String → String × Dict String
unfolding add_fields
name_and_fields [] = ("", [])
name_and_fields (name ∷ parts) = (name, add_fields parts [])

unfoldable pub parse_semicolon_fields : String → String × Dict String
unfolding name_and_fields split split_once insert
parse_semicolon_fields raw_value = name_and_fields (split b';' raw_value)

-- `none` where the line has no `=`, and the unpacking would raise.
unfoldable pub parse_inventory_line : String → Option (String × Dict String)
unfolding parse_semicolon_fields
parse_inventory_line line = elim (split_once b'=' line) [
  | none ↦ none
  | some (key, raw_value) ↦
      let (name, fields) = parse_semicolon_fields raw_value in some (key, insert "name" name fields)
]

unfoldable pub format_symbol_delta : List String → ℕ → Message
format_symbol_delta symbols limit =
    if leb (length symbols) limit
    then lit (join ", " symbols) ∷ []
    else lit (join ", " (take limit symbols))
      ∷ lit ", ... ("
      ∷ num (length symbols - limit)
      ∷ lit " more)"
      ∷ []

key_values : List String → Dict String → Dict String
key_values [] values = values
key_values (line ∷ lines) values = key_values lines (elim (split_once b'=' line) [
  | none ↦ set_default line "" values
  | some (key, value) ↦ insert key value values
])

values_of : String → List String → List String
values_of key [] = []
values_of key (line ∷ lines) =
    let rest = values_of key lines in
    if starts_with line (key <> "=")
    then elim (split_once b'=' line) [ none ↦ rest | some (_, value) ↦ value ∷ rest ]
    else rest

unfoldable pub lines_of : String → List String
lines_of content = nonblank (map strip (splitlines content))

module _ (p : Package) where
  unfoldable pub read_text : String → Check String
  read_text path = elim (p.read_text path) [
    | none ↦ do error (lit "could not read " ∷ lit path ∷ []); pure ""
    | some content ↦ pure content
  ]

  unfoldable pub nonempty_lines : String → Check (List String)
  nonempty_lines path = do content ← read_text path; pure (lines_of content)

  unfoldable pub parse_key_value_file : String → Check (Dict String)
  unfolding key_values
  parse_key_value_file path = do lines ← nonempty_lines path; pure (key_values lines [])

  unfoldable pub manifest_values : String → String → Check (List String)
  unfolding values_of
  manifest_values path key = do lines ← nonempty_lines path; pure (values_of key lines)

  first_value : String → List String → Check (Option String)
  first_value key [] = pure none
  first_value key (v ∷ []) = pure (some v)
  first_value key (v ∷ w ∷ vs) = do
    error (lit "native link manifest repeats singleton key: " ∷ lit key ∷ [])
    pure (some v)

  unfoldable pub first_manifest_value : String → String → Check (Option String)
  unfolding first_value
  first_manifest_value path key = do values ← manifest_values path key; first_value key values

  -- The rounds of the loop over the `patch_sha256` values.
  patch_digest : Dict String → String → Check (Dict String)
  patch_digest digests value =
      let (rel, fields) = parse_semicolon_fields value in
      if is_blank rel
      then (do
        error (lit "native link manifest patch_sha256 entry is missing path" ∷ [])
        pure digests)
      else do
        (if has_key rel digests
            then error (lit "native link manifest repeats patch_sha256 path: " ∷ lit rel ∷ [])
            else done)
        elim (lookup "sha256" fields) [
          | none ↦ do
            error (lit "native link manifest patch_sha256 has invalid digest: " ∷ lit rel ∷ [])
            pure digests
          | some digest ↦ if is_hex 64 digest then pure (insert rel digest digests) else (do
            error (lit "native link manifest patch_sha256 has invalid digest: " ∷ lit rel ∷ [])
            pure digests)
        ]

  patch_digests : List String → Dict String → Check (Dict String)
  unfolding patch_digest
  patch_digests [] digests = pure digests
  patch_digests (value ∷ values) digests = do
    digests' ← patch_digest digests value
    patch_digests values digests'

  unfoldable pub manifest_patch_sha256s : String → Check (Dict String)
  unfolding patch_digests
  manifest_patch_sha256s path = do
    values ← manifest_values path "patch_sha256"
    patch_digests values []
