-- ===== src/Manifest/Fields.antt =====
-- An entry `name;field=value` is read back as it was written.
use libpglite.Prelude.{◌≡◌, refl, String, ◌<>◌, true, some, [], ◌∷◌}
use libpglite.Prelude.Text.{split, split_once}
use libpglite.Prelude.Text.Laws.{is_free, split_once-append, split-free, split-append}
use libpglite.Prelude.Dict.{insert}
use libpglite.Manifest.{parse_inventory_line, parse_semicolon_fields, name_and_fields, add_fields}

-- An entry with one field is read back: its kind, its name and the value of the field, where kind
-- and field hold no `=` and no part holds a `;`.
pub parse_inventory_line-entry :
    (kind name field value : String)
    → is_free b'=' kind ≡ true
    → is_free b';' name ≡ true
    → is_free b'=' field ≡ true
    → is_free b';' (field <> ("=" <> value)) ≡ true
    → parse_inventory_line (kind <> ("=" <> (name <> (";" <> (field <> ("=" <> value))))))
      ≡ some (kind, insert "name" name ((field, value) ∷ []))
unfolding parse_inventory_line parse_semicolon_fields name_and_fields add_fields insert
parse_inventory_line-entry kind name field value k n f fv =
    let entry = name <> (";" <> (field <> ("=" <> value))) in
    let first : split_once b'=' (kind <> ("=" <> entry)) ≡ some (kind, entry) =
      split_once-append b'=' kind _ entry k refl in
    let parts : split b';' entry ≡ name ∷ split b';' (field <> ("=" <> value)) =
      split-append b';' name _ (field <> ("=" <> value)) n refl in
    let last : split b';' (field <> ("=" <> value)) ≡ (field <> ("=" <> value)) ∷ [] =
      split-free b';' (field <> ("=" <> value)) fv in
    let pair : split_once b'=' (field <> ("=" <> value)) ≡ some (field, value) =
      split_once-append b'=' field _ value f refl in
    rw (first, parse_inventory_line)
      (rw (parts, parse_semicolon_fields, last, name_and_fields, pair, add_fields) refl)
