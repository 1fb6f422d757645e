-- ===== src/Inventory/Parsed.antt =====
-- The doctor reads the contrib lines of the inventory back as they were written.
use text.Mathlib.TextLemmas.{append_assoc}
use libpglite.Prelude.{
  ◌≡◌, refl, ap, ◌∙◌, String, ◌<>◌, true, Option, some, List, [], ◌∷◌, All, map,
}
use libpglite.Prelude.Text.Laws.{is_free, is_free-append}
use libpglite.Prelude.Dict.{Dict, insert}
use libpglite.Manifest.{parse_inventory_line}
use libpglite.Manifest.Fields.{parse_inventory_line-entry}
use libpglite.Inventory.{contrib_lines}

-- An entry of the kind, with the name and the directory under contrib.
abbrev pub entry : String → String → String → Option (String × Dict String)
entry kind name subdir = some (kind, insert "name" name (("source", "contrib/" <> subdir) ∷ []))

-- The entries of one contrib directory: its extensions, or the module where it has none.
abbrev pub entries : String → List String → List (Option (String × Dict String))
entries subdir [] = entry "contrib_module" subdir subdir ∷ []
entries subdir (extension ∷ extensions) =
    map (λ name. entry "contrib_extension" name subdir) (extension ∷ extensions)

spread :
    (name subdir : String)
    → name <> (";source=contrib/" <> subdir)
      ≡ name <> (";" <> ("source" <> ("=" <> ("contrib/" <> subdir))))
spread name subdir =
    ap (λ u. name <> u)
      (append_assoc ";" "source=contrib/" subdir
        ∙ ap (λ u. ";" <> u)
            (append_assoc "source" "=contrib/" subdir
              ∙ ap (λ u. "source" <> u) (append_assoc "=" "contrib/" subdir)))

line-entry :
    (kind name subdir : String)
    → is_free b'=' kind ≡ true
    → is_free b';' name ≡ true
    → is_free b';' subdir ≡ true
    → parse_inventory_line (kind <> ("=" <> (name <> (";source=contrib/" <> subdir))))
      ≡ entry kind name subdir
line-entry kind name subdir k n s =
    ap (λ u. parse_inventory_line (kind <> ("=" <> u))) (spread name subdir)
    ∙ parse_inventory_line-entry kind name "source" ("contrib/" <> subdir) k n refl (
        is_free-append b';' "source" ("=" <> ("contrib/" <> subdir)) refl (
          is_free-append b';' "=" ("contrib/" <> subdir) refl
            (is_free-append b';' "contrib/" subdir refl s)))

extension-entry :
    (name subdir : String)
    → is_free b';' name ≡ true
    → is_free b';' subdir ≡ true
    → parse_inventory_line ("contrib_extension=" <> (name <> (";source=contrib/" <> subdir)))
      ≡ entry "contrib_extension" name subdir
extension-entry name subdir n s =
    ap parse_inventory_line
      (append_assoc "contrib_extension" "=" (name <> (";source=contrib/" <> subdir)))
    ∙ line-entry "contrib_extension" name subdir refl n s

extensions-entries :
    (names : List String) (subdir : String)
    → All (λ name. is_free b';' name ≡ true) names
    → is_free b';' subdir ≡ true
    → map parse_inventory_line
        (map (λ name. "contrib_extension=" <> (name <> (";source=contrib/" <> subdir))) names)
      ≡ map (λ name. entry "contrib_extension" name subdir) names
extensions-entries [] subdir h s = refl
extensions-entries (name ∷ names) subdir h s =
    rw (extension-entry name subdir h.0 s, extensions-entries names subdir h.1 s) refl

-- The lines that the inventory writes for a contrib directory, the doctor's parser reads back as
-- the entries they stand for, where no name holds a `;`: one for each extension with its name and
-- its directory, or one for the module where there is no extension.
pub parse_inventory_line-contrib_lines :
    (subdir : String) (extensions : List String)
    → is_free b';' subdir ≡ true
    → All (λ name. is_free b';' name ≡ true) extensions
    → map parse_inventory_line (contrib_lines subdir extensions) ≡ entries subdir extensions
unfolding contrib_lines
parse_inventory_line-contrib_lines subdir [] s h =
    ap (λ parsed. parsed ∷ [])
      (ap parse_inventory_line
          (append_assoc "contrib_module" "=" (subdir <> (";source=contrib/" <> subdir)))
        ∙ line-entry "contrib_module" subdir subdir refl s s)
parse_inventory_line-contrib_lines subdir (name ∷ names) s h =
    extensions-entries (name ∷ names) subdir h s
