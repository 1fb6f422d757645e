-- ===== src/Materialize/Provenance.antt =====
-- The inventory generator reads the provenance file of a materialised source back.
use text.Mathlib.TextLemmas.{append_assoc}
use libpglite.Prelude.{◌≡◌, refl, sym, ◌∙◌, String, ◌<>◌, true, some, List, [], ◌∷◌, splitlines}
use libpglite.Prelude.Text.Laws.{
  is_free, split_once-append, is_line, is_line-append, splitlines-append,
}
use libpglite.Prelude.Dict.{Dict, insert, lookup}
use libpglite.Check.{pure, ◌>>=◌}
use libpglite.Inventory.{Source, makefile_lines, materialized_metadata}
use libpglite.Inventory.Git.{raw_values}
use libpglite.Materialize.{Extension, provenance_text}

-- The dictionary of the provenance file.
abbrev pub recorded : Extension → Dict String
recorded extension =
    ("format", "libpglite-native-other-extension-source-v1")
    ∷ ("name", extension.name)
    ∷ ("source", extension.source)
    ∷ ("url", extension.url)
    ∷ ("commit", extension.commit)
    ∷ []

-- The fields have no line end in them.
pub record HasLines (extension : Extension) : Type 0 where
  pub name : is_line extension.name ≡ true
  pub source : is_line extension.source ≡ true
  pub url : is_line extension.url ≡ true
  pub commit : is_line extension.commit ≡ true

abbrev lines_of : Extension → List String
lines_of extension =
    ("format" <> ("=" <> "libpglite-native-other-extension-source-v1"))
    ∷ ("name" <> ("=" <> extension.name))
    ∷ ("source" <> ("=" <> extension.source))
    ∷ ("url" <> ("=" <> extension.url))
    ∷ ("commit" <> ("=" <> extension.commit))
    ∷ []

splitlines-provenance_text :
    (extension : Extension)
    → HasLines extension
    → splitlines (provenance_text extension) ≡ lines_of extension
unfolding provenance_text splitlines
splitlines-provenance_text extension h = rw (
  splitlines-append "format=libpglite-native-other-extension-source-v1" _ refl,
  splitlines-append ("name=" <> extension.name) _
      (is_line-append "name=" extension.name refl h.name),
  splitlines-append ("source=" <> extension.source) _
      (is_line-append "source=" extension.source refl h.source),
  splitlines-append ("url=" <> extension.url) _ (is_line-append "url=" extension.url refl h.url),
  splitlines-append ("commit=" <> extension.commit) _
      (is_line-append "commit=" extension.commit refl h.commit),
  sym (append_assoc "name" "=" extension.name),
  sym (append_assoc "source" "=" extension.source),
  sym (append_assoc "url" "=" extension.url),
  sym (append_assoc "commit" "=" extension.commit),
)

raw_values-field :
    (key value : String) (lines : List String) (values : Dict String)
    → is_free b'=' key ≡ true
    → raw_values ((key <> ("=" <> value)) ∷ lines) values
      ≡ raw_values lines (insert key value values)
unfolding raw_values
raw_values-field key value lines values free =
    rw (split_once-append b'=' key "=" value free refl, raw_values) refl

raw_values-lines_of :
    (extension : Extension) → raw_values (lines_of extension) [] ≡ recorded extension
unfolding raw_values insert
raw_values-lines_of extension =
    let l4 : List String = ("commit" <> ("=" <> extension.commit)) ∷ [] in
    let l3 : List String = ("url" <> ("=" <> extension.url)) ∷ l4 in
    let l2 : List String = ("source" <> ("=" <> extension.source)) ∷ l3 in
    let l1 : List String = ("name" <> ("=" <> extension.name)) ∷ l2 in
    let d1 : Dict String = ("format", "libpglite-native-other-extension-source-v1") ∷ [] in
    let d2 = insert "name" extension.name d1 in
    let d3 = insert "source" extension.source d2 in
    let d4 = insert "url" extension.url d3 in
    raw_values-field "format" "libpglite-native-other-extension-source-v1" l1 [] refl
    ∙ raw_values-field "name" extension.name l2 d1 refl
    ∙ raw_values-field "source" extension.source l3 d2 refl
    ∙ raw_values-field "url" extension.url l4 d3 refl
    ∙ raw_values-field "commit" extension.commit [] d4 refl

makefile_lines-pure :
    (source : Source) (path content : String)
    → source.read_text path ≡ some content
    → makefile_lines source path ≡ pure (splitlines content)
unfolding makefile_lines
makefile_lines-pure source path content e = rw (e, makefile_lines) refl

-- The inventory generator reads the provenance file that is written for an extension back as its
-- format, name, source, URL and commit, where these have no line end in them.
pub materialized_metadata-provenance_text :
    (source : Source) (path : String) (extension : Extension)
    → source.is_file (path <> "/.libpglite-extension-source") ≡ true
    → source.read_text (path <> "/.libpglite-extension-source") ≡ some (provenance_text extension)
    → HasLines extension
    → materialized_metadata source path ≡ pure (recorded extension)
unfolding materialized_metadata ◌>>=◌ lookup
materialized_metadata-provenance_text source path extension present written h = rw (
  present,
  makefile_lines-pure source _ _ written,
  splitlines-provenance_text extension h,
  raw_values-lines_of extension,
)
