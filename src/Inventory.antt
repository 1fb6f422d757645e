-- ===== src/Inventory.antt =====
-- scripts/inventory-native-pglite-extensions.py: the inventory of the extensions of a source tree,
-- which the doctor reads. A file that cannot be read raises; git's output is empty where it fails.
pub mod Makefile
pub mod Git
pub mod Parsed
use Prim.Native.Char.{code}
use libpglite.Prelude.{
  ℕ, String, ◌<>◌, Bool, true, false, Option, none, some, List, [], ◌∷◌, ◌++◌, ◌||◌, ◌&&◌, ◌==◌,
  not, is_blank, is_space, is_hex, str_eq, starts_with, strip, strip_prefix, remove_prefix,
  splitlines, split_once, words, map, if◌then◌else◌,
}
use libpglite.Prelude.Text.{lstrip}
use libpglite.Prelude.Dict.{Dict, lookup, insert, sort_unique}
use libpglite.Json.{is_some_text}
use libpglite.Inventory.Makefile.{subdirs_in, assigned_in}
use libpglite.Inventory.Git.{statuses_in, gitlinks_in, sections_in, by_path, raw_values}
use libpglite.Check.{Check, os_error, pure, raise, ◌>>=◌}

-- The source tree, its files and git's answers about it; paths are those below its root.
pub record Source : Type 0 where
  pub is_file : String → Bool
  pub is_dir : String → Bool
  -- `any(path.iterdir())`
  pub has_entries : String → Bool
  -- `path.read_text()`; `none` where it raises
  pub read_text : String → Option String
  -- `git -C source …`: its standard output, and `none` where it fails
  pub git : List String → Option String

abbrev pub conditionals : List String
conditionals = "pgcrypto" ∷ "uuid-ossp" ∷ "xml2" ∷ []

unfoldable pub text_or_empty : Option String → String
text_or_empty none = ""
text_or_empty (some s) = s

-- The lines of one contrib directory, given the extensions of its makefile.
unfoldable pub contrib_lines : String → List String → List String
contrib_lines subdir [] = ("contrib_module=" <> (subdir <> (";source=contrib/" <> subdir))) ∷ []
contrib_lines subdir (extension ∷ extensions) =
    map (λ name. "contrib_extension=" <> (name <> (";source=contrib/" <> subdir)))
      (extension ∷ extensions)

-- `;key=value`, where there is a value
unfoldable pub optional_field : String → Option String → String
optional_field key none = ""
optional_field key (some value) = if is_blank value then "" else ";" <> (key <> ("=" <> value))

module _ (source : Source) where
  unfoldable pub makefile_lines : String → Check (List String)
  makefile_lines path = elim (source.read_text path) [
    | none ↦ raise os_error
    | some content ↦ pure (splitlines content)
  ]

  unfoldable pub parse_initial_subdirs : String → Check (List String)
  parse_initial_subdirs path = do lines ← makefile_lines path; pure (subdirs_in false lines)

  unfoldable pub parse_makefile_extensions : String → Check (List String)
  parse_makefile_extensions path =
      if source.is_file path
      then (do lines ← makefile_lines path; pure (assigned_in "EXTENSION" "=" lines))
      else pure []

  unfoldable pub parse_other_extensions : String → Check (List String)
  parse_other_extensions path = do
    extensions ← parse_initial_subdirs path
    lines ← makefile_lines path
    pure (sort_unique (extensions ++ assigned_in "EXTENSIONS" "+=" lines))

  unfoldable pub git_stdout : List String → String
  git_stdout args = text_or_empty (source.git args)

  unfoldable pub submodule_status : Dict (String × String)
  submodule_status =
      statuses_in (splitlines (git_stdout ("submodule" ∷ "status" ∷ "--recursive" ∷ []))) []

  unfoldable pub gitlink_commits : Dict String
  gitlink_commits =
      gitlinks_in
        (splitlines (git_stdout ("ls-tree" ∷ "-r" ∷ "HEAD" ∷ "pglite/other_extensions" ∷ []))) []

  unfoldable pub submodule_metadata : Check (Dict (Dict String))
  submodule_metadata =
      if source.is_file ".gitmodules"
      then (do lines ← makefile_lines ".gitmodules"; pure (by_path (sections_in none lines) []))
      else pure []

  unfoldable pub materialized_metadata : String → Check (Dict String)
  materialized_metadata path =
      let provenance = path <> "/.libpglite-extension-source" in
      if source.is_file provenance
      then (do
        lines ← makefile_lines provenance
        let values = raw_values lines []
        pure (
            if is_some_text (lookup "format" values) "libpglite-native-other-extension-source-v1"
            then values
            else []))
      else pure []

  unfoldable pub contrib_inventory : List String → Check (List String)
  contrib_inventory [] = pure []
  contrib_inventory (subdir ∷ subdirs) = do
    extensions ← parse_makefile_extensions ("contrib/" <> (subdir <> "/Makefile"))
    rest ← contrib_inventory subdirs
    pure (contrib_lines subdir extensions ++ rest)

  -- The line of one other extension, from its gitlink, its submodule and its materialised source.
  unfoldable pub other_line :
      String → String × String → Option String → Dict String → Dict String → String
  other_line extension (state, status_commit) gitlink submodule materialized =
      let rel = "pglite/other_extensions/" <> extension in
      let pinned : String = elim gitlink [ none ↦ status_commit | some commit ↦ commit ] in
      let commit =
        if is_blank pinned then text_or_empty (lookup "commit" materialized) else pinned in
      let present = source.is_dir rel && source.has_entries rel in
      let status = if present && not (str_eq state "-") then "present" else "missing" in
      let url =
        if is_blank (text_or_empty (lookup "url" submodule))
        then lookup "url" materialized
        else lookup "url" submodule in
      "other_extension="
      <> (extension
          <> (";source="
              <> (rel
                  <> (";submodule_state="
                      <> (state
                          <> (";submodule_commit="
                              <> (commit
                                  <> (";status="
                                      <> (status
                                          <> (optional_field "submodule_url" url
                                              <> optional_field "submodule_branch"
                                                  (lookup "branch" submodule)))))))))))

  unfoldable pub other_inventory :
      Dict (String × String) → Dict String → Dict (Dict String) → List String → Check (List String)
  other_inventory statuses gitlinks metadata [] = pure []
  other_inventory statuses gitlinks metadata (extension ∷ extensions) = do
    let rel = "pglite/other_extensions/" <> extension
    materialized ← materialized_metadata rel
    rest ← other_inventory statuses gitlinks metadata extensions
    pure (
        other_line extension
          (elim (lookup rel statuses) [ none ↦ ("?", "") | some status ↦ status ])
          (lookup rel gitlinks)
          (elim (lookup rel metadata) [ none ↦ [] | some submodule ↦ submodule ]) materialized
        ∷ rest)

  -- The lines that `main` writes.
  unfoldable pub inventory : Check (List String)
  inventory = do
    subdirs ← parse_initial_subdirs "contrib/Makefile"
    contrib ← contrib_inventory (sort_unique (subdirs ++ conditionals))
    metadata ← submodule_metadata
    extensions ← parse_other_extensions "pglite/other_extensions/Makefile"
    other ← other_inventory submodule_status gitlink_commits metadata extensions
    pure ("format=libpglite-native-extension-inventory-v1" ∷ (contrib ++ other))
