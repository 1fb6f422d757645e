-- ===== src/Tests/Listed.antt =====
-- A run of the inventory over a small source tree.
use libpglite.Manifest.{parse_inventory_line}
use libpglite.Inventory.Parsed.{entries, parse_inventory_line-contrib_lines}
use libpglite.Prelude.{map, ◌≡◌, refl, none, some, [], ◌∷◌, mem, true, if◌then◌else◌}
use libpglite.Prelude.Text
use libpglite.Prelude.Dict
use libpglite.Check
use libpglite.Check.{ok}
use libpglite.Inventory
use libpglite.Inventory.{Source, contrib_lines, inventory}
use libpglite.Inventory.Makefile
use libpglite.Inventory.Git

abbrev source : Source
source = record {
  is_file = λ path. mem path ("contrib/citext/Makefile" ∷ ".gitmodules" ∷ []);
  is_dir = λ path. mem path ("pglite/other_extensions/vector" ∷ []);
  has_entries = λ path. true;
  read_text = λ path. Dict.lookup path (
      (
        "contrib/Makefile",
        "SUBDIRS = \\\n\t\tcitext \\\n\t\tauth_delay\n\nifeq ($(x),y)\nSUBDIRS += z\n",
      )
      ∷ ("contrib/citext/Makefile", "MODULES = citext\nEXTENSION = citext\n")
      ∷ ("pglite/other_extensions/Makefile", "SUBDIRS = vector\n\nEXTENSIONS += postgis\n")
      ∷ (
        ".gitmodules",
        "[submodule \"v\"]\n\tpath = pglite/other_extensions/vector\n\turl = https://v.git\n",
      )
      ∷ []);
  git = λ args.
      if mem "ls-tree" args
      then some
          "160000 commit 35ab919bf5da677709b2ebb8be07480bb25e97cf\tpglite/other_extensions/vector\n"
      else none;
}

listed : inventory source ≡ record {
  outcome = ok (
      "format=libpglite-native-extension-inventory-v1"
      ∷ "contrib_module=auth_delay;source=contrib/auth_delay"
      ∷ "contrib_extension=citext;source=contrib/citext"
      ∷ "contrib_module=pgcrypto;source=contrib/pgcrypto"
      ∷ "contrib_module=uuid-ossp;source=contrib/uuid-ossp"
      ∷ "contrib_module=xml2;source=contrib/xml2"
      ∷ "other_extension=postgis;source=pglite/other_extensions/postgis;submodule_state=?;submodule_commit=;status=missing"
      ∷ "other_extension=vector;source=pglite/other_extensions/vector;submodule_state=?;submodule_commit=35ab919bf5da677709b2ebb8be07480bb25e97cf;status=present;submodule_url=https://v.git"
      ∷ []);
  errors = [];
  warnings = [];
}
unfolding Inventory.text_or_empty Inventory.contrib_lines Inventory.optional_field
    Inventory.makefile_lines Inventory.parse_initial_subdirs Inventory.parse_makefile_extensions
    Inventory.parse_other_extensions Inventory.git_stdout Inventory.submodule_status
    Inventory.gitlink_commits Inventory.submodule_metadata Inventory.materialized_metadata
    Inventory.contrib_inventory Inventory.other_line Inventory.other_inventory Inventory.inventory
    Makefile.rstrip_backslashes Makefile.subdirs_in Makefile.assigned Makefile.assigned_in
    Git.status_line Git.statuses_in Git.after_spaces Git.gitlink_line Git.gitlinks_in
    Git.strip_suffix Git.section_name Git.sections_in Git.by_path Git.raw_values Text.starts_with
    Text.strip_prefix Text.remove_prefix Text.lstrip Text.rstrip Text.strip Text.splitlines
    Text.split_once Text.words_from Text.words Text.is_hex Text.mem Dict.lookup Dict.insert
    Dict.insert_sorted Dict.sort_unique Check.◌>>=◌
listed = refl

parse_inventory_line-contrib_lines_example :
    map parse_inventory_line (contrib_lines "spi" ("autoinc" ∷ "refint" ∷ []))
    ≡ entries "spi" ("autoinc" ∷ "refint" ∷ [])
parse_inventory_line-contrib_lines_example =
    parse_inventory_line-contrib_lines "spi" ("autoinc" ∷ "refint" ∷ []) refl (refl, (refl, tt))
