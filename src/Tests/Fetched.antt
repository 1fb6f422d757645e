-- ===== src/Tests/Fetched.antt =====
-- The fetcher over a lock file of an archive with a mirror and of a pinned checkout.
use libpglite.Prelude.{◌≡◌, sym, subst, String, none, file_name, refl, true, false, [], ◌∷◌}
use libpglite.Prelude.{strip}
use libpglite.Prelude.Text
use libpglite.Prelude.Text.{relative_to}
use libpglite.Prelude.Dict.{lookup, insert}
use libpglite.Json.{Fields, end, field, Value, text, array, object, nil, cons, get, has}
use libpglite.Script.{each, ◌>>=◌}
use libpglite.Script.Laws.{Returns, Keeps}
use libpglite.System.{System}
use libpglite.Fetch
use libpglite.Fetch.{fetch_dependency, main}
use libpglite.Fetch.Inventory
use libpglite.Fetch.Inventory.{read_inventory}
use libpglite.Fetch.Archive
use libpglite.Fetch.Archive.{archive_entry, fetch_archive}
use libpglite.Fetch.Archive.Downloaded.{IsApart}
use libpglite.Fetch.Archive.Verified.{IsVerified, fetch_archive-IsVerified}
use libpglite.Fetch.Archive.Found.{served, unreachable, absent, fetch_archive-Returns}
use libpglite.Fetch.Git
use libpglite.Fetch.Git.{git_entry, fetch_git}
use libpglite.Fetch.Git.Pinned.{IsPinned, fetch_git-IsPinned}
use libpglite.Fetch.Status.{fetch_dependency-Keeps, IsSeparate, IsComplete, main-IsComplete}
use libpglite.Tests.Machine.{World, machine, machine-KeepsContent}

-- Its first source cannot be reached, and its mirror serves the content.
abbrev zlib : Fields
zlib = field "name" (text "zlib") (
    field "source" (text "https://a") (
      field "archive" (text "z.tgz")
        (field "sha256" (text "sum") (field "mirrors" (array (cons (text "https://b") nil)) end))))

abbrev icu : Fields
icu = field "name" (text "icu") (
    field "source" (text "https://icu.git")
      (field "gitRef" (text "main") (field "gitCommit" (text "c0ffee") end)))

abbrev lock_file : Value
lock_file = object (
    field "format" (text "libpglite-native-dependency-inventory-v1")
      (field "dependencies" (array (cons (object zlib) (cons (object icu) nil))) end))

abbrev sys : System World
sys = machine lock_file "c0ffee"

abbrev online : World
online = ("lock.json", "lock") ∷ ("https://b", "sum") ∷ []

abbrev with_archive : World
with_archive =
    ("lock.json", "lock")
    ∷ ("https://b", "sum")
    ∷ ("out/tmp/z.tgz", "sum")
    ∷ ("out/z.tgz", "sum")
    ∷ []

abbrev with_checkout : World
with_checkout = ("lock.json", "lock") ∷ ("https://b", "sum") ∷ (".", "directory") ∷ []

abbrev with_all : World
with_all =
    ("lock.json", "lock")
    ∷ ("https://b", "sum")
    ∷ ("out", "directory")
    ∷ ("out/tmp/z.tgz", "sum")
    ∷ ("out/z.tgz", "sum")
    ∷ (".", "directory")
    ∷ ("out/sources.json", "json")
    ∷ []

-- A temporary directory is `out/tmp`.
apart : IsApart sys "out" "z.tgz"
unfolding relative_to file_name Text.strip_prefix
apart = record { plain = refl; outside = λ tempdir w w' made. outside_of tempdir (cc made) }
  where
    outside_of : (tempdir : String) → "out/tmp" ≡ tempdir → relative_to "out/z.tgz" tempdir ≡ none
    outside_of tempdir same = rw (sym same) refl

archive_run :
    Returns
      (fetch_archive sys zlib "out" false)
      online
      (archive_entry (text "zlib") "out/z.tgz" "sum")
      with_archive
unfolding Archive.fetch_archive Archive.mirrors_of Archive.unpacked Archive.is_cached
    Archive.download_archive Archive.with_tempdir Archive.leave Archive.fetch_urls Archive.fetch_url
    Archive.after_download Archive.keep_verified ◌>>=◌ lookup insert get has
archive_run = refl

fetch_archive-IsVerified_example :
    IsVerified sys "out" zlib (archive_entry (text "zlib") "out/z.tgz" "sum") with_archive
unfolding get lookup
fetch_archive-IsVerified_example =
    fetch_archive-IsVerified sys "out" (machine-KeepsContent lock_file "c0ffee") zlib false "z.tgz"
      (archive_entry (text "zlib") "out/z.tgz" "sum") online with_archive refl apart refl
      archive_run

fetch_archive-Returns_example :
    (w' : World) × Returns
      (fetch_archive sys zlib "out" false)
      online
      (archive_entry (get zlib "name") "out/z.tgz" "sum")
      w'
unfolding Archive.mirrors_of Archive.unpacked lookup insert get has
fetch_archive-Returns_example =
    fetch_archive-Returns sys "out" zlib "z.tgz" "sum" "out/tmp" (text "https://b" ∷ []) online
      online refl refl refl (absent refl) refl
      (unreachable "https://a" "not found" (text "https://b" ∷ []) online online refl (
        served "https://b" [] online
          (("lock.json", "lock") ∷ ("https://b", "sum") ∷ ("out/tmp/z.tgz", "sum") ∷ [])
          with_archive refl refl refl))
      (λ w. (w, refl))

fetch_dependency-Keeps_example : Keeps (fetch_dependency sys "out" true zlib)
unfolding Git.git Git.git_result
fetch_dependency-Keeps_example =
    fetch_dependency-Keeps sys "out" zlib (λ checkout. record { at = λ w. refl })

git_run : Returns (fetch_git sys icu "out" false) online (git_entry icu "out/git/icu") with_checkout
unfolding Git.fetch_git Git.checked_out Git.reuse_checkout Git.refetch Git.fetch_checkout
    Git.make_checkout Git.git Git.git_result ◌>>=◌ lookup insert get Text.strip Text.lstrip
    Text.rstrip
git_run = refl

fetch_git-IsPinned_example : IsPinned sys icu "out" (git_entry icu "out/git/icu") with_checkout
fetch_git-IsPinned_example =
    fetch_git-IsPinned sys icu "out" false (git_entry icu "out/git/icu") online with_checkout
      git_run

whole_run :
    Returns
      (main sys "lock.json" "out" false)
      online
      (archive_entry (text "zlib") "out/z.tgz" "sum" ∷ git_entry icu "out/git/icu" ∷ [])
      with_all
unfolding Fetch.main Fetch.fetch_dependency Fetch.sources_manifest Inventory.read_inventory
    Inventory.read_document Inventory.read_dependencies Inventory.read_dependency
    Inventory.require_source Inventory.require_string each Archive.fetch_archive Archive.mirrors_of
    Archive.unpacked Archive.is_cached Archive.download_archive Archive.with_tempdir Archive.leave
    Archive.fetch_urls Archive.fetch_url Archive.after_download Archive.keep_verified ◌>>=◌ lookup
    insert get has Git.fetch_git Git.checked_out Git.reuse_checkout Git.refetch Git.fetch_checkout
    Git.make_checkout Git.git Git.git_result Text.strip Text.lstrip Text.rstrip
whole_run = refl

lock_run : Returns (read_inventory sys "lock.json") online (zlib ∷ icu ∷ []) online
unfolding Inventory.read_inventory Inventory.read_document Inventory.read_dependencies
    Inventory.read_dependency Inventory.require_source Inventory.require_string each ◌>>=◌ get has
    Text.strip Text.lstrip Text.rstrip
lock_run = refl

zlib-IsSeparate : IsSeparate sys "out" zlib
unfolding get
zlib-IsSeparate name named =
    let same : "z.tgz" ≡ name = cc named in subst (λ s. IsApart sys "out" s) same apart

icu-IsSeparate : IsSeparate sys "out" icu
unfolding get
icu-IsSeparate name named = absurd (cc named)

main-IsComplete_example :
    IsComplete sys "out" "lock.json" false
      (zlib ∷ icu ∷ [])
      (archive_entry (text "zlib") "out/z.tgz" "sum" ∷ git_entry icu "out/git/icu" ∷ [])
      online
      with_all
main-IsComplete_example =
    main-IsComplete sys "out" (machine-KeepsContent lock_file "c0ffee") "lock.json" false
      (zlib ∷ icu ∷ [])
      (archive_entry (text "zlib") "out/z.tgz" "sum" ∷ git_entry icu "out/git/icu" ∷ []) online
      with_all lock_run (zlib-IsSeparate, (icu-IsSeparate, tt)) whole_run
