-- ===== src/Fetch/Archive.antt =====
-- `fetch_archive_dependency`: the cached archive, or the first source whose content has the
-- checksum.
pub mod Downloaded
pub mod Verified
pub mod Cached
pub mod Found
use libpglite.Prelude.{
  ℕ, String, ◌<>◌, Bool, true, false, Option, none, some, List, [], ◌∷◌, ◌++◌, not, is_empty,
  is_blank, join, str_eq, strip, if◌then◌else◌,
}
use libpglite.Json.{
  Fields, end, field, Value, text, array, object, Items, nil, cons, get, has, is_text, as_text,
  as_object, as_list, as_nonempty_text,
}
use libpglite.Script.{
  Message, Part, lit, str, Result, returned, exited, failed, Action, of_option, pure, exit, fail,
  lift, ask, require_some, continue, ◌>>=◌, ◌>>◌, each,
}
use libpglite.System.{Download, fetched, refused, broken, Process, System}

-- A text of one character for each character.
unfoldable pub characters : String → List Value
characters String.[] = []
characters (String.◌∷◌ c s) = text (String.◌∷◌ c String.[]) ∷ characters s

unfoldable pub names_of : Fields → List Value
names_of end = []
names_of (field k v fs) = text k ∷ names_of fs

-- `[*v]`; nothing where it raises
unfoldable pub unpacked : Value → Option (List Value)
unpacked (text s) = some (characters s)
unpacked (object fs) = some (names_of fs)
unpacked v = as_list v

-- `dependency.get("mirrors", [])`, unpacked
unfoldable pub mirrors_of : Fields → Option (List Value)
mirrors_of dependency =
    if has dependency "mirrors" then unpacked (get dependency "mirrors") else some []

unfoldable pub archive_entry : Value → String → String → Value
archive_entry name archive checksum = object (
    field "name" name (
      field "kind" (text "archive")
        (field "archive" (text archive) (field "sha256" (text checksum) end))))

-- The clean-up at the end of a `with` block, whose exception hides that of the block.
unfoldable pub leave {ℓ} : {A : Type ℓ} → Result A → Result (Unit {0}) → Result A
leave r (returned u) = r
leave r (exited m) = exited m
leave r failed = failed

unfoldable pub joined : List Message → Message
joined [] = []
joined (e ∷ errors) = lit "\n  " ∷ (e ++ joined errors)

module _ {W : Type 0} (sys : System W) where
  -- The content of the download is what was locked: it becomes the archive. `none` where it is.
  unfoldable pub keep_verified : Value → String → String → String → Action W (Option Message)
  keep_verified url expected tmp archive = do
    actual ← require_some (sys.hash tmp)
    (if str_eq actual expected then (do sys.move tmp archive; pure none) else (do
      sys.unlink tmp
      pure (some (str url ∷ lit ": sha256 " ∷ lit actual ∷ lit ", expected " ∷ lit expected ∷ []))))

  unfoldable pub after_download :
      Value → String → String → String → Download → Action W (Option Message)
  after_download url expected tmp archive fetched = keep_verified url expected tmp archive
  after_download url expected tmp archive (refused err) =
      pure (some (str url ∷ lit ": " ∷ lit err ∷ []))
  after_download url expected tmp archive broken = fail

  -- One round of the loop: what it appends to the errors, or nothing where the archive is there.
  unfoldable pub fetch_url : String → String → String → Value → Action W (Option Message)
  fetch_url expected tmp archive url = do
    address ← lift (of_option (as_text url))
    download ← λ w. let (d, w') = sys.urlretrieve address tmp w in (returned d, w')
    after_download url expected tmp archive download

  -- The errors of the loop, or nothing where a round was the last one.
  unfoldable pub fetch_urls :
      String → String → String → List Value → List Message → Action W (Option (List Message))
  fetch_urls expected tmp archive [] errors = pure (some errors)
  fetch_urls expected tmp archive (url ∷ urls) errors = do
    refusal ← fetch_url expected tmp archive url
    elim refusal [
      | none ↦ pure none
      | some e ↦ fetch_urls expected tmp archive urls (errors ++ (e ∷ []))
    ]

  unfoldable pub with_tempdir {ℓ} : {A : Type ℓ} → String → (String → Action W A) → Action W A
  with_tempdir out body = do
    tempdir ← sys.make_tempdir out
    λ w.
        let (r, w') = body tempdir w in
        let (cleaned, w'') = sys.remove_tempdir tempdir w' in (leave r cleaned, w'')

  -- The part of the function after the cache has been found wanting.
  unfoldable pub download_archive : Fields → List Value → String → String → String → Action W Value
  download_archive dependency urls out name expected = do
    errors ←
        with_tempdir out
          (λ tempdir. fetch_urls expected (sys.join tempdir name) (sys.join out name) urls [])
    elim errors [
      | none ↦ pure (archive_entry (get dependency "name") (sys.join out name) expected)
      | some es ↦ exit (
          lit "could not fetch verified archive for "
          ∷ str (get dependency "name")
          ∷ lit ":"
          ∷ joined es)
    ]

  -- `archive.is_file() and sha256(archive) == expected`
  unfoldable pub is_cached : String → String → Action W Bool
  is_cached archive expected = do
    present ← ask (sys.is_file archive)
    (if present
        then (do actual ← require_some (sys.hash archive); pure (str_eq actual expected))
        else pure false)

  unfoldable pub fetch_archive : Fields → String → Bool → Action W Value
  fetch_archive dependency out verify_only = do
    name ← lift (of_option (as_text (get dependency "archive")))
    expected ← lift (of_option (as_text (get dependency "sha256")))
    mirrors ← lift (of_option (mirrors_of dependency))
    cached ← is_cached (sys.join out name) expected
    (if cached
        then pure (archive_entry (get dependency "name") (sys.join out name) expected)
        else if verify_only
        then exit
            (lit "cached archive is missing or has wrong checksum: " ∷ lit (sys.join out name) ∷ [])
        else download_archive dependency (get dependency "source" ∷ mirrors) out name expected)
