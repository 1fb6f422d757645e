-- ===== src/Fetch/Archive/Found.antt =====
-- An archive that one of its sources serves is fetched, whatever the sources before it do.
use libpglite.Prelude.{
  ◌≡◌, refl, String, str_eq, eq_iff, true, false, Option, none, some, List, [], ◌∷◌, ◌++◌,
}
use libpglite.Json.{Fields, Value, text, get}
use libpglite.Script.{Message, lit, str, Result, Action, ◌>>=◌}
use libpglite.Script.Laws.{Returns, bind-Returns}
use libpglite.System.{Download, fetched, refused, System}
use libpglite.Fetch.Archive.{
  archive_entry, mirrors_of, keep_verified, after_download, fetch_url, fetch_urls, leave,
  with_tempdir, download_archive, is_cached, fetch_archive,
}

module _ {W : Type 0} (sys : System W) where
  -- From the world on, a source of the list serves the content with the checksum, and those before
  -- it cannot be reached or serve other content.
  pub data Serves (expected tmp archive : String) : List Value → W → Type 0 where
    served :
        (address : String) (urls : List Value) (w v v' : W)
        → sys.urlretrieve address tmp w ≡ (fetched, v)
        → sys.hash tmp v ≡ some expected
        → Returns (sys.move tmp archive) v tt v'
        → Serves expected tmp archive (text address ∷ urls) w
    unreachable :
        (address err : String) (urls : List Value) (w v : W)
        → sys.urlretrieve address tmp w ≡ (refused err, v)
        → Serves expected tmp archive urls v
        → Serves expected tmp archive (text address ∷ urls) w
    mismatched :
        (address actual : String) (urls : List Value) (w v v' : W)
        → sys.urlretrieve address tmp w ≡ (fetched, v)
        → sys.hash tmp v ≡ some actual
        → str_eq actual expected ≡ false
        → Returns (sys.unlink tmp) v tt v'
        → Serves expected tmp archive urls v'
        → Serves expected tmp archive (text address ∷ urls) w

  -- One round, by what the download comes to.
  fetch_url-eq :
      (expected tmp archive address : String) (w v : W) {download : Download}
      {r : Result (Option Message) × W}
      → sys.urlretrieve address tmp w ≡ (download, v)
      → after_download sys (text address) expected tmp archive download v ≡ r
      → fetch_url sys expected tmp archive (text address) w ≡ r
  unfolding fetch_url ◌>>=◌
  fetch_url-eq expected tmp archive address w v got after = rw got after

  keep_verified-Returns :
      (url : Value) (expected tmp archive : String) (v v' : W)
      → sys.hash tmp v ≡ some expected
      → Returns (sys.move tmp archive) v tt v'
      → Returns (keep_verified sys url expected tmp archive) v none v'
  unfolding keep_verified ◌>>=◌
  keep_verified-Returns url expected tmp archive v v' hashed moved =
      rw (hashed, (eq_iff expected expected).1 refl, moved)

  keep_verified-unlinked :
      (url : Value) (expected tmp archive actual : String) (v v' : W)
      → sys.hash tmp v ≡ some actual
      → str_eq actual expected ≡ false
      → Returns (sys.unlink tmp) v tt v'
      → (m : Message) × Returns (keep_verified sys url expected tmp archive) v (some m) v'
  unfolding keep_verified ◌>>=◌
  keep_verified-unlinked url expected tmp archive actual v v' hashed differs unlinked = (
    str url ∷ lit ": sha256 " ∷ lit actual ∷ lit ", expected " ∷ lit expected ∷ [],
    rw (hashed, differs, unlinked),
  )

  fetch_urls-Returns :
      (expected tmp archive : String) (urls : List Value) (errors : List Message) (w : W)
      → Serves expected tmp archive urls w
      → (w' : W) × Returns (fetch_urls sys expected tmp archive urls errors) w none w'
  unfolding fetch_urls after_download
  fetch_urls-Returns expected tmp archive _ errors _ (served address urls w v v' got hashed moved) =
      (
        v',
        bind-Returns (fetch_url sys expected tmp archive (text address)) _ w
            (fetch_url-eq expected tmp archive address w v got
              (keep_verified-Returns (text address) expected tmp archive v v' hashed moved))
            refl,
      )
  fetch_urls-Returns expected tmp archive _ errors _ (unreachable address err urls w v got rest) =
      let (w', h) = fetch_urls-Returns expected tmp archive urls (errors ++ _) v rest in
      (
        w',
        bind-Returns (fetch_url sys expected tmp archive (text address)) _ w
            (fetch_url-eq expected tmp archive address w v got refl) h,
      )
  fetch_urls-Returns expected tmp archive _ errors _
        (mismatched address actual urls w v v' got hashed differs unlinked rest) =
      let (m, unkept) =
        keep_verified-unlinked (text address) expected tmp archive actual v v' hashed differs
          unlinked in
      let (w', h) = fetch_urls-Returns expected tmp archive urls (errors ++ (m ∷ [])) v' rest in
      (
        w',
        bind-Returns (fetch_url sys expected tmp archive (text address)) _ w
            (fetch_url-eq expected tmp archive address w v got unkept) h,
      )

module _ {W : Type 0} (sys : System W) (out : String) where
  with_tempdir-eq {ℓ} :
      {A : Type ℓ} (body : String → Action W A) (tempdir : String) (w v u w' : W) {a : A}
      → Returns (sys.make_tempdir out) w tempdir v
      → Returns (body tempdir) v a u
      → Returns (sys.remove_tempdir tempdir) u tt w'
      → Returns (with_tempdir sys out body) w a w'
  unfolding with_tempdir ◌>>=◌ leave
  with_tempdir-eq body tempdir w v u w' made ran cleaned = rw (made, ran, cleaned)

  -- The archive is not in the cache, or with other content.
  pub data Uncached (archive expected : String) (w : W) : Type 0 where
    absent : sys.is_file archive w ≡ false → Uncached archive expected w
    stale :
        (actual : String)
        → sys.is_file archive w ≡ true
        → sys.hash archive w ≡ some actual
        → str_eq actual expected ≡ false
        → Uncached archive expected w

  Uncached-is_cached :
      (archive expected : String) (w : W)
      → Uncached archive expected w
      → Returns (is_cached sys archive expected) w false w
  unfolding is_cached ◌>>=◌
  Uncached-is_cached archive expected w (absent missing) = rw missing
  Uncached-is_cached archive expected w (stale actual there hashed differs) =
      rw (there, hashed, differs)

  download_archive-Returns :
      (dependency : Fields) (urls : List Value) (name expected tempdir : String) (w v u w' : W)
      → Returns (sys.make_tempdir out) w tempdir v
      → Returns
          (fetch_urls sys expected (sys.join tempdir name) (sys.join out name) urls [])
          v
          none
          u
      → Returns (sys.remove_tempdir tempdir) u tt w'
      → Returns
          (download_archive sys dependency urls out name expected)
          w
          (archive_entry (get dependency "name") (sys.join out name) expected)
          w'
  unfolding download_archive
  download_archive-Returns dependency urls name expected tempdir w v u w' made ran cleaned =
      bind-Returns (with_tempdir sys out _) _ w
        (with_tempdir-eq
          (λ t. fetch_urls sys expected (sys.join t name) (sys.join out name) urls []) tempdir w v u
          w' made ran cleaned)
        refl

  -- An archive that is not in the cache is fetched, and its entry returned, where one of its
  -- sources, the mirrors included, serves content with the checksum of the lock file, whether the
  -- sources before it cannot be reached or serve other content, and the temporary directory can be
  -- made and removed.
  pub fetch_archive-Returns :
      (dependency : Fields) (name expected tempdir : String) (mirrors : List Value) (w v : W)
      → get dependency "archive" ≡ text name
      → get dependency "sha256" ≡ text expected
      → mirrors_of dependency ≡ some mirrors
      → Uncached (sys.join out name) expected w
      → Returns (sys.make_tempdir out) w tempdir v
      → Serves sys expected
          (sys.join tempdir name)
          (sys.join out name)
          (get dependency "source" ∷ mirrors)
          v
      → ((u : W) → (u' : W) × Returns (sys.remove_tempdir tempdir) u tt u')
      → (w' : W) × Returns
          (fetch_archive sys dependency out false)
          w
          (archive_entry (get dependency "name") (sys.join out name) expected)
          w'
  unfolding fetch_archive ◌>>=◌
  fetch_archive-Returns dependency name expected tempdir mirrors w v named locked others uncached
        made serves cleans =
      let (u, ran) =
        fetch_urls-Returns sys expected (sys.join tempdir name) (sys.join out name)
          (get dependency "source" ∷ mirrors) [] v serves in
      let (w', cleaned) = cleans u in
      let cached = Uncached-is_cached (sys.join out name) expected w uncached in
      let got =
        download_archive-Returns dependency (get dependency "source" ∷ mirrors) name expected
          tempdir w v u w' made ran cleaned in
      (w', rw (named, locked, others, cached, got))
