-- ===== src/Fetch/Archive/Verified.antt =====
-- An archive that the function returns an entry for has the locked checksum.
use libpglite.Prelude.{
  ◌≡◌, refl, sym, ap, inl, inr, ⊎_elim, String, eq_iff, Bool, true, false, some, List, [], ◌∷◌, ◌∙◌,
  Option-cases,
}
use libpglite.Json.{Fields, Value, text, get, as_text}
use libpglite.Json.Laws.{as_text-eq-some}
use libpglite.Script.{Result, returned, exited, failed, Action, of_option, lift, ask, require_some}
use libpglite.Script.Laws.{
  Returns, Returns-bind, Returns-require_some, Returns-lift, Returns-if, Returns-pure,
  not-Returns-exit, Keeps, Keeps-same, keeps_rules,
}
use libpglite.System.{System}
use libpglite.Fetch.Archive.{
  archive_entry, mirrors_of, leave, with_tempdir, download_archive, is_cached, fetch_archive,
}
use libpglite.Fetch.Archive.Downloaded.{KeepsContent, IsApart, fetch_urls-hash}

text-injective : {a b : String} → text a ≡ text b → a ≡ b
text-injective h = cc h

leave-returned {ℓ} :
    {A : Type ℓ} (r : Result A) (c : Result (Unit {0})) {a : A}
    → leave r c ≡ returned a
    → (r ≡ returned a) × (c ≡ returned tt)
unfolding leave
leave-returned r (returned u) h = (h, refl)
leave-returned r (exited m) h = absurd (cc h)
leave-returned r failed h = absurd (cc h)

module _ {ℓ} {W : Type 0} {A : Type ℓ} (sys : System W) (out : String) where
  with_tempdir-Returns :
      (body : String → Action W A) (w : W) {a : A} {w' : W}
      → Returns (with_tempdir sys out body) w a w'
      → (tempdir : String) × (v u : W) × Returns (sys.make_tempdir out) w tempdir v
        × Returns (body tempdir) v a u
        × Returns (sys.remove_tempdir tempdir) u tt w'
  unfolding with_tempdir
  with_tempdir-Returns body w h =
      let (tempdir, v, made, h1) = Returns-bind (sys.make_tempdir out) _ w h in
      let u = (body tempdir v).1 in
      let (ran, cleaned) =
        leave-returned (body tempdir v).0 (sys.remove_tempdir tempdir u).0
          (ap (λ (p : Result A × W). p.0) h1) in
      let ends = ap (λ (p : Result A × W). p.1) h1 in
      (tempdir, v, u, made, ap (λ r. (r, u)) ran, λ i. (cleaned i, ends i))

module _ {W : Type 0} (sys : System W) (out : String) where
  -- The archive of the entry, with the checksum of the lock file.
  pub record IsVerified (dependency : Fields) (entry : Value) (w : W) : Type 0 where
    pub name : String
    pub expected : String
    pub archived : get dependency "archive" ≡ text name
    pub locked : get dependency "sha256" ≡ text expected
    pub hashed : sys.hash (sys.join out name) w ≡ some expected
    pub described : entry ≡ archive_entry (get dependency "name") (sys.join out name) expected

module _ {W : Type 0} (sys : System W) (out : String) (laws : KeepsContent sys) where
  download-hash :
      (dependency : Fields) (urls : List Value) (name expected : String) (w : W) {entry : Value}
      {w' : W}
      → IsApart sys out name
      → sys.is_dir (sys.join out name) w ≡ false
      → Returns (download_archive sys dependency urls out name expected) w entry w'
      → (sys.hash (sys.join out name) w' ≡ some expected)
        × (entry ≡ archive_entry (get dependency "name") (sys.join out name) expected)
  unfolding download_archive
  download-hash dependency urls name expected w {w'} apart clear h =
      let (errors, v, fetching, h1) = Returns-bind (with_tempdir sys out _) _ w h in
      let (tempdir, u, u', made, ran, cleaned) = with_tempdir-Returns sys out _ w fetching in
      let outside = apart.outside tempdir w u made in
      elim (Option-cases errors) [
        | inr (es, e) ↦ absurd (not-Returns-exit (rw e at h1))
        | inl e ↦
            let (described, ends) = Returns-pure (rw e at h1) in
            let there =
              fetch_urls-hash sys laws expected (sys.join tempdir name) (sys.join out name) urls []
                u u' (laws.makes out name tempdir w u apart.plain clear made outside)
                (rw e at ran) in
            let kept = laws.cleans out name tempdir u' v apart.plain outside cleaned in
            (cc (kept, there, ends), sym described)
      ]

  cached-hash :
      (archive expected : String) (w : W) {w' : W}
      → Returns (is_cached sys archive expected) w true w'
      → (sys.hash archive w' ≡ some expected)
  unfolding is_cached
  cached-hash archive expected w h =
      let (present, v, asked, h1) = Returns-bind (ask (sys.is_file archive)) _ w h in
      ⊎_elim
        (λ (e, h2).
          let (actual, v', got, h3) = Returns-bind (require_some (sys.hash archive)) _ v h2 in
          let (hashed, same) = Returns-require_some (sys.hash archive) got in
          let (matches, ends) = Returns-pure h3 in
          let locked = (eq_iff actual expected).0 matches in cc (hashed, same, ends, locked))
        (λ (e, h2). absurd (cc (Returns-pure h2).0)) (Returns-if present _ _ h1)

  is_cached-Keeps : (archive expected : String) → Keeps (is_cached sys archive expected)
  unfolding is_cached
  is_cached-Keeps archive expected = search keeps_rules

  -- Whether the archive was in the cache or has been fetched, an entry is returned only if the file
  -- that it names then has the SHA-256 of the lock file. The archive has a plain file name, its
  -- path is no directory when the function is called, and no temporary directory is given that
  -- name. Moving a file to a path that is no directory keeps its content, downloads make no
  -- directories, and making and removing a temporary directory keeps the paths outside it.
  pub fetch_archive-IsVerified :
      (dependency : Fields) (verify_only : Bool) (name : String) (entry : Value) (w w' : W)
      → get dependency "archive" ≡ text name
      → IsApart sys out name
      → sys.is_dir (sys.join out name) w ≡ false
      → Returns (fetch_archive sys dependency out verify_only) w entry w'
      → IsVerified sys out dependency entry w'
  unfolding fetch_archive
  fetch_archive-IsVerified dependency verify_only name entry w w' named apart clear h =
      let (read, v1, a1, h1) =
        Returns-bind (lift (of_option (as_text (get dependency "archive")))) _ w h in
      let (expected, v2, a2, h2) =
        Returns-bind (lift (of_option (as_text (get dependency "sha256")))) _ v1 h1 in
      let (mirrors, v3, a3, h3) = Returns-bind (lift (of_option (mirrors_of dependency))) _ v2 h2 in
      let (cached, v4, a4, h4) =
        Returns-bind (is_cached sys (sys.join out read) expected) _ v3 h3 in
      let (archived, same1) = Returns-lift _ a1 in
      let (locked, same2) = Returns-lift _ a2 in
      let same3 = (Returns-lift _ a3).1 in
      let same4 = Keeps-same _ v3 (is_cached-Keeps (sys.join out read) expected) a4 in
      let same : w ≡ v4 = same1 ∙ same2 ∙ same3 ∙ same4 in
      let is_name : name ≡ read = text-injective (sym named ∙ as_text-eq-some _ archived) in
      let apart_read : IsApart sys out read = rw is_name at apart in
      let clear_read : sys.is_dir (sys.join out read) v4 ≡ false = rw (is_name, same) at clear in
      let outcome : (sys.hash (sys.join out read) w' ≡ some expected)
          × (entry ≡ archive_entry (get dependency "name") (sys.join out read) expected) =
        ⊎_elim
          (λ (e, h5).
            let (described, ends) = Returns-pure h5 in
            (rw ends at (cached-hash (sys.join out read) expected v3 (rw e at a4)), sym described))
          (λ (e, h5).
            download-hash dependency (get dependency "source" ∷ mirrors) read expected v4 apart_read
              clear_read
              (⊎_elim (λ (asked, h6). absurd (not-Returns-exit h6)) (λ (asked, h6). h6)
                (Returns-if verify_only _ _ h5)))
          (Returns-if cached _ _ h4) in
      record {
        name = read;
        expected = expected;
        archived = as_text-eq-some _ archived;
        locked = as_text-eq-some _ locked;
        hashed = outcome.0;
        described = outcome.1;
      }
