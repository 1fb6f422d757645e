-- ===== src/Fetch/Archive/Downloaded.antt =====
-- A download that is kept has the checksum that it was asked for.
use libpglite.Prelude.{
  ◌≡◌, ap, inl, inr, ⊎_elim, String, str_eq, eq_iff, false, Option, none, some, List, [], ◌∷◌, ◌++◌,
  Option-cases, file_name,
}
use libpglite.Prelude.Text.{relative_to}
use libpglite.Json.{Value, as_text}
use libpglite.Script.{Message, Result, of_option, lift, require_some}
use libpglite.Script.Laws.{
  Returns, Returns-bind, Returns-require_some, Returns-lift, Returns-if, Returns-pure,
  not-Returns-fail,
}
use libpglite.System.{Download, fetched, refused, broken, System}
use libpglite.Fetch.Archive.{keep_verified, after_download, fetch_url, fetch_urls}

-- What the calls do to an archive of the directory `out` whose path is no directory: `shutil.move`
-- to such a path replaces it, neither a download nor the removal of one makes a directory of it,
-- and a temporary directory that is made and removed is apart from it.
pub record KeepsContent {W : Type 0} (sys : System W) : Type 0 where
  pub moves :
      (tmp archive : String) (w w' : W)
      → sys.is_dir archive w ≡ false
      → Returns (sys.move tmp archive) w tt w'
      → sys.hash archive w' ≡ sys.hash tmp w
  pub downloads :
      (address tmp archive : String) (w : W)
      → sys.is_dir archive w ≡ false
      → sys.is_dir archive (sys.urlretrieve address tmp w).1 ≡ false
  pub unlinks :
      (tmp archive : String) (w w' : W)
      → sys.is_dir archive w ≡ false
      → Returns (sys.unlink tmp) w tt w'
      → sys.is_dir archive w' ≡ false
  pub makes :
      (out name tempdir : String) (w w' : W)
      → file_name name ≡ name
      → sys.is_dir (sys.join out name) w ≡ false
      → Returns (sys.make_tempdir out) w tempdir w'
      → relative_to (sys.join out name) tempdir ≡ none
      → sys.is_dir (sys.join out name) w' ≡ false
  pub cleans :
      (out name tempdir : String) (w w' : W)
      → file_name name ≡ name
      → relative_to (sys.join out name) tempdir ≡ none
      → Returns (sys.remove_tempdir tempdir) w tt w'
      → sys.hash (sys.join out name) w' ≡ sys.hash (sys.join out name) w

-- The archive has a plain file name, which no temporary directory is given.
pub record IsApart {W : Type 0} (sys : System W) (out name : String) : Type 0 where
  pub plain : file_name name ≡ name
  pub outside :
      (tempdir : String) (w w' : W)
      → Returns (sys.make_tempdir out) w tempdir w'
      → relative_to (sys.join out name) tempdir ≡ none

module _ {W : Type 0} (sys : System W) (laws : KeepsContent sys) where
  keep_verified-hash :
      (url : Value) (expected tmp archive : String) (w w' : W)
      → sys.is_dir archive w ≡ false
      → Returns (keep_verified sys url expected tmp archive) w none w'
      → sys.hash archive w' ≡ some expected
  unfolding keep_verified
  keep_verified-hash url expected tmp archive w w' clear h =
      let (actual, v, asked, h1) = Returns-bind (require_some (sys.hash tmp)) _ w h in
      let (hashed, same) = Returns-require_some (sys.hash tmp) asked in
      ⊎_elim
        (λ (e, h2).
          let (u, moved, move, h3) = Returns-bind (sys.move tmp archive) _ v h2 in
          let (n, ends) = Returns-pure h3 in
          let content = laws.moves tmp archive v moved (rw same at clear) move in
          let locked = (eq_iff actual expected).0 e in cc (content, hashed, same, ends, locked))
        (λ (e, h2).
          let (u, v', unlink, h3) = Returns-bind (sys.unlink tmp) _ v h2 in
          absurd (cc (Returns-pure h3).0))
        (Returns-if (str_eq actual expected) _ _ h1)

  keep_verified-is_dir :
      (url : Value) (expected tmp archive : String) (m : Message) (w w' : W)
      → sys.is_dir archive w ≡ false
      → Returns (keep_verified sys url expected tmp archive) w (some m) w'
      → sys.is_dir archive w' ≡ false
  unfolding keep_verified
  keep_verified-is_dir url expected tmp archive m w w' clear h =
      let (actual, v, asked, h1) = Returns-bind (require_some (sys.hash tmp)) _ w h in
      let (hashed, same) = Returns-require_some (sys.hash tmp) asked in
      ⊎_elim
        (λ (e, h2).
          let (u, moved, move, h3) = Returns-bind (sys.move tmp archive) _ v h2 in
          absurd (cc (Returns-pure h3).0))
        (λ (e, h2).
          let (u, v', unlink, h3) = Returns-bind (sys.unlink tmp) _ v h2 in
          let still = laws.unlinks tmp archive v v' (rw same at clear) unlink in
          rw (Returns-pure h3).1 at still)
        (Returns-if (str_eq actual expected) _ _ h1)

  after_download-hash :
      (url : Value) (expected tmp archive : String) (download : Download) (w w' : W)
      → sys.is_dir archive w ≡ false
      → Returns (after_download sys url expected tmp archive download) w none w'
      → sys.hash archive w' ≡ some expected
  unfolding after_download
  after_download-hash url expected tmp archive fetched w w' clear h =
      keep_verified-hash url expected tmp archive w w' clear h
  after_download-hash url expected tmp archive (refused err) w w' clear h =
      absurd (cc (Returns-pure h).0)
  after_download-hash url expected tmp archive broken w w' clear h = absurd (not-Returns-fail h)

  after_download-is_dir :
      (url : Value) (expected tmp archive : String) (m : Message) (download : Download) (w w' : W)
      → sys.is_dir archive w ≡ false
      → Returns (after_download sys url expected tmp archive download) w (some m) w'
      → sys.is_dir archive w' ≡ false
  unfolding after_download
  after_download-is_dir url expected tmp archive m fetched w w' clear h =
      keep_verified-is_dir url expected tmp archive m w w' clear h
  after_download-is_dir url expected tmp archive m (refused err) w w' clear h =
      rw (Returns-pure h).1 at clear
  after_download-is_dir url expected tmp archive m broken w w' clear h = absurd (not-Returns-fail h)

  -- A round downloads to the temporary path, and then decides in a world in which the archive is
  -- still no directory.
  fetch_url-after :
      (expected tmp archive : String) (url : Value) {refusal : Option Message} (w w' : W)
      → sys.is_dir archive w ≡ false
      → Returns (fetch_url sys expected tmp archive url) w refusal w'
      → (download : Download) × (v : W) × (sys.is_dir archive v ≡ false)
        × Returns (after_download sys url expected tmp archive download) v refusal w'
  unfolding fetch_url
  fetch_url-after expected tmp archive url w w' clear h =
      let (address, v, asked, h1) = Returns-bind (lift (of_option (as_text url))) _ w h in
      let (download, v', got, h2) =
        Returns-bind _ (after_download sys url expected tmp archive) v h1 in
      let same = (Returns-lift _ asked).1 in
      let still = laws.downloads address tmp archive v (rw same at clear) in
      let ends : (sys.urlretrieve address tmp v).1 ≡ v' =
        ap (λ (p : Result Download × W). p.1) got in
      (download, v', rw ends at still, h2)

  pub fetch_urls-hash :
      (expected tmp archive : String) (urls : List Value) (errors : List Message) (w w' : W)
      → sys.is_dir archive w ≡ false
      → Returns (fetch_urls sys expected tmp archive urls errors) w none w'
      → sys.hash archive w' ≡ some expected
  unfolding fetch_urls
  fetch_urls-hash expected tmp archive [] errors w w' clear h = absurd (cc (Returns-pure h).0)
  fetch_urls-hash expected tmp archive (url ∷ urls) errors w w' clear h =
      let (refusal, v, first, h1) = Returns-bind (fetch_url sys expected tmp archive url) _ w h in
      let (download, u, still, after) = fetch_url-after expected tmp archive url w v clear first in
      elim (Option-cases refusal) [
        | inl e ↦
            let ends = (Returns-pure (rw e at h1)).1 in
            rw ends at
              (after_download-hash url expected tmp archive download u v still (rw e at after))
        | inr (m, e) ↦
            let clear_after =
              after_download-is_dir url expected tmp archive m download u v still (rw e at after) in
            fetch_urls-hash expected tmp archive urls (errors ++ (m ∷ [])) v w' clear_after
              (rw e at h1)
      ]
