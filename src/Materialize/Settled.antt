-- ===== src/Materialize/Settled.antt =====
-- A source that has been materialised stays as it is.
use libpglite.Prelude.{
  ◌≡◌, refl, ap, ◌∙◌, ⊎_elim, String, Bool, true, false, Option, none, some, eq_iff, if◌then◌else◌,
}
use libpglite.Prelude.Text.{relative_to}
use libpglite.Script.{pure, ask, require_some, ◌>>=◌}
use libpglite.Script.Laws.{
  Returns, Returns-bind, bind-Returns, Returns-ask, Returns-if, Returns-pure, Returns-require_some,
  not-Returns-exit,
}
use libpglite.System.{System}
use libpglite.Materialize.{
  Extension, provenance_file, provenance_text, is_materialized, run, fetch_commit, populate,
  materialize_at, materialize_below, destination_of, allowed_root_of, materialize_extension,
}

-- A text that has been written is read back.
pub record KeepsText {W : Type 0} (sys : System W) : Type 0 where
  pub present :
      (path content : String) (w w' : W)
      → Returns (sys.write_text path content) w tt w'
      → sys.is_file path w' ≡ true
  pub read :
      (path content : String) (w w' : W)
      → Returns (sys.write_text path content) w tt w'
      → sys.read_text path w' ≡ some content

module _ {W : Type 0} (sys : System W) where
  -- The provenance file of the extension stands in the destination.
  pub record IsSettled (destination : String) (extension : Extension) (w : W) : Type 0 where
    pub present : sys.is_file (sys.join destination provenance_file) w ≡ true
    pub recorded :
        sys.read_text (sys.join destination provenance_file) w ≡ some (provenance_text extension)

  populate-written :
      (destination : String) (extension : Extension) (w w' : W)
      → Returns (populate sys destination extension) w tt w'
      → (v : W) × Returns
          (sys.write_text (sys.join destination provenance_file) (provenance_text extension))
          v
          tt
          w'
  unfolding populate
  populate-written destination extension w w' h =
      let (present, v1, a1, h1) = Returns-bind (ask (sys.exists destination)) _ w h in
      let (u2, v2, a2, h2) =
        Returns-bind (if present then sys.rmtree destination else pure tt) _ v1 h1 in
      let (u3, v3, a3, h3) = Returns-bind (sys.mkdir (sys.parent destination)) _ v2 h2 in
      let (u4, v4, a4, h4) = Returns-bind (run sys _) _ v3 h3 in
      let (u5, v5, a5, h5) = Returns-bind (run sys _) _ v4 h4 in
      let (u6, v6, a6, h6) = Returns-bind (fetch_commit sys destination extension.commit) _ v5 h5 in
      let (u7, v7, a7, h7) = Returns-bind (run sys _) _ v6 h6 in (v7, h7)

  is_materialized-IsSettled :
      (destination : String) (extension : Extension) (w w' : W)
      → Returns
          (is_materialized sys (sys.join destination provenance_file) (provenance_text extension))
          w
          true
          w'
      → (w ≡ w') × IsSettled destination extension w
  unfolding is_materialized
  is_materialized-IsSettled destination extension w w' h =
      let path = sys.join destination provenance_file in
      let (present, v1, a1, h1) = Returns-bind (ask (sys.is_file path)) _ w h in
      let (there, same) = Returns-ask (sys.is_file path) a1 in
      ⊎_elim
        (λ (e, h2).
          let (content, v2, a2, h3) = Returns-bind (require_some (sys.read_text path)) _ v1 h2 in
          let (got, same') = Returns-require_some (sys.read_text path) a2 in
          let (matches, ends) = Returns-pure h3 in
          let recorded = (eq_iff content (provenance_text extension)).0 matches in
          (
            same ∙ same' ∙ ends,
            record {
              present = there ∙ e;
              recorded = ap (sys.read_text path) same ∙ got ∙ ap (λ c. some c) recorded;
            },
          ))
        (λ (e, h2). absurd (cc (Returns-pure h2).0)) (Returns-if present _ _ h1)

  IsSettled-is_materialized :
      (destination : String) (extension : Extension) (w : W)
      → IsSettled destination extension w
      → Returns
          (is_materialized sys (sys.join destination provenance_file) (provenance_text extension))
          w
          true
          w
  unfolding is_materialized ◌>>=◌
  IsSettled-is_materialized destination extension w settled =
      rw (settled.present, settled.recorded, (eq_iff (provenance_text extension) _).1 refl)

module _ {W : Type 0} (sys : System W) (laws : KeepsText sys) where
  pub materialize_at-IsSettled :
      (destination : String) (extension : Extension) (w w' : W)
      → Returns (materialize_at sys destination extension false) w tt w'
      → IsSettled sys destination extension w'
  unfolding materialize_at
  materialize_at-IsSettled destination extension w w' h =
      let path = sys.join destination provenance_file in
      let (done, v, a, h1) =
        Returns-bind (is_materialized sys path (provenance_text extension)) _ w h in
      ⊎_elim
        (λ (e, h2).
          let (same, settled) =
            is_materialized-IsSettled sys destination extension w v (rw e at a) in
          rw (same, (Returns-pure h2).1) at settled)
        (λ (e, h2).
          let (u, written) = populate-written sys destination extension v w' h2 in
          record {
            present = laws.present path (provenance_text extension) u w' written;
            recorded = laws.read path (provenance_text extension) u w' written;
          })
        (Returns-if done _ _ h1)

  materialize_below_again :
      (destination : String) (dry_run : Bool) (extension : Extension) (below : Option String)
      (w w' : W)
      → Returns (materialize_below sys destination extension false below) w tt w'
      → Returns (materialize_below sys destination extension dry_run below) w' tt w'
  unfolding materialize_below materialize_at
  materialize_below_again destination dry_run extension none w w' h = absurd (not-Returns-exit h)
  materialize_below_again destination dry_run extension (some below) w w' h =
      bind-Returns
        (is_materialized sys (sys.join destination provenance_file) (provenance_text extension)) _
        w'
        (IsSettled-is_materialized sys destination extension w'
          (materialize_at-IsSettled destination extension w w' h))
        refl

  -- After a run that returns, a second one for the same extension, dry or not, returns at once and
  -- changes nothing, where a text that is written is read back and the paths still resolve as they
  -- did.
  pub materialize_extension_again :
      (out_root : String) (dry_run : Bool) (extension : Extension) (w w' : W)
      → Returns (materialize_extension sys out_root false extension) w tt w'
      → destination_of sys out_root extension w' ≡ destination_of sys out_root extension w
      → allowed_root_of sys out_root w' ≡ allowed_root_of sys out_root w
      → Returns (materialize_extension sys out_root dry_run extension) w' tt w'
  unfolding materialize_extension
  materialize_extension_again out_root dry_run extension w w' h here root =
      let destination = destination_of sys out_root extension in
      let allowed_root = allowed_root_of sys out_root in
      let (d, v1, a1, h1) = Returns-bind (ask destination) _ w h in
      let (r, v2, a2, h2) = Returns-bind (ask allowed_root) _ v1 h1 in
      let (at_d, same1) = Returns-ask destination a1 in
      let (at_r, same2) = Returns-ask allowed_root a2 in
      let still_d : destination w' ≡ d = here ∙ at_d in
      let still_r : allowed_root w' ≡ r = root ∙ ap allowed_root same1 ∙ at_r in
      bind-Returns (ask destination) _ w' refl (
        bind-Returns (ask allowed_root) _ w' refl (
          rw (still_d, still_r)
            (materialize_below_again d dry_run extension (relative_to d r) v2 w' h2)))
