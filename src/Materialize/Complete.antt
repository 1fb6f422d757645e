-- ===== src/Materialize/Complete.antt =====
-- What a run of the script that returns has done.
use libpglite.Prelude.{◌≡◌, String, some}
use libpglite.Prelude.Text.{relative_to}
use libpglite.System.{System}
use libpglite.Materialize.{Extension, destination_of, allowed_root_of}
use libpglite.Materialize.Settled.{IsSettled}

module _ {W : Type 0} (sys : System W) where
  -- The round of an extension: its destination, links resolved when the round began, is
  -- `pglite/other_extensions` or lies below it, and holds the provenance file of the extension when it ended.
  pub record IsPlaced (out_root : String) (extension : Extension) (u : Unit {0}) (w w' : W)
      : Type 0 where
    pub below : String
    pub inside :
        relative_to (destination_of sys out_root extension w) (allowed_root_of sys out_root w)
        ≡ some below
    pub settled : IsSettled sys (destination_of sys out_root extension w) extension w'
