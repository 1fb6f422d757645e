-- ===== src/Fetch/Archive/Cached.antt =====
-- A run that only verifies the cache changes nothing.
use libpglite.Prelude.{String, true}
use libpglite.Json.{Fields}
use libpglite.Script.Laws.{Keeps, keeps_rules}
use libpglite.System.{System}
use libpglite.Fetch.Archive.{is_cached, fetch_archive}

module _ {W : Type 0} (sys : System W) where
  is_cached-Keeps : (archive expected : String) → Keeps (is_cached sys archive expected)
  unfolding is_cached
  is_cached-Keeps archive expected = search keeps_rules

  pub fetch_archive-Keeps :
      (dependency : Fields) (out : String) → Keeps (fetch_archive sys dependency out true)
  unfolding fetch_archive
  fetch_archive-Keeps dependency out = search (keeps_rules, is_cached-Keeps) depth 12
