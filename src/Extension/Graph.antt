-- ===== src/Extension/Graph.antt =====
-- The versions that the SQL files install, as walks in the graph of upgrades, and what the search
-- keeps track of.
use libpglite.Prelude.{
  ℕ, suc, ◌+◌, ◌≤◌, ◌≡◌, ◌↔◌, ◌⊎◌, inl, inr, String, eq_iff, true, false, List, [], ◌∷◌, arith,
  if◌then◌else◌, mem, length,
}
use libpglite.Extension.{Edges, Scripts, successors}

-- One of the upgrade scripts leads from `u` to `v`.
abbrev pub Edge : Edges → String → String → Type 0
Edge [] u v = ⊥
Edge ((source, target) ∷ edges) u v = ((source ≡ u) × (target ≡ v)) ⊎ Edge edges u v

-- A version is installed by a base script, or by an upgrade from one that is installed.
pub data Installs (scripts : Scripts) : String → Type 0 where
  base : {v : String} → mem v scripts.base_versions ≡ true → Installs scripts v
  upgrade :
      {u v : String} → Installs scripts u → Edge scripts.upgrade_edges u v → Installs scripts v

pub mem-successors :
    (edges : Edges) (u v : String) → (mem v (successors edges u) ≡ true) ↔ Edge edges u v
unfolding successors mem
mem-successors [] u v = (λ h. cc, λ h. elim h [ ])
mem-successors ((s, t) ∷ edges) u v =
    ground (arith, mem-successors edges u v, eq_iff s u, eq_iff v t)

-- The upgrades whose target has not been seen.
pub unseen : Edges → List String → ℕ
unseen [] seen = 0
unseen ((source, target) ∷ edges) seen = (if mem target seen then 0 else 1) + unseen edges seen

pub unseen-le :
    (edges : Edges) (x : String) (seen : List String) → unseen edges (x ∷ seen) ≤ unseen edges seen
unfolding unseen mem
unseen-le [] x seen = omega arith
unseen-le ((s, t) ∷ edges) x seen = ground (arith, unseen-le edges x seen)

pub unseen-lt :
    (edges : Edges) (u x : String) (seen : List String)
    → Edge edges u x
    → mem x seen ≡ false
    → suc (unseen edges (x ∷ seen)) ≤ unseen edges seen
unfolding unseen mem
unseen-lt [] u x seen e fresh = elim e [ ]
unseen-lt ((s, t) ∷ edges) u x seen (inl e) fresh =
    ground (arith, unseen-le edges x seen, eq_iff t x)
unseen-lt ((s, t) ∷ edges) u x seen (inr e) fresh = ground (arith, unseen-lt edges u x seen e fresh)

pub unseen-le-length : (edges : Edges) (seen : List String) → unseen edges seen ≤ length edges
unfolding unseen
unseen-le-length [] seen = omega arith
unseen-le-length ((s, t) ∷ edges) seen = ground (arith, unseen-le-length edges seen)
