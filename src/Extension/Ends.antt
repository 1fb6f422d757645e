-- ===== src/Extension/Ends.antt =====
-- The `while` loop of `extension_can_install_version` ends, with the answer of the loop on fuel.
use libpglite.Prelude.{
  ℕ, zero, suc, ◌+◌, ◌<◌, ◌≡◌, refl, subst, ap, inl, inr, String, Bool, true, false, List, [], ◌∷◌,
  none, some, arith, mem, length, List-cases, Option-cases,
}
use libpglite.Extension.{Edges, Scripts, Search, successors, visit, search_loop, can_install}
use libpglite.Extension.Visit.{visit-Grows}
use libpglite.Extension.Graph.{mem-successors, unseen, unseen-le-length}

-- The loop as the source has it, without fuel: it runs from the search until it returns the answer.
pub data Runs (version : String) (edges : Edges) : Search → Bool → Type 0 where
  emptied : (s : Search) → s.pending ≡ [] → Runs version edges s false
  found :
      (s : Search) (current : String) (rest : List String)
      → s.pending ≡ current ∷ rest
      → visit version (successors edges current) (record s { pending = rest }) ≡ none
      → Runs version edges s true
  expanded :
      (s t : Search) (current : String) (rest : List String) (answer : Bool)
      → s.pending ≡ current ∷ rest
      → visit version (successors edges current) (record s { pending = rest }) ≡ some t
      → Runs version edges t answer
      → Runs version edges s answer

module _ (version : String) (edges : Edges) where
  search_loop-Runs :
      (fuel : ℕ) (s : Search)
      → length s.pending + unseen edges s.seen < fuel
      → Runs version edges s (search_loop fuel version edges s)
  unfolding search_loop
  search_loop-Runs zero s enough = absurd (omega arith)
  search_loop-Runs (suc fuel) s enough = elim (List-cases s.pending) [
    | inl empty ↦
        let answer : false ≡ search_loop (suc fuel) version edges s =
          rw (empty, search_loop) refl in
        subst (Runs version edges s) answer (emptied s empty)
    | inr (u, rest, p) ↦
        elim (Option-cases (visit version (successors edges u) (record s { pending = rest }))) [
          | inl hit ↦
              let answer : true ≡ search_loop (suc fuel) version edges s =
                rw (p, search_loop, hit) refl in
              subst (Runs version edges s) answer (found s u rest p hit)
          | inr (t, v) ↦
              let grows =
                visit-Grows edges version u (successors edges u) (record s { pending = rest }) t
                  (λ x. (mem-successors edges u x).0) v in
              let smaller : length t.pending + unseen edges t.seen < fuel =
                omega (arith, grows.shrinks, ap (length {A = String}) p) in
              let answer : search_loop fuel version edges t
                  ≡ search_loop (suc fuel) version edges s =
                rw (p, search_loop, v) refl in
              subst (Runs version edges s) answer (
                expanded s t u rest (search_loop fuel version edges t) p v
                  (search_loop-Runs fuel t smaller))
        ]
  ]

-- The loop that the source enters when the version is no base version ends after finitely many
-- rounds, on any graph of upgrades, and its answer is that of the function.
pub can_install-Runs :
    (scripts : Scripts) (version : String)
    → mem version scripts.base_versions ≡ false
    → Runs version scripts.upgrade_edges
        (record { seen = scripts.base_versions; pending = scripts.base_versions })
        (can_install scripts version)
unfolding can_install
can_install-Runs scripts version away =
    let bases = scripts.base_versions in
    let edges = scripts.upgrade_edges in
    rw away (
      search_loop-Runs version edges (suc (length bases + length edges))
        (record { seen = bases; pending = bases }) (omega (arith, unseen-le-length edges bases)))
