-- ===== src/Extension/Installs.antt =====
-- `can_install` decides whether the SQL files install a version.
use mathlib.Core.Path.{subst}
use mathlib.Core.Logic.{⊎_elim}
use libpglite.Prelude.{
  List-cases, ℕ, zero, suc, ◌+◌, ◌<◌, ◌≡◌, refl, ◌↔◌, ◌⊎◌, inl, inr, String, true, false, List, [],
  ◌∷◌, some, arith, mem, length, ap, Bool-cases, Option-cases, eq_refl,
}
use libpglite.Extension.{Scripts, Search, successors, visit, search_loop, can_install}
use libpglite.Extension.Visit.{Grows, visit-Grows, visit-found, mem-cons}
use libpglite.Extension.Graph.{
  Edge, Installs, base, upgrade, mem-successors, unseen, unseen-le-length,
}

module _ (scripts : Scripts) (version : String) where
  record Inv (s : Search) : Type 0 where
    sound : (x : String) → mem x s.seen ≡ true → Installs scripts x
    queued : (x : String) → mem x s.pending ≡ true → mem x s.seen ≡ true
    misses : mem version s.seen ≡ false
    bases : (x : String) → mem x scripts.base_versions ≡ true → mem x s.seen ≡ true
    closed :
        (x y : String)
        → mem x s.seen ≡ true
        → Edge scripts.upgrade_edges x y
        → (mem x s.pending ≡ true) ⊎ (mem y s.seen ≡ true)

  head_seen :
      (s : Search) (u : String) (rest : List String)
      → s.pending ≡ u ∷ rest
      → Inv s
      → mem u s.seen ≡ true
  unfolding mem
  head_seen s u rest e h = h.queued u (rw e (ground (arith, eq_refl u)))

  expand-Grows :
      (s t : Search) (u : String) (rest : List String)
      → visit version (successors scripts.upgrade_edges u) (record s { pending = rest }) ≡ some t
      → Grows scripts.upgrade_edges version
          (successors scripts.upgrade_edges u)
          (record s { pending = rest })
          t
  expand-Grows s t u rest v =
      visit-Grows scripts.upgrade_edges version u (successors scripts.upgrade_edges u)
        (record s { pending = rest }) t (λ x. (mem-successors scripts.upgrade_edges u x).0) v

  expand-Inv :
      (s t : Search) (u : String) (rest : List String)
      → s.pending ≡ u ∷ rest
      → visit version (successors scripts.upgrade_edges u) (record s { pending = rest }) ≡ some t
      → Inv s
      → Inv t
  unfolding mem
  expand-Inv s t u rest e v h =
      let edges = scripts.upgrade_edges in
      let out = mem-successors edges u in
      let g = expand-Grows s t u rest v in
      let front : (x : String) → mem x s.pending ≡ true → (x ≡ u) ⊎ (mem x rest ≡ true) =
        λ x m. (mem-cons x u rest).0 (rw e at m) in
      record {
        sound = λ x m.
            ⊎_elim (h.sound x) (λ n. upgrade (h.sound u (head_seen s u rest e h)) ((out x).0 n))
              (g.only x m);
        queued = λ x m.
            ground (arith, g.queued x m, g.new x, g.old x, h.queued x, (mem-cons x u rest).1);
        misses = ground (arith, g.only version, g.misses, h.misses);
        bases = λ x m. g.old x (h.bases x m);
        closed = λ x y m edge.
            let behind : (mem x s.pending ≡ true)
                → (mem x t.pending ≡ true) ⊎ (mem y t.seen ≡ true) =
              λ q.
                ⊎_elim (λ same. inr (g.new y ((out y).1 (subst (λ z. Edge edges z y) same edge))))
                  (λ r. inl (g.keeps x r)) (front x q) in
            ⊎_elim (λ old. ⊎_elim behind (λ n. inr (g.old y n)) (h.closed x y old edge)) inl
              (g.waits x m);
      }

  search_loop_sound :
      (fuel : ℕ) (s : Search)
      → Inv s
      → search_loop fuel version scripts.upgrade_edges s ≡ true
      → Installs scripts version
  unfolding search_loop
  search_loop_sound zero s h e = absurd (cc)
  search_loop_sound (suc fuel) s h e = elim (List-cases s.pending) [
    | inl empty ↦ absurd (ground arith)
    | inr (u, rest, p) ↦
        elim (Option-cases
          (visit version (successors scripts.upgrade_edges u) (record s { pending = rest }))) [
            | inl found ↦ upgrade (h.sound u (head_seen s u rest p h)) (
                (mem-successors scripts.upgrade_edges u version).0
                  (visit-found scripts.upgrade_edges version _ _ found))
            | inr (t, v) ↦ search_loop_sound fuel t (expand-Inv s t u rest p v h) (ground arith)
          ]
  ]

  seen_all :
      (s : Search)
      → Inv s
      → s.pending ≡ []
      → (x : String) → Installs scripts x
      → mem x s.seen ≡ true
  unfolding mem
  seen_all s h e x (base b) = h.bases x b
  seen_all s h e x (upgrade {u} i edge) =
      ⊎_elim (λ q. absurd (ground (arith))) (λ n. n) (h.closed u x (seen_all s h e u i) edge)

  search_loop_complete :
      (fuel : ℕ) (s : Search)
      → Inv s
      → length s.pending + unseen scripts.upgrade_edges s.seen < fuel
      → Installs scripts version
      → search_loop fuel version scripts.upgrade_edges s ≡ true
  unfolding search_loop
  search_loop_complete zero s h m i = absurd (omega arith)
  search_loop_complete (suc fuel) s h m i = elim (List-cases s.pending) [
    | inl empty ↦ absurd (ground (arith, seen_all s h empty version i, h.misses))
    | inr (u, rest, p) ↦
        elim (Option-cases
          (visit version (successors scripts.upgrade_edges u) (record s { pending = rest }))) [
            | inl found ↦ rw (p, search_loop, found) refl
            | inr (t, v) ↦
                let smaller : length t.pending + unseen scripts.upgrade_edges t.seen < fuel =
                  omega (arith, (expand-Grows s t u rest v).shrinks, ap (length {A = String}) p) in
                ground (arith, search_loop_complete fuel t (expand-Inv s t u rest p v h) smaller i)
          ]
  ]

  start-Inv :
      mem version scripts.base_versions ≡ false
      → Inv (record { seen = scripts.base_versions; pending = scripts.base_versions })
  start-Inv h = record {
    sound = λ x m. base m;
    queued = λ x m. m;
    misses = h;
    bases = λ x m. m;
    closed = λ x y m edge. inl m;
  }

  -- The search answers whether the base scripts and upgrades among the files lead to the version,
  -- whatever the order of the files and however the upgrades form cycles.
  pub can_install_iff : (can_install scripts version ≡ true) ↔ Installs scripts version
  unfolding can_install
  can_install_iff = elim (Bool-cases (mem version scripts.base_versions)) [
    | inl here ↦ (λ h. base here, λ i. ground arith)
    | inr away ↦
        let bases = scripts.base_versions in
        let edges = scripts.upgrade_edges in
        let start : Search = record { seen = bases; pending = bases } in
        let enough : length bases + unseen edges bases < suc (length bases + length edges) =
          omega (arith, unseen-le-length edges bases) in
        (
          λ h.
              search_loop_sound (suc (length bases + length edges)) start (start-Inv away)
                (ground arith),
          λ i. ground (
            arith,
            search_loop_complete (suc (length bases + length edges)) start (start-Inv away) enough
                i,
          ),
        )
  ]
