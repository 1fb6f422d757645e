-- ===== src/Extension/Visit.antt =====
-- What the inner loop of the search does to the versions seen and pending.
use mathlib.Core.Path.{subst}
use libpglite.Prelude.{
  ◌+◌, ◌≤◌, ◌≡◌, refl, ◌↔◌, ◌⊎◌, inl, inr, String, str_eq, eq_iff, true, false, List, [], ◌∷◌, none,
  some, arith, if◌then◌else◌, mem, length, Bool-cases, eq_refl,
}
use libpglite.Extension.{Edges, Search, visit}
use libpglite.Extension.Graph.{Edge, unseen, unseen-lt}

pub mem-cons :
    (x y : String) (xs : List String) → (mem x (y ∷ xs) ≡ true) ↔ ((x ≡ y) ⊎ (mem x xs ≡ true))
unfolding mem
mem-cons x y xs = ground (arith, eq_iff x y)

module _ (edges : Edges) (version : String) where
  -- What one expansion of `nexts` does to the search.
  pub record Grows (nexts : List String) (s t : Search) : Type 0 where
    pub old : (x : String) → mem x s.seen ≡ true → mem x t.seen ≡ true
    pub new : (x : String) → mem x nexts ≡ true → mem x t.seen ≡ true
    pub only : (x : String) → mem x t.seen ≡ true → (mem x s.seen ≡ true) ⊎ (mem x nexts ≡ true)
    pub waits :
        (x : String) → mem x t.seen ≡ true → (mem x s.seen ≡ true) ⊎ (mem x t.pending ≡ true)
    pub keeps : (x : String) → mem x s.pending ≡ true → mem x t.pending ≡ true
    pub queued :
        (x : String) → mem x t.pending ≡ true → (mem x s.pending ≡ true) ⊎ (mem x nexts ≡ true)
    pub misses : mem version nexts ≡ false
    pub shrinks : length t.pending + unseen edges t.seen ≤ length s.pending + unseen edges s.seen

  offer : String → Search → Search
  offer next s =
      if mem next s.seen then s else record { seen = next ∷ s.seen; pending = next ∷ s.pending }

  Grows-cons :
      (u next : String) (nexts : List String) (s t : Search)
      → Edge edges u next
      → str_eq next version ≡ false
      → Grows nexts (offer next s) t
      → Grows (next ∷ nexts) s t
  unfolding offer mem
  Grows-cons u next nexts s t e ne g = record {
    old = λ x h. ground (arith, g.old x);
    new = λ x h. ground (arith, g.new x, g.old x, eq_iff x next);
    only = λ x h. ground (arith, g.only x h, eq_iff x next);
    waits = λ x h. ground (arith, g.waits x h, g.keeps x, eq_iff x next, eq_refl next);
    keeps = λ x h. ground (arith, g.keeps x);
    queued = λ x h. ground (arith, g.queued x h);
    misses = ground (arith, g.misses, eq_iff next version, eq_iff version next);
    shrinks = ground (arith, g.shrinks, unseen-lt edges u next s.seen e);
  }

  Grows-nil : (s : Search) → Grows [] s s
  unfolding mem
  Grows-nil s = record {
    old = λ x h. h;
    new = λ x h. cc;
    only = λ x h. inl h;
    waits = λ x h. inl h;
    keeps = λ x h. h;
    queued = λ x h. inl h;
    misses = refl;
    shrinks = omega arith;
  }

  pub visit-Grows :
      (u : String) (nexts : List String) (s t : Search)
      → ((x : String) → mem x nexts ≡ true → Edge edges u x)
      → visit version nexts s ≡ some t
      → Grows nexts s t
  unfolding visit offer mem
  visit-Grows u [] s t h e = let same : s ≡ t = cc in subst (Grows [] s) same (Grows-nil s)
  visit-Grows u (next ∷ nexts) s t h e = elim (Bool-cases (str_eq next version)) [
    | inl found ↦ absurd (ground arith)
    | inr other ↦
        Grows-cons u next nexts s t (h next (ground (arith, eq_refl next))) other
          (visit-Grows u nexts (offer next s) t (λ x m. h x (ground arith)) (ground arith))
  ]

  pub visit-found :
      (nexts : List String) (s : Search) → visit version nexts s ≡ none → mem version nexts ≡ true
  unfolding visit mem offer
  visit-found [] s e = cc
  visit-found (next ∷ nexts) s e =
      ground (arith, visit-found nexts (offer next s), eq_iff next version, eq_iff version next)
