-- ===== src/Describe/Complete.antt =====
-- The manifest of a prefix says that it is complete exactly if it is.
use libpglite.Prelude.{
  ◌≡◌, refl, sym, ap, ◌∙◌, ◌↔◌, String, true, false, some, List, [], ◌∷◌, ◌++◌, ◌&&◌, is_empty, map,
  All, is_empty-keep, arith,
}
use libpglite.Prelude.Options.{bind-eq-some}
use libpglite.Json.{Fields, Value, array, get, as_text}
use libpglite.Fetch.{items_of}
use libpglite.Doctor.{Doctor}
use libpglite.Doctor.Dependencies.{is_nonempty_list, validate_prefix_manifest}
use libpglite.Check.{require}
use libpglite.Check.Laws.{Passes, Passes-require, Passes-bind, bind-Passes}
use libpglite.Describe.Manifest.{
  Prefix, artifacts_of, packages_of, absent, probes, Described, describe_dependency, describe_all,
  missing_of, entries_of, manifest,
}

is_empty-map {ℓ κ} :
    {A : Type ℓ} {B : Type κ} (f : A → B) (xs : List A) → is_empty (map f xs) ≡ is_empty xs
is_empty-map f [] = refl
is_empty-map f (x ∷ xs) = refl

is_empty-append {ℓ} :
    {A : Type ℓ} (xs ys : List A) → is_empty (xs ++ ys) ≡ (is_empty xs && is_empty ys)
is_empty-append [] ys = refl
is_empty-append (x ∷ xs) ys = refl

missing-eq :
    (m : List String) (e : Value) (x : Described)
    → some record { missing = m; entry = e } ≡ some x
    → x.missing ≡ m
missing-eq m e x h = cc

some-eq : (xs ys : List Described) → some xs ≡ some ys → ys ≡ xs
some-eq xs ys h = cc

module _ (prefix : Prefix) where
  -- The artifacts of the dependency are in the prefix.
  pub record HasArtifacts (dependency : Fields) : Type 0 where
    pub artifacts : List String
    pub listed : artifacts_of dependency ≡ some artifacts
    pub present : All (λ rel. prefix.exists rel ≡ true) artifacts

  absent-empty :
      (rels : List String)
      → (is_empty (absent prefix rels) ≡ true) ↔ All (λ rel. prefix.exists rel ≡ true) rels
  unfolding absent
  absent-empty rels = is_empty-keep prefix.exists rels

  describe_dependency-missing :
      (dependency : Fields) (x : Described)
      → describe_dependency prefix dependency ≡ some x
      → (rels : List String) × (artifacts_of dependency ≡ some rels)
        × (is_empty x.missing ≡ is_empty (absent prefix rels))
  unfolding describe_dependency
  describe_dependency-missing dependency x h =
      let (name, named, h1) = bind-eq-some (as_text (get dependency "name")) _ h in
      let (rels, listed, h2) = bind-eq-some (artifacts_of dependency) _ h1 in
      let (names, asked, h3) = bind-eq-some (packages_of dependency) _ h2 in
      let (answers, probed, h4) = bind-eq-some (probes prefix names) _ h3 in
      (rels, listed, ap is_empty (missing-eq _ _ x h4) ∙ is_empty-map _ (absent prefix rels))

  describe_dependency-HasArtifacts :
      (dependency : Fields) (x : Described)
      → describe_dependency prefix dependency ≡ some x
      → (is_empty x.missing ≡ true) ↔ HasArtifacts dependency
  describe_dependency-HasArtifacts dependency x h =
      let (rels, listed, same) = describe_dependency-missing dependency x h in
      (
        λ e. record {
          artifacts = rels;
          listed = listed;
          present = (absent-empty rels).0 (sym same ∙ e);
        },
        λ has.
            let rels-eq : has.artifacts ≡ rels = cc (has.listed, listed) in
            same ∙ (absent-empty rels).1 (rw rels-eq at has.present),
      )

  pub describe_all-HasArtifacts :
      (dependencies : List Fields) (xs : List Described)
      → describe_all prefix dependencies ≡ some xs
      → (is_empty (missing_of xs) ≡ true) ↔ All HasArtifacts dependencies
  unfolding describe_all
  describe_all-HasArtifacts [] xs h =
      (λ e. tt, λ all. ap (λ ys. is_empty (missing_of ys)) (some-eq [] xs h))
  describe_all-HasArtifacts (dependency ∷ dependencies) xs h =
      let (y, first, h1) = bind-eq-some (describe_dependency prefix dependency) _ h in
      let (ys, others, h2) = bind-eq-some (describe_all prefix dependencies) _ h1 in
      let here = describe_dependency-HasArtifacts dependency y first in
      let there = describe_all-HasArtifacts dependencies ys others in
      let same =
        ap (λ zs. is_empty (missing_of zs)) (some-eq (y ∷ ys) xs h2)
        ∙ is_empty-append y.missing (missing_of ys) in
      (
        λ e. (here.0 (ground (arith, same)), there.0 (ground (arith, same))),
        λ all.
            let empty_here = here.1 all.0 in
            let empty_there = there.1 all.1 in ground (arith, same),
      )

  entries-nonempty :
      (dependencies : List Fields) (xs : List Described)
      → is_empty dependencies ≡ false
      → describe_all prefix dependencies ≡ some xs
      → is_nonempty_list (array (items_of (entries_of xs))) ≡ true
  unfolding describe_all items_of
  entries-nonempty [] xs nonempty h = absurd (cc nonempty)
  entries-nonempty (dependency ∷ dependencies) xs nonempty h =
      let (y, first, h1) = bind-eq-some (describe_dependency prefix dependency) _ h in
      let (ys, others, h2) = bind-eq-some (describe_all prefix dependencies) _ h1 in
      ap (λ zs. is_nonempty_list (array (items_of (entries_of zs)))) (some-eq (y ∷ ys) xs h2)

  -- The doctor accepts the manifest that is written for the dependencies of a lock file, which are
  -- some, exactly if each artifact of each of them exists in the prefix.
  pub manifest-Passes :
      (d : Doctor) (inventory digest : String) (dependencies : List Fields) (xs : List Described)
      → is_empty dependencies ≡ false
      → describe_all prefix dependencies ≡ some xs
      → Passes (validate_prefix_manifest d (manifest prefix inventory digest xs)) tt
        ↔ All HasArtifacts dependencies
  unfolding validate_prefix_manifest manifest get
  manifest-Passes d inventory digest dependencies xs nonempty h =
      let complete = describe_all-HasArtifacts dependencies xs h in
      (
        λ p.
            let (u, q, r) = Passes-bind (require _ _) _ tt p in
            let (u', q', r') = Passes-bind (require _ _) _ tt r in
            complete.0 ((Passes-require _ _).0 q'),
        λ all. bind-Passes (require _ _) _ tt tt ((Passes-require _ _).1 refl) (
            bind-Passes (require _ _) _ tt tt ((Passes-require _ _).1 (complete.1 all))
              ((Passes-require _ _).1 (entries-nonempty dependencies xs nonempty h))),
      )
