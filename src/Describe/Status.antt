-- ===== src/Describe/Status.antt =====
-- The exit status of the describer.
use libpglite.Prelude.{
  ◌≡◌, ⊎_elim, String, Bool, true, false, some, List, [], ◌∷◌, is_empty, keep, All, arith,
}
use libpglite.Json.{Fields, object}
use libpglite.Script.{of_option, lift, require_some}
use libpglite.Script.Laws.{Returns, Returns-bind, Returns-if, Returns-pure, Returns-lift}
use libpglite.System.{System}
use libpglite.Describe.{describe, main, inventory_text}
use libpglite.Describe.Inventory.{read_inventory}
use libpglite.Describe.Manifest.{
  Prefix, Described, describe_all, missing_of, is_dynamic, dynamic_prefix_objects, manifest,
  exit_status,
}
use libpglite.Describe.Complete.{HasArtifacts, describe_all-HasArtifacts}

none-kept {ℓ} :
    {A : Type ℓ} (p : A → Bool) (xs : List A)
    → is_empty (keep p xs) ≡ true
    → All (λ x. p x ≡ false) xs
none-kept p [] h = tt
none-kept p (x ∷ xs) h = (ground arith, none-kept p xs (ground arith))

module _ (prefix : Prefix) where
  dynamic_prefix_objects-empty :
      is_empty (dynamic_prefix_objects prefix) ≡ true
      → All (λ file. is_dynamic file ≡ false) prefix.files
  unfolding dynamic_prefix_objects
  dynamic_prefix_objects-empty h = none-kept is_dynamic prefix.files h

  exit_status-eq-zero :
      (require_complete require_static : Bool) (xs : List Described)
      → exit_status prefix require_complete require_static xs ≡ 0
      → (require_complete ≡ true → is_empty (missing_of xs) ≡ true)
        × (require_static ≡ true → is_empty (dynamic_prefix_objects prefix) ≡ true)
  unfolding exit_status
  exit_status-eq-zero require_complete require_static xs h = (λ e. ground arith, λ e. ground arith)

module _ {W : Type 0} (sys : System W) (repo_root : String) (prefix : Prefix) where
  -- What holds when the describer has ended with status 0.
  pub record IsAccepted (inventory_path out : String) (require_complete require_static : Bool)
      (w w' : W) : Type 0 where
    pub found : prefix.is_dir ≡ true
    pub dependencies : List Fields
    pub opened : W
    pub listed : Returns (read_inventory sys inventory_path) w dependencies opened
    pub complete : require_complete ≡ true → All (HasArtifacts prefix) dependencies
    pub static : require_static ≡ true → All (λ file. is_dynamic file ≡ false) prefix.files
    pub described : List Described
    pub all_described : describe_all prefix dependencies ≡ some described
    pub digest : String
    pub before : W
    pub written :
        Returns
          (sys.write_json out
            (object (manifest prefix (inventory_text repo_root inventory_path) digest described)))
          before
          tt
          w'

  -- A run that ends with status 0 has found the prefix and read the lock file, and ends by writing
  -- the manifest; under `--require-complete` each artifact of each dependency exists in the prefix,
  -- and under `--require-static` none of the files of the prefix has the name of a dynamic object.
  pub main-IsAccepted :
      (inventory_path out : String) (require_complete require_static : Bool) (w w' : W)
      → Returns
          (main sys repo_root prefix inventory_path out require_complete require_static)
          w
          0
          w'
      → IsAccepted inventory_path out require_complete require_static w w'
  unfolding main describe
  main-IsAccepted inventory_path out require_complete require_static w w' h =
      ⊎_elim
        (λ (there, h0).
          let (dependencies, v1, a1, h1) =
            Returns-bind (read_inventory sys inventory_path) _ w h0 in
          let (xs, v2, a2, h2) =
            Returns-bind (lift (of_option (describe_all prefix dependencies))) _ v1 h1 in
          let (digest, v3, a3, h3) =
            Returns-bind (require_some (sys.hash inventory_path)) _ v2 h2 in
          let (u4, v4, a4, h4) = Returns-bind (sys.mkdir (sys.parent out)) _ v3 h3 in
          let (u5, v5, a5, h5) = Returns-bind (sys.write_json out _) _ v4 h4 in
          let (zero_status, ends) = Returns-pure h5 in
          let (complete, static) =
            exit_status-eq-zero prefix require_complete require_static xs zero_status in
          let all = (Returns-lift (describe_all prefix dependencies) a2).0 in
          record {
            found = there;
            dependencies = dependencies;
            opened = v1;
            listed = a1;
            complete = λ e. (describe_all-HasArtifacts prefix dependencies xs all).0 (complete e);
            static = λ e. dynamic_prefix_objects-empty prefix (static e);
            described = xs;
            all_described = all;
            digest = digest;
            before = v4;
            written = rw ends at a5;
          })
        (λ (missing, h0). absurd (cc (Returns-pure h0).0)) (Returns-if prefix.is_dir _ _ h)
