-- ===== src/Fetch/Status.antt =====
-- What a run of the script vouches for, and a run that only verifies.
use libpglite.Prelude.{
  ◌≡◌, sym, All, Bool-cases, ◌⊎◌, inl, inr, ⊎_elim, String, Bool, true, Option, none, some, List,
  is_empty,
}
use libpglite.Json.Laws.{as_text-eq-some}
use libpglite.Json.{
  Fields, Value, text, as_text, get, has, is_text, as_object, as_list, as_nonempty_text,
}
use libpglite.Script.{lift, of_option, ask, require_some, each}
use libpglite.Script.Laws.{
  Returns, Returns-bind, Returns-if, Returns-pure, Returns-require_some, Keeps, Keeps-pure,
  Keeps-exit, Keeps-fail, Keeps-ask, Keeps-option, Keeps-bind, Keeps-if, Keeps-each, keeps_rules,
  Keeps-same, Returns-unique, Returns-lift, Rounds, each-Rounds,
}
use libpglite.System.{System}
use libpglite.Fetch.{fetch_dependency, sources_manifest, main}
use libpglite.Fetch.Inventory.{
  require_string, require_source, read_dependency, read_dependencies, read_document, read_inventory,
}
use libpglite.Fetch.Archive.Downloaded.{KeepsContent, IsApart}
use libpglite.Fetch.Archive.Verified.{IsVerified, fetch_archive-IsVerified}
use libpglite.Fetch.Archive.{fetch_archive}
use libpglite.Fetch.Archive.Cached.{fetch_archive-Keeps}
use libpglite.Fetch.Git.Pinned.{head, IsPinned, fetch_git-IsPinned, fetch_git-Keeps}

module _ {W : Type 0} (sys : System W) (out : String) where
  -- Where `git rev-parse HEAD` changes nothing, a run with `--verify-cache-only` leaves the world
  -- as it was for every dependency, whether it returns the entry, refuses or raises.
  pub fetch_dependency-Keeps :
      (dependency : Fields)
      → ((checkout : String) → Keeps (head sys checkout))
      → Keeps (fetch_dependency sys out true dependency)
  unfolding fetch_dependency
  fetch_dependency-Keeps dependency reads =
      Keeps-if (has dependency "gitCommit") _ _ (λ e. fetch_git-Keeps sys dependency out reads)
        (λ e. fetch_archive-Keeps sys dependency out)

  -- The world in which the entry was returned shows the locked archive or commit.
  abbrev pub IsLocked : Fields → Value → W → Type 0
  IsLocked dependency entry w =
      IsVerified sys out dependency entry w ⊎ IsPinned sys dependency out entry w

  -- A directory stands where the archive is to be.
  pub record IsBlocked (dependency : Fields) (w : W) : Type 0 where
    pub name : String
    pub archived : get dependency "archive" ≡ text name
    pub blocked : sys.is_dir (sys.join out name) w ≡ true

  -- The round of the run that returned the entry: the entry is locked in the world that the round
  -- left, unless a directory stood where the archive is to be when it began.
  pub record IsFetched (verify_only : Bool) (d : Fields) (entry : Value) (w w' : W) : Type 0 where
    pub ran : Returns (fetch_dependency sys out verify_only d) w entry w'
    pub locked : IsLocked d entry w' ⊎ IsBlocked d w

  -- The archive of the dependency, if it names one, is apart from every temporary directory.
  abbrev pub IsSeparate : Fields → Type 0
  IsSeparate dependency =
      (name : String) → get dependency "archive" ≡ text name → IsApart sys out name

module _ {W : Type 0} (sys : System W) where
  fetch_archive-named :
      (dependency : Fields) (out : String) (verify_only : Bool) (w : W) {entry : Value} {w' : W}
      → Returns (fetch_archive sys dependency out verify_only) w entry w'
      → (name : String) × (get dependency "archive" ≡ text name)
  unfolding fetch_archive
  fetch_archive-named dependency out verify_only w h =
      let (name, v, a, h1) =
        Returns-bind (lift (of_option (as_text (get dependency "archive")))) _ w h in
      (name, as_text-eq-some _ (Returns-lift _ a).0)

module _ {W : Type 0} where
  require_string-Keeps :
      (dependency : Fields) (key : String) → Keeps {W = W} (require_string dependency key)
  unfolding require_string
  require_string-Keeps dependency key =
      Keeps-option (as_nonempty_text (get dependency key)) _ _ (Keeps-exit _) (λ s. Keeps-pure tt)

  require_source-Keeps : (dependency : Fields) → Keeps {W = W} (require_source dependency)
  unfolding require_source
  require_source-Keeps dependency = search (keeps_rules, require_string-Keeps) depth 12

  read_dependency-Keeps : (v : Value) → Keeps {W = W} (read_dependency v)
  unfolding read_dependency
  read_dependency-Keeps v = Keeps-option (as_object v) _ _ Keeps-fail (λ dependency.
      Keeps-option (as_nonempty_text (get dependency "name")) _ _ (Keeps-exit _) (λ name.
        Keeps-bind (require_source dependency) _ (require_source-Keeps dependency)
          (λ u. Keeps-pure dependency)))

  read_dependencies-Keeps : (v : Value) → Keeps {W = W} (read_dependencies v)
  unfolding read_dependencies
  read_dependencies-Keeps v = Keeps-option (as_list v) _ _ (Keeps-exit _) (λ dependencies.
      Keeps-if (is_empty dependencies) _ _ (λ e. Keeps-exit _)
        (λ e. Keeps-each read_dependency dependencies read_dependency-Keeps))

  read_document-Keeps :
      (path : String) (document : Option Value) → Keeps {W = W} (read_document path document)
  unfolding read_document
  read_document-Keeps path none = Keeps-exit _
  read_document-Keeps path (some document) =
      Keeps-option (as_object document) _ _ Keeps-fail (λ inventory.
        Keeps-if (is_text (get inventory "format") "libpglite-native-dependency-inventory-v1") _ _
          (λ e. read_dependencies-Keeps (get inventory "dependencies")) (λ e. Keeps-exit _))

  read_inventory-Keeps : (sys : System W) (path : String) → Keeps (read_inventory sys path)
  unfolding read_inventory
  read_inventory-Keeps sys path =
      Keeps-bind (ask (sys.load_json path)) _ (Keeps-ask _) (read_document-Keeps path)

module _ {W : Type 0} (sys : System W) (out : String) where
  -- What a run that returns has done for the dependencies: the directory is made, the rounds follow
  -- one another, one for each dependency, and the world that they leave is written to.
  pub record IsComplete (inventory_path : String) (verify_only : Bool) (dependencies : List Fields)
      (entries : List Value) (w w' : W) : Type 0 where
    pub begun : W
    pub made : Returns (sys.mkdir out) w tt begun
    pub before : W
    pub fetched : Rounds (IsFetched sys out verify_only) dependencies entries begun before
    pub digest : String
    pub digested : sys.hash inventory_path before ≡ some digest
    pub written :
        Returns
          (sys.write_json
            (sys.join out "sources.json")
            (sources_manifest sys inventory_path digest entries))
          before
          tt
          w'

module _ {W : Type 0} (sys : System W) (out : String) (laws : KeepsContent sys) where
  fetch_archive-IsFetched :
      (verify_only : Bool) (dependency : Fields) (entry : Value) (w w' : W)
      → IsSeparate sys out dependency
      → Returns (fetch_archive sys dependency out verify_only) w entry w'
      → IsVerified sys out dependency entry w' ⊎ IsBlocked sys out dependency w
  fetch_archive-IsFetched verify_only dependency entry w w' separate h =
      let (name, named) = fetch_archive-named sys dependency out verify_only w h in
      elim (Bool-cases (sys.is_dir (sys.join out name) w)) [
        | inl there ↦ inr record { name = name; archived = named; blocked = there }
        | inr clear ↦ inl (
            fetch_archive-IsVerified sys out laws dependency verify_only name entry w w' named
              (separate name named) clear h)
      ]

  fetch_dependency-IsFetched :
      (verify_only : Bool) (dependency : Fields) (entry : Value) (w w' : W)
      → IsSeparate sys out dependency
      → Returns (fetch_dependency sys out verify_only dependency) w entry w'
      → IsFetched sys out verify_only dependency entry w w'
  unfolding fetch_dependency
  fetch_dependency-IsFetched verify_only dependency entry w w' separate h = record {
    ran = h;
    locked =
        ⊎_elim
          (λ (e, k). inl (inr (fetch_git-IsPinned sys dependency out verify_only entry w w' k)))
          (λ (e, k).
            ⊎_elim (λ v. inl (inl v)) (λ b. inr b)
              (fetch_archive-IsFetched verify_only dependency entry w w' separate k))
          (Returns-if (has dependency "gitCommit") _ _ h);
  }

  IsComplete-along :
      (inventory_path : String) (verify_only : Bool) (ds dependencies : List Fields)
      (es entries : List Value) (w v w' : W)
      → ds ≡ dependencies
      → es ≡ entries
      → v ≡ w'
      → IsComplete sys out inventory_path verify_only ds es w v
      → IsComplete sys out inventory_path verify_only dependencies entries w w'
  IsComplete-along inventory_path verify_only ds dependencies es entries w v w' listed described
        ends complete =
      rw (listed, described, ends) at complete

  -- A run that returns makes the directory, goes through the dependencies of the lock file round by
  -- round, and writes `sources.json` with the SHA-256 of the lock file and the entries of the
  -- rounds. Each round is a run of `fetch_dependency` in the world that the one before it has left,
  -- and leaves an archive with the locked SHA-256 or a checkout at the locked commit, unless a
  -- directory stood in place of the archive when it began. The archives have plain file names,
  -- which no temporary directory is given. Moving a file to a path that is no directory keeps its
  -- content, downloads make no directories, and making and removing a temporary directory keeps
  -- the paths outside it.
  pub main-IsComplete :
      (inventory_path : String) (verify_only : Bool) (dependencies : List Fields)
      (entries : List Value) (w w' : W)
      → Returns (read_inventory sys inventory_path) w dependencies w
      → All (IsSeparate sys out) dependencies
      → Returns (main sys inventory_path out verify_only) w entries w'
      → IsComplete sys out inventory_path verify_only dependencies entries w w'
  unfolding main
  main-IsComplete inventory_path verify_only dependencies entries w w' listed separate h =
      let (ds, v1, a1, h1) = Returns-bind (read_inventory sys inventory_path) _ w h in
      let (u, v2, a2, h2) = Returns-bind (sys.mkdir out) _ v1 h1 in
      let (es, v3, a3, h3) =
        Returns-bind (each (fetch_dependency sys out verify_only) ds) _ v2 h2 in
      let (digest, v4, a4, h4) = Returns-bind (require_some (sys.hash inventory_path)) _ v3 h3 in
      let (u', v5, a5, h5) =
        Returns-bind (sys.write_json (sys.join out "sources.json") _) _ v4 h4 in
      let (hashed, same) = Returns-require_some (sys.hash inventory_path) a4 in
      let (described, ends) = Returns-pure h5 in
      let start = Keeps-same _ w (read_inventory-Keeps sys inventory_path) a1 in
      let read : dependencies ≡ ds = Returns-unique (read_inventory sys inventory_path) listed a1 in
      let rounds =
        each-Rounds (IsFetched sys out verify_only) (IsSeparate sys out) _
          (λ d entry v v' s k. fetch_dependency-IsFetched verify_only d entry v v' s k) ds es v2 v3
          (rw read at separate) a3 in
      let result : IsComplete sys out inventory_path verify_only ds es w v5 = record {
        begun = v2;
        made = rw (sym start) at a2;
        before = v4;
        fetched = rw same at rounds;
        digest = digest;
        digested = rw same at hashed;
        written = a5;
      } in
      IsComplete-along inventory_path verify_only ds dependencies es entries w v5 w' (sym read)
        described ends result
