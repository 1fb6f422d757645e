-- ===== src/Tests/Machine.antt =====
-- A machine whose world is the content of its files: a file stands for its own digest, and a URL
-- that can be reached is a file of the world.
use libpglite.Prelude.{
  ◌≡◌, refl, String, ◌<>◌, Bool, true, false, Option, none, some, eq_iff, str_eq, if◌then◌else◌,
  Bool-cases, inl, inr,
}
use libpglite.Prelude.Dict.{Dict, lookup, insert, remove, lookup-insert, lookup-remove}
use libpglite.Json.{Value}
use libpglite.Script.{Result, returned, failed}
use libpglite.System.{System, Download, fetched, refused}
use libpglite.Fetch.Archive.Downloaded.{KeepsContent}
use libpglite.Materialize.Settled.{KeepsText}

abbrev pub World : Type 0
World = Dict String

abbrev pub has_file : String → World → Bool
has_file path w = elim (lookup path w) [ none ↦ false | some content ↦ true ]

abbrev pub put : String → Option String → World → Result (Unit {0}) × World
put path none w = (failed, w)
put path (some content) w = (returned tt, insert path content w)

-- A directory is a path with this content.
abbrev holds_directory : Option String → Bool
holds_directory none = false
holds_directory (some content) = str_eq content "directory"

abbrev pub has_directory : String → World → Bool
has_directory path w = holds_directory (lookup path w)

abbrev pub download : String → Option String → World → Download × World
download path none w = (refused "not found", w)
download path (some content) w =
    if str_eq content "directory"
    then (refused "is a directory", w)
    else (fetched, insert path content w)

-- The machine reads the document as every JSON file, and git answers the commit.
abbrev pub machine : Value → String → System World
machine document commit = record {
  join = λ a b. a <> ("/" <> b);
  parent = λ path. ".";
  resolve = λ path w. path;
  is_file = has_file;
  is_dir = has_directory;
  exists = has_file;
  read_text = lookup;
  load_json = λ path w. some document;
  hash = lookup;
  write_text = λ path content. put path (some content);
  write_json = λ path value. put path (some "json");
  mkdir = λ path. put path (some "directory");
  rmtree = λ path w. (returned tt, remove path w);
  unlink = λ path w. (returned tt, remove path w);
  move = λ a b w. put b (lookup a w) w;
  make_tempdir = λ out w. (returned (out <> "/tmp"), w);
  remove_tempdir = λ tempdir w. (returned tt, w);
  urlretrieve = λ url path w. download path (lookup url w) w;
  run = λ cwd command w. (some record { success = true; stdout = commit; stderr = "" }, w);
}

put-lookup :
    (path : String) (content : Option String) (w w' : World)
    → put path content w ≡ (returned tt, w')
    → lookup path w' ≡ content
put-lookup path none w w' h = absurd (cc h)
put-lookup path (some content) w w' h =
    let ends : insert path content w ≡ w' = cc h in rw ends at (inserted)
  where
    inserted : lookup path (insert path content w) ≡ some content
    inserted = rw (lookup-insert path path content w, (eq_iff path path).1 refl) refl

has_file-lookup :
    (path : String) (content : String) (w : World)
    → lookup path w ≡ some content
    → has_file path w ≡ true
has_file-lookup path content w e = rw (e, has_file) refl

holds-insert :
    (key content path : String) (w : World)
    → holds_directory (some content) ≡ false
    → has_directory path w ≡ false
    → has_directory path (insert key content w) ≡ false
holds-insert key content path w kept clear =
    rw (lookup-insert key path content w) (by_key (str_eq key path))
  where
    by_key : (b : Bool) → holds_directory (if b then some content else lookup path w) ≡ false
    by_key true = kept
    by_key false = clear

download-has_directory :
    (tmp path : String) (source : Option String) (w : World)
    → has_directory path w ≡ false
    → has_directory path (download tmp source w).1 ≡ false
download-has_directory tmp path none w clear = clear
download-has_directory tmp path (some content) w clear =
    elim (Bool-cases (str_eq content "directory")) [
      | inl e ↦ rw e clear
      | inr e ↦ rw e (holds-insert tmp content path w e clear)
    ]

remove-has_directory :
    (key path : String) (w : World)
    → has_directory path w ≡ false
    → has_directory path (remove key w) ≡ false
remove-has_directory key path w clear = rw (lookup-remove key path w) (by_key (str_eq key path))
  where
    by_key : (b : Bool) → holds_directory (if b then none else lookup path w) ≡ false
    by_key true = refl
    by_key false = clear

module _ (document : Value) (commit : String) where
  pub machine-KeepsContent : KeepsContent (machine document commit)
  machine-KeepsContent = record {
    moves = λ tmp archive w w' clear h. put-lookup archive (lookup tmp w) w w' h;
    downloads = λ address tmp archive w clear.
        download-has_directory tmp archive (lookup address w) w clear;
    unlinks = λ tmp archive w w' clear h.
        let ends : remove tmp w ≡ w' = cc h in
        rw ends at (remove-has_directory tmp archive w clear);
    makes =
        λ out name tempdir w w' plain clear h outside. let same : w ≡ w' = cc h in rw same at clear;
    cleans = λ out name tempdir w w' plain outside h. let same : w ≡ w' = cc h in rw same refl;
  }

  pub machine-KeepsText : KeepsText (machine document commit)
  machine-KeepsText = record {
    present = λ path content w w' h.
        has_file-lookup path content w' (put-lookup path (some content) w w' h);
    read = λ path content w w' h. put-lookup path (some content) w w' h;
  }
