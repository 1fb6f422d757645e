-- ===== src/Doctor/Laws.antt =====
-- What a passing call of the shared methods says.
use libpglite.Prelude.{◌≡◌, sym, String, true, false, Option, some, List, arith, ap, ◌∙◌}
use libpglite.Json.{Fields, Value, object, text, get, as_object, as_nonempty_text}
use libpglite.Json.Laws.{as_object-eq-some, as_nonempty_text-eq-some}
use libpglite.Check.{Check, Message}
use libpglite.Check.Laws.{
  Passes, Passes-bind, Passes-pure, Passes-error, not-Passes-error_then, Passes-some, Passes-then,
}
use libpglite.Package.{Package}
use libpglite.Manifest.{read_text, nonempty_lines, lines_of}
use libpglite.Doctor.{
  Doctor, is_production, error_if_strict, file_of, diagnostic_path, with_diagnostic, with_document,
}

-- A finding that is an error in a strict run passes only where the run is not strict.
pub Passes-error_if_strict :
    (d : Doctor) (m : Message)
    → Passes (error_if_strict d m) tt
    → (d.strict_relocatable ≡ false) × (is_production d.bundle ≡ false)
unfolding error_if_strict
Passes-error_if_strict d m p = ground (arith, p.clean)

-- The file that a diagnostic key names: its path, and that it is a file of the package.
pub record Names (d : Doctor) (diagnostics : Fields) (key path : String) : Type 0 where
  pub entry : get diagnostics key ≡ text path
  pub there : d.root.is_file path ≡ true

Passes-file_of :
    (root : Package) (value : Value) (key : String) (o : Option String)
    → Passes (file_of root value key) o
    → (path : String) × (o ≡ some path) × (value ≡ text path) × (root.is_file path ≡ true)
unfolding file_of
Passes-file_of root value key o p =
    let (path, found, q) = Passes-some (as_nonempty_text value) _ _ (not-Passes-error_then _ _) p in
    let (there, r) = Passes-then (root.is_file path) _ _ (not-Passes-error_then _ _) q in
    (path, sym (Passes-pure r), (as_nonempty_text-eq-some value found).0, there)

pub Passes-diagnostic_path :
    (d : Doctor) (key : String) (diagnostics : Fields) (o : Option String)
    → get d.bundle "diagnostics" ≡ object diagnostics
    → Passes (diagnostic_path d key) o
    → (path : String) × (o ≡ some path) × Names d diagnostics key path
unfolding diagnostic_path
Passes-diagnostic_path d key diagnostics o e p =
    let (path, is_some, entry, there) =
      Passes-file_of d.root (get diagnostics key) key o (rw (e, diagnostic_path) at p) in
    (path, is_some, record { entry = entry; there = there })

pub Passes-with_diagnostic :
    (d : Doctor) (key : String) (diagnostics : Fields) (rest : String → Check (Unit {0}))
    → get d.bundle "diagnostics" ≡ object diagnostics
    → Passes (with_diagnostic d key rest) tt
    → (path : String) × Names d diagnostics key path × Passes (rest path) tt
unfolding with_diagnostic
Passes-with_diagnostic d key diagnostics rest e p =
    let (o, q, r) = Passes-bind (diagnostic_path d key) _ tt p in
    let (path, is_some, names) = Passes-diagnostic_path d key diagnostics o e q in
    (path, names, rw is_some at r)

pub Passes-with_document :
    (root : Package) (path : String) (unreadable not_object : Message)
    (rest : Fields → Check (Unit {0}))
    → Passes (with_document root path unreadable not_object rest) tt
    → (fields : Fields) × (root.load_json path ≡ some (object fields)) × Passes (rest fields) tt
unfolding with_document
Passes-with_document root path unreadable not_object rest p =
    let (document, loads, q) = Passes-some (root.load_json path) _ _ Passes-error p in
    let (fields, is_object, r) = Passes-some (as_object document) _ _ Passes-error q in
    (fields, loads ∙ ap some (as_object-eq-some document is_object), r)

-- A text that was read without an error is the content of the file.
pub Passes-read_text :
    (root : Package) (path content : String)
    → Passes (read_text root path) content
    → root.read_text path ≡ some content
unfolding read_text
Passes-read_text root path content p =
    let (found, is_some, q) = Passes-some (root.read_text path) _ _ (not-Passes-error_then _ _) p in
    is_some ∙ ap some (Passes-pure q)

pub Passes-nonempty_lines :
    (root : Package) (path : String) (lines : List String)
    → Passes (nonempty_lines root path) lines
    → (content : String) × (root.read_text path ≡ some content) × (lines ≡ lines_of content)
unfolding nonempty_lines
Passes-nonempty_lines root path lines p =
    let (content, q, r) = Passes-bind (read_text root path) _ _ p in
    (content, Passes-read_text root path content q, sym (Passes-pure r))
