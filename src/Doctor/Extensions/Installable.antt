-- ===== src/Doctor/Extensions/Installable.antt =====
-- What a passing inventory says of the extensions that it lists.
use libpglite.Prelude.{
  ◌≡◌, refl, String, ◌<>◌, true, Option, none, some, List, [], ◌∷◌, All, All-map, map, is_blank,
  file_name,
}
use libpglite.Prelude.Dict.{Dict, lookup}
use libpglite.Json.{Fields, object, get}
use libpglite.Check.{Check, Message}
use libpglite.Check.Laws.{
  Passes, Passes-bind, Passes-seq, Passes-require, Passes-each, Passes-each-require, Passes-then,
  Passes-else, Passes-error,
}
use libpglite.Manifest.{read_text, nonempty_lines, parse_inventory_line, lines_of}
use libpglite.Extension.{read_scripts, extension_can_install_version}
use libpglite.Extension.Graph.{Installs}
use libpglite.Extension.Installs.{can_install_iff}
use libpglite.Doctor.{Doctor}
use libpglite.Doctor.Laws.{Names, Passes-with_diagnostic, Passes-read_text, Passes-nonempty_lines}
use libpglite.Doctor.Extensions.{
  control_value, native_module_exists, module_names, read_texts, validate_versions,
  validate_contrib_extension, validate_extension_status, validate_other_extension_inventory, named,
  validate_entry, validate_inventory_line, validate_extensions,
}

-- The inventory claims that the package has the extension.
pub data Lists (line extension : String) : Type 0 where
  contrib :
      {fields : Dict String}
      → parse_inventory_line line ≡ some ("contrib_extension", fields)
      → lookup "name" fields ≡ some extension
      → Lists line extension
  other :
      {fields : Dict String}
      → parse_inventory_line line ≡ some ("other_extension", fields)
      → lookup "name" fields ≡ some extension
      → lookup "status" fields ≡ some "present"
      → Lists line extension

module _ (d : Doctor) where
  -- The path of the control file of an extension.
  abbrev pub control_path : String → String
  control_path extension = "postgres/share/extension/" <> (extension <> ".control")

  -- The paths of its SQL files.
  abbrev pub sql_files : String → List String
  sql_files extension = d.root.glob "postgres/share/extension" (extension <> "--*.sql")

  -- `create extension` can find what it needs: the SQL scripts lead to the default version of the
  -- control file, and each native module that they name is there.
  pub record IsInstallable (extension : String) : Type 0 where
    pub control : String
    pub version : String
    pub sql_texts : List String
    pub reads : d.root.read_text (control_path extension) ≡ some control
    pub default_version : control_value control "default_version" ≡ some version
    pub installs : Installs (read_scripts extension (map file_name (sql_files extension))) version
    pub reads_sql : Passes (read_texts d.root (sql_files extension)) sql_texts
    pub modules :
        All
          (λ module_name. native_module_exists d.root "postgres/lib" module_name ≡ true)
          (module_names extension control sql_texts)

  versions-Installs :
      (extension : String) (paths : List String) (o : Option String)
      → Passes (validate_versions d extension paths o) tt
      → (version : String) × (o ≡ some version)
        × Installs (read_scripts extension (map file_name paths)) version
  unfolding validate_versions extension_can_install_version
  versions-Installs extension [] o p = absurd (Passes-error p)
  versions-Installs extension (path ∷ paths) none p = absurd (Passes-error p)
  versions-Installs extension (path ∷ paths) (some version) p =
      (version, refl, (can_install_iff _ version).0 ((Passes-require _ _).0 p))

  extension-IsInstallable :
      (extension : String)
      → Passes (validate_contrib_extension d extension) tt
      → IsInstallable extension
  unfolding validate_contrib_extension
  extension-IsInstallable extension p =
      let (there, p1) = Passes-then (d.root.is_file (control_path extension)) _ _ Passes-error p in
      let (control, reads, p2) = Passes-bind (read_text d.root (control_path extension)) _ _ p1 in
      let (versions, p3) = (Passes-seq _ _).0 p2 in
      let (sql_texts, reads_sql, p4) =
        Passes-bind (read_texts d.root (sql_files extension)) _ _ p3 in
      let (version, default_version, installs) =
        versions-Installs extension (sql_files extension) (control_value control "default_version")
          versions in
      record {
        control = control;
        version = version;
        sql_texts = sql_texts;
        reads = Passes-read_text d.root (control_path extension) control reads;
        default_version = default_version;
        installs = installs;
        reads_sql = reads_sql;
        modules =
            (Passes-each-require (native_module_exists d.root "postgres/lib") _
                (module_names extension control sql_texts)).0
              p4;
      }

  named-passes :
      (fields : Dict String) (name : String) (m : Message) (rest : String → Check (Unit {0}))
      → lookup "name" fields ≡ some name
      → Passes (named d fields m rest) tt
      → Passes (rest name) tt
  unfolding named
  named-passes fields name m rest e p =
      (Passes-else (is_blank name) _ _ Passes-error (rw (e, named) at p)).1

  status-IsInstallable :
      (extension : String)
      → Passes (validate_extension_status d extension (some "present")) tt
      → IsInstallable extension
  unfolding validate_extension_status
  status-IsInstallable extension p = extension-IsInstallable extension ((Passes-seq _ _).0 p).0

  line-IsInstallable :
      (line extension : String)
      → Passes (validate_inventory_line d line) tt
      → Lists line extension
      → IsInstallable extension
  unfolding validate_inventory_line validate_entry validate_other_extension_inventory
  line-IsInstallable line extension p (contrib {fields} e n) =
      extension-IsInstallable extension
        (named-passes fields extension _ _ n (rw (e, validate_inventory_line) at p))
  line-IsInstallable line extension p (other {fields} e n present) =
      let p1 = named-passes fields extension _ _ n (rw (e, validate_inventory_line) at p) in
      let p2 = ((Passes-seq _ _).0 ((Passes-seq _ _).0 ((Passes-seq _ _).0 p1).1).1).1 in
      status-IsInstallable extension (rw present at p2)

  -- Where the extension check passes, the inventory that the bundle names can be read, and every
  -- extension that one of its lines lists, as contrib extension or as present submodule, has a
  -- control file with a default version, SQL scripts that lead to this version, and the native
  -- modules it refers to.
  pub validate_extensions-IsInstallable :
      (diagnostics : Fields)
      → get d.bundle "diagnostics" ≡ object diagnostics
      → Passes (validate_extensions d) tt
      → (inventory content : String) × Names d diagnostics "extensionInventory" inventory
        × (d.root.read_text inventory ≡ some content)
        × All
            (λ line. (extension : String) → Lists line extension → IsInstallable extension)
            (lines_of content)
  unfolding validate_extensions
  validate_extensions-IsInstallable diagnostics e p =
      let (inventory, names, p1) =
        Passes-with_diagnostic d "extensionInventory" diagnostics _ e p in
      let (lines, q, p2) = Passes-bind (nonempty_lines d.root inventory) _ _ p1 in
      let (content, reads, split) = Passes-nonempty_lines d.root inventory lines q in
      (
        inventory,
        content,
        names,
        reads,
        All-map {P = λ line. Passes (validate_inventory_line d line) tt}
            (λ line passes extension. line-IsInstallable line extension passes) (lines_of content)
            (rw split at ((Passes-each lines _).0 p2)),
      )
