-- ===== src/Materialize/Refused.antt =====
-- A dry run changes nothing.
use libpglite.Prelude.{String, Bool, true, Option, none, some, List, [], ◌∷◌, strip, strip_prefix}
use libpglite.Prelude.Text.{relative_to}
use libpglite.Script.{Message, ask}
use libpglite.Script.Laws.{
  Keeps, Keeps-pure, Keeps-exit, Keeps-ask, Keeps-if, Keeps-bind, Keeps-option, keeps_rules,
}
use libpglite.Prelude.Dict.{Dict, lookup}
use libpglite.Manifest.{parse_semicolon_fields}
use libpglite.System.{System}
use libpglite.Materialize.{
  Extension, required_field, expect, parse_extension, parse_lines, parse_other_extensions, main,
  provenance_file, provenance_text, is_materialized, materialize_at, destination_of,
  allowed_root_of, materialize_below, materialize_extension,
}

module _ {W : Type 0} (sys : System W) where
  is_materialized-Keeps : (path provenance : String) → Keeps (is_materialized sys path provenance)
  unfolding is_materialized
  is_materialized-Keeps path provenance = search keeps_rules depth 8

  materialize_at-Keeps :
      (destination : String) (extension : Extension)
      → Keeps (materialize_at sys destination extension true)
  unfolding materialize_at
  materialize_at-Keeps destination extension =
      Keeps-bind
        (is_materialized sys (sys.join destination provenance_file) (provenance_text extension)) _
        (is_materialized-Keeps _ _)
        (λ done. Keeps-if done _ _ (λ e. Keeps-pure tt) (λ e. Keeps-pure tt))

  materialize_below-Keeps :
      (destination : String) (extension : Extension) (below : Option String)
      → Keeps (materialize_below sys destination extension true below)
  unfolding materialize_below
  materialize_below-Keeps destination extension none = Keeps-exit _
  materialize_below-Keeps destination extension (some below) =
      materialize_at-Keeps destination extension

  materialize_extension-Keeps :
      (out_root : String) (extension : Extension)
      → Keeps (materialize_extension sys out_root true extension)
  unfolding materialize_extension
  materialize_extension-Keeps out_root extension =
      Keeps-bind (ask (destination_of sys out_root extension)) _ (Keeps-ask _) (λ destination.
        Keeps-bind (ask (allowed_root_of sys out_root)) _ (Keeps-ask _) (λ allowed_root.
          materialize_below-Keeps destination extension (relative_to destination allowed_root)))

  required_field-Keeps :
      (name : String) (fields : Dict String) (key : String)
      → Keeps {W = W} (required_field name fields key)
  unfolding required_field
  required_field-Keeps name fields key =
      Keeps-option (lookup key fields) _ _ (Keeps-exit _) (λ value. Keeps-pure value)

  pub expect-Keeps :
      (condition : Bool) (message : Message) → Keeps {W = W} (expect condition message)
  expect-Keeps condition message =
      Keeps-if condition _ _ (λ e. Keeps-pure tt) (λ e. Keeps-exit message)

  parse_extension-Keeps :
      (seen : List String) (entry : String × Dict String)
      → Keeps {W = W} (parse_extension seen entry)
  unfolding parse_extension
  parse_extension-Keeps seen (name, fields) =
      search (Keeps-bind, Keeps-pure, required_field-Keeps, expect-Keeps) depth 24

  parse_lines-Keeps : (lines seen : List String) → Keeps {W = W} (parse_lines lines seen)
  unfolding parse_lines
  parse_lines-Keeps [] seen = Keeps-pure []
  parse_lines-Keeps (line ∷ lines) seen =
      Keeps-option (strip_prefix (strip line) "other_extension=") _ _ (parse_lines-Keeps lines seen)
        (λ value.
          Keeps-bind (parse_extension seen (parse_semicolon_fields value)) _
            (parse_extension-Keeps seen _)
            (λ x.
              Keeps-bind (parse_lines lines (x.name ∷ seen)) _
                (parse_lines-Keeps lines (x.name ∷ seen)) (λ xs. Keeps-pure _)))

  pub parse_other_extensions-Keeps :
      (inventory : String) → Keeps (parse_other_extensions sys inventory)
  unfolding parse_other_extensions
  parse_other_extensions-Keeps inventory = search (keeps_rules, parse_lines-Keeps) depth 8

  -- A dry run leaves the world as it was, whatever the inventory holds and however the run ends.
  pub main-Keeps :
      (inventory_path out_path : String) → Keeps (main sys inventory_path out_path true)
  unfolding main
  main-Keeps inventory_path out_path =
      search (keeps_rules, parse_other_extensions-Keeps, expect-Keeps, materialize_extension-Keeps)
        depth 24
