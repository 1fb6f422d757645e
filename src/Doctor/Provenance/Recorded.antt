-- ===== src/Doctor/Provenance/Recorded.antt =====
-- What a passing `validate_build_provenance` says of the record of the build.
use libpglite.Prelude.{
  ◌≡◌, refl, ap, String, true, Option, none, some, [], ◌∷◌, All, All-map, file_name,
}
use libpglite.Prelude.Dict.{Dict, lookup, has_key}
use libpglite.Json.{Fields, object, text, get, as_text, as_nonempty_text}
use libpglite.Json.Laws.{is_some_text_iff}
use libpglite.Check.Laws.{
  Passes, Passes-bind, Passes-seq, Passes-each, Passes-require, Passes-each-require,
}
use libpglite.Manifest.{parse_key_value_file}
use libpglite.Timestamp.{is_utc_form}
use libpglite.Doctor.{Doctor}
use libpglite.Doctor.Laws.{Names, Passes-with_diagnostic}
use libpglite.Doctor.Provenance.{
  provenance_fields, provenance_files, require_value, require_some_value, validate_plugin_fields,
  name_of, validate_recorded_files, is_stamp, validate_values, validate_build_provenance,
}

-- The record agrees with the bundle on every value that the bundle gives as a text.
pub record IsRecorded (d : Doctor) (diagnostics plugin : Fields) : Type 0 where
  pub path : String
  pub values : Dict String
  pub named : Names d diagnostics "buildProvenance" path
  pub parsed : Passes (parse_key_value_file d.root path) values
  pub bundled :
      All
        (λ entry.
          (s : String)
          → as_nonempty_text (get d.bundle entry.1) ≡ some s
          → lookup entry.0 values ≡ some s)
        provenance_fields
  pub filename :
      (s : String) → get plugin "filename" ≡ text s → lookup "plugin_filename" values ≡ some s
  pub digest : (s : String) → get plugin "sha256" ≡ text s → lookup "plugin_sha256" values ≡ some s
  pub diagnosed :
      All
        (λ entry.
          (s : String)
          → get diagnostics entry.0 ≡ text s
          → lookup entry.1 values ≡ some (file_name s))
        provenance_files
  pub stamp : String
  pub stamped : lookup "packaged_at_utc" values ≡ some stamp
  pub utc : is_utc_form d.root.digit stamp ≡ true
  pub described :
      All
        (λ key. has_key key values ≡ true)
        ("uname" ∷ "rustc_begin" ∷ "rustc_end" ∷ "cc_begin" ∷ "cc_end" ∷ [])

module _ (values : Dict String) where
  Passes-require_some_value :
      (key : String) (o : Option String) (s : String)
      → Passes (require_some_value values key o) tt
      → o ≡ some s
      → lookup key values ≡ some s
  unfolding require_some_value require_value
  Passes-require_some_value key o s p e =
      let q : Passes (require_some_value values key (some s)) tt = rw e at p in
      (is_some_text_iff (lookup key values) s).0 ((Passes-require _ _).0 q)

module _ (d : Doctor) (values : Dict String) where
  plugin_recorded :
      (plugin : Fields) (key field : String) (s : String)
      → Passes (require_some_value values key (as_text (get plugin field))) tt
      → get plugin field ≡ text s
      → lookup key values ≡ some s
  plugin_recorded plugin key field s p e =
      Passes-require_some_value values key (as_text (get plugin field)) s p (ap as_text e)

  is_stamp-some :
      (o : Option String)
      → is_stamp d values o ≡ true
      → (s : String) × (o ≡ some s) × (is_utc_form d.root.digit s ≡ true)
  unfolding is_stamp
  is_stamp-some none h = absurd (cc h)
  is_stamp-some (some s) h = (s, refl, h)

  validate_plugin_fields-recorded :
      (plugin : Fields)
      → get d.bundle "plugin" ≡ object plugin
      → Passes (validate_plugin_fields d values) tt
      → Passes (require_some_value values "plugin_filename" (as_text (get plugin "filename"))) tt
        × Passes (require_some_value values "plugin_sha256" (as_text (get plugin "sha256"))) tt
  unfolding validate_plugin_fields
  validate_plugin_fields-recorded plugin f p =
      (Passes-seq _ _).0 (rw (f, validate_plugin_fields) at p)

  validate_recorded_files-each :
      (diagnostics : Fields)
      → get d.bundle "diagnostics" ≡ object diagnostics
      → Passes (validate_recorded_files d values) tt
      → All
          (λ entry.
            Passes
              (require_some_value values entry.1
                (name_of d values (as_text (get diagnostics entry.0))))
              tt)
          provenance_files
  unfolding validate_recorded_files
  validate_recorded_files-each diagnostics e p =
      (Passes-each provenance_files _).0
        ((Passes-seq _ _).0 (rw (e, validate_recorded_files) at p)).0

  diagnosed-recorded :
      (diagnostics : Fields) (entry : String × String)
      → Passes
          (require_some_value values entry.1 (name_of d values (as_text (get diagnostics entry.0))))
          tt
      → (s : String) → get diagnostics entry.0 ≡ text s
      → lookup entry.1 values ≡ some (file_name s)
  unfolding name_of
  diagnosed-recorded diagnostics entry p s is =
      Passes-require_some_value values entry.1
        (name_of d values (as_text (get diagnostics entry.0))) (file_name s) p
        (ap (λ v. name_of d values (as_text v)) is)

  bundled-recorded :
      (entry : String × String)
      → Passes (require_some_value values entry.0 (as_nonempty_text (get d.bundle entry.1))) tt
      → (s : String) → as_nonempty_text (get d.bundle entry.1) ≡ some s
      → lookup entry.0 values ≡ some s
  bundled-recorded entry p s is =
      Passes-require_some_value values entry.0 (as_nonempty_text (get d.bundle entry.1)) s p is

-- A passing validate_build_provenance means that the record of the build agrees with the bundle
-- wherever the bundle gives a text: on the target, the release, its mode, status and commit, on the
-- file name and checksum of the plugin, and on the file name of each diagnostic; that its time of
-- packaging has the form of a UTC timestamp, and that it says on what the build ran.
pub validate_build_provenance-IsRecorded :
    (d : Doctor) (diagnostics plugin : Fields)
    → get d.bundle "diagnostics" ≡ object diagnostics
    → get d.bundle "plugin" ≡ object plugin
    → Passes (validate_build_provenance d) tt
    → IsRecorded d diagnostics plugin
unfolding validate_build_provenance validate_values
validate_build_provenance-IsRecorded d diagnostics plugin e f p =
    let (path, names, q) = Passes-with_diagnostic d "buildProvenance" diagnostics _ e p in
    let (values, parsed, q1) = Passes-bind (parse_key_value_file d.root path) _ tt q in
    let (fields, q2) = (Passes-seq _ _).0 q1 in
    let (of_plugin, q3) = (Passes-seq (validate_plugin_fields d values) _).0 q2 in
    let (of_files, q4) = (Passes-seq (validate_recorded_files d values) _).0 q3 in
    let (is_stamped, tools) = (Passes-seq _ _).0 q4 in
    let (filename, digest) = validate_plugin_fields-recorded d values plugin f of_plugin in
    let files = validate_recorded_files-each d values diagnostics e of_files in
    let (stamp, stamped, utc) =
      is_stamp-some d values (lookup "packaged_at_utc" values)
        ((Passes-require _ _).0 is_stamped) in
    record {
      path = path;
      values = values;
      named = names;
      parsed = parsed;
      bundled =
          All-map (bundled-recorded d values) provenance_fields
            ((Passes-each provenance_fields _).0 fields);
      filename = λ s. plugin_recorded d values plugin "plugin_filename" "filename" s filename;
      digest = λ s. plugin_recorded d values plugin "plugin_sha256" "sha256" s digest;
      diagnosed = All-map (diagnosed-recorded d values diagnostics) provenance_files files;
      stamp = stamp;
      stamped = stamped;
      utc = utc;
      described = (Passes-each-require (λ key. has_key key values) _ _).0 tools;
    }
