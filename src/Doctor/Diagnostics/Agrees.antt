-- ===== src/Doctor/Diagnostics/Agrees.antt =====
-- What passing symbol diagnostics say: the recorded tables agree with the plugin and with each
-- other.
use libpglite.Prelude.{
  ◌≡◌, sym, ap, ◌∙◌, ◌↔◌, String, true, not, some, List, ◌++◌, All, mem, keep, ends_with,
}
use libpglite.Prelude.Dict.Laws.{missing_from-empty}
use libpglite.Json.{Fields, object, text, get}
use libpglite.Check.Laws.{Passes, Passes-bind, Passes-seq, Passes-require}
use libpglite.Symbols.{is_version_node}
use libpglite.Manifest.{nonempty_lines, manifest_values, lines_of}
use libpglite.Doctor.{Doctor, abi_symbols, diagnostic_path}
use libpglite.Doctor.Laws.{
  Names, Passes-diagnostic_path, Passes-with_diagnostic, Passes-nonempty_lines,
}
use libpglite.Doctor.Diagnostics.{
  require_within, validate_freshness, validate_plugin_symbols,
  validate_linux_plugin_symbol_boundary, validate_exports, validate_link_manifest,
  validate_backend_symbols, validate_diagnostics,
}

-- Each symbol of `a` is one of `b`.
abbrev pub Within : List String → List String → Type 0
Within a b = All (λ symbol. mem symbol b ≡ true) a

Passes-require_within :
    (a b : List String) (message : String) → Passes (require_within a b message) tt ↔ Within a b
unfolding require_within
Passes-require_within a b message = (
  λ p. (missing_from-empty a b).0 ((Passes-require _ _).0 p),
  λ h. (Passes-require _ _).1 ((missing_from-empty a b).1 h),
)

module _ (d : Doctor) where
  -- The lines of the file that a diagnostic names.
  pub record Listed (diagnostics : Fields) (key : String) (symbols : List String) : Type 0 where
    pub path : String
    pub content : String
    pub names : Names d diagnostics key path
    pub reads : d.root.read_text path ≡ some content
    pub split : symbols ≡ lines_of content

  -- The tables of a package whose plugin has `actual` symbols.
  pub record IsConsistent (diagnostics : Fields) (actual : List String) : Type 0 where
    pub listed : List String
    pub exported : List String
    pub linked : List String
    pub link_manifest : String
    pub plugin_table : Listed diagnostics "pluginDefinedSymbols" listed
    pub export_table : Listed diagnostics "backendExportSymbols" exported
    pub link_names : Names d diagnostics "nativeLinkManifest" link_manifest
    pub link_values : Passes (manifest_values d.root link_manifest "backend_export_symbol") linked
    pub abi : Within abi_symbols listed
    pub complete : Within actual listed
    pub fresh : Within listed actual
    pub provided : Within exported actual
    pub to_manifest : Within linked exported
    pub from_manifest : Within exported linked
    pub boundary :
        (target : String)
        → get d.bundle "target" ≡ text target
        → ends_with target "linux-gnu" ≡ true
        → Within (keep (λ symbol. not (is_version_node symbol)) listed) (abi_symbols ++ exported)

  plugin_table-Listed :
      (diagnostics : Fields) (actual : List String)
      → get d.bundle "diagnostics" ≡ object diagnostics
      → d.actual_plugin_symbols ≡ some actual
      → Passes (validate_plugin_symbols d) tt
      → (listed : List String) × Listed diagnostics "pluginDefinedSymbols" listed
        × Within abi_symbols listed
        × Within actual listed
        × Within listed actual
  unfolding validate_plugin_symbols validate_freshness
  plugin_table-Listed diagnostics actual e known p =
      let (path, names, p1) = Passes-with_diagnostic d "pluginDefinedSymbols" diagnostics _ e p in
      let (listed, q, p2) = Passes-bind (nonempty_lines d.root path) _ _ p1 in
      let (content, reads, split) = Passes-nonempty_lines d.root path listed q in
      let (abi, p3) = (Passes-seq _ _).0 p2 in
      let (complete, fresh) = (Passes-seq _ _).0 (rw (known, validate_freshness) at p3) in
      (
        listed,
        record { path = path; content = content; names = names; reads = reads; split = split },
        (missing_from-empty abi_symbols listed).0 ((Passes-require _ _).0 abi),
        (Passes-require_within actual listed _).0 complete,
        (Passes-require_within listed actual _).0 fresh,
      )

  link_manifest-Within :
      (exported : List String) (link_manifest : String)
      → Passes (validate_link_manifest d exported (some link_manifest)) tt
      → (linked : List String) × Passes
          (manifest_values d.root link_manifest "backend_export_symbol")
          linked
        × Within linked exported
        × Within exported linked
  unfolding validate_link_manifest
  link_manifest-Within exported link_manifest p =
      let (linked, values, p1) =
        Passes-bind (manifest_values d.root link_manifest "backend_export_symbol") _ _ p in
      let (to, from) = (Passes-seq _ _).0 p1 in
      (
        linked,
        values,
        (Passes-require_within linked exported _).0 to,
        (Passes-require_within exported linked _).0 from,
      )

  boundary-Within :
      (diagnostics : Fields) (exported listed : List String)
      → get d.bundle "diagnostics" ≡ object diagnostics
      → Listed diagnostics "pluginDefinedSymbols" listed
      → Passes (validate_linux_plugin_symbol_boundary d exported) tt
      → (target : String) → get d.bundle "target" ≡ text target
      → ends_with target "linux-gnu" ≡ true
      → Within (keep (λ symbol. not (is_version_node symbol)) listed) (abi_symbols ++ exported)
  unfolding validate_linux_plugin_symbol_boundary
  boundary-Within diagnostics exported listed e table p target t linux =
      let (path, names, p1) =
        Passes-with_diagnostic d "pluginDefinedSymbols" diagnostics _ e
          (rw (t, linux, validate_linux_plugin_symbol_boundary) at p) in
      let (lines, q, p2) = Passes-bind (nonempty_lines d.root path) _ _ p1 in
      let (content, reads, split) = Passes-nonempty_lines d.root path lines q in
      let same_path : path ≡ table.path = cc (names.entry, table.names.entry) in
      let same_content : content ≡ table.content = cc (reads, table.reads, same_path) in
      let same : lines ≡ listed = split ∙ (ap lines_of same_content ∙ sym table.split) in
      rw same at ((Passes-require_within _ _ _).0 p2)

  -- The symbol diagnostics of a plugin whose symbols are known pass only if the recorded table is
  -- the plugin's own and has the whole ABI, every exported backend symbol is one of the plugin's,
  -- the exports are those of the link manifest, and on Linux the plugin has no other symbols than
  -- the ABI, the exports and version nodes.
  pub validate_diagnostics-IsConsistent :
      (diagnostics : Fields) (actual : List String)
      → get d.bundle "diagnostics" ≡ object diagnostics
      → d.actual_plugin_symbols ≡ some actual
      → Passes (validate_diagnostics d) tt
      → IsConsistent diagnostics actual
  unfolding validate_diagnostics validate_backend_symbols validate_exports
  validate_diagnostics-IsConsistent diagnostics actual e known p =
      let p0 = ((Passes-seq _ _).0 (rw (e, validate_diagnostics) at p)).1 in
      let (plugin_symbols, p1) = (Passes-seq _ _).0 ((Passes-seq _ _).0 p0).1 in
      let (listed, plugin_table, abi, complete, fresh) =
        plugin_table-Listed diagnostics actual e known plugin_symbols in
      let (o, q, p2) = Passes-bind (diagnostic_path d "backendExportSymbols") _ _ p1 in
      let (path, found, names) =
        Passes-diagnostic_path d "backendExportSymbols" diagnostics o e q in
      let (o', q', p3) = Passes-bind (diagnostic_path d "nativeLinkManifest") _ _ p2 in
      let (link_manifest, found', link_names) =
        Passes-diagnostic_path d "nativeLinkManifest" diagnostics o' e q' in
      let (exported, r, p4) =
        Passes-bind (nonempty_lines d.root path) _ _ (rw (found, found') at p3) in
      let (content, reads, split) = Passes-nonempty_lines d.root path exported r in
      let (exports, p5) = (Passes-seq _ _).0 p4 in
      let (link, bounded) = (Passes-seq _ _).0 p5 in
      let (linked, link_values, to_manifest, from_manifest) =
        link_manifest-Within exported link_manifest link in
      let provided = ((Passes-seq _ _).0 (rw (known, validate_exports) at exports)).0 in
      record {
        listed = listed;
        exported = exported;
        linked = linked;
        link_manifest = link_manifest;
        plugin_table = plugin_table;
        export_table = record {
          path = path;
          content = content;
          names = names;
          reads = reads;
          split = split;
        };
        link_names = link_names;
        link_values = link_values;
        abi = abi;
        complete = complete;
        fresh = fresh;
        provided = (Passes-require_within exported actual _).0 provided;
        to_manifest = to_manifest;
        from_manifest = from_manifest;
        boundary = boundary-Within diagnostics exported listed e plugin_table bounded;
      }
