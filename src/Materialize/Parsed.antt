-- ===== src/Materialize/Parsed.antt =====
-- What the extensions of an accepted inventory have in common.
use libpglite.Prelude.{
  ◌≡◌, subst, String, ◌<>◌, Bool, true, false, List, [], ◌∷◌, not, All, mem, strip, strip_prefix,
  splitlines, str_eq, eq_iff, is_hex, is_blank, arith, Option-cases, inl, inr,
}
use libpglite.Prelude.Dict.{Dict}
use libpglite.Script.{Message, require_some}
use libpglite.Script.Laws.{Returns, Returns-bind, Returns-pure, Returns-then, not-Returns-exit}
use libpglite.System.{System}
use libpglite.Manifest.{parse_semicolon_fields}
use libpglite.Materialize.{
  Extension, required_field, expect, parse_extension, parse_lines, parse_other_extensions,
}

-- The entry says where its source stands and pins a full commit of a repository.
pub record IsWellFormed (extension : Extension) : Type 0 where
  pub sourced : extension.source ≡ "pglite/other_extensions/" <> extension.name
  pub pinned : is_hex 40 extension.commit ≡ true
  pub located : is_blank extension.url ≡ false

-- No name stands twice, nor among the names seen.
abbrev pub AreFresh : List String → List Extension → Type 0
AreFresh seen [] = Unit
AreFresh seen (extension ∷ extensions) =
    (mem extension.name seen ≡ false) × AreFresh (extension.name ∷ seen) extensions

Accepted-along :
    (seen : List String) (e e' : Extension)
    → e ≡ e'
    → (mem e.name seen ≡ false) × IsWellFormed e
    → (mem e'.name seen ≡ false) × IsWellFormed e'
Accepted-along seen e e' same accepted = rw same at accepted

Parsed-along :
    (seen : List String) (es es' : List Extension)
    → es ≡ es'
    → All IsWellFormed es × AreFresh seen es
    → All IsWellFormed es' × AreFresh seen es'
Parsed-along seen es es' same parsed =
    subst (λ xs. All IsWellFormed xs × AreFresh seen xs) same parsed

module _ {W : Type 0} where
  expect-Returns :
      (condition : Bool) (message : Message) (w : W) {w' : W}
      → Returns (expect condition message) w tt w'
      → condition ≡ true
  expect-Returns condition message w h = (Returns-then condition _ _ not-Returns-exit h).0

  parse_extension-IsWellFormed :
      (seen : List String) (name : String) (fields : Dict String) (extension : Extension) (w w' : W)
      → Returns (parse_extension seen (name, fields)) w extension w'
      → (mem extension.name seen ≡ false) × IsWellFormed extension
  unfolding parse_extension
  parse_extension-IsWellFormed seen name fields extension w w' h =
      let (u, v1, fresh, h1) = Returns-bind (expect (not (mem name seen)) _) _ w h in
      let (source, v2, a2, h2) = Returns-bind (required_field name fields "source") _ v1 h1 in
      let (u', v3, sourced, h3) = Returns-bind (expect (str_eq source _) _) _ v2 h2 in
      let (commit, v4, a4, h4) =
        Returns-bind (required_field name fields "submodule_commit") _ v3 h3 in
      let (u'', v5, pinned, h5) = Returns-bind (expect (is_hex 40 commit) _) _ v4 h4 in
      let (url, v6, a6, h6) = Returns-bind (required_field name fields "submodule_url") _ v5 h5 in
      let (u''', v7, located, h7) = Returns-bind (expect (not (is_blank url)) _) _ v6 h6 in
      let new = expect-Returns (not (mem name seen)) _ w fresh in
      let here = (eq_iff source _).0 (expect-Returns (str_eq source _) _ v2 sourced) in
      let full = expect-Returns (is_hex 40 commit) _ v4 pinned in
      let there = expect-Returns (not (is_blank url)) _ v6 located in
      let result : (mem name seen ≡ false)
          × IsWellFormed record { name = name; source = source; commit = commit; url = url } =
        (ground arith, record { sourced = here; pinned = full; located = ground arith }) in
      Accepted-along seen _ extension (Returns-pure h7).0 result

  parse_lines-AreWellFormed :
      (lines seen : List String) (extensions : List Extension) (w w' : W)
      → Returns (parse_lines lines seen) w extensions w'
      → All IsWellFormed extensions × AreFresh seen extensions
  unfolding parse_lines
  parse_lines-AreWellFormed [] seen extensions w w' h =
      let result : All IsWellFormed [] × AreFresh seen [] = (tt, tt) in
      Parsed-along seen [] extensions (Returns-pure h).0 result
  parse_lines-AreWellFormed (line ∷ lines) seen extensions w w' h =
      elim (Option-cases (strip_prefix (strip line) "other_extension=")) [
        | inl e ↦ parse_lines-AreWellFormed lines seen extensions w w' (rw (e, parse_lines) at h)
        | inr (value, e) ↦
            let (x, v, first, h1) =
              Returns-bind (parse_extension seen (parse_semicolon_fields value)) _ w
                (rw (e, parse_lines) at h) in
            let (xs, v', others, h2) = Returns-bind (parse_lines lines (x.name ∷ seen)) _ v h1 in
            let (fresh, formed) =
              parse_extension-IsWellFormed seen (parse_semicolon_fields value).0
                (parse_semicolon_fields value).1 x w v first in
            let (all, distinct) = parse_lines-AreWellFormed lines (x.name ∷ seen) xs v v' others in
            let result : All IsWellFormed (x ∷ xs) × AreFresh seen (x ∷ xs) =
              ((formed, all), (fresh, distinct)) in
            Parsed-along seen (x ∷ xs) extensions (Returns-pure h2).0 result
      ]

  -- The extensions of an inventory that is accepted have different names, and each has its source
  -- at `pglite/other_extensions/` and its name, a commit of 40 hexadecimal digits and a URL.
  pub parse_other_extensions-AreWellFormed :
      (sys : System W) (inventory : String) (extensions : List Extension) (w w' : W)
      → Returns (parse_other_extensions sys inventory) w extensions w'
      → All IsWellFormed extensions × AreFresh [] extensions
  unfolding parse_other_extensions
  parse_other_extensions-AreWellFormed sys inventory extensions w w' h =
      let (content, v, a, h1) = Returns-bind (require_some (sys.read_text inventory)) _ w h in
      parse_lines-AreWellFormed (splitlines content) [] extensions v w' h1
