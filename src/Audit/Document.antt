-- ===== src/Audit/Document.antt =====
-- The patterns that the audit looks for in a document. `^` stands after a line feed or at the
-- start, `$` before a line feed or at the end, and `\s` also matches line feeds.
use Prim.Native.Char.{code}
use libpglite.Prelude.{
  String, ◌<>◌, Bool, true, false, Option, none, some, List, [], ◌∷◌, ◌&&◌, ◌==◌, not, any,
  is_blank, is_space, starts_with, strip_prefix, if◌then◌else◌,
}
use libpglite.Prelude.Text.{lstrip}

-- The rests of the text from each place where `^` matches.
unfoldable pub line_starts_after : Bool → String → List String
line_starts_after true String.[] = String.[] ∷ []
line_starts_after false String.[] = []
line_starts_after true (String.◌∷◌ c s) = String.◌∷◌ c s ∷ line_starts_after (code c == 10) s
line_starts_after false (String.◌∷◌ c s) = line_starts_after (code c == 10) s

unfoldable pub line_starts : String → List String
line_starts s = line_starts_after true s

-- `\s*$`: what is left after the longest match, if there is one
unfoldable pub after_space : String → Option String
after_space String.[] = some String.[]
after_space (String.◌∷◌ c s) =
    let rest = after_space s in
    if is_space (code c)
    then (elim rest [
      | some t ↦ some t
      | none ↦ if code c == 10 then some (String.◌∷◌ c s) else none
    ])
    else none

-- `\S*`, and what follows
unfoldable pub word : String → String × String
word String.[] = (String.[], String.[])
word (String.◌∷◌ c s) =
    let rest = word s in
    if is_space (code c) then (String.[], String.◌∷◌ c s) else (String.◌∷◌ c rest.0, rest.1)

-- `Status:\s*(\S+)\s*$`
unfoldable pub status_at : String → Option String
status_at s = elim (strip_prefix s "Status:") [
  | none ↦ none
  | some rest ↦
      let (value, after) = word (lstrip rest) in
      if is_blank value
      then none
      else elim (after_space after) [ none ↦ none | some t ↦ some value ]
]

-- The first match of a list of places.
unfoldable pub first_match : (String → Option String) → List String → Option String
first_match f [] = none
first_match f (s ∷ ss) = let rest = first_match f ss in elim (f s) [ some t ↦ some t | none ↦ rest ]

unfoldable pub status : String → Option String
status content = first_match status_at (line_starts content)

-- `## heading\s*$`: what is left after the match
unfoldable pub heading_at : String → String → Option String
heading_at heading s = elim (strip_prefix s ("## " <> heading)) [
  | none ↦ none
  | some rest ↦ after_space rest
]

-- The text after the first such heading.
unfoldable pub section : String → String → Option String
section content heading = first_match (heading_at heading) (line_starts content)

unfoldable pub has_section : String → String → Bool
has_section content heading = elim (section content heading) [ none ↦ false | some rest ↦ true ]

-- `(.*?)(?=^## |\Z)`, where the flag says whether `^` matches here
unfoldable pub until_section : Bool → String → String
until_section starts String.[] = String.[]
until_section starts (String.◌∷◌ c s) =
    let rest = until_section (code c == 10) s in
    if starts && starts_with (String.◌∷◌ c s) "## " then String.[] else String.◌∷◌ c rest

-- The body begins before a line feed or at the end, so not where a heading begins.
unfoldable pub section_body : String → String → String
section_body content heading = elim (section content heading) [
  | none ↦ ""
  | some rest ↦ until_section false rest
]

-- `\s` matches here.
abbrev pub begins_space : String → Bool
begins_space String.[] = false
begins_space (String.◌∷◌ c s) = is_space (code c)

-- `-\s+\S` after `\s*`
unfoldable pub is_bullet : String → Bool
is_bullet s = elim (strip_prefix (lstrip s) "-") [
  | none ↦ false
  | some rest ↦ begins_space rest && not (is_blank (lstrip rest))
]

unfoldable pub has_bullet : String → String → Bool
has_bullet content heading = any is_bullet (line_starts (section_body content heading))
