-- ===== src/Prelude/Text.antt =====
-- The operations of Python's `str` and `pathlib.PurePosixPath` that the scripts use. A text is a
-- native `String`, a list of characters; the character classes are those of Unicode where the
-- scripts use `strip`, `split`, `splitlines` and `\s`, and `lower` is the one of ASCII.
pub mod Laws
use Prim.Native.Nat.{ℕ, zero, suc}
use Prim.Native.Char.{Char, code}
use Prim.Native.String.{String, ◌++◌ as ◌<>◌}
use mathlib.Core.Bool.{Bool, true, false, not, ◌&&◌, ◌||◌}
use mathlib.Core.Option.{Option, none, some}
use mathlib.Core.List.{List, [], ◌∷◌}
use libpglite.Prelude.Tests.{leb, ◌==◌, if◌then◌else◌}
use text.Mathlib.Text.{◌==◌ as str_eq}

-- `str.isspace` of one character, which is also the class `\s`.
abbrev pub is_space : ℕ → Bool
is_space c =
    (leb 9 c && leb c 13)
    || (leb 28 c && leb c 32)
    || c == 0x85
    || c == 0xa0
    || c == 0x1680
    || (leb 0x2000 c && leb c 0x200a)
    || c == 0x2028
    || c == 0x2029
    || c == 0x202f
    || c == 0x205f
    || c == 0x3000

-- The line boundaries of `str.splitlines`.
abbrev pub is_line_break : ℕ → Bool
is_line_break c =
    (leb 10 c && leb c 13) || (leb 28 c && leb c 30) || c == 0x85 || c == 0x2028 || c == 0x2029

-- The class `[0-9a-f]`.
abbrev pub is_hex_digit : ℕ → Bool
is_hex_digit c = (leb b'0' c && leb c b'9') || (leb b'a' c && leb c b'f')

abbrev pub is_ascii_digit : ℕ → Bool
is_ascii_digit c = leb b'0' c && leb c b'9'

-- `not s`
abbrev pub is_blank : String → Bool
is_blank String.[] = true
is_blank (String.◌∷◌ c s) = false

-- `s.startswith(t)`
unfoldable pub starts_with : String → String → Bool
starts_with s String.[] = true
starts_with String.[] (String.◌∷◌ d t) = false
starts_with (String.◌∷◌ c s) (String.◌∷◌ d t) = code c == code d && starts_with s t

-- `s[len(t):]` where `s.startswith(t)`, and nothing elsewhere
unfoldable pub strip_prefix : String → String → Option String
strip_prefix s String.[] = some s
strip_prefix String.[] (String.◌∷◌ d t) = none
strip_prefix (String.◌∷◌ c s) (String.◌∷◌ d t) =
    let rest = strip_prefix s t in if code c == code d then rest else none

-- `s.removeprefix(t)`
unfoldable pub remove_prefix : String → String → String
unfolding strip_prefix
remove_prefix s t = elim (strip_prefix s t) [ none ↦ s | some rest ↦ rest ]

-- `s.endswith(t)`
unfoldable pub ends_with : String → String → Bool
ends_with String.[] t = str_eq String.[] t
ends_with (String.◌∷◌ c s) t = str_eq (String.◌∷◌ c s) t || ends_with s t

-- `t in s`
unfoldable pub contains : String → String → Bool
unfolding starts_with
contains String.[] t = starts_with String.[] t
contains (String.◌∷◌ c s) t = starts_with (String.◌∷◌ c s) t || contains s t

unfoldable pub lstrip : String → String
lstrip String.[] = String.[]
lstrip (String.◌∷◌ c s) = let rest = lstrip s in if is_space (code c) then rest else String.◌∷◌ c s

unfoldable pub rstrip : String → String
rstrip String.[] = String.[]
rstrip (String.◌∷◌ c s) =
    let rest = rstrip s in
    if is_blank rest && is_space (code c) then String.[] else String.◌∷◌ c rest

-- `s.strip()`
unfoldable pub strip : String → String
unfolding lstrip rstrip
strip s = rstrip (lstrip s)

-- Puts a character in front of the first piece.
abbrev pub on_first : Char → List String → List String
on_first c [] = String.◌∷◌ c String.[] ∷ []
on_first c (piece ∷ pieces) = String.◌∷◌ c piece ∷ pieces

-- `s.splitlines()`; the pair `\r\n` is one boundary
unfoldable pub splitlines : String → List String
unfolding starts_with
splitlines String.[] = []
splitlines (String.◌∷◌ c s) =
    let rest = splitlines s in
    if code c == 13 && starts_with s "\n"
    then rest
    else if is_line_break (code c)
    then "" ∷ rest
    else on_first c rest

-- `s.split(sep)` for a separator of one character
unfoldable pub split : ℕ → String → List String
split sep String.[] = "" ∷ []
split sep (String.◌∷◌ c s) =
    let rest = split sep s in if code c == sep then "" ∷ rest else on_first c rest

-- `s.split(sep, 1)` of a text with the separator in it
unfoldable pub split_once : ℕ → String → Option (String × String)
split_once sep String.[] = none
split_once sep (String.◌∷◌ c s) =
    let rest = split_once sep s in
    if code c == sep
    then some (String.[], s)
    else elim rest [ none ↦ none | some (before, after) ↦ some (String.◌∷◌ c before, after) ]

-- `s.split(sep, 1)[0]`
unfoldable pub before : ℕ → String → String
unfolding split_once
before sep s = elim (split_once sep s) [ none ↦ s | some (first, rest) ↦ first ]

-- The pieces that are not empty.
abbrev pub nonblank : List String → List String
nonblank [] = []
nonblank (s ∷ rest) = let more = nonblank rest in if is_blank s then more else s ∷ more

-- `s.split()`
unfoldable pub words_from : String → List String
words_from String.[] = "" ∷ []
words_from (String.◌∷◌ c s) =
    let rest = words_from s in if is_space (code c) then "" ∷ rest else on_first c rest

unfoldable pub words : String → List String
unfolding words_from
words s = nonblank (words_from s)

-- `sep.join(parts)`
abbrev pub join : String → List String → String
join sep [] = ""
join sep (s ∷ []) = s
join sep (s ∷ t ∷ rest) = s <> (sep <> join sep (t ∷ rest))

-- `re.fullmatch(r"[0-9a-f]{n}", s)`
unfoldable pub is_hex : ℕ → String → Bool
is_hex zero String.[] = true
is_hex zero (String.◌∷◌ c s) = false
is_hex (suc n) String.[] = false
is_hex (suc n) (String.◌∷◌ c s) = is_hex_digit (code c) && is_hex n s

abbrev digits_only : String → Bool
digits_only String.[] = true
digits_only (String.◌∷◌ c s) = is_ascii_digit (code c) && digits_only s

-- `re.fullmatch(r"[0-9]+", s)`
unfoldable pub is_digits : String → Bool
is_digits s = not (is_blank s) && digits_only s

-- `text in xs` of a list or a set of texts
unfoldable pub mem : String → List String → Bool
mem s [] = false
mem s (t ∷ ts) = str_eq s t || mem s ts

-- The code points of a text.
abbrev pub codes : String → List ℕ
codes String.[] = []
codes (String.◌∷◌ c s) = code c ∷ codes s

-- The character of `lower` that stands where `c` stands in `upper`.
abbrev pick : Char → String → String → Char
pick c (String.◌∷◌ u upper) (String.◌∷◌ l lower) =
    let rest = pick c upper lower in if code c == code u then l else rest
pick c _ _ = c

-- `s.lower()`, on the letters of ASCII
unfoldable pub lower : String → String
lower String.[] = String.[]
lower (String.◌∷◌ c s) =
    String.◌∷◌ (pick c "ABCDEFGHIJKLMNOPQRSTUVWXYZ" "abcdefghijklmnopqrstuvwxyz") (lower s)

-- `xs[-1]`
abbrev pub last_of : List String → String
last_of [] = ""
last_of (s ∷ []) = s
last_of (s ∷ t ∷ rest) = last_of (t ∷ rest)

-- The text from the last full stop on.
abbrev from_last_stop : String → Option String
from_last_stop String.[] = none
from_last_stop (String.◌∷◌ c s) = elim (from_last_stop s) [
  | some t ↦ some t
  | none ↦ if code c == b'.' then some (String.◌∷◌ c s) else none
]

without_dots : List String → List String
without_dots [] = []
without_dots (s ∷ rest) = let more = without_dots rest in if str_eq s "." then more else s ∷ more

-- `PurePosixPath(path).name`
unfoldable pub file_name : String → String
unfolding split without_dots
file_name path = last_of (nonblank (without_dots (split b'/' path)))

-- The suffix of a file name: not the first character, and not a final full stop.
name_suffix : String → String
name_suffix String.[] = ""
name_suffix (String.◌∷◌ c s) = elim (from_last_stop s) [
  | none ↦ ""
  | some t ↦ if str_eq t "." then "" else t
]

-- `PurePosixPath(path).suffix`
unfoldable pub suffix : String → String
unfolding name_suffix file_name
suffix path = name_suffix (file_name path)

-- `".." in PurePosixPath(path).parts`
unfoldable pub has_parent_part : String → Bool
unfolding split mem
has_parent_part path = mem ".." (split b'/' path)

-- `path.relative_to(root).as_posix()`; nothing where it raises
unfoldable pub relative_to : String → String → Option String
relative_to path root =
    if str_eq path root
    then some "."
    else strip_prefix path (if str_eq root "/" then root else root <> "/")
