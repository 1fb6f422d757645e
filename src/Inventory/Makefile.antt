-- ===== src/Inventory/Makefile.antt =====
-- What the inventory reads of makefiles: the block of `SUBDIRS`, and assignments.
use Prim.Native.Char.{code}
use libpglite.Prelude.{
  String, Bool, true, false, none, some, List, [], ◌∷◌, ◌++◌, ◌||◌, ◌&&◌, ◌==◌, not, is_blank,
  starts_with, strip, strip_prefix, remove_prefix, words, if◌then◌else◌,
}
use libpglite.Prelude.Text.{lstrip}

-- `s.rstrip("\\")`
unfoldable pub rstrip_backslashes : String → String
rstrip_backslashes String.[] = String.[]
rstrip_backslashes (String.◌∷◌ c s) =
    let rest = rstrip_backslashes s in
    if is_blank rest && code c == b'\\' then String.[] else String.◌∷◌ c rest

-- The rounds of the loop: the words of the block that `SUBDIRS =` opens.
unfoldable pub subdirs_in : Bool → List String → List String
subdirs_in in_block [] = []
subdirs_in in_block (line ∷ lines) =
    let inside = subdirs_in true lines in
    let outside = subdirs_in false lines in
    let stripped = strip line in
    if starts_with stripped "SUBDIRS ="
    then words (strip (rstrip_backslashes (strip (remove_prefix stripped "SUBDIRS =")))) ++ inside
    else if in_block && (is_blank stripped || starts_with stripped "ifeq")
    then []
    else if not in_block
    then outside
    else words (strip (rstrip_backslashes stripped)) ++ inside

-- The words of a line that assigns to a variable: `^\s*NAME\s*OP\s*(.+?)\s*$`
unfoldable pub assigned : String → String → String → List String
assigned name operator line = elim (strip_prefix (lstrip line) name) [
  | none ↦ []
  | some rest ↦ elim (strip_prefix (lstrip rest) operator) [ none ↦ [] | some value ↦ words value ]
]

unfoldable pub assigned_in : String → String → List String → List String
assigned_in name operator [] = []
assigned_in name operator (line ∷ lines) =
    assigned name operator line ++ assigned_in name operator lines
