-- ===== src/Extension.antt =====
-- `extension_can_install_version` of scripts/doctor-native-plugin-package.py: which versions of an
-- extension its SQL files can install. The dict of sets `upgrade_edges` is the list of its pairs.
pub mod Graph
mod Visit
pub mod Installs
pub mod Ends
use Prim.Native.Char.{code}
use libpglite.Prelude.{
  ℕ, suc, zero, ◌+◌, ◌≡◌, refl, String, ◌<>◌, str_eq, Bool, true, false, ◌||◌, Option, none, some,
  List, [], ◌∷◌, ◌++◌, ◌==◌, if◌then◌else◌, length, strip_prefix, mem,
}

-- `\.sql$`
ends_sql : String → Bool
ends_sql s = str_eq s ".sql" || str_eq s ".sql\n"

-- `(.+?)\.sql$`: the shortest text before the suffix, of one character at least; `.` does not
-- match a line feed.
until_sql : String → Option String
until_sql String.[] = none
until_sql (String.◌∷◌ c s) =
    let more = until_sql s in
    if code c == 10
    then none
    else if ends_sql s
    then some (String.◌∷◌ c String.[])
    else elim more [ none ↦ none | some v ↦ some (String.◌∷◌ c v) ]

-- `(?:--(.+?))?\.sql$`: the optional group is tried first. The inner option is the group.
rest_of : String → Option (Option String)
rest_of s =
    let plain : Option (Option String) = if ends_sql s then some none else none in
    elim (strip_prefix s "--") [
      | none ↦ plain
      | some t ↦ elim (until_sql t) [ none ↦ plain | some v ↦ some (some v) ]
    ]

-- `(.+?)(?:--(.+?))?\.sql$`
groups : String → Option (String × Option String)
groups String.[] = none
groups (String.◌∷◌ c s) =
    let more = groups s in
    if code c == 10 then none else elim (rest_of s) [
      | some target ↦ some (String.◌∷◌ c String.[], target)
      | none ↦ elim more [ none ↦ none | some (v, target) ↦ some (String.◌∷◌ c v, target) ]
    ]

-- `pattern.match(name)` with its two groups.
unfoldable pub match_sql : String → String → Option (String × Option String)
unfolding ends_sql until_sql rest_of groups strip_prefix
match_sql extension name = elim (strip_prefix name (extension <> "--")) [
  | none ↦ none
  | some rest ↦ groups rest
]

abbrev pub Edges : Type 0
Edges = List (String × String)

pub record Scripts : Type 0 where
  pub base_versions : List String
  pub upgrade_edges : Edges

add_script : Option (String × Option String) → Scripts → Scripts
add_script none scripts = scripts
add_script (some (source, none)) scripts = record scripts {
  base_versions = source ∷ scripts.base_versions;
}
add_script (some (source, some target)) scripts = record scripts {
  upgrade_edges = (source, target) ∷ scripts.upgrade_edges;
}

-- The loop over `sql_files`.
unfoldable pub read_scripts : String → List String → Scripts
unfolding add_script match_sql
read_scripts extension [] = record { base_versions = []; upgrade_edges = [] }
read_scripts extension (name ∷ names) =
    add_script (match_sql extension name) (read_scripts extension names)

-- `upgrade_edges.get(current, set())`
pub successors : Edges → String → List String
successors [] current = []
successors ((source, target) ∷ edges) current =
    let rest = successors edges current in if str_eq source current then target ∷ rest else rest

-- `pending` has the item that `pop` takes first.
pub record Search : Type 0 where
  pub seen : List String
  pub pending : List String

-- The inner loop; `none` is `return True`.
pub visit : String → List String → Search → Option Search
visit version [] s = some s
visit version (next ∷ nexts) s =
    let go_on = visit version nexts (
      if mem next s.seen then s else record { seen = next ∷ s.seen; pending = next ∷ s.pending }) in
    if str_eq next version then none else go_on

-- The outer loop, on fuel.
pub search_loop : ℕ → String → Edges → Search → Bool
search_loop zero version edges s = false
search_loop (suc fuel) version edges s = elim s.pending [
  | [] ↦ false
  | current ∷ rest ↦ elim (visit version (successors edges current) (record s { pending = rest })) [
    | none ↦ true
    | some s' ↦ search_loop fuel version edges s'
  ]
]

-- Each version is pending at most once: the base versions, and the targets of the edges.
unfoldable pub can_install : Scripts → String → Bool
unfolding search_loop visit successors mem
can_install scripts version =
    let bases = scripts.base_versions in
    let edges = scripts.upgrade_edges in
    mem version bases
    || search_loop (suc (length bases + length edges)) version edges
        (record { seen = bases; pending = bases })

unfoldable pub extension_can_install_version : String → List String → String → Bool
unfolding can_install read_scripts
extension_can_install_version extension sql_files version =
    can_install (read_scripts extension sql_files) version
