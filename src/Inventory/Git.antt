-- ===== src/Inventory/Git.antt =====
-- What the inventory reads of git: the states of submodules, gitlinks, and `.gitmodules`; and the
-- provenance file of a materialised extension.
use Prim.Native.Char.{code}
use libpglite.Prelude.{
  String, Option, none, some, List, [], ◌∷◌, ◌&&◌, not, is_blank, is_space, is_hex, str_eq, strip,
  strip_prefix, split_once, words, if◌then◌else◌,
}
use libpglite.Prelude.Text.{lstrip}
use libpglite.Prelude.Dict.{Dict, lookup, insert}

-- One line of `git submodule status`: the path, with the state and the commit.
unfoldable pub status_line : String → Option (String × (String × String))
status_line String.[] = none
status_line (String.◌∷◌ state rest) = elim (words rest) [
  | [] ↦ none
  | commit ∷ more ↦ elim more [
    | [] ↦ none
    | path ∷ others ↦ some (path, (String.◌∷◌ state String.[], commit))
  ]
]

unfoldable pub statuses_in : List String → Dict (String × String) → Dict (String × String)
statuses_in [] statuses = statuses
statuses_in (line ∷ lines) statuses = statuses_in lines (elim (status_line line) [
  | none ↦ statuses
  | some (path, status) ↦ insert path status statuses
])

-- `\s+`
unfoldable pub after_spaces : String → Option String
after_spaces String.[] = none
after_spaces (String.◌∷◌ c s) = if is_space (code c) then some (lstrip s) else none

-- `^160000\s+commit\s+([0-9a-f]{40})\t(.+)$`: the path and the commit
unfoldable pub gitlink_line : String → Option (String × String)
gitlink_line line = elim (strip_prefix line "160000") [
  | none ↦ none
  | some s ↦ elim (after_spaces s) [
    | none ↦ none
    | some t ↦ elim (strip_prefix t "commit") [
      | none ↦ none
      | some u ↦ elim (after_spaces u) [
        | none ↦ none
        | some v ↦ elim (split_once 9 v) [
          | none ↦ none
          | some (commit, path) ↦
              if is_hex 40 commit && not (is_blank path) then some (path, commit) else none
        ]
      ]
    ]
  ]
]

unfoldable pub gitlinks_in : List String → Dict String → Dict String
gitlinks_in [] commits = commits
gitlinks_in (line ∷ lines) commits =
    gitlinks_in lines (elim (gitlink_line line) [
      | none ↦ commits
      | some (path, commit) ↦ insert path commit commits
    ])

-- The text before a suffix that ends it.
unfoldable pub strip_suffix : String → String → Option String
strip_suffix String.[] suffix = if is_blank suffix then some String.[] else none
strip_suffix (String.◌∷◌ c s) suffix =
    let more = strip_suffix s suffix in
    if str_eq (String.◌∷◌ c s) suffix
    then some String.[]
    else elim more [ none ↦ none | some rest ↦ some (String.◌∷◌ c rest) ]

-- `^\[submodule "(.+)"\]$`
unfoldable pub section_name : String → Option String
section_name line = elim (strip_prefix line "[submodule \"") [
  | none ↦ none
  | some rest ↦ elim (strip_suffix rest "\"]") [
    | none ↦ none
    | some name ↦ if is_blank name then none else some name
  ]
]

-- The sections of `.gitmodules`; `current` is the open one.
unfoldable pub sections_in : Option (Dict String) → List String → List (Dict String)
sections_in none [] = []
sections_in (some section) [] = section ∷ []
sections_in none (line ∷ lines) = elim (section_name (strip line)) [
  | none ↦ sections_in none lines
  | some name ↦ sections_in (some (("name", name) ∷ [])) lines
]
sections_in (some section) (line ∷ lines) = elim (section_name (strip line)) [
  | some name ↦ section ∷ sections_in (some (("name", name) ∷ [])) lines
  | none ↦ elim (split_once b'=' (strip line)) [
    | none ↦ sections_in (some section) lines
    | some (key, value) ↦ sections_in (some (insert (strip key) (strip value) section)) lines
  ]
]

unfoldable pub by_path : List (Dict String) → Dict (Dict String) → Dict (Dict String)
by_path [] metadata = metadata
by_path (section ∷ sections) metadata = by_path sections (elim (lookup "path" section) [
  | none ↦ metadata
  | some path ↦ if is_blank path then metadata else insert path section metadata
])

unfoldable pub raw_values : List String → Dict String → Dict String
raw_values [] values = values
raw_values (line ∷ lines) values =
    raw_values lines
      (elim (split_once b'=' line) [ none ↦ values | some (key, value) ↦ insert key value values ])
