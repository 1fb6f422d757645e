-- ===== src/Audit.antt =====
-- scripts/audit-adr-closure.py: whether the records of the decisions are closed as they say.
pub mod Document
pub mod Closed
use libpglite.Prelude.{
  ℕ, String, ◌<>◌, Bool, true, false, Option, none, some, List, [], ◌∷◌, not, contains, before,
  if◌then◌else◌,
}
use libpglite.Prelude.Text.{split_once}
use libpglite.Check.{Check, os_error, pure, done, raise, lit, error, require, each, ◌>>=◌, ◌>>◌}
use libpglite.Doctor.Run.{exit_status}
use libpglite.Audit.Document.{status, has_section, has_bullet}
use libpglite.Json.{is_some_text}

-- The repository: the sorted paths of the open and the done records below docs/ with their stems,
-- the sorted paths of the tests, and the texts; `none` where a file cannot be read.
pub record Repository : Type 0 where
  pub readme : Option String
  pub preflight : Option String
  pub open_adrs : List String
  pub done_adrs : List String
  pub tests : List String
  pub read_text : String → Option String
  pub stem : String → String

abbrev pub listed : String → String → Bool
listed readme rel = contains readme ("`" <> (rel <> "`"))

unfoldable pub read : Option String → Check String
read none = raise os_error
read (some content) = pure content

-- `if not has_section: … elif not has_bullet: …`
unfoldable pub require_bullets : String → String → String → Check (Unit {0})
require_bullets rel content heading =
    if not (has_section content heading)
    then error (lit rel ∷ lit " is missing " ∷ lit heading ∷ [])
    else if not (has_bullet content heading)
    then error (lit rel ∷ lit " " ∷ lit heading ∷ lit " has no concrete bullets" ∷ [])
    else done

-- `"-".join(stem.split("-", 2)[:2])`, where there are two parts
unfoldable pub label_of : String → Option String
label_of stem = elim (split_once b'-' stem) [
  | none ↦ none
  | some (first, rest) ↦ some (first <> ("-" <> before b'-' rest))
]

abbrev pub is_entered : String → Option String → Bool
is_entered readme none = true
is_entered readme (some label) = contains readme label

module _ (repository : Repository) where
  unfoldable pub audit_open : String → String → Check (Unit {0})
  audit_open readme rel = do
    content ← read (repository.read_text rel)
    require (is_some_text (status content) "Open")
        (lit rel ∷ lit " must have Status: Open while it is in docs/" ∷ [])
    require (listed readme rel) (lit rel ∷ lit " is not listed in docs/README.md open records" ∷ [])
    require_bullets rel content "Acceptance Criteria"
    require_bullets rel content "Remaining Closure Criteria"
    require (is_entered readme (label_of (repository.stem rel)))
        (lit rel ∷ lit " has no current closure frontier entry" ∷ [])

  unfoldable pub audit_done : String → String → Check (Unit {0})
  audit_done readme rel = do
    content ← read (repository.read_text rel)
    require (is_some_text (status content) "Done")
        (lit rel ∷ lit " must have Status: Done while it is in docs/done/" ∷ [])
    require (listed readme rel) (lit rel ∷ lit " is not listed in docs/README.md done records" ∷ [])
    require_bullets rel content "Closing Evidence"
    require (not (has_section content "Remaining Closure Criteria"))
        (lit rel ∷ lit " must not have Remaining Closure Criteria after it is done" ∷ [])

  unfoldable pub audit_test : String → String → Check (Unit {0})
  audit_test preflight rel =
      require (contains preflight ("python3 " <> rel))
        (lit rel ∷ lit " is not wired into scripts/preflight-native-plugin-release.sh" ∷ [])

  unfoldable pub audit : Check (Unit {0})
  audit = do
    readme ← read repository.readme
    preflight ← read repository.preflight
    each repository.open_adrs (audit_open readme)
    each repository.done_adrs (audit_done readme)
    each repository.tests (audit_test preflight)

  -- `main`: the errors, or an exception, make the status 1.
  unfoldable pub main : ℕ
  main = exit_status audit
