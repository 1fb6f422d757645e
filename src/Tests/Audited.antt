-- ===== src/Tests/Audited.antt =====
-- The audit of an open and a done record.
use libpglite.Prelude.{◌≡◌, refl, some, [], ◌∷◌}
use libpglite.Prelude.Text
use libpglite.Prelude.Dict.{lookup}
use libpglite.Check
use libpglite.Doctor.Run.{exit_status, finish}
use libpglite.Audit
use libpglite.Audit.{Repository, main}
use libpglite.Audit.Document
use libpglite.Audit.Closed.{IsClosed, main-IsClosed}

abbrev repository : Repository
repository = record {
  readme = some "- `ADR-0002-B.md`\n- `done/ADR-0001-A.md`\n\nADR-0002: the frontier.\n";
  preflight = some "python3 scripts/test-a.py\n";
  open_adrs = "ADR-0002-B.md" ∷ [];
  done_adrs = "done/ADR-0001-A.md" ∷ [];
  tests = "scripts/test-a.py" ∷ [];
  read_text = λ path. lookup path (
      (
        "ADR-0002-B.md",
        "# B\n\nStatus: Open\n\n## Acceptance Criteria\n\n- works\n\n## Remaining Closure Criteria\n\n- all\n",
      )
      ∷ ("done/ADR-0001-A.md", "# A\n\nStatus: Done\n\n## Closing Evidence\n\n  - works\n")
      ∷ []);
  stem = λ path. "ADR-0002-B";
}

audited : main repository ≡ 0
unfolding Audit.main Audit.audit Audit.audit_open Audit.audit_done Audit.audit_test Audit.read
    Audit.require_bullets Audit.label_of Document.line_starts_after Document.line_starts
    Document.after_space Document.word Document.status_at Document.first_match Document.status
    Document.heading_at Document.section Document.has_section Document.until_section
    Document.section_body Document.is_bullet Document.has_bullet Text.strip_prefix Text.lstrip
    Text.starts_with Text.contains Text.split_once Text.before lookup exit_status finish
    Check.require Check.each Check.◌>>=◌
audited = refl

main-IsClosed_example : IsClosed repository
main-IsClosed_example = (main-IsClosed repository).0 audited
