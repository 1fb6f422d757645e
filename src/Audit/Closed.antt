-- ===== src/Audit/Closed.antt =====
-- What an audit that ends with status 0 says of the records.
use libpglite.Prelude.{
  ◌≡◌, ◌↔◌, refl, ap, String, ◌<>◌, true, false, Option, none, some, All, All-map, arith, contains,
  Bool-cases, Option-cases, inl, inr,
}
use libpglite.Check.{ok}
use libpglite.Check.Laws.{
  Passes, Passes-bind, bind-Passes, Passes-seq, Passes-require, Passes-each, Passes-each-require,
  Passes-error, Passes-done, Passes-pure, not-Passes-raise,
}
use libpglite.Prelude.{strip_prefix}
use libpglite.Prelude.Text.{lstrip}
use libpglite.Json.Laws.{is_some_text_iff}
use libpglite.Doctor.Run.Accepted.{exit_status-eq-zero}
use libpglite.Audit.{
  Repository, listed, read, require_bullets, label_of, is_entered, audit_open, audit_done,
  audit_test, audit, main,
}
use libpglite.Audit.Document.{
  status, section, section_body, has_section, has_bullet, line_starts, line_starts_after, is_bullet,
}

Passes-read : (o : Option String) (content : String) → Passes (read o) content ↔ (o ≡ some content)
unfolding read
Passes-read none content = (λ p. absurd (not-Passes-raise p), λ h. absurd (cc h))
Passes-read (some s) content = (
  λ p. ap some (Passes-pure p),
  λ h. let same : s ≡ content = cc h in record { returns = ap ok same; clean = refl },
)

section_body-missing :
    (content heading : String) → section content heading ≡ none → section_body content heading ≡ ""
unfolding section_body
section_body-missing content heading missing = rw (missing, section_body) refl

has_bullet-blank :
    (content heading : String)
    → section_body content heading ≡ ""
    → has_bullet content heading ≡ false
unfolding has_bullet line_starts line_starts_after is_bullet strip_prefix lstrip
has_bullet-blank content heading empty = rw (empty, has_bullet) refl

-- A document without the section has no bullet in it.
has_bullet-has_section :
    (content heading : String)
    → has_bullet content heading ≡ true
    → has_section content heading ≡ true
unfolding has_bullet has_section
has_bullet-has_section content heading h = elim (Option-cases (section content heading)) [
  | inl missing ↦
      absurd
        (cc (h, has_bullet-blank content heading (section_body-missing content heading missing)))
  | inr (rest, found) ↦ rw (found, has_section) refl
]

Passes-require_bullets :
    (rel content heading : String)
    → Passes (require_bullets rel content heading) tt ↔ (has_bullet content heading ≡ true)
unfolding require_bullets
Passes-require_bullets rel content heading = elim (Bool-cases (has_section content heading)) [
  | inl there ↦ elim (Bool-cases (has_bullet content heading)) [
    | inl full ↦ (λ p. full, λ h. rw (there, full) Passes-done)
    | inr bare ↦ (
      λ p. absurd (Passes-error (rw (there, bare, require_bullets) at p)),
      λ h. absurd (cc (bare, h)),
    )
  ]
  | inr missing ↦ (
    λ p. absurd (Passes-error (rw (missing, require_bullets) at p)),
    λ h. absurd (cc (missing, has_bullet-has_section content heading h)),
  )
]

module _ (repository : Repository) (readme : String) where
  -- The open record is readable and open, stands in the README and its frontier, and has criteria
  -- for what is accepted and for what remains.
  pub record IsOpen (rel : String) : Type 0 where
    pub content : String
    pub readable : repository.read_text rel ≡ some content
    pub opened : status content ≡ some "Open"
    pub mentioned : listed readme rel ≡ true
    pub accepts : has_bullet content "Acceptance Criteria" ≡ true
    pub remains : has_bullet content "Remaining Closure Criteria" ≡ true
    pub entered : is_entered readme (label_of (repository.stem rel)) ≡ true

  -- The done record is readable and done, stands in the README, has evidence, and nothing remains.
  pub record IsDone (rel : String) : Type 0 where
    pub content : String
    pub readable : repository.read_text rel ≡ some content
    pub closed : status content ≡ some "Done"
    pub mentioned : listed readme rel ≡ true
    pub evident : has_bullet content "Closing Evidence" ≡ true
    pub settled : has_section content "Remaining Closure Criteria" ≡ false

  audit_open-IsOpen : (rel : String) → Passes (audit_open repository readme rel) tt ↔ IsOpen rel
  unfolding audit_open
  audit_open-IsOpen rel = (
    λ p.
        let (content, got, p1) = Passes-bind (read (repository.read_text rel)) _ tt p in
        let (a, p2) = (Passes-seq _ _).0 p1 in
        let (b, p3) = (Passes-seq _ _).0 p2 in
        let (c, p4) = (Passes-seq _ _).0 p3 in
        let (e, f) = (Passes-seq _ _).0 p4 in
        record {
          content = content;
          readable = (Passes-read _ content).0 got;
          opened = (is_some_text_iff (status content) "Open").0 ((Passes-require _ _).0 a);
          mentioned = (Passes-require _ _).0 b;
          accepts = (Passes-require_bullets rel content "Acceptance Criteria").0 c;
          remains = (Passes-require_bullets rel content "Remaining Closure Criteria").0 e;
          entered = (Passes-require _ _).0 f;
        },
    λ o.
        bind-Passes (read (repository.read_text rel)) _ o.content tt
          ((Passes-read _ o.content).1 o.readable)
          ((Passes-seq _ _).1 (
            (Passes-require _ _).1 ((is_some_text_iff (status o.content) "Open").1 o.opened),
            (Passes-seq _ _).1 (
              (Passes-require _ _).1 o.mentioned,
              (Passes-seq _ _).1 (
                (Passes-require_bullets rel o.content "Acceptance Criteria").1 o.accepts,
                (Passes-seq _ _).1 (
                  (Passes-require_bullets rel o.content "Remaining Closure Criteria").1 o.remains,
                  (Passes-require _ _).1 o.entered,
                ),
              ),
            ),
          )),
  )

  audit_done-IsDone : (rel : String) → Passes (audit_done repository readme rel) tt ↔ IsDone rel
  unfolding audit_done
  audit_done-IsDone rel = (
    λ p.
        let (content, got, p1) = Passes-bind (read (repository.read_text rel)) _ tt p in
        let (a, p2) = (Passes-seq _ _).0 p1 in
        let (b, p3) = (Passes-seq _ _).0 p2 in
        let (c, e) = (Passes-seq _ _).0 p3 in
        let nothing_left = (Passes-require _ _).0 e in
        record {
          content = content;
          readable = (Passes-read _ content).0 got;
          closed = (is_some_text_iff (status content) "Done").0 ((Passes-require _ _).0 a);
          mentioned = (Passes-require _ _).0 b;
          evident = (Passes-require_bullets rel content "Closing Evidence").0 c;
          settled = ground (arith, nothing_left);
        },
    λ o.
        bind-Passes (read (repository.read_text rel)) _ o.content tt
          ((Passes-read _ o.content).1 o.readable)
          ((Passes-seq _ _).1 (
            (Passes-require _ _).1 ((is_some_text_iff (status o.content) "Done").1 o.closed),
            (Passes-seq _ _).1 (
              (Passes-require _ _).1 o.mentioned,
              (Passes-seq _ _).1 (
                (Passes-require_bullets rel o.content "Closing Evidence").1 o.evident,
                (Passes-require _ _).1 (rw o.settled refl),
              ),
            ),
          )),
  )

-- Every record is what its place says, and the release preflight runs every test.
pub record IsClosed (repository : Repository) : Type 0 where
  pub readme : String
  pub preflight : String
  pub reads_readme : repository.readme ≡ some readme
  pub reads_preflight : repository.preflight ≡ some preflight
  pub opens : All (IsOpen repository readme) repository.open_adrs
  pub dones : All (IsDone repository readme) repository.done_adrs
  pub wired : All (λ rel. contains preflight ("python3 " <> rel) ≡ true) repository.tests

-- The audit ends with status 0 exactly if the README and the preflight can be read, each record in
-- docs/ is readable, open, listed in the README and its frontier, and has bullets under its
-- acceptance and its remaining criteria, each record in docs/done/ is readable, done and listed,
-- has bullets of evidence and no section of remaining criteria, and the preflight runs each test.
pub main-IsClosed : (repository : Repository) → (main repository ≡ 0) ↔ IsClosed repository
unfolding main audit audit_test
main-IsClosed repository = (
  λ h.
      let (u, p) = (exit_status-eq-zero (audit repository)).0 h in
      let (readme, got, p1) = Passes-bind (read repository.readme) _ u p in
      let (preflight, got', p2) = Passes-bind (read repository.preflight) _ u p1 in
      let (opens, p3) = (Passes-seq _ _).0 p2 in
      let (dones, tests) = (Passes-seq _ _).0 p3 in
      record {
        readme = readme;
        preflight = preflight;
        reads_readme = (Passes-read _ readme).0 got;
        reads_preflight = (Passes-read _ preflight).0 got';
        opens =
            All-map (λ rel. (audit_open-IsOpen repository readme rel).0) repository.open_adrs
              ((Passes-each repository.open_adrs _).0 opens);
        dones =
            All-map (λ rel. (audit_done-IsDone repository readme rel).0) repository.done_adrs
              ((Passes-each repository.done_adrs _).0 dones);
        wired =
            (Passes-each-require (λ rel. contains preflight ("python3 " <> rel)) _
                repository.tests).0
              tests;
      },
  λ c. (exit_status-eq-zero (audit repository)).1 (
    tt,
    bind-Passes (read repository.readme) _ c.readme tt ((Passes-read _ c.readme).1 c.reads_readme) (
        bind-Passes (read repository.preflight) _ c.preflight tt
          ((Passes-read _ c.preflight).1 c.reads_preflight)
          ((Passes-seq _ _).1 (
            (Passes-each repository.open_adrs _).1 (
                All-map (λ rel. (audit_open-IsOpen repository c.readme rel).1) repository.open_adrs
                  c.opens),
            (Passes-seq _ _).1 (
              (Passes-each repository.done_adrs _).1 (
                  All-map (λ rel. (audit_done-IsDone repository c.readme rel).1)
                    repository.done_adrs c.dones),
              (Passes-each-require (λ rel. contains c.preflight ("python3 " <> rel)) _
                    repository.tests).1
                  c.wired,
            ),
          ))),
  ),
)
