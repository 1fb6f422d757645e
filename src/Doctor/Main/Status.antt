-- ===== src/Doctor/Main/Status.antt =====
-- The exit status of the doctor, with the archive and the self-test.
use libpglite.Prelude.{
  ◌≡◌, ◌↔◌, refl, ℕ, false, if◌then◌else◌, Bool, true, some, arith, Bool-cases, Option-cases, inl,
  inr,
}
use libpglite.Check.{Check}
use libpglite.Check.Laws.{Passes, Passes-bind, bind-Passes, Passes-done}
use libpglite.Package.{Package}
use libpglite.Doctor.Run.{run}
use libpglite.Doctor.Run.Accepted.{Accepted, Accepted-Passes, run-Passes, exit_status-eq-zero}
use libpglite.Doctor.SelfTest.{Host, run_self_test}
use libpglite.Doctor.Main.{Argument, maybe_extract, examine, main, process}

-- The package is accepted, and where a self-test is asked for it passes.
pub record IsReleased (host : Host) (root : Package) (strict self_test : Bool) : Type 0 where
  pub accepted : Accepted root strict
  pub tested : self_test ≡ true → Passes (run_self_test host root accepted.bundle) tt

Passes-unique {ℓ} : {A : Type ℓ} {m : Check A} {a b : A} → Passes m a → Passes m b → a ≡ b
Passes-unique p q = cc (p.returns, q.returns)

examine-Passes :
    (host : Host) (root : Package) (strict self_test : Bool)
    → Passes (examine host root strict self_test) tt ↔ IsReleased host root strict self_test
unfolding examine
examine-Passes host root strict self_test = (
  λ p.
      let (bundle, q, r) = Passes-bind (run root strict) _ tt p in
      let accepted = (run-Passes root strict).0 (bundle, q) in
      let same = Passes-unique q (Accepted-Passes root strict accepted) in
      record { accepted = accepted; tested = λ asked. rw (asked, q.clean, same) at r },
  λ released.
      let q = Accepted-Passes root strict released.accepted in
      bind-Passes (run root strict) _ released.accepted.bundle tt q (elim (Bool-cases self_test) [
        | inl asked ↦ rw (asked, q.clean) (released.tested asked)
        | inr unasked ↦ rw unasked Passes-done
      ]),
)

-- The status of `main`, where `tar` has been found.
main-eq-zero :
    (host : Host) (argument : Argument) (strict self_test : Bool)
    → (main host argument strict self_test ≡ 0) ↔ (
        (root : Package) × (maybe_extract argument ≡ some root)
        × IsReleased host root strict self_test)
unfolding main
main-eq-zero host argument strict self_test = (
  λ h. elim (Option-cases (maybe_extract argument)) [
    | inl missing ↦ absurd (ground arith)
    | inr (root, found) ↦
        let (u, p) = (exit_status-eq-zero _).0 (rw (found, main) at h) in
        (root, found, (examine-Passes host root strict self_test).0 p)
  ],
  λ (root, found, released).
      rw (found, main)
        ((exit_status-eq-zero _).1 (tt, (examine-Passes host root strict self_test).1 released)),
)

guarded-eq-zero : (b : Bool) (s : ℕ) → ((if b then s else 1) ≡ 0) ↔ ((b ≡ true) × (s ≡ 0))
guarded-eq-zero true s = (λ h. (refl, h), λ (there, h). h)
guarded-eq-zero false s = (λ h. absurd (ground arith), λ (missing, h). absurd (cc missing))

-- The process exits with status 0 exactly if `tar` is found, the argument is a directory, or an
-- archive that can be unpacked, whose package the doctor accepts, and the self-test passes where it
-- is asked for.
pub process-eq-zero :
    (host : Host) (argument : Argument) (strict self_test : Bool)
    → (process host argument strict self_test ≡ 0) ↔ (
        (host.has_tar ≡ true)
        × (root : Package) × (maybe_extract argument ≡ some root)
        × IsReleased host root strict self_test)
unfolding process
process-eq-zero host argument strict self_test = (
  λ h.
      let (there, status) = (guarded-eq-zero host.has_tar _).0 h in
      let (root, found, released) = (main-eq-zero host argument strict self_test).0 status in
      (there, root, found, released),
  λ (there, root, found, released).
      (guarded-eq-zero host.has_tar _).1
        (there, (main-eq-zero host argument strict self_test).1 (root, found, released)),
)
