-- ===== src/Doctor/Main.antt =====
-- `main` and `maybe_extract`: the package that the command line names, the run and the self-test.
pub mod Status
use libpglite.Prelude.{ℕ, Bool, Option, none, some, ◌&&◌, is_empty, if◌then◌else◌}
use libpglite.Check.{Check, done, ◌>>=◌}
use libpglite.Package.{Package}
use libpglite.Doctor.Run.{run, exit_status}
use libpglite.Doctor.SelfTest.{Host, run_self_test}

-- The argument `package`: a directory, or an archive, with what `tar` leaves in a temporary
-- directory; `none` where it fails.
pub record Argument : Type 0 where
  pub is_dir : Bool
  pub is_file : Bool
  pub directory : Package
  pub extracted : Option Package

-- The root that `__enter__` returns; `none` where it raises.
unfoldable pub maybe_extract : Argument → Option Package
maybe_extract argument =
    if argument.is_dir
    then some argument.directory
    else if argument.is_file
    then argument.extracted
    else none

-- The body of the `with` block.
unfoldable pub examine : Host → Package → Bool → Bool → Check (Unit {0})
examine host root strict_relocatable self_test = do
  bundle ← run root strict_relocatable
  (if self_test && is_empty (run root strict_relocatable).errors
      then run_self_test host root bundle
      else done)

-- The status of the process, with the parsed options.
unfoldable pub main : Host → Argument → Bool → Bool → ℕ
main host argument strict_relocatable self_test = elim (maybe_extract argument) [
  | none ↦ 1
  | some root ↦ exit_status (examine host root strict_relocatable self_test)
]

-- The script: the guard that needs `tar`, also for a directory, and `main`.
unfoldable pub process : Host → Argument → Bool → Bool → ℕ
process host argument strict_relocatable self_test =
    if host.has_tar then main host argument strict_relocatable self_test else 1
