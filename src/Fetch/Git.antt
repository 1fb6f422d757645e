-- ===== src/Fetch/Git.antt =====
-- `fetch_git_dependency`: the cached checkout, or a new one at the pinned commit.
pub mod Pinned
use libpglite.Prelude.{
  ℕ, String, ◌<>◌, Bool, true, false, Option, none, some, List, [], ◌∷◌, ◌++◌, not, is_empty,
  is_blank, join, str_eq, strip, if◌then◌else◌,
}
use libpglite.Json.{
  Fields, end, field, Value, text, array, object, Items, nil, cons, get, has, is_text, as_text,
  as_object, as_list, as_nonempty_text,
}
use libpglite.Script.{
  Message, Part, lit, str, Result, returned, exited, failed, Action, of_option, pure, exit, fail,
  lift, ask, require_some, continue, ◌>>=◌, ◌>>◌, each,
}
use libpglite.System.{Download, fetched, refused, broken, Process, System}

unfoldable pub git_entry : Fields → String → Value
git_entry dependency checkout = object (
    field "name" (get dependency "name") (
      field "kind" (text "git") (
        field "checkout" (text checkout) (
          field "source" (get dependency "source") (
            field "gitRef" (get dependency "gitRef")
              (field "gitCommit" (get dependency "gitCommit") end))))))

module _ {W : Type 0} (sys : System W) where
  unfoldable pub git_result : List String → Option Process → Result String
  git_result args none = failed
  git_result args (some result) =
      if result.success
      then returned (strip result.stdout)
      else if is_blank (strip result.stderr)
      then exited (lit "git " ∷ lit (join " " args) ∷ lit " failed" ∷ [])
      else exited (lit (strip result.stderr) ∷ [])

  unfoldable pub git : List String → Option String → Action W String
  git args cwd w = let (process, w') = sys.run cwd ("git" ∷ args) w in (git_result args process, w')

  unfoldable pub make_checkout : Value → String → String → Action W (Unit {0})
  make_checkout source checkout expected = do
    present ← ask (sys.exists checkout)
    (if present then sys.rmtree checkout else pure tt)
    sys.mkdir (sys.parent checkout)
    git ("init" ∷ checkout ∷ []) none
    address ← lift (of_option (as_text source))
    git ("remote" ∷ "add" ∷ "origin" ∷ address ∷ []) (some checkout)
    git ("fetch" ∷ "--depth" ∷ "1" ∷ "origin" ∷ expected ∷ []) (some checkout)
    git ("checkout" ∷ "--detach" ∷ expected ∷ []) (some checkout)
    pure tt

  unfoldable pub wrong_commit : String → Value → String → String → Message
  wrong_commit what name actual expected =
      lit what
      ∷ lit " has wrong commit for "
      ∷ str name
      ∷ lit ": "
      ∷ lit actual
      ∷ lit ", expected "
      ∷ lit expected
      ∷ []

  unfoldable pub fetch_checkout : Fields → String → String → Action W Value
  fetch_checkout dependency checkout expected = do
    make_checkout (get dependency "source") checkout expected
    actual ← git ("rev-parse" ∷ "HEAD" ∷ []) (some checkout)
    (if str_eq actual expected
        then pure (git_entry dependency checkout)
        else exit (wrong_commit "git checkout" (get dependency "name") actual expected))

  -- What follows the look at the cached checkout, if there is one.
  unfoldable pub refetch : Fields → String → String → Bool → Action W Value
  refetch dependency checkout expected verify_only =
      if verify_only
      then exit (lit "cached git checkout is missing: " ∷ lit checkout ∷ [])
      else fetch_checkout dependency checkout expected

  unfoldable pub reuse_checkout : Fields → String → String → Bool → Action W Value
  reuse_checkout dependency checkout expected verify_only = do
    actual ← git ("rev-parse" ∷ "HEAD" ∷ []) (some checkout)
    (if str_eq actual expected
        then pure (git_entry dependency checkout)
        else if verify_only
        then exit (wrong_commit "cached git checkout" (get dependency "name") actual expected)
        else refetch dependency checkout expected verify_only)

  -- The function from the test `checkout.is_dir()` on.
  unfoldable pub checked_out : Fields → String → String → Bool → Action W Value
  checked_out dependency checkout expected verify_only = do
    present ← ask (sys.is_dir checkout)
    (if present
        then reuse_checkout dependency checkout expected verify_only
        else refetch dependency checkout expected verify_only)

  unfoldable pub fetch_git : Fields → String → Bool → Action W Value
  fetch_git dependency out verify_only = do
    name ← lift (of_option (as_text (get dependency "name")))
    expected ← lift (of_option (as_text (get dependency "gitCommit")))
    checked_out dependency (sys.join (sys.join out "git") name) expected verify_only
