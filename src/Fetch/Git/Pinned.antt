-- ===== src/Fetch/Git/Pinned.antt =====
-- A checkout that the function returns an entry for is at the locked commit.
use libpglite.Prelude.{◌≡◌, sym, ⊎_elim, String, str_eq, eq_iff, Bool, true, false, some, [], ◌∷◌}
use libpglite.Json.{Fields, Value, text, get, as_text}
use libpglite.Json.Laws.{as_text-eq-some}
use libpglite.Script.{Action, of_option, lift, ask}
use libpglite.Script.Laws.{
  Returns, Returns-bind, Returns-lift, Returns-if, Returns-then, Returns-pure, not-Returns-exit,
  Keeps, keeps_rules,
}
use libpglite.System.{System}
use libpglite.Fetch.Git.{
  git_entry, git, make_checkout, fetch_checkout, refetch, reuse_checkout, checked_out, fetch_git,
}

module _ {W : Type 0} (sys : System W) where
  abbrev pub head : String → Action W String
  head checkout = git sys ("rev-parse" ∷ "HEAD" ∷ []) (some checkout)

  -- The last thing done in the checkout was to ask for its commit, which is that of the lock file.
  pub record IsPinned (dependency : Fields) (out : String) (entry : Value) (w : W) : Type 0 where
    pub name : String
    pub expected : String
    pub before : W
    pub named : get dependency "name" ≡ text name
    pub locked : get dependency "gitCommit" ≡ text expected
    pub read : Returns (head (sys.join (sys.join out "git") name)) before expected w
    pub described : entry ≡ git_entry dependency (sys.join (sys.join out "git") name)

  -- The entry is that of the checkout, whose commit has just been asked for.
  abbrev pub Asked : Fields → String → String → Value → W → Type 0
  Asked dependency checkout expected entry w' =
      (v : W) × (Returns (head checkout) v expected w') × (entry ≡ git_entry dependency checkout)

  fetch_checkout-Asked :
      (dependency : Fields) (checkout expected : String) (w : W) {entry : Value} {w' : W}
      → Returns (fetch_checkout sys dependency checkout expected) w entry w'
      → Asked dependency checkout expected entry w'
  unfolding fetch_checkout
  fetch_checkout-Asked dependency checkout expected w h =
      let (u, v, made, h1) =
        Returns-bind (make_checkout sys (get dependency "source") checkout expected) _ w h in
      let (actual, v', asked, h2) = Returns-bind (head checkout) _ v h1 in
      let (e, h3) = Returns-then (str_eq actual expected) _ _ not-Returns-exit h2 in
      let (described, ends) = Returns-pure h3 in
      let locked = (eq_iff actual expected).0 e in (v, rw (locked, ends) at asked, sym described)

  refetch-Asked :
      (dependency : Fields) (checkout expected : String) (verify_only : Bool) (w : W)
      {entry : Value} {w' : W}
      → Returns (refetch sys dependency checkout expected verify_only) w entry w'
      → Asked dependency checkout expected entry w'
  unfolding refetch
  refetch-Asked dependency checkout expected true w h = absurd (not-Returns-exit h)
  refetch-Asked dependency checkout expected false w h =
      fetch_checkout-Asked dependency checkout expected w h

  reuse_checkout-Asked :
      (dependency : Fields) (checkout expected : String) (verify_only : Bool) (w : W)
      {entry : Value} {w' : W}
      → Returns (reuse_checkout sys dependency checkout expected verify_only) w entry w'
      → Asked dependency checkout expected entry w'
  unfolding reuse_checkout
  reuse_checkout-Asked dependency checkout expected verify_only w h =
      let (actual, v, asked, h1) = Returns-bind (head checkout) _ w h in
      ⊎_elim
        (λ (e, h2).
          let (described, ends) = Returns-pure h2 in
          let locked = (eq_iff actual expected).0 e in
          (w, rw (locked, ends) at asked, sym described))
        (λ (e, h2).
          ⊎_elim (λ (only, h3). absurd (not-Returns-exit h3))
            (λ (only, h3). refetch-Asked dependency checkout expected verify_only v h3)
            (Returns-if verify_only _ _ h2))
        (Returns-if (str_eq actual expected) _ _ h1)

  checked_out-Asked :
      (dependency : Fields) (checkout expected : String) (verify_only : Bool) (w : W)
      {entry : Value} {w' : W}
      → Returns (checked_out sys dependency checkout expected verify_only) w entry w'
      → Asked dependency checkout expected entry w'
  unfolding checked_out
  checked_out-Asked dependency checkout expected verify_only w h =
      let (present, v, asked, h1) = Returns-bind (ask (sys.is_dir checkout)) _ w h in
      ⊎_elim (λ (there, h2). reuse_checkout-Asked dependency checkout expected verify_only v h2)
        (λ (there, h2). refetch-Asked dependency checkout expected verify_only v h2)
        (Returns-if present _ _ h1)

  -- Whether the checkout was there or has been made, an entry is returned only if `git rev-parse
  -- HEAD` has just answered the commit of the lock file for the checkout that the entry names.
  pub fetch_git-IsPinned :
      (dependency : Fields) (out : String) (verify_only : Bool) (entry : Value) (w w' : W)
      → Returns (fetch_git sys dependency out verify_only) w entry w'
      → IsPinned dependency out entry w'
  unfolding fetch_git
  fetch_git-IsPinned dependency out verify_only entry w w' h =
      let (name, v1, a1, h1) =
        Returns-bind (lift (of_option (as_text (get dependency "name")))) _ w h in
      let (expected, v2, a2, h2) =
        Returns-bind (lift (of_option (as_text (get dependency "gitCommit")))) _ v1 h1 in
      let (v, reads, described) =
        checked_out-Asked dependency (sys.join (sys.join out "git") name) expected verify_only v2
          h2 in
      record {
        name = name;
        expected = expected;
        before = v;
        named = as_text-eq-some _ (Returns-lift _ a1).0;
        locked = as_text-eq-some _ (Returns-lift _ a2).0;
        read = reads;
        described = described;
      }

  -- Where `git rev-parse HEAD` changes nothing, neither does a run that only verifies the checkout.
  pub fetch_git-Keeps :
      (dependency : Fields) (out : String)
      → ((checkout : String) → Keeps (head checkout))
      → Keeps (fetch_git sys dependency out true)
  unfolding fetch_git checked_out reuse_checkout refetch
  fetch_git-Keeps dependency out reads = search (keeps_rules, reads) depth 14
