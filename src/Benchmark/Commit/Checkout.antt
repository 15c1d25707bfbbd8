-- ===== src/Benchmark/Commit/Checkout.antt =====
-- tools/benchmark.py: what is checked out when a benchmark ends.
use teide.Base.{◌≡◌, refl, ◌∙◌, ap, Bool, List, [], ◌∷◌, ◌++◌, Bool-cases, ◌⊎◌, inl, inr}
use teide.Base.Int.{ℤ}
use teide.Base.Strip.{strip}
use teide.Base.Text.{Text, text}
use teide.Benchmark.Commit.{
  FilePath, join_path, to_path, Machine, Exception, Result, ok, raised, ran_result, Action,
  continue, run_process, with_git_switch, configure_and_run, benchmark_commit,
}

-- How git behaves, where `checkout` is the branch or the commit that is checked out: to ask for a name
-- changes nothing, a switch to a branch that succeeds checks it out, and `git rev-parse` names the branch.
pub record IsGit (m : Machine) (checkout : m.State → Text) (IsBranch : Text → Type 0) : Type 0 where
  pub asks :
      (args : List Text) (s : m.State)
      → checkout (m.run (text "git" ∷ text "rev-parse" ∷ args) s).1 ≡ checkout s
  pub switches :
      (branch out : Text) (s : m.State)
      → IsBranch branch
      → ran_result (m.run (text "git" ∷ text "switch" ∷ branch ∷ []) s).0 ≡ ok out
      → checkout (m.run (text "git" ∷ text "switch" ∷ branch ∷ []) s).1 ≡ branch
  pub names :
      (s : m.State) (out : Text)
      → IsBranch (checkout s)
      → ran_result
          (m.run (text "git" ∷ text "rev-parse" ∷ text "--abbrev-ref" ∷ text "HEAD" ∷ []) s).0
        ≡ ok out
      → strip out ≡ checkout s

-- The last step of the call is a `git switch` that is not successful, and the call ends with its exception.
abbrev pub SwitchRaised : (m : Machine) {A : Type 0} → Result A × m.State → Type 0
SwitchRaised m r =
    (e : Exception) × (args : List Text) × (t : m.State) × (r.0 ≡ raised e)
    × (ran_result (m.run (text "git" ∷ text "switch" ∷ args) t).0 ≡ raised e)
    × (r.1 ≡ (m.run (text "git" ∷ text "switch" ∷ args) t).1)

Result-cases :
    {A : Type 0} (r : Result A) → ((a : A) × (r ≡ ok a)) ⊎ ((e : Exception) × (r ≡ raised e))
Result-cases (ok a) = inl (a, refl)
Result-cases (raised e) = inr (e, refl)

raised-injective : {A : Type 0} (e e' : Exception) → Path (Result A) (raised e) (raised e') → e ≡ e'
raised-injective e e' h = cc

module _ (m : Machine) (checkout : m.State → Text) (IsBranch : Text → Type 0) where
  -- Whatever the block does, a `with` block ends where it began, unless git cannot switch.
  with_git_switch-checkout :
      {A : Type 0} (ref : Text) (body : Action m A) (s : m.State)
      → IsGit m checkout IsBranch
      → IsBranch (checkout s)
      → (checkout (with_git_switch m ref body s).1 ≡ checkout s)
        ⊎ SwitchRaised m (with_git_switch m ref body s)
  unfolding with_git_switch run_process
  with_git_switch-checkout ref body s git branch =
      let head_args = text "--abbrev-ref" ∷ text "HEAD" ∷ [] in
      let ask = text "git" ∷ text "rev-parse" ∷ head_args in
      let detach = text "git" ∷ text "switch" ∷ text "--detach" ∷ ref ∷ [] in
      let s1 = (m.run ask s).1 in
      let s2 = (m.run detach s1).1 in
      elim (Result-cases (ran_result (m.run ask s).0)) [
        | inr (e, lost) ↦ inl (rw (with_git_switch, run_process, lost) (git.asks head_args s))
        | inl (out, found) ↦ elim (Result-cases (ran_result (m.run detach s1).0)) [
          | inr (e, failed) ↦ inr (
            e,
            text "--detach" ∷ ref ∷ [],
            s1,
            rw (with_git_switch, run_process, found, failed) refl,
            failed,
            rw (with_git_switch, run_process, found, failed) refl,
          )
          | inl (out', done) ↦
              let s3 = (body s2).1 in
              let named = git.names s out branch found in
              let back = text "git" ∷ text "switch" ∷ strip out ∷ [] in
              elim (Result-cases (ran_result (m.run back s3).0)) [
                | inr (e, stuck) ↦ inr (
                  e,
                  strip out ∷ [],
                  s3,
                  rw (with_git_switch, run_process, found, done, stuck) refl,
                  stuck,
                  rw (with_git_switch, run_process, found, done, stuck) refl,
                )
                | inl (out'', returned) ↦ inl (
                    rw (with_git_switch, run_process, found, done, returned)
                      (git.switches (strip out) out'' s3 (rw named branch) returned ∙ named))
              ]
        ]
      ]

  then_do_last :
      {A B : Type 0} (b : B) (goal : Text) (r : Result A × m.State)
      → (checkout r.1 ≡ goal) ⊎ SwitchRaised m r
      → (checkout (continue m (λ a t. (ok b, t)) r).1 ≡ goal)
        ⊎ SwitchRaised m (continue m (λ a t. (ok b, t)) r)
  then_do_last b goal (ok a, s) (inl same) = inl same
  then_do_last b goal (ok a, s) (inr (e, args, t, result, stuck, last)) = cc
  then_do_last b goal (raised e, s) (inl same) = inl same
  then_do_last b goal (raised e, s) (inr (e', args, t, result, stuck, last)) =
      inr (e', args, t, ap (λ x. raised x) (raised-injective e e' result), stuck, last)

-- If a branch is checked out, it is checked out again after the benchmark of a commit, whether that
-- succeeds, uses cached results, or ends with an exception of any of its steps, so far as git
-- behaves as documented; or else the last step of the call is a `git switch` that is not successful,
-- and the call ends with its exception.
pub benchmark_commit-checkout :
    (m : Machine) (checkout : m.State → Text) (IsBranch : Text → Type 0) (ref_name preset : Text)
    (out_dir : FilePath) (definitions : List Text) (repetitions : ℤ) (sw_render : Bool)
    (s : m.State)
    → IsGit m checkout IsBranch
    → IsBranch (checkout s)
    → (checkout (benchmark_commit m ref_name preset out_dir definitions repetitions sw_render s).1
        ≡ checkout s)
      ⊎ SwitchRaised m
          (benchmark_commit m ref_name preset out_dir definitions repetitions sw_render s)
unfolding benchmark_commit run_process
benchmark_commit-checkout m checkout IsBranch ref_name preset out_dir definitions repetitions
      sw_render s git branch =
    let ask = text "git" ∷ text "rev-parse" ∷ ref_name ∷ [] in
    let s1 = (m.run ask s).1 in
    let kept = git.asks (ref_name ∷ []) s in
    elim (Result-cases (ran_result (m.run ask s).0)) [
      | inr (e, lost) ↦ inl (rw (benchmark_commit, run_process, lost) kept)
      | inl (out, found) ↦
          let hash = strip out in
          let out_file = join_path out_dir (to_path (hash ++ text ".json")) in
          let body = configure_and_run m preset out_file definitions repetitions sw_render in
          elim (Bool-cases (m.exists out_file s1)) [
            | inl cached ↦ inl (rw (benchmark_commit, run_process, found, cached) kept)
            | inr new ↦
                rw (benchmark_commit, run_process, found, new)
                  (then_do_last m checkout IsBranch out_file (checkout s)
                    (with_git_switch m hash body s1)
                    (rw (← kept) (
                      with_git_switch-checkout m checkout IsBranch hash body s1 git
                        (rw kept branch))))
          ]
    ]
