-- ===== src/Benchmark/Commit.antt =====
-- tools/benchmark.py: building and running the benchmarks of a commit, with the working copy switched
-- to it and back.
pub mod Checkout
mod Examples
use teide.Base.{
  ◌≡◌, ℕ, suc, Bool, true, false, not, ◌&&◌, ◌||◌, List, [], ◌∷◌, ◌++◌, map, keep, if◌then◌else◌,
}
use teide.Base.Int.{ℤ, pos, negsuc, is_zero}
use teide.Base.Strip.{strip, split}
use teide.Base.Text.{Text, text, text_eq, starts_with}
use teide.GenFilelists.Listing.{join}
use teide.Benchmark.Summary.{decimal}

-- `pathlib.Path` on a POSIX system.
pub record FilePath : Type 0 where
  pub is_absolute : Bool
  pub parts : List Text

unfoldable pub to_path : Text → FilePath
to_path s = record {
  is_absolute = starts_with s (text "/");
  parts = keep (λ part. not (text_eq part [] || text_eq part (text "."))) (split b'/' s);
}

-- `a / b`
unfoldable pub join_path : FilePath → FilePath → FilePath
join_path a b = if b.is_absolute then b else record a { parts = a.parts ++ b.parts }

abbrev without_last : List Text → List Text
without_last [] = []
without_last (part ∷ []) = []
without_last (part ∷ next ∷ parts) = part ∷ without_last (next ∷ parts)

unfoldable pub parent : FilePath → FilePath
parent path = record path { parts = without_last path.parts }

abbrev named_path : Bool → List Text → Text
named_path true parts = b'/' ∷ join (text "/") parts
named_path false [] = text "."
named_path false (part ∷ parts) = join (text "/") (part ∷ parts)

-- `str(path)`
unfoldable pub path_text : FilePath → Text
path_text path = named_path path.is_absolute path.parts

-- What `subprocess.run` does: the process ends with this code and output, or the program is not
-- found, or the keyboard interrupts.
pub data Ran : Type 0 where
  exited : ℤ → Text → Ran
  not_found : Ran
  interrupted : Ran

-- The processes and the file system.
pub record Machine : Type 1 where
  pub State : Type 0
  pub run : List Text → State → Ran × State
  pub exists : FilePath → State → Bool
  -- `mkdir(exist_ok=True)`, and whether it succeeds
  pub make_dir : FilePath → State → Bool × State
  -- `shutil.rmtree(path, ignore_errors=True)`
  pub remove_tree : FilePath → State → State

pub data Exception : Type 0 where
  called_process_error : Text → Exception
  os_error : Exception
  keyboard_interrupt : Exception
  index_error : Exception

pub data Result (A : Type 0) : Type 0 where
  ok : A → Result A
  raised : Exception → Result A

abbrev pub ran_result : Ran → Result Text
ran_result (exited code stdout) =
    if is_zero code then ok stdout else raised (called_process_error stdout)
ran_result not_found = raised os_error
ran_result interrupted = raised keyboard_interrupt

abbrev number : ℤ → Text
number (pos n) = decimal n
number (negsuc n) = b'-' ∷ decimal (suc n)

module _ (m : Machine) where
  -- Code that may raise an exception.
  abbrev pub Action : Type 0 → Type 0
  Action A = m.State → Result A × m.State

  abbrev pub return : {A : Type 0} → A → Action A
  return a s = (ok a, s)

  abbrev pub continue : {A B : Type 0} → (A → Action B) → Result A × m.State → Result B × m.State
  continue f (ok a, s) = f a s
  continue f (raised e, s) = (raised e, s)

  abbrev pub then_do : {A B : Type 0} → Action A → (A → Action B) → Action B
  then_do r f s = continue f (r s)

  unfoldable pub run_process : List Text → Action Text
  run_process cmd s = let (ran, s') = m.run cmd s in (ran_result ran, s')

  -- The end of a `with` block: an exception of `__exit__` replaces that of the block.
  abbrev pub ended : {A : Type 0} → Result A → Result Text × m.State → Result A × m.State
  ended result (ok stdout, s) = (result, s)
  ended result (raised e, s) = (raised e, s)

  -- `with git_switch(ref): body`
  unfoldable pub with_git_switch : {A : Type 0} → Text → Action A → Action A
  unfolding run_process
  with_git_switch ref body =
      then_do (run_process (text "git" ∷ text "rev-parse" ∷ text "--abbrev-ref" ∷ text "HEAD" ∷ []))
        λ out.
          then_do (run_process (text "git" ∷ text "switch" ∷ text "--detach" ∷ ref ∷ [])) λ _ s.
            let (result, s') = body s in
            ended result (run_process (text "git" ∷ text "switch" ∷ strip out ∷ []) s')

  abbrev make_dir_or_raise : FilePath → Action Unit
  make_dir_or_raise path s =
      let (made, s') = m.make_dir path s in ((if made then ok tt else raised os_error), s')

  abbrev first_path : List FilePath → Result FilePath
  first_path [] = raised index_error
  first_path (path ∷ paths) = ok path

  abbrev exe_paths : List Text
  exe_paths =
      text "benchmarks/TeideBenchmark/TeideBenchmark"
      ∷ text "benchmarks/TeideBenchmark/Release/TeideBenchmark"
      ∷ []

  unfoldable pub run_benchmark : FilePath → FilePath → ℤ → Bool → Bool → Action Unit
  unfolding run_process
  run_benchmark bin_dir out_file repetitions sw_render build =
      then_do
        (if build
          then run_process (
              text "cmake"
              ∷ text "--build"
              ∷ path_text bin_dir
              ∷ text "--config"
              ∷ text "Release"
              ∷ [])
          else return [])
        λ built. then_do (make_dir_or_raise (parent out_file)) λ made.
          then_do
            (λ s. (
              first_path
                  (keep (λ i. m.exists i s) (map (λ i. join_path bin_dir (to_path i)) exe_paths)),
              s,
            ))
            λ exe.
              then_do
                (run_process (
                  (path_text exe
                    ∷ (text "--benchmark_out=" ++ path_text out_file)
                    ∷ (text "--benchmark_repetitions=" ++ number repetitions)
                    ∷ text "--benchmark_min_warmup_time=1"
                    ∷ text "--benchmark_enable_random_interleaving=true"
                    ∷ [])
                  ++ (if sw_render then text "--sw-render" ∷ [] else [])))
                λ out. return tt

  -- The body of the `with` block.
  unfoldable pub configure_and_run : Text → FilePath → List Text → ℤ → Bool → Action Unit
  unfolding run_benchmark
  configure_and_run preset out_file definitions repetitions sw_render =
      let bin_dir = join_path (to_path (text "build")) (to_path preset) in
      λ s.
        then_do
          (run_process (
            (text "cmake"
              ∷ text "--preset"
              ∷ preset
              ∷ text "-B"
              ∷ path_text bin_dir
              ∷ text "-DTEIDE_BUILD_TESTS=OFF"
              ∷ text "-DTEIDE_BUILD_EXAMPLES=OFF"
              ∷ [])
            ++ map (λ x. text "-D" ++ x) definitions))
          (λ out. run_benchmark bin_dir out_file repetitions sw_render true)
          (m.remove_tree bin_dir s)

  unfoldable pub benchmark_commit : Text → Text → FilePath → List Text → ℤ → Bool → Action FilePath
  unfolding with_git_switch configure_and_run
  benchmark_commit ref_name preset out_dir definitions repetitions sw_render =
      then_do (run_process (text "git" ∷ text "rev-parse" ∷ ref_name ∷ [])) λ out.
        let commit_hash = strip out in
        let out_file = join_path out_dir (to_path (commit_hash ++ text ".json")) in
        λ s.
          if m.exists out_file s
          then (ok out_file, s)
          else then_do
              (with_git_switch commit_hash
                (configure_and_run preset out_file definitions repetitions sw_render))
              (λ done. return out_file) s
