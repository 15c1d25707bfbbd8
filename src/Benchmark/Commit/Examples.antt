-- ===== src/Benchmark/Commit/Examples.antt =====
-- tools/benchmark.py: a commit is benchmarked from the branch `main`.
use teide.Base.{
  ◌≡◌, refl, sym, ◌∙◌, Bool, true, false, ◌&&◌, ◌⊎◌, List, [], ◌∷◌, ◌++◌, if◌then◌else◌, ap,
}
use teide.Base.Int.{pos}
use teide.Base.Strip.{strip}
use teide.Base.Text.{Text, text, text_eq}
use teide.Benchmark.Commit.{Action, Machine, FilePath, exited, ok, to_path, benchmark_commit}
use teide.Benchmark.Commit.Checkout.{SwitchRaised, IsGit, benchmark_commit-checkout}

abbrev is_switch : List Text → Bool
is_switch [] = false
is_switch (program ∷ []) = false
is_switch (program ∷ command ∷ arguments) =
    text_eq program (text "git") && text_eq command (text "switch")

abbrev last_word : List Text → Text
last_word [] = []
last_word (word ∷ []) = word
last_word (word ∷ next ∷ more) = last_word (next ∷ more)

-- The state is what is checked out. Nothing but git does anything, and no file is there.
abbrev git_only : Machine
git_only = record {
  State = Text;
  run = λ cmd s. (exited (pos 0) (s ++ text "\n"), if is_switch cmd then last_word cmd else s);
  exists = λ path s. false;
  make_dir = λ path s. (true, s);
  remove_tree = λ path s. s;
}

abbrev IsMain : Text → Type 0
IsMain branch = branch ≡ text "main"

ok_injective : (a b : Text) → ok a ≡ ok b → a ≡ b
ok_injective a b e = cc

git_only-IsGit : IsGit git_only (λ s. s) IsMain
unfolding text_eq strip
git_only-IsGit = record {
  asks = λ args s. refl;
  switches = λ branch out s is_main done. refl;
  names = λ s out is_main found.
      ap strip (sym (ok_injective (s ++ text "\n") out found))
      ∙ ap (λ t. strip (t ++ text "\n")) is_main
      ∙ sym is_main;
}

abbrev bench : Action git_only FilePath
bench =
    benchmark_commit git_only (text "v1") (text "release") (to_path (text "out")) [] (pos 10) false

benchmark_commit-checkout_example :
    ((bench (text "main")).1 ≡ text "main") ⊎ SwitchRaised git_only (bench (text "main"))
benchmark_commit-checkout_example =
    benchmark_commit-checkout git_only (λ s. s) IsMain (text "v1") (text "release")
      (to_path (text "out")) [] (pos 10) false (text "main") git_only-IsGit refl
