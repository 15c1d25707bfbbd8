-- ===== src/UpdatePackages/Examples.antt =====
-- tools/update_packages.py: vcpkg moves from one commit to the next.
use teide.Base.{◌≡◌, refl, Bool, true, false, List, [], ◌∷◌, some, if◌then◌else◌}
use teide.Base.Strip.{rstrip}
use teide.Base.Text.{Text, text, text_eq}
use teide.UpdatePackages.{Where, here, vcpkg, Git, Json, Object, updated, main}
use teide.UpdatePackages.Baseline.{IsGit, pulled, Follows, main-Follows}

-- `git pull` moves vcpkg to `new`.
abbrev moved : Where → List Text → Bool → Bool
moved here args s = s
moved vcpkg [] s = s
moved vcpkg (command ∷ args) s = if text_eq command (text "pull") then true else s

abbrev head : Where → Bool → Text
head here s = text "teide"
head vcpkg true = text "new"
head vcpkg false = text "old"

abbrev texts : Json
texts = record { Value = Text; string = λ t. t }

-- The state has what vcpkg is at and what vcpkg.json holds.
abbrev two_commits : Git texts
two_commits = record {
  State = Bool × Object texts;
  run = λ w args s. (head w s.0, (moved w args s.0, s.1));
  load = λ s. some s.1;
  store = λ contents s. (s.0, contents);
}

stripped : (w : Where) (s : Bool) → rstrip (head w s) ≡ head w s
unfolding rstrip
stripped here s = refl
stripped vcpkg true = refl
stripped vcpkg false = refl

unmoved :
    (w v : Where) (s : Bool) → head v (moved w (text "rev-parse" ∷ text "HEAD" ∷ []) s) ≡ head v s
unfolding text_eq
unmoved here v s = refl
unmoved vcpkg v s = refl

described :
    (w v : Where) (options : List Text) (s : Bool)
    → head v (moved w (text "describe" ∷ options) s) ≡ head v s
unfolding text_eq
described here v options s = refl
described vcpkg v options s = refl

two_commits-IsGit : IsGit texts two_commits λ w s. head w s.0
two_commits-IsGit = record {
  names = λ w s. stripped w s.0;
  names_only = λ w v s. unmoved w v s.0;
  reads_only = λ w s. refl;
  describes = λ w v options s. described w v options s.0;
  apart = λ release s. refl;
  stores = λ contents s. refl;
  stores_only = λ w contents s. refl;
}

abbrev before : Object texts
before = (text "name", text "teide") ∷ (text "builtin-baseline", text "old") ∷ []

abbrev after : Object texts
after = (text "name", text "teide") ∷ (text "builtin-baseline", text "new") ∷ []

moves : main texts two_commits (false, before) ≡ updated (true, after)
unfolding main text_eq rstrip
moves = refl

main-Follows_example :
    Follows texts two_commits
      (λ w s. head w s.0)
      (text "old")
      (head vcpkg (pulled texts two_commits (false, before)).0)
      (some before)
      (main texts two_commits (false, before))
main-Follows_example =
    main-Follows texts two_commits (λ w s. head w s.0) (false, before) two_commits-IsGit
