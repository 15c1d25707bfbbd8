-- ===== src/UpdatePackages.antt =====
-- tools/update_packages.py: the baseline in vcpkg.json follows the checkout of vcpkg.
pub mod Baseline
mod Examples
use teide.Base.{◌≡◌, Bool, true, false, List, [], ◌∷◌, ◌++◌, Option, none, some, if◌then◌else◌}
use teide.Base.Strip.{rstrip}
use teide.Base.Text.{Text, text, text_eq}

-- Where git is run: the script passes `cwd=vcpkg_dir` or nothing.
pub data Where : Type 0 where
  here : Where
  vcpkg : Where

-- An object of JSON; `string` makes a value of a text.
pub record Json : Type 1 where
  pub Value : Type 0
  pub string : Text → Value

module _ (j : Json) where
  abbrev pub Object : Type 0
  Object = List (Text × j.Value)

  unfoldable pub get : Object → Text → Option j.Value
  get [] key = none
  get ((other, value) ∷ contents) key = if text_eq other key then some value else get contents key

  -- `contents[key] = value`
  unfoldable pub set : Object → Text → j.Value → Object
  set [] key value = (key, value) ∷ []
  set ((other, old) ∷ contents) key value =
      if text_eq other key then (other, value) ∷ contents else (other, old) ∷ set contents key value

-- The two repositories with their files. The script reads the output of git, and its exit code is not
-- looked at. `load` reads vcpkg.json, which may be missing or no JSON, and `store` writes it.
pub record Git (j : Json) : Type 1 where
  pub State : Type 0
  pub run : Where → List Text → State → Text × State
  pub load : State → Option (Object j)
  pub store : Object j → State → State

-- How the script ends: an exception, no change, or a new baseline.
pub data Ending (S : Type 0) : Type 0 where
  raised : S → Ending S
  up_to_date : S → Ending S
  updated : S → Ending S

abbrev pub head_args : List Text
head_args = text "rev-parse" ∷ text "HEAD" ∷ []

module _ (j : Json) (g : Git j) where
  unfoldable pub git : Where → List Text → g.State → Text × g.State
  git cwd args s = let (stdout, s') = g.run cwd args s in (rstrip stdout, s')

  unfoldable pub modify_json : Text → g.State → Ending g.State
  unfolding set
  modify_json new_commit s = elim (g.load s) [
    | none ↦ raised s
    | some contents ↦
        updated (g.store (set j contents (text "builtin-baseline") (j.string new_commit)) s)
  ]

  unfoldable pub main : g.State → Ending g.State
  unfolding git modify_json
  main s0 =
      let (old_release, s1) = git vcpkg (text "describe" ∷ text "--tags" ∷ []) s0 in
      let (old_commit, s2) = git vcpkg head_args s1 in
      let s3 = (git vcpkg (text "switch" ∷ text "master" ∷ []) s2).1 in
      let s4 = (git vcpkg (text "pull" ∷ []) s3).1 in
      let (new_release, s5) =
        git vcpkg (text "describe" ∷ text "--tags" ∷ text "--abbrev=0" ∷ []) s4 in
      let s6 = (git here (text "switch" ∷ text "--detach" ∷ new_release ∷ []) s5).1 in
      let (new_commit, s7) = git vcpkg head_args s6 in
      if text_eq old_commit new_commit then up_to_date s7 else modify_json new_commit s7
