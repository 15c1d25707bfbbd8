-- ===== src/UpdatePackages/Baseline.antt =====
-- tools/update_packages.py: which commit becomes the baseline.
use teide.Base.{
  ◌≡◌, ◌≢◌, refl, ◌∙◌, List, [], ◌∷◌, Option, none, some, arith, Bool-cases, Option-cases, inl, inr,
  if◌then◌else◌,
}
use teide.Base.Strip.{rstrip}
use teide.Base.Text.{Text, text, text_eq, text_eq_iff}
use teide.UpdatePackages.{
  Where, here, vcpkg, Git, Json, Object, Ending, raised, up_to_date, updated, get, set, modify_json,
  git, head_args, main,
}

get-set :
    (j : Json) (contents : Object j) (key other : Text) (value : j.Value)
    → get j (set j contents key value) other
      ≡ (if text_eq key other then some value else get j contents other)
unfolding get set
get-set j [] key other value = refl
get-set j ((k, old) ∷ contents) key other value = ground (
  arith,
  get-set j contents key other value,
  text_eq_iff k key,
  text_eq_iff k other,
  text_eq_iff key other,
)

-- How git behaves, where `head` is the commit that HEAD of each repository stands for. `git switch` in the
-- repository does not touch the one of vcpkg inside it, as is so if `submodule.recurse` is not set.
pub record IsGit (j : Json) (g : Git j) (head : Where → g.State → Text) : Type 0 where
  pub names : (w : Where) (s : g.State) → rstrip (g.run w head_args s).0 ≡ head w s
  pub names_only : (w v : Where) (s : g.State) → head v (g.run w head_args s).1 ≡ head v s
  pub reads_only : (w : Where) (s : g.State) → g.load (g.run w head_args s).1 ≡ g.load s
  pub describes :
      (w v : Where) (options : List Text) (s : g.State)
      → head v (g.run w (text "describe" ∷ options) s).1 ≡ head v s
  pub apart :
      (release : Text) (s : g.State)
      → head vcpkg (g.run here (text "switch" ∷ text "--detach" ∷ release ∷ []) s).1 ≡ head vcpkg s
  pub stores : (contents : Object j) (s : g.State) → g.load (g.store contents s) ≡ some contents
  pub stores_only :
      (w : Where) (contents : Object j) (s : g.State) → head w (g.store contents s) ≡ head w s

module _ (j : Json) (g : Git j) where
  -- The repositories after `git pull` on the branch master of vcpkg.
  abbrev pub pulled : g.State → g.State
  pulled s0 =
      let s1 = (g.run vcpkg (text "describe" ∷ text "--tags" ∷ []) s0).1 in
      let s2 = (g.run vcpkg head_args s1).1 in
      (g.run vcpkg (text "pull" ∷ []) (g.run vcpkg (text "switch" ∷ text "master" ∷ []) s2).1).1

  -- And after the release that vcpkg describes has been switched to in the repository itself.
  abbrev pub switched : g.State → g.State
  switched s4 =
      let (release, s5) =
        g.run vcpkg (text "describe" ∷ text "--tags" ∷ text "--abbrev=0" ∷ []) s4 in
      (g.run here (text "switch" ∷ text "--detach" ∷ rstrip release ∷ []) s5).1

  module _ (head : Where → g.State → Text) where
    -- The script ends with vcpkg at this commit. Nothing is written if it was there before; otherwise
    -- the commit becomes the baseline in the file and all other keys keep their values, or the file
    -- cannot be read.
    abbrev pub Follows : Text → Text → Option (Object j) → Ending g.State → Type 0
    Follows was commit file (raised s) =
        (was ≢ commit) × (file ≡ none) × (head vcpkg s ≡ commit) × (g.load s ≡ none)
    Follows was commit file (up_to_date s) =
        (was ≡ commit) × (head vcpkg s ≡ commit) × (g.load s ≡ file)
    Follows was commit file (updated s) =
        (was ≢ commit)
        × (head vcpkg s ≡ commit)
        × ((contents : Object j) × (after : Object j) × (file ≡ some contents)
            × (g.load s ≡ some after)
            × ((key : Text)
                → get j after key ≡ (
                    if text_eq (text "builtin-baseline") key
                    then some (j.string commit)
                    else get j contents key)))

    modify_json-Follows :
        (was commit : Text) (s : g.State)
        → IsGit j g head
        → was ≢ commit
        → head vcpkg s ≡ commit
        → Follows was commit (g.load s) (modify_json j g commit s)
    unfolding modify_json
    modify_json-Follows was commit s laws moved at = elim (Option-cases (g.load s)) [
      | inl lost ↦ rw (modify_json, lost) (moved, refl, at, lost)
      | inr (contents, there) ↦
          let after = set j contents (text "builtin-baseline") (j.string commit) in
          rw (modify_json, there)
            (
              moved,
              laws.stores_only vcpkg after s ∙ at,
              (
                contents,
                after,
                refl,
                laws.stores after s,
                λ key. get-set j contents (text "builtin-baseline") key (j.string commit),
              ),
            )
    ]

    finished-Follows :
        (was commit : Text) (s : g.State)
        → IsGit j g head
        → head vcpkg s ≡ commit
        → Follows was commit
            (g.load s)
            (if text_eq was commit then up_to_date s else modify_json j g commit s)
    finished-Follows was commit s laws at = elim (Bool-cases (text_eq was commit)) [
      | inl same ↦ rw same ((text_eq_iff was commit).0 same, at, refl)
      | inr moved ↦ rw moved (
          modify_json-Follows was commit s laws
            (λ e. cc (rw ((text_eq_iff was commit).1 e) at moved)) at)
    ]

-- The commit that vcpkg is at after `git pull` on master is the new baseline, and vcpkg is still there
-- at the end: what is switched to the latest release of vcpkg is the repository itself, whose vcpkg.json
-- is then read. It is written exactly if vcpkg was at another commit before and it could be read, and
-- no other key of it changes. This holds for a git that keeps the two repositories apart.
pub main-Follows :
    (j : Json) (g : Git j) (head : Where → g.State → Text) (s : g.State)
    → IsGit j g head
    → Follows j g head
        (head vcpkg s)
        (head vcpkg (pulled j g s))
        (g.load (switched j g (pulled j g s)))
        (main j g s)
unfolding main
main-Follows j g head s laws =
    let s1 = (g.run vcpkg (text "describe" ∷ text "--tags" ∷ []) s).1 in
    let described = laws.describes vcpkg vcpkg (text "--tags" ∷ []) s in
    let old : rstrip (g.run vcpkg head_args s1).0 ≡ head vcpkg s =
      laws.names vcpkg s1 ∙ described in
    let s4 = pulled j g s in
    let describe = text "describe" ∷ text "--tags" ∷ text "--abbrev=0" ∷ [] in
    let s5 = (g.run vcpkg describe s4).1 in
    let release = rstrip (g.run vcpkg describe s4).0 in
    let s6 = switched j g s4 in
    let still : head vcpkg s6 ≡ head vcpkg s4 =
      laws.apart release s5
      ∙ laws.describes vcpkg vcpkg (text "--tags" ∷ text "--abbrev=0" ∷ []) s4 in
    let new : rstrip (g.run vcpkg head_args s6).0 ≡ head vcpkg s4 = laws.names vcpkg s6 ∙ still in
    let s7 = (g.run vcpkg head_args s6).1 in
    let ended =
      finished-Follows j g head (head vcpkg s) (head vcpkg s4) s7 laws
        (laws.names_only vcpkg vcpkg s6 ∙ still) in
    rw (main, git, old, new, ← laws.reads_only vcpkg s6) ended
