-- ===== src/Vkex/Registry/Passes.antt =====
-- tools/vkex/reg.py: the passes of `apiGen` over the selected features that mark what is required.
pub mod Removed
pub mod Laws
mod Examples
use teide.Base.{
  ℕ, Bool, true, false, not, ◌&&◌, ◌||◌, List, [], ◌∷◌, Option, none, some, keep, if◌then◌else◌,
}
use teide.Base.Result.{Result, ok, raised, ◌>>=◌}
use teide.Base.Strip.{strip}
use teide.Base.Text.{Text, text, text_eq, contains}
use teide.Vkex.Dependency as Dependency
use teide.Vkex.Exceptions.{Exception, dependency_error}
use teide.Vkex.Registry.{Dictionaries}
use teide.Vkex.Registry.Mark.{Step, mark_list, mark_required}
use teide.Vkex.Registry.Match.{match_api_profile}
use teide.Vkex.Xml.{Element, children_of, get, has_tag}

-- A feature that is selected.
pub record Feature : Type 0 where
  pub elem : Element
  pub name : Text

-- What the passes read of the registry, besides the dictionaries. `evaluate` is evaluateDependency.
pub record Setting : Type 0 where
  pub api : Text
  pub profile : Option Text
  pub gen_features : List Text
  pub removed_extension_names : List Text
  pub evaluate : Text → (Text → Bool) → Result Dependency.Exception Bool

-- The features that a dependency may name.
abbrev pub is_supported : Setting → Text → Bool
is_supported g name =
    if text_eq g.api (text "vulkansc")
      && contains (text "VK_VERSION_1_3" ∷ text "VK_VERSION_1_4" ∷ []) name
    then false
    else contains g.gen_features name || contains g.removed_extension_names name

-- A dependency that cannot be read is not satisfied.
abbrev pub caught : Result Dependency.Exception Bool → Result Exception Bool
caught (ok b) = ok b
caught (raised Dependency.parse_exception) = ok false
caught (raised e) = raised dependency_error

abbrev is_blank : Text → Bool
is_blank [] = true
is_blank (c ∷ s) = false

abbrev satisfied : Setting → Option Text → Result Exception Bool
satisfied g none = ok true
satisfied g (some depends) =
    if is_blank (strip depends) then ok true else caught (g.evaluate depends (is_supported g))

unfoldable pub require_depends_satisfied : Setting → Element → Result Exception Bool
unfolding strip
require_depends_satisfied g require = satisfied g (get require (text "depends"))

abbrev pub blocks : Text → Feature → List Element
blocks tag f = keep (has_tag tag) (children_of f.elem)

-- Whether an element `<require>` or `<remove>` counts.
unfoldable pub is_required : Setting → Element → Result Exception Bool
unfolding match_api_profile require_depends_satisfied
is_required g require = match_api_profile (some g.api) g.profile require >>= λ matched.
    if matched then require_depends_satisfied g require else ok false

abbrev pub is_removed_block : Setting → Element → Result Exception Bool
is_removed_block g remove = match_api_profile (some g.api) g.profile remove

abbrev pub when : Result Exception Bool → Step → Step
when test step s = test >>= λ b. if b then step s else ok s

module _ (d : Dictionaries) (g : Setting) (depth : ℕ) where
  unfoldable pub require_features : Feature → Step
  unfolding mark_required is_required
  require_features f =
      mark_list (λ b. when (is_required g b) (mark_required d depth f.name true b))
        (blocks (text "require") f)

  unfoldable pub remove_features : Feature → Step
  unfolding mark_required match_api_profile
  remove_features f =
      mark_list (λ b. when (is_removed_block g b) (mark_required d depth f.name false b))
        (blocks (text "remove") f)

  -- The calls of these two in the first and the second pass.
  unfoldable pub tag_features : List Feature → Step
  unfolding require_features remove_features
  tag_features features s =
      mark_list require_features features s >>= λ s'. mark_list remove_features features s'
