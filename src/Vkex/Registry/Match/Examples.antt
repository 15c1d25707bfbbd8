-- ===== src/Vkex/Registry/Match/Examples.antt =====
-- tools/vkex/reg.py: a tree with elements for two APIs.
use teide.Base.{◌≡◌, refl, true, false, [], ◌∷◌, none, map, all, keep}
use teide.Base.Strip.{split}
use teide.Base.Text.{Text, text, text_eq}
use teide.Vkex.Registry.Match.{api_name_match}
use teide.Vkex.Registry.Match.Strip.{is_for, strip_nonmatching_apis, strip_nonmatching_apis_lem}
use teide.Vkex.Xml.{
  Element, Elements, element, nil, cons, below, children_of, tag_of, attrib_of, text_of, tail_of,
}

abbrev feature : Text → Elements → Element
feature api children = element (text "feature") ((text "api", api) ∷ []) none children none

abbrev registry : Element
registry =
    element (text "registry") [] none
      (cons (feature (text "vulkansc") nil)
        (cons (feature (text "vulkanbase,vulkan") (cons (feature (text "vulkansc") nil) nil)) nil))
      none

stripped :
    strip_nonmatching_apis (text "vulkan") true registry
    ≡ element (text "registry") [] none (cons (feature (text "vulkanbase,vulkan") nil) nil) none
unfolding strip_nonmatching_apis api_name_match text_eq split
stripped = refl

abbrev strip_vulkan : Element → Element
strip_vulkan = strip_nonmatching_apis (text "vulkan") true

strip_nonmatching_apis_lem_example :
    (children_of (strip_vulkan registry)
      ≡ map strip_vulkan (keep (is_for (text "vulkan")) (children_of registry)))
    × (tag_of (strip_vulkan registry) ≡ text "registry")
    × (attrib_of (strip_vulkan registry) ≡ [])
    × (text_of (strip_vulkan registry) ≡ none)
    × (tail_of (strip_vulkan registry) ≡ none)
    × (all (is_for (text "vulkan")) (below (strip_vulkan registry)) ≡ true)
    × (strip_vulkan (strip_vulkan registry) ≡ strip_vulkan registry)
    × (strip_nonmatching_apis (text "vulkan") false registry ≡ registry)
strip_nonmatching_apis_lem_example = strip_nonmatching_apis_lem (text "vulkan") registry
