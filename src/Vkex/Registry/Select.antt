-- ===== src/Vkex/Registry/Select.antt =====
-- tools/vkex/reg.py: the versions and extensions that `apiGen` selects.
pub mod Names
pub mod Laws
pub mod Target
mod Examples
use teide.Base.{
  ℕ, leb, Bool, true, false, not, ◌&&◌, List, [], ◌∷◌, ◌++◌, Option, none, some, if◌then◌else◌,
}
use teide.Base.Text.{Text, text, text_eq, contains}
use teide.Vkex.Registry.Match.{api_name_match}
use teide.Vkex.Xml.{Element, get}

-- A version or an extension, with the number of an extension.
pub record FeatureInfo : Type 0 where
  pub name : Text
  pub elem : Element
  pub number : ℕ

-- The patterns are what `match` of the compiled expressions finds.
pub record SelectOptions : Type 0 where
  pub apiname : Option Text
  pub default_extensions : Option Text
  pub versions : Text → Bool
  pub emit_versions : Text → Bool
  pub add_extensions : Text → Bool
  pub remove_extensions : Text → Bool
  pub emit_extensions : Text → Bool

-- What is selected, with its flag `emit`.
pub record Selected : Type 0 where
  pub info : FeatureInfo
  pub emit : Bool

pub record Selection : Type 0 where
  pub gen_features : List (Text × Selected)
  pub removed_extension_names : List Text
  pub required_extensions : List Text

-- `self.genFeatures[name] = fi`
unfoldable pub set_feature : List (Text × Selected) → Text → Selected → List (Text × Selected)
set_feature [] name x = (name, x) ∷ []
set_feature ((other, y) ∷ features) name x =
    if text_eq other name then (other, x) ∷ features else (other, y) ∷ set_feature features name x

-- `self.removedExtensionNames.add(extName)`
abbrev add_name : List Text → Text → List Text
add_name names name = if contains names name then names else names ++ (name ∷ [])

-- `sorted(…, key=…)`, which keeps the order of equal numbers.
unfoldable pub insert_by_number : FeatureInfo → List FeatureInfo → List FeatureInfo
insert_by_number x [] = x ∷ []
insert_by_number x (y ∷ ys) =
    let rest = insert_by_number x ys in if leb x.number y.number then x ∷ y ∷ ys else y ∷ rest

unfoldable pub sort_by_number : List FeatureInfo → List FeatureInfo
unfolding insert_by_number
sort_by_number [] = []
sort_by_number (x ∷ xs) = insert_by_number x (sort_by_number xs)

module _ (o : SelectOptions) where
  abbrev pub is_version : FeatureInfo → Bool
  is_version fi = api_name_match o.apiname (get fi.elem (text "api")) && o.versions fi.name

  unfoldable pub select_version : FeatureInfo → Selection → Selection
  unfolding set_feature api_name_match
  select_version fi s =
      if is_version fi
      then record s {
        gen_features =
            set_feature s.gen_features fi.name
              (record { info = fi; emit = o.emit_versions fi.name });
      }
      else s

  abbrev pub included_by_default : FeatureInfo → Bool
  included_by_default ei = api_name_match o.default_extensions (get ei.elem (text "supported"))

  -- The pattern of the added extensions overrides the default, and that of the removed ones overrides both.
  abbrev pub is_included : FeatureInfo → Bool
  is_included ei =
      if o.remove_extensions ei.name
      then false
      else if o.add_extensions ei.name
      then api_name_match o.apiname (get ei.elem (text "supported"))
      else included_by_default ei

  abbrev pub is_removed : FeatureInfo → Bool
  is_removed ei = o.remove_extensions ei.name && included_by_default ei

  unfoldable pub select_extension : FeatureInfo → Selection → Selection
  unfolding set_feature api_name_match
  select_extension ei s =
      let s1 : Selection =
        if is_removed ei
        then record s { removed_extension_names = add_name s.removed_extension_names ei.name }
        else s in
      if is_included ei
      then record s1 {
        gen_features =
            set_feature s1.gen_features ei.name
              (record { info = ei; emit = o.emit_extensions ei.name });
        required_extensions = s1.required_extensions ++ (ei.name ∷ []);
      }
      else s1

  unfoldable pub select_versions : List FeatureInfo → Selection → Selection
  unfolding select_version
  select_versions [] s = s
  select_versions (fi ∷ apis) s = select_versions apis (select_version fi s)

  unfoldable pub select_extensions : List FeatureInfo → Selection → Selection
  unfolding select_extension
  select_extensions [] s = s
  select_extensions (ei ∷ exts) s = select_extensions exts (select_extension ei s)

  -- Nothing is in `requiredextensions` before.
  unfoldable pub select : List FeatureInfo → List FeatureInfo → Selection
  unfolding select_versions select_extensions sort_by_number
  select apidict extdict = select_extensions (sort_by_number extdict) (
      select_versions apidict
        (record { gen_features = []; removed_extension_names = []; required_extensions = [] }))
