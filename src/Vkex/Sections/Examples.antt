-- ===== src/Vkex/Sections/Examples.antt =====
-- tools/vkex/vkexgenerator.py: a small feature.
use teide.Base.{◌≡◌, refl, true, not, List, [], ◌∷◌, none, All}
use teide.Base.Result.{ok}
use teide.Base.Text.{Text, text, text_eq, contains, starts_with}
use teide.Vkex.Sections.{
  all_sections, Feature, Options, begin_feature, section_of, end_feature, write,
}
use teide.Vkex.Sections.Order.{append_all, appended, is_empty, append_all_lem}

abbrev appends : List (Text × Text)
appends =
    (text "struct", text "struct B;")
    ∷ (text "enum", text "enum E;")
    ∷ (text "struct", text "struct A;")
    ∷ []

appends_known : All (λ a. contains all_sections a.0 ≡ true) appends
unfolding text_eq
appends_known = (refl, (refl, (refl, tt)))

append_all_lem_example :
    (after : Feature) × (append_all begin_feature appends ≡ ok after)
    × (after.feature_not_empty ≡ not (is_empty appends))
    × ((name : Text) → section_of after.sections name ≡ appended name appends)
append_all_lem_example = append_all_lem appends appends_known

abbrev options : Options
options = record {
  gen_func_pointers = true;
  protect_proto = none;
  protect_proto_str = none;
  protect_extension_proto = none;
  protect_extension_proto_str = none;
  protect_proto_comment = true;
  api_prefix = text "VK_";
  write_feature = true;
  feature_name = text "VK_F";
}

abbrev filled : Feature
filled = record {
  sections =
      (text "enum", text "enum E;" ∷ [])
      ∷ (text "struct", text "struct B;" ∷ text "struct A;" ∷ [])
      ∷ [];
  feature_not_empty = true;
}

ended :
    end_feature options true filled
    ≡ ok (text "\n#ifdef VK_F\nenum E;\nstruct B;\nstruct A;\n#endif /* VK_F */\n")
unfolding end_feature text_eq starts_with write
ended = refl
