-- ===== src/Vkex/Target.antt =====
-- tools/vkex/genvkex.py: the arguments, the patterns made of them, and the options of the generator.
pub mod Regex
pub mod Selected
mod Examples
use teide.Base.{
  Bool, true, false, not, ◌&&◌, ◌||◌, List, [], ◌∷◌, ◌++◌, ◌==◌, ℕ, leb, Option, none, some, map,
  keep, if◌then◌else◌,
}
use teide.Base.Strip.{is_space, onto_first}
use teide.Base.Text.{Text, text}
use teide.GenFilelists.Listing.{join}

-- The parts between white space, empty ones as well.
unfoldable pub space_parts : Text → List Text
unfolding is_space
space_parts [] = [] ∷ []
space_parts (c ∷ s) =
    let parts = space_parts s in if is_space c then [] ∷ parts else onto_first c parts

abbrev is_word : Text → Bool
is_word [] = false
is_word (c ∷ w) = true

-- `s.split()`
abbrev pub split_words : Text → List Text
split_words s = keep is_word (space_parts s)

-- `[name for arg in args for name in arg.split()]`
abbrev pub split_args : List Text → List Text
split_args [] = []
split_args (arg ∷ args) = split_words arg ++ split_args args

-- The characters that `re.escape` puts a backslash in front of.
abbrev pub is_special : ℕ → Bool
is_special c =
    (leb 9 c && leb c 13)
    || c == b' '
    || c == b'#'
    || c == b'$'
    || c == b'&'
    || (leb b'(' c && leb c b'+')
    || c == b'-'
    || c == b'.'
    || c == b'?'
    || (leb b'[' c && leb c b'^')
    || (leb b'{' c && leb c b'~')

unfoldable pub re_escape : Text → Text
re_escape [] = []
re_escape (c ∷ s) = let rest = re_escape s in if is_special c then b'\\' ∷ c ∷ rest else c ∷ rest

abbrev pub alternatives : List Text → Option Text
alternatives strings = some (text "^(" ++ (join (text "|") strings ++ text ")$"))

-- `makeREstring`; `None` is the default that gives a pattern even of no strings.
unfoldable pub make_re_string : List Text → Option Text → Bool → Option Text
unfolding re_escape join
make_re_string [] (some default) strings_are_regex = some default
make_re_string [] none strings_are_regex = alternatives []
make_re_string (s ∷ strings) default strings_are_regex =
    if not strings_are_regex
    then alternatives (map re_escape (s ∷ strings))
    else alternatives (s ∷ strings)

-- The arguments that `genTarget` reads.
pub record Arguments : Type 0 where
  pub apiname : Option Text
  pub merge_api_names : Option Text
  pub extension : List Text
  pub remove_extensions : List Text
  pub emit_extensions : List Text
  pub feature : List Text
  pub protect : Bool
  pub directory : Text
  pub misracstyle : Bool
  pub misracppstyle : Bool

-- What `genTarget` sets of the options.
pub record TargetOptions : Type 0 where
  pub filename : Text
  pub directory : Text
  pub genpath : Option Text
  pub apiname : Text
  pub merge_api_names : Option Text
  pub profile : Option Text
  pub versions : Option Text
  pub emitversions : Option Text
  pub add_extensions : Option Text
  pub remove_extensions : Option Text
  pub emit_extensions : Option Text
  pub prefix_text : List Text
  pub gen_func_pointers : Bool
  pub protect_file : Bool
  pub protect_feature : Bool
  pub protect_proto : Option Text
  pub protect_proto_str : Option Text
  pub apicall : Text
  pub apientry : Text
  pub apientryp : Text
  pub align_func_param : ℕ
  pub misracstyle : Bool
  pub misracppstyle : Bool

abbrev prefix_strings : List Text
prefix_strings =
    text "/*"
    ∷ text "** This header is generated from the Khronos Vulkan XML API Registry."
    ∷ text "**"
    ∷ text "*/"
    ∷ []
    ∷ []

abbrev api_or_default : Text → Option Text → Text
api_or_default xml_api_name none = xml_api_name
api_or_default xml_api_name (some apiname) = apiname

-- `xml_api_name` is that of the conventions.
unfoldable pub gen_target : Text → Arguments → TargetOptions
unfolding make_re_string
gen_target xml_api_name args =
    let all_features : Text = text ".*" in
    let features_pat = make_re_string args.feature (some all_features) false in
    record {
      filename = text "vkex.hpp";
      directory = args.directory;
      genpath = none;
      apiname = api_or_default xml_api_name args.apiname;
      merge_api_names = args.merge_api_names;
      profile = none;
      versions = features_pat;
      emitversions = features_pat;
      add_extensions = some (text ".*");
      remove_extensions = make_re_string args.remove_extensions none true;
      emit_extensions = make_re_string args.emit_extensions (some all_features) false;
      prefix_text = prefix_strings;
      gen_func_pointers = false;
      protect_file = args.protect;
      protect_feature = true;
      protect_proto = some (text "#ifndef");
      protect_proto_str = some (text "VK_NO_PROTOTYPES");
      apicall = text "VKAPI_ATTR ";
      apientry = text "VKAPI_CALL ";
      apientryp = text "VKAPI_PTR *";
      align_func_param = 48;
      misracstyle = args.misracstyle;
      misracppstyle = args.misracppstyle;
    }

-- The options that the script makes of its arguments.
unfoldable pub target_of : Text → Arguments → TargetOptions
unfolding gen_target space_parts
target_of xml_api_name args =
    gen_target xml_api_name
      (record args { feature = split_args args.feature; extension = split_args args.extension })
