-- ===== src/Vkex/Sections.antt =====
-- tools/vkex/vkexgenerator.py: the sections of a feature, which are collected and then written.
pub mod Order
mod Examples
use teide.Base.{
  ◌≡◌, Bool, true, false, not, ◌&&◌, ◌||◌, List, [], ◌∷◌, ◌++◌, Option, none, some, map,
  if◌then◌else◌,
}
use teide.Base.Result.{Result, ok, raised, ◌>>=◌}
use teide.Base.Text.{Text, text, text_eq, contains, starts_with, has_text}
use teide.GenFilelists.Listing.{join}
use teide.Vkex.Exceptions.{Exception, key_error, runtime_error, user_warning}

-- `TYPE_SECTIONS` and `ALL_SECTIONS`
abbrev pub type_sections : List Text
type_sections =
    text "include"
    ∷ text "define"
    ∷ text "basetype"
    ∷ text "handle"
    ∷ text "enum"
    ∷ text "group"
    ∷ text "bitmask"
    ∷ text "funcpointer"
    ∷ text "struct"
    ∷ []

abbrev pub all_sections : List Text
all_sections = type_sections ++ (text "commandPointer" ∷ text "command" ∷ [])

abbrev pub Sections : Type 0
Sections = List (Text × List Text)

-- The members that a feature resets.
pub record Feature : Type 0 where
  pub sections : Sections
  pub feature_not_empty : Bool

unfoldable pub begin_feature : Feature
begin_feature = record { sections = map (λ s. (s, [])) all_sections; feature_not_empty = false }

-- `self.sections[section].append(text)`
unfoldable pub append_to : Sections → Text → Text → Result Exception Sections
append_to [] section body = raised key_error
append_to ((name, texts) ∷ rest) section body =
    if text_eq name section
    then ok ((name, texts ++ (body ∷ [])) ∷ rest)
    else append_to rest section body >>= λ more. ok ((name, texts) ∷ more)

unfoldable pub append_section : Feature → Option Text → Text → Result Exception Feature
unfolding append_to
append_section f none body = raised user_warning
append_section f (some section) body = append_to f.sections section body >>= λ sections.
    ok (record { sections = sections; feature_not_empty = true })

-- `self.sections[section]`, of a section that is there.
unfoldable pub section_of : Sections → Text → List Text
section_of [] section = []
section_of ((name, texts) ∷ rest) section =
    if text_eq name section then texts else section_of rest section

-- What the generator is given: `self.genOpts` with its conventions, and the feature.
pub record Options : Type 0 where
  pub gen_func_pointers : Bool
  pub protect_proto : Option Text
  pub protect_proto_str : Option Text
  pub protect_extension_proto : Option Text
  pub protect_extension_proto_str : Option Text
  pub protect_proto_comment : Bool
  pub api_prefix : Text
  -- `conventions.writeFeature(...)` for this feature and file
  pub write_feature : Bool
  pub feature_name : Text

-- `write(*args, end=end)`
unfoldable pub write : List Text → Text → Text
unfolding join
write args end = join (text " ") args ++ end

abbrev line : List Text → Text
line args = write args (text "\n")

-- `str(protect)` where that may be `None`
abbrev or_none : Option Text → Text
or_none none = text "None"
or_none (some s) = s

-- A text that is given and not empty.
abbrev truthy : Option Text → Bool
truthy none = false
truthy (some []) = false
truthy (some (c ∷ s)) = true

unfoldable pub end_protect_comment : Bool → Option Text → Option Text → Result Exception Text
end_protect_comment comment none directive = raised runtime_error
end_protect_comment comment (some protect_str) none = raised runtime_error
end_protect_comment comment (some protect_str) (some directive) = ok (
    if not comment
    then []
    else if has_text directive (text "ifdef")
    then text " /* " ++ (protect_str ++ text " */")
    else text " /* !" ++ (protect_str ++ text " */"))

abbrev end_line : Bool → Option Text → Option Text → Result Exception Text
end_line comment protect_str directive =
    end_protect_comment comment protect_str directive >>= λ c. ok (line ((text "#endif" ++ c) ∷ []))

abbrev if_written : Bool → Result Exception Text → Result Exception Text
if_written true r = r
if_written false r = ok []

abbrev lines_of : List Text → Text
lines_of [] = []
lines_of (body ∷ more) = line (join (text "\n") (body ∷ more) ∷ [])

abbrev is_nonempty : List Text → Bool
is_nonempty [] = false
is_nonempty (x ∷ xs) = true

module _ (o : Options) where
  abbrev is_core : Bool
  is_core = starts_with o.feature_name (o.api_prefix ++ text "VERSION_")

  abbrev extension_only : Bool
  extension_only = truthy o.protect_extension_proto && not is_core

  -- The section `command` with the protection around it.
  unfoldable pub commands_text : List Text → Result Exception Text
  unfolding end_protect_comment write
  commands_text commands =
      let extension_end =
        end_line o.protect_proto_comment o.protect_extension_proto_str o.protect_extension_proto in
      let proto_end = end_line o.protect_proto_comment o.protect_proto_str o.protect_proto in
      if_written extension_only extension_end >>= λ closed.
      (if truthy o.protect_proto then proto_end else ok (text "\n")) >>= λ last. ok (
        (if truthy o.protect_proto
          then line (or_none o.protect_proto ∷ or_none o.protect_proto_str ∷ [])
          else [])
        ++ ((if extension_only
              then line
                  (or_none o.protect_extension_proto ∷ or_none o.protect_extension_proto_str ∷ [])
              else [])
            ++ (write (join (text "\n") commands ∷ []) [] ++ (closed ++ last))))

  -- What the loop over `TYPE_SECTIONS` writes.
  abbrev types_text : Sections → List Text → Text
  types_text sections [] = []
  types_text sections (section ∷ more) =
      lines_of (section_of sections section) ++ types_text sections more

  abbrev pointers_text : List Text → Text
  pointers_text contents =
      if o.gen_func_pointers && is_nonempty contents then lines_of contents ++ text "\n" else []

  -- The text that is written, where nothing is raised; `emit` is the member of the same name.
  unfoldable pub end_feature : Bool → Feature → Result Exception Text
  unfolding commands_text section_of
  end_feature emit f =
      let commands = section_of f.sections (text "command") in
      let pointers = section_of f.sections (text "commandPointer") in
      let whole = if_written (is_nonempty commands) (commands_text commands) >>= λ commands_part.
      end_line o.protect_proto_comment (some o.feature_name) (some (text "#ifdef")) >>= λ closed.
      ok (
        text "\n"
        ++ (line (text "#ifdef" ∷ o.feature_name ∷ [])
            ++ (types_text f.sections type_sections
                ++ (pointers_text pointers ++ (commands_part ++ closed))))) in
      if_written (emit && f.feature_not_empty && o.write_feature) whole
