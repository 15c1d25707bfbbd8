-- ===== src/Vkex/Registry.antt =====
-- tools/vkex/reg.py: the dictionaries of the registry and the flags of what is required.
pub mod Match
pub mod Mark
pub mod Select
pub mod Passes
use teide.Base.{
  ◌≡◌, ◌↔◌, ℕ, Bool, true, false, ◌&&◌, List, [], ◌∷◌, Option, none, some, arith, if◌then◌else◌,
}
use teide.Base.Text.{Text, text_eq, text_eq_iff}
use teide.Vkex.Xml.{Element}

-- A name, or a name for one API.
pub data Key : Type 0 where
  named : Text → Key
  named_for : Text → Text → Key

abbrev pub key_eq : Key → Key → Bool
key_eq (named s) (named t) = text_eq s t
key_eq (named s) (named_for t b) = false
key_eq (named_for s a) (named t) = false
key_eq (named_for s a) (named_for t b) = text_eq s t && text_eq a b

pub key_eq_iff : (k l : Key) → (key_eq k l ≡ true) ↔ (k ≡ l)
key_eq_iff (named s) (named t) = ground (arith, text_eq_iff s t)
key_eq_iff (named s) (named_for t b) = ground arith
key_eq_iff (named_for s a) (named t) = ground arith
key_eq_iff (named_for s a) (named_for t b) = ground (arith, text_eq_iff s t, text_eq_iff a b)

abbrev pub Dictionary : Type 0 → Type 0
Dictionary A = List (Key × A)

abbrev pub dict_get : {A : Type 0} → Dictionary A → Key → Option A
dict_get [] k = none
dict_get ((l, a) ∷ dictionary) k = if key_eq l k then some a else dict_get dictionary k

abbrev with_key : {A : Type 0} → Key → Option A → Option (Key × A)
with_key k none = none
with_key k (some a) = some (k, a)

-- The object that is found, and its key.
unfoldable pub lookup_element_info : {A : Type 0} → Text → Text → Dictionary A → Option (Key × A)
lookup_element_info apiname fname dictionary =
    elim (dict_get dictionary (named_for fname apiname)) [
      | some a ↦ some (named_for fname apiname, a)
      | none ↦ with_key (named fname) (dict_get dictionary (named fname))
    ]

-- What does not change while features are marked. An element `<enums>` is its place in the registry.
pub record Dictionaries : Type 0 where
  pub apiname : Text
  pub require_command_aliases : Bool
  pub typedict : Dictionary Element
  pub enumdict : Dictionary Element
  pub cmddict : Dictionary Element
  pub groupdict : Dictionary ℕ

pub record CommandExtension : Type 0 where
  pub command : Option Text
  pub value : Text
  pub extension : Text

-- The members `required` of the objects in the dictionaries, the elements `<enums>`, the types of the
-- flags of the groups, and the codes that commands get.
pub record Marks : Type 0 where
  pub types : Key → Bool
  pub enums : Key → Bool
  pub cmds : Key → Bool
  pub enums_elems : List Element
  pub flag_type : Key → Option Key
  pub successes : List CommandExtension
  pub errors : List CommandExtension

abbrev pub set_flag : {A : Type 0} → (Key → A) → Key → A → Key → A
set_flag flags k b l = if key_eq k l then b else flags l
