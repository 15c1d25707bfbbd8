-- ===== src/Vkex/Names.antt =====
-- tools/vkex/vkexgenerator.py: the functions on names and pieces of declarations.
pub mod Pieces
pub mod Pointers
mod Examples
use teide.Base.{
  ◌≡◌, ℕ, zero, suc, ◌-◌, Bool, true, false, not, ◌&&◌, List, [], ◌∷◌, ◌++◌, ◌==◌, leb, Option,
  none, some, map, length, if◌then◌else◌,
}
use teide.Base.Result.{Result, ok, raised}
use teide.Base.Strip.{is_space, strip, split}
use teide.Base.Text.{Text, text, text_eq, starts_with}
use teide.GenFilelists.Listing.{has, join}
use teide.Vkex.Exceptions.{Exception, index_error, runtime_error}

-- `a[-1]`, of a text with this first character.
abbrev pub last : ℕ → Text → ℕ
last c [] = c
last c (d ∷ s) = last d s

abbrev pub drop : ℕ → Text → Text
drop zero s = s
drop (suc n) [] = []
drop (suc n) (c ∷ s) = drop n s

-- `is_alnum` is `str.isalnum` of a character.
module _ (is_alnum : ℕ → Bool) where
  unfoldable pub concat : Text → Text → Text
  concat [] b = b
  concat (c ∷ a) [] = c ∷ a
  concat (c ∷ a) (d ∷ b) =
      if not (is_space (last c a)) && is_alnum d
      then (c ∷ a) ++ (text " " ++ (d ∷ b))
      else (c ∷ a) ++ (d ∷ b)

unfoldable pub convert_type_decl : Text → Text
convert_type_decl name = if starts_with name (text "Vk") then drop 2 name else name

unfoldable pub convert_type_ref : Text → Text
convert_type_ref name = if starts_with name (text "Vk") then text "vk::" ++ drop 2 name else name

-- `lower` is `str.lower` of a character.
module _ (lower : ℕ → Text) where
  abbrev lowered : Text → Result Exception Text
  lowered [] = raised index_error
  lowered (c ∷ name) = ok (lower c ++ name)

  unfoldable pub remove_prefix : Text → Text → Result Exception Text
  remove_prefix name prefix =
      if starts_with name prefix then lowered (drop (length prefix) name) else ok name

abbrev pub take : ℕ → Text → Text
take zero s = []
take (suc n) [] = []
take (suc n) (c ∷ s) = c ∷ take n s

-- `s[:-n]`
abbrev pub drop_last : ℕ → Text → Text
drop_last n s = take (length s - n) s

-- `s.endswith(p)`
abbrev pub ends_with : Text → Text → Bool
ends_with s p = leb (length p) (length s) && text_eq (drop (length s - length p) s) p

-- What is left once the pointer is gone.
unfoldable pub without_const : Text → Text
without_const decl =
    if ends_with decl (text "const")
    then strip (drop_last 5 decl)
    else if starts_with decl (text "const")
    then strip (drop 5 decl)
    else decl

abbrev pointed : Text → Result Exception Text
pointed [] = raised index_error
pointed (c ∷ decl) =
    if last c decl == b'*'
    then ok (without_const (strip (drop_last 1 (c ∷ decl))))
    else raised runtime_error

unfoldable pub remove_pointer : Text → Result Exception Text
unfolding without_const
remove_pointer decl = pointed (strip decl)

abbrev condition_of : Text → Text
condition_of d = text "defined(" ++ (d ++ text ")")

-- The lines before and after what is protected.
unfoldable pub gen_protect_string : Option Text → Text × Text
unfolding split join
gen_protect_string none = ([], [])
gen_protect_string (some []) = ([], [])
gen_protect_string (some (c ∷ s)) =
    let protect_str = c ∷ s in
    let protect_def_str = join (text " && ") (map condition_of (split b',' protect_str)) in
    if has b',' protect_str
    then (
      text "#if " ++ (protect_def_str ++ text "\n"),
      text "#endif // " ++ (protect_def_str ++ text "\n"),
    )
    else (
      text "#ifdef " ++ (protect_str ++ text "\n"),
      text "#endif // " ++ (protect_str ++ text "\n"),
    )
