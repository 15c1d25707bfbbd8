-- ===== src/Vkex/Names/Examples.antt =====
-- tools/vkex/vkexgenerator.py: pieces of the declaration of a member.
use teide.Base.{◌≡◌, refl, ℕ, leb, Bool, ◌&&◌, ◌||◌, ◌++◌, some}
use teide.Base.Result.{ok}
use teide.Base.Strip.{is_space, split}
use teide.Base.Text.{text, text_eq, starts_with}
use teide.GenFilelists.Listing.{join}
use teide.Vkex.Names.{
  concat, convert_type_ref, convert_type_decl, remove_pointer, gen_protect_string,
}
use teide.Vkex.Names.Pointers.{remove_pointer_lem}

abbrev ascii_alnum : ℕ → Bool
ascii_alnum c =
    (leb b'0' c && leb c b'9') || ((leb b'A' c && leb c b'Z') || (leb b'a' c && leb c b'z'))

pieces :
    concat ascii_alnum (concat ascii_alnum (text "const") (text "Buffer")) (text "*")
    ≡ text "const Buffer*"
unfolding concat is_space
pieces = refl

converted : convert_type_ref (text "VkBuffer") ≡ text "vk::" ++ convert_type_decl (text "VkBuffer")
unfolding convert_type_ref convert_type_decl starts_with
converted = refl

remove_pointer_lem_example :
    (remove_pointer (text "float*") ≡ ok (text "float"))
    × (remove_pointer (text "const float*") ≡ ok (text "float"))
    × (remove_pointer (text "float const*") ≡ ok (text "float"))
unfolding is_space starts_with text_eq
remove_pointer_lem_example = remove_pointer_lem b'f' (text "loat") refl refl refl refl refl

-- Names that are separated by commas are all required.
protected :
    gen_protect_string (some (text "A,B"))
    ≡ (text "#if defined(A) && defined(B)\n", text "#endif // defined(A) && defined(B)\n")
unfolding gen_protect_string join split
protected = refl
