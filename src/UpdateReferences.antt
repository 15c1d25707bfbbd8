-- ===== src/UpdateReferences.antt =====
-- tools/update_references.py: the references of the render tests are replaced by the outputs if all
-- output directories agree.
pub mod Hashing
pub mod Agreement
pub mod Updated
pub mod Found
mod Examples
use teide.Base.{
  ◌≡◌, ◌==◌, ℕ, zero, suc, ◌+◌, ◌<◌, Bool, true, false, not, ◌&&◌, List, [], ◌∷◌, ◌++◌, Option,
  none, some, map, all, length, keep, if◌then◌else◌,
}
use mathlib.Core.List.{foldl, flatten}
use teide.Base.Text.{Text, text, text_eq, contains, starts_with}

-- What the script uses of `hashlib.md5`: the object, `update` and `digest`.
pub record Hash : Type 1 where
  pub State : Type 0
  pub new : State
  pub update : State → Text → State
  pub digest : State → Text

-- As the documentation of hashlib states it, repeated calls of `update` are equivalent to a single
-- call with the concatenation of all the arguments.
abbrev pub IsIncremental : Hash → Type 0
IsIncremental h =
    (chunks : List Text)
    → h.digest (foldl h.update h.new chunks) ≡ h.digest (h.update h.new (flatten chunks))

-- `f.read(size)`: the bytes that are read, and those that are left.
unfoldable pub read : ℕ → Text → Text × Text
read zero bytes = ([], bytes)
read (suc size) [] = ([], [])
read (suc size) (b ∷ bytes) = let (front, rest) = read size bytes in (b ∷ front, rest)

module _ (h : Hash) (buf_size : ℕ) where
  -- `while data := f.read(buf_size)`; the first argument is fuel.
  unfoldable pub hash_loop : ℕ → h.State → Text → h.State
  unfolding read
  hash_loop zero state bytes = state
  hash_loop (suc fuel) state bytes =
      let (chunk, rest) = read buf_size bytes in
      let more = hash_loop fuel (h.update state chunk) rest in
      elim chunk [ [] ↦ state | c ∷ cs ↦ more ]

  unfoldable pub hash_file : Text → Text
  unfolding hash_loop
  hash_file bytes = h.digest (hash_loop (suc (length bytes)) h.new bytes)

-- A directory: the contents of its files by name.
abbrev pub Dir : Type 0
Dir = List (Text × Text)

-- An entry of the output directory: its name and what is in it.
pub record OutputDir : Type 0 where
  pub name : Text
  pub files : Dir

abbrev pub file_names : Dir → List Text
file_names = map (λ f. f.0)

-- Equality of sets of names.
unfoldable pub same_set : List Text → List Text → Bool
same_set xs ys = all (contains ys) xs && all (contains xs) ys

-- `all_same(items)`
unfoldable pub all_same {ℓ} : {A : Type ℓ} → (A → A → Bool) → List A → Bool
all_same eq [] = true
all_same eq (x ∷ xs) = all (λ y. eq y x) (x ∷ xs)

-- `s.endswith(suffix)` and `s.removesuffix(suffix)`
unfoldable pub remove_suffix : Text → Text → Option Text
remove_suffix [] [] = some []
remove_suffix [] (d ∷ suffix) = none
remove_suffix (c ∷ s) suffix =
    if text_eq (c ∷ s) suffix
    then some []
    else elim (remove_suffix s suffix) [ none ↦ none | some stem ↦ some (c ∷ stem) ]

abbrev pub is_some {ℓ} : {A : Type ℓ} → Option A → Bool
is_some none = false
is_some (some x) = true

abbrev pub get_or {ℓ} : {A : Type ℓ} → A → Option A → A
get_or default none = default
get_or default (some x) = x

unfoldable pub lookup : Dir → Text → Option Text
lookup [] name = none
lookup ((other, content) ∷ dir) name = if text_eq other name then some content else lookup dir name

abbrev pub out_suffix : Text
out_suffix = text ".out.png"

-- The names of the references: `name.removesuffix('.out.png') + '.png'`.
unfoldable pub ref_name : Text → Text
unfolding remove_suffix
ref_name name = get_or name (remove_suffix name out_suffix) ++ text ".png"

unfoldable pub out_images : Dir → List Text
unfolding remove_suffix
out_images dir = keep (λ n. is_some (remove_suffix n out_suffix)) (file_names dir)

-- The text before the last dot.
before_dot : Text → Option Text
before_dot [] = none
before_dot (c ∷ s) = elim (before_dot s) [
  | some front ↦ some (c ∷ front)
  | none ↦ if c == b'.' then some [] else none
]

ends_with_dot : Text → Bool
ends_with_dot [] = false
ends_with_dot (c ∷ []) = c == b'.'
ends_with_dot (c ∷ d ∷ s) = ends_with_dot (d ∷ s)

-- `Path(name).stem`
unfoldable pub stem : Text → Text
unfolding before_dot ends_with_dot
stem name = elim (before_dot name) [
  | none ↦ name
  | some [] ↦ name
  | some (c ∷ front) ↦ if ends_with_dot name then name else c ∷ front
]

-- How the script ends: with exit status 1 and one of three messages, with a FileNotFoundError, or
-- with these references.
pub data Outcome : Type 0 where
  no_outputs : Outcome
  differing_results : Outcome
  differing_contents : Outcome
  file_not_found : Outcome
  updated : Dir → Outcome

-- `dir / name` in each directory; nothing if the file is missing in one of them.
unfoldable pub contents : List Dir → Text → Option (List Text)
unfolding lookup
contents [] name = some []
contents (dir ∷ dirs) name = elim (lookup dir name) [
  | none ↦ none
  | some content ↦ elim (contents dirs name) [ none ↦ none | some more ↦ some (content ∷ more) ]
]

-- `shutil.copy(source, dest)`, where the file `dest` gets this content.
unfoldable pub copy : Text → Text → Dir → Dir
copy content dest [] = (dest, content) ∷ []
copy content dest ((name, old) ∷ dir) =
    if text_eq name dest then (name, content) ∷ dir else (name, old) ∷ copy content dest dir

-- The last loop, where the directory of the references is there.
unfoldable pub copy_all : Dir → List Text → Dir → Outcome
unfolding copy
copy_all first [] references = updated references
copy_all first (name ∷ names) references = elim (lookup first name) [
  | none ↦ file_not_found
  | some content ↦ copy_all first names (copy content (ref_name name) references)
]

-- Without that directory the first copy raises, and if there is nothing to copy, there are no references.
abbrev pub copy_to : Dir → List Text → Option Dir → Outcome
copy_to first names (some references) = copy_all first names references
copy_to first [] none = updated []
copy_to first (name ∷ names) none = file_not_found

module _ (h : Hash) where
  -- The loop over the images, and what follows it.
  unfoldable pub compare_all : List Dir → List Text → Outcome → Outcome
  compare_all dirs [] next = next
  compare_all dirs (name ∷ names) next = elim (contents dirs name) [
    | none ↦ file_not_found
    | some found ↦
        (let rest = compare_all dirs names next in
          if all_same text_eq (map (hash_file h 65536) found) then rest else differing_contents)
  ]

  abbrev pub with_first : List Dir → (Dir → Outcome) → Outcome
  with_first [] next = no_outputs
  with_first (first ∷ dirs) next = next first

  -- From the file sets on.
  unfoldable pub update_from : List Dir → Option Dir → Outcome
  update_from output_dirs references = with_first output_dirs λ first.
      if not (all_same same_set (map file_names output_dirs))
      then differing_results
      else compare_all output_dirs (out_images first) (copy_to first (out_images first) references)

-- The output directories among the entries of the given directory.
unfoldable pub find_outputs : List OutputDir → List Dir
unfolding stem
find_outputs entries =
    map (λ x. x.files) (keep (λ x. starts_with (stem x.name) (text "RenderTestOutput-")) entries)

-- The whole script, of the entries of the given directory and of the references; either directory may
-- be missing.
unfoldable pub update_references : Hash → Option (List OutputDir) → Option Dir → Outcome
unfolding update_from
update_references h none references = file_not_found
update_references h (some entries) references = update_from h (find_outputs entries) references
