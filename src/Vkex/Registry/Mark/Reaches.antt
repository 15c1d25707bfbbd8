-- ===== src/Vkex/Registry/Mark/Reaches.antt =====
-- tools/vkex/reg.py: the references between types.
use teide.Base.{◌≡◌, ◌⊎◌, inl, inr, ℕ, ◌<◌, List, [], ◌∷◌, ◌++◌, Option, some, All}
use teide.Base.Text.{Text, text}
use teide.Vkex.Registry.{Key, Dictionaries}
use teide.Vkex.Registry.Mark.{reference, find_info, type_references, enum_references, bitvalues}
use teide.Vkex.Xml.{Element}

abbrev pub OneOf : {A : Type 0} → A → List A → Type 0
OneOf a [] = ⊥
OneOf a (x ∷ xs) = (a ≡ x) ⊎ OneOf a xs

pub OneOf-append_left : {A : Type 0} (a : A) (xs ys : List A) → OneOf a xs → OneOf a (xs ++ ys)
OneOf-append_left a [] ys h = absurd h
OneOf-append_left a (x ∷ xs) ys (inl e) = inl e
OneOf-append_left a (x ∷ xs) ys (inr h) = inr (OneOf-append_left a xs ys h)

pub OneOf-append_right : {A : Type 0} (a : A) (xs ys : List A) → OneOf a ys → OneOf a (xs ++ ys)
OneOf-append_right a [] ys h = h
OneOf-append_right a (x ∷ xs) ys h = inr (OneOf-append_right a xs ys h)

pub OneOf-append :
    {A : Type 0} (a : A) (xs ys : List A) → OneOf a (xs ++ ys) → OneOf a xs ⊎ OneOf a ys
OneOf-append a [] ys h = inr h
OneOf-append a (x ∷ xs) ys (inl e) = inl (inl e)
OneOf-append a (x ∷ xs) ys (inr h) = elim (OneOf-append a xs ys h) [
  | inl here ↦ inl (inr here)
  | inr there ↦ inr there
]

-- All types that the definition of a type refers to.
abbrev pub all_references : Dictionaries → Text → Element → List (Option Text)
all_references d name e = type_references d name e ++ bitvalues d e

-- The types that a type refers to by any number of steps, itself included.
pub data Reaches (d : Dictionaries) : Text → Key → Type 0 where
  itself :
      (name : Text) (k : Key) (e : Element)
      → find_info d name d.typedict ≡ some (k, e)
      → Reaches d name k
  through :
      (name : Text) (k : Key) (e : Element) (r : Text) (l : Key)
      → find_info d name d.typedict ≡ some (k, e)
      → OneOf (some r) (all_references d name e)
      → Reaches d r l
      → Reaches d name l

-- A reference that has a text, of a lower rank.
abbrev pub Below : (Text → ℕ) → ℕ → Option Text → Type 0
Below rank n o = (r : Text) × (o ≡ some r) × (rank r < n)

-- The references of types and the aliases of enums lead to lower ranks.
abbrev pub Falls : Dictionaries → (Text → ℕ) → Type 0
Falls d rank =
    ((name : Text) (k : Key) (e : Element)
      → find_info d name d.typedict ≡ some (k, e)
      → All (Below rank (rank name)) (all_references d name e)
        × All (Below rank (rank name)) (enum_references d e))
    × ((name : Text) (k : Key) (e : Element)
        → find_info d name d.enumdict ≡ some (k, e)
        → All (Below rank (rank name)) (reference e (text "alias")))
