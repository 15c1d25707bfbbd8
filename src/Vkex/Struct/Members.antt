-- ===== src/Vkex/Struct/Members.antt =====
-- tools/vkex/vkexgenerator.py: how the members of a structure refer to each other.
use teide.Base.{
  ◌≡◌, refl, ap, Bool, true, false, not, ◌&&◌, ◌||◌, List, [], ◌∷◌, ◌++◌, Option, none, some, all,
  arith, Bool-cases, inl, inr, if◌then◌else◌,
}
use teide.Base.Text.{Text, text_eq, text_eq_iff}
use teide.Vkex.Struct.{Member, Members, get_member, set_member, change_member}

abbrev pub is_given : Option Bool → Bool
is_given none = false
is_given (some b) = true

-- A member that is there as an array.
abbrev pub arrayed : Option Member → Bool
arrayed none = false
arrayed (some m) = m.is_array && is_given m.is_const

-- The arrays whose length a member is are members, as arrays, and an array knows whether it is const.
abbrev pub good_entry : Members → Text × Member → Bool
good_entry members x =
    all (λ a. arrayed (get_member members a)) x.1.length_of
    && (not x.1.is_array || is_given x.1.is_const)

abbrev pub IsLinked : Members → Type 0
IsLinked members = all (good_entry members) members ≡ true

abbrev pub map_member : (Member → Member) → Option Member → Option Member
map_member f none = none
map_member f (some m) = some (f m)

pub get_member-change_member :
    (members : Members) (name other : Text) (f : Member → Member)
    → get_member (change_member members name f) other ≡ (
        if text_eq name other
        then map_member f (get_member members other)
        else get_member members other)
unfolding get_member change_member
get_member-change_member [] name other f = ground arith
get_member-change_member ((n, m) ∷ members) name other f = ground (
  arith,
  get_member-change_member members name other f,
  text_eq_iff n name,
  text_eq_iff n other,
  text_eq_iff name other,
)

pub get_member-set_member :
    (members : Members) (name other : Text) (m : Member)
    → get_member (set_member members name m) other
      ≡ (if text_eq name other then some m else get_member members other)
unfolding get_member set_member
get_member-set_member [] name other m = refl
get_member-set_member ((n, old) ∷ members) name other m = ground (
  arith,
  get_member-set_member members name other m,
  text_eq_iff n name,
  text_eq_iff n other,
  text_eq_iff name other,
)

pub all_weaken :
    {A : Type 0} (p q : A → Bool)
    → ((a : A) → p a ≡ true → q a ≡ true)
    → (xs : List A) → all p xs ≡ true
    → all q xs ≡ true
all_weaken p q f [] h = refl
all_weaken p q f (x ∷ xs) h = ground (arith, f x, all_weaken p q f xs)

pub all-append_one :
    {A : Type 0} (p : A → Bool) (xs : List A) (x : A)
    → all p xs ≡ true
    → p x ≡ true
    → all p (xs ++ (x ∷ [])) ≡ true
all-append_one p [] x h k = ground arith
all-append_one p (y ∷ ys) x h k = ground (arith, all-append_one p ys x)

pub all-change_member :
    (p q : Text × Member → Bool) (name : Text) (f : Member → Member)
    → ((x : Text × Member) → p x ≡ true → q x ≡ true)
    → ((m : Member) → p (name, m) ≡ true → q (name, f m) ≡ true)
    → (members : Members) → all p members ≡ true
    → all q (change_member members name f) ≡ true
unfolding change_member
all-change_member p q name f keep change [] h = refl
all-change_member p q name f keep change ((n, m) ∷ members) h = elim (Bool-cases (text_eq n name)) [
  | inl same ↦
      let e = (text_eq_iff n name).0 same in
      let rest = all_weaken p q keep members in
      let here = change m in
      let moved : p (n, m) ≡ p (name, m) = ap (λ t. p (t, m)) e in
      let moved' : q (n, f m) ≡ q (name, f m) = ap (λ t. q (t, f m)) e in
      rw (change_member, same) (ground arith)
  | inr other ↦
      let rest = all-change_member p q name f keep change members in
      let here = keep (n, m) in rw (change_member, other) (ground arith)
]

pub all-set_member :
    (p : Text × Member → Bool) (members : Members) (name : Text) (m : Member)
    → get_member members name ≡ none
    → all p members ≡ true
    → p (name, m) ≡ true
    → all p (set_member members name m) ≡ true
unfolding get_member set_member
all-set_member p [] name m fresh h k = ground arith
all-set_member p ((n, old) ∷ members) name m fresh h k =
    ground (arith, all-set_member p members name m)
