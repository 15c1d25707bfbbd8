-- ===== src/Vkex/Struct/Total.antt =====
-- tools/vkex/vkexgenerator.py: the conversion function is written without an exception.
use teide.Base.{
  ◌≡◌, refl, ap, ℕ, Bool, true, false, not, ◌||◌, List, [], ◌∷◌, ◌++◌, all, map, arith, Bool-cases,
  Option-cases, inl, inr,
}
use teide.Base.Result.{Result, ok, ◌>>=◌}
use teide.Base.Text.{Text, text, text_eq, text_eq_iff, starts_with}
use teide.Vkex.Exceptions.{Exception}
use teide.Vkex.Names.{remove_prefix}
use teide.Vkex.Struct.{Member, Members, get_member, Scan, start, scan_members}
use teide.Vkex.Struct.Body.{
  const_of, equal_length, equal_lengths, checks_of, checks, elements_of, value_of, assignments,
  map_text,
}
use teide.Vkex.Struct.Members.{arrayed, is_given, good_entry, IsLinked}
use teide.Vkex.Struct.Links.{distinct, name_of, scan_members-IsLinked}
use teide.Vkex.Xml.{Element}

abbrev Given : {A : Type 0} → Result Exception A → Type 0
Given {A} r = (a : A) × (r ≡ ok a)

bind-Given :
    {A B : Type 0} (r : Result Exception A) (f : A → Result Exception B)
    → Given r
    → ((a : A) → Given (f a))
    → Given (r >>= f)
bind-Given r f (a, e) next = let (b, g) = next a in (b, rw e g)

abbrev is_p : Text → Bool
is_p n = text_eq n (text "p")

-- No member is called `p`, which would be nothing without its prefix.
abbrev pub no_p : Members → Bool
no_p members = all (λ x. not (text_eq x.0 (text "p"))) members

module _ (is_alnum : ℕ → Bool) (lower : ℕ → Text) where
  remove_prefix-Given : (n : Text) → is_p n ≡ false → Given (remove_prefix lower n (text "p"))
  unfolding remove_prefix starts_with text_eq
  remove_prefix-Given [] h = ([], refl)
  remove_prefix-Given (c ∷ []) h = (
    c ∷ [],
    let other : starts_with (c ∷ []) (text "p") ≡ false = ground arith in
        rw (remove_prefix, other) refl,
  )
  remove_prefix-Given (c ∷ d ∷ n) h = elim (Bool-cases (starts_with (c ∷ d ∷ n) (text "p"))) [
    | inl yes_ ↦ (lower d ++ n, rw (remove_prefix, yes_) refl)
    | inr no_ ↦ (c ∷ d ∷ n, rw (remove_prefix, no_) refl)
  ]

  arrayed-is_p :
      (members : Members) (n : Text)
      → no_p members ≡ true
      → arrayed (get_member members n) ≡ true
      → is_p n ≡ false
  unfolding get_member
  arrayed-is_p [] n h k = cc
  arrayed-is_p ((other, m) ∷ members) n h k = elim (Bool-cases (text_eq other n)) [
    | inl same ↦ let e = ap is_p ((text_eq_iff other n).0 same) in ground arith
    | inr apart ↦ arrayed-is_p members n (ground arith) (rw (get_member, apart) at k)
  ]

  const_of-Given :
      (members : Members) (n : Text)
      → arrayed (get_member members n) ≡ true
      → Given (const_of is_alnum lower members n)
  unfolding const_of
  const_of-Given members n h = elim (Option-cases (get_member members n)) [
    | inl lost ↦ cc (rw lost at h)
    | inr (m, found) ↦
        let known = rw found at h in
        elim (Option-cases m.is_const) [
          | inl lost ↦
              absurd (cc (rw lost at (let k : is_given m.is_const ≡ true = ground arith in k)))
          | inr (b, given) ↦ (b, rw (const_of, found, given) refl)
        ]
  ]

  module _ (all_members : Members) (plain : no_p all_members ≡ true) where
    abbrev array : Text → Bool
    array a = arrayed (get_member all_members a)

    equal_length-Given :
        (first m : Text)
        → array first ≡ true
        → array m ≡ true
        → Given (equal_length is_alnum lower all_members first m)
    unfolding equal_length
    equal_length-Given first m h k =
        bind-Given (remove_prefix lower first (text "p")) _
          (remove_prefix-Given first (arrayed-is_p all_members first plain h))
          λ a.
            bind-Given (remove_prefix lower m (text "p")) _
              (remove_prefix-Given m (arrayed-is_p all_members m plain k))
              λ b.
                bind-Given (const_of is_alnum lower all_members m) _
                  (const_of-Given all_members m k) λ c. (_, refl)

    equal_lengths-Given :
        (first : Text) (ms : List Text)
        → array first ≡ true
        → all array ms ≡ true
        → Given (equal_lengths is_alnum lower all_members first ms)
    unfolding equal_lengths
    equal_lengths-Given first [] h k = ([], refl)
    equal_lengths-Given first (m ∷ ms) h k =
        let (a, e) = equal_length-Given first m h (ground arith) in
        let (b, f) = equal_lengths-Given first ms h (ground arith) in
        (a ++ b, rw (equal_lengths, e, f) refl)

    checks_of-Given :
        (names : List Text)
        → all array names ≡ true
        → Given (checks_of is_alnum lower all_members names)
    checks_of-Given [] h = ([], refl)
    checks_of-Given (first ∷ others) h =
        equal_lengths-Given first others (ground arith) (ground arith)

    checks-Given :
        (members : Members)
        → all (good_entry all_members) members ≡ true
        → Given (checks is_alnum lower all_members members)
    unfolding checks
    checks-Given [] h = ([], refl)
    checks-Given ((n, m) ∷ members) h =
        let (a, e) = checks_of-Given m.length_of (ground arith) in
        let (b, f) = checks-Given members (ground arith) in (a ++ b, rw (checks, e, f) refl)

    first_value-Given :
        (n : Text) (m : Member) (names : List Text)
        → m.length_of ≡ names
        → is_p n ≡ false
        → good_entry all_members (n, m) ≡ true
        → Given (value_of is_alnum lower all_members n m)
    unfolding value_of
    first_value-Given n m (first ∷ others) e p h =
        let names = rw e at h in
        let there : array first ≡ true = ground arith in
        rw (value_of, e)
          (bind-Given (remove_prefix lower first (text "p")) _
            (remove_prefix-Given first (arrayed-is_p all_members first plain there))
            λ a.
              bind-Given (const_of is_alnum lower all_members first) _
                (const_of-Given all_members first there) λ c. (_, refl))
    first_value-Given n m [] e p h = elim (Bool-cases m.is_array) [
      | inr single ↦ (n, rw (value_of, e, single) refl)
      | inl many ↦ elim (Option-cases m.is_const) [
        | inl lost ↦ cc (
            rw (many, lost) at
              (let k : (not m.is_array || is_given m.is_const) ≡ true = ground arith in k))
        | inr (b, given) ↦
            rw (value_of, e, many)
              (bind-Given (remove_prefix lower n (text "p")) _ (remove_prefix-Given n p)
                λ a. rw given (elements_of is_alnum lower a b, refl))
      ]
    ]

    assignments-Given :
        (members : Members)
        → no_p members ≡ true
        → all (good_entry all_members) members ≡ true
        → Given (assignments is_alnum lower all_members members)
    unfolding assignments
    assignments-Given [] p h = ([], refl)
    assignments-Given ((n, m) ∷ members) p h =
        bind-Given (value_of is_alnum lower all_members n m) _
          (first_value-Given n m m.length_of refl (ground arith) (ground arith))
          λ a.
            bind-Given (assignments is_alnum lower all_members members) _
              (assignments-Given members (ground arith) (ground arith)) λ b. (_, refl)

    map_text-Given : IsLinked all_members → Given (map_text is_alnum lower all_members)
    unfolding map_text
    map_text-Given h =
        bind-Given (checks is_alnum lower all_members all_members) _ (checks-Given all_members h)
          λ a.
            bind-Given (assignments is_alnum lower all_members all_members) _
              (assignments-Given all_members plain h) λ b. (_, refl)

-- The conversion function of a structure is written without an exception if its members have different
-- names and none of them is called `p`.
pub map_text_total :
    (is_alnum : ℕ → Bool) (lower : ℕ → Text) (type_name : Text) (es : List Element) (s : Scan)
    → distinct (map name_of es) ≡ true
    → scan_members type_name start es ≡ ok s
    → no_p s.members ≡ true
    → (body : Text) × (map_text is_alnum lower s.members ≡ ok body)
map_text_total is_alnum lower type_name es s different done plain =
    map_text-Given is_alnum lower s.members plain
      (scan_members-IsLinked type_name es s different done)
