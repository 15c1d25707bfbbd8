-- ===== src/Vkex/Struct/Links.antt =====
-- tools/vkex/vkexgenerator.py: the loop over the members keeps them linked.
use teide.Base.{
  ◌≡◌, refl, sym, ◌∙◌, ap, Bool, true, false, not, ◌&&◌, ◌||◌, List, [], ◌∷◌, Option, none, some,
  All, map, arith, Bool-cases, Option-cases, inl, inr,
}
use teide.Base.Result.{ok, step_ok, ok_injective}
use teide.Base.Strip.{strip}
use teide.Base.Text.{Text, text, text_eq, text_eq_iff, text_eq_refl, contains, starts_with}
use teide.Vkex.Struct.{
  Member, new_member, Members, get_member, set_member, change_member, Scan, as_array,
  with_length_of, start, link_array, make_complex, auto_generateable, scan_length, scan_member,
  scan_members, array_length, null_terminated,
}
use teide.Vkex.Struct.Members.{
  arrayed, good_entry, IsLinked, map_member, get_member-change_member, get_member-set_member,
  all_weaken, all-append_one, all-change_member, all-set_member,
}
use teide.Vkex.Xml.{Element, text_of, tail_of, children_of, get, first_with, truthy, none_str}

good_entry_mono :
    (before after : Members)
    → ((a : Text) → arrayed (get_member before a) ≡ true → arrayed (get_member after a) ≡ true)
    → (x : Text × Member) → good_entry before x ≡ true
    → good_entry after x ≡ true
good_entry_mono before after keep (n, m) h =
    let rest =
      all_weaken (λ a. arrayed (get_member before a)) (λ a. arrayed (get_member after a)) keep
        m.length_of in
    ground arith

arrayed-with_length_of :
    (n : Text) (o : Option Member) → arrayed (map_member (with_length_of n) o) ≡ arrayed o
arrayed-with_length_of n none = refl
arrayed-with_length_of n (some m) = refl

arrayed-as_array :
    (b : Bool) (o : Option Member) → arrayed o ≡ true → arrayed (map_member (as_array b) o) ≡ true
arrayed-as_array b none h = h
arrayed-as_array b (some m) h = refl

module _ (b : Bool) (name length : Text) (members : Members) where
  abbrev counted : Members
  counted = change_member members length (with_length_of name)

  abbrev linked : Members
  linked = change_member counted name (as_array b)

  arrayed-linked :
      (a : Text) → arrayed (get_member members a) ≡ true → arrayed (get_member linked a) ≡ true
  arrayed-linked a h =
      let step = get_member-change_member members length a (with_length_of name) in
      let step' = get_member-change_member counted name a (as_array b) in
      let now : arrayed (get_member counted a) ≡ true = (elim (Bool-cases (text_eq length a)) [
        | inl here ↦ rw (step, here) (arrayed-with_length_of name (get_member members a) ∙ h)
        | inr there ↦ rw (step, there) h
      ]) in
      elim (Bool-cases (text_eq name a)) [
        | inl here ↦ rw (step', here) (arrayed-as_array b (get_member counted a) now)
        | inr there ↦ rw (step', there) now
      ]

  arrayed-linked_self :
      (m : Member) → get_member members name ≡ some m → arrayed (get_member linked name) ≡ true
  arrayed-linked_self m there =
      let step = get_member-change_member members length name (with_length_of name) in
      let step' = get_member-change_member counted name name (as_array b) in
      elim (Bool-cases (text_eq length name)) [
        | inl here ↦ rw (step', text_eq_refl name, step, here, there) refl
        | inr parted ↦ rw (step', text_eq_refl name, step, parted, there) refl
      ]

  linked-IsLinked :
      (m : Member) → get_member members name ≡ some m → IsLinked members → IsLinked linked
  linked-IsLinked m there h =
      all-change_member (good_entry linked) (good_entry linked) name (as_array b) (λ x k. k)
        (λ m k. ground arith) counted
        (all-change_member (good_entry members) (good_entry linked) length (with_length_of name)
          (good_entry_mono members linked arrayed-linked)
          (λ m k.
            let old = good_entry_mono members linked arrayed-linked (length, m) k in
            let grown = all-append_one (λ a. arrayed (get_member linked a)) m.length_of name in
            let self = arrayed-linked_self _ there in ground arith)
          members h)

-- What the loop keeps: the links, and that these names are not yet members.
abbrev Keeps : Members → Members → (Text → Type 0) → Type 0
Keeps before after Absent =
    (IsLinked before → IsLinked after)
    × ((a : Text) → Absent a → get_member before a ≡ none → get_member after a ≡ none)

abbrev Everywhere : Text → Type 0
Everywhere a = Unit {0}

members-make_complex : (b : Bool) (s : Scan) → (make_complex b s).members ≡ s.members
members-make_complex true s = refl
members-make_complex false s = refl

absent-linked :
    (b : Bool) (name length : Text) (members : Members) (a : Text)
    → get_member members a ≡ none
    → get_member (linked b name length members) a ≡ none
absent-linked b name length members a h =
    let step = get_member-change_member members length a (with_length_of name) in
    let step' = get_member-change_member (counted b name length members) name a (as_array b) in
    let now : get_member (counted b name length members) a ≡ none =
      (elim (Bool-cases (text_eq length a)) [
        | inl here ↦ rw (step, here, h) refl
        | inr there ↦ rw (step, there) h
      ]) in
    elim (Bool-cases (text_eq name a)) [
      | inl here ↦ rw (step', here, now) refl
      | inr there ↦ rw (step', there) now
    ]

link_array-Keeps :
    (b : Bool) (name length : Text) (s : Scan) (m : Member)
    → get_member s.members name ≡ some m
    → Keeps s.members (link_array b name length s).members Everywhere
unfolding link_array
link_array-Keeps b name length s m there = elim (Option-cases (get_member s.members length)) [
  | inl missing ↦ elim (Bool-cases (text_eq length null_terminated)) [
    | inl ends ↦ rw (link_array, missing, ends) (λ h. h, λ a u h. h)
    | inr other ↦ rw (link_array, missing, other) (λ h. h, λ a u h. h)
  ]
  | inr (m', found) ↦
      rw (link_array, found)
        (
          linked-IsLinked b name length s.members m there,
          λ a u h. absent-linked b name length s.members a h,
        )
]

scan_length-Keeps :
    (type_name : Text) (e name_elem : Element) (name : Text) (s : Scan) (m : Member)
    → get_member s.members name ≡ some m
    → Keeps s.members (scan_length type_name e name_elem name s).members Everywhere
unfolding scan_length
scan_length-Keeps type_name e name_elem name s m there =
    let flag =
      truthy (get e (text "noautovalidity")) && not (contains auto_generateable type_name) in
    let is_const = starts_with (strip (none_str (text_of e))) (text "const") in
    let length = array_length (none_str (get e (text "len"))) in
    elim (Bool-cases (starts_with (none_str (tail_of name_elem)) (text "["))) [
      | inl fixed ↦ rw (scan_length, fixed) (λ h. h, λ a u h. h)
      | inr pointer ↦ elim (Bool-cases (truthy (get e (text "len")))) [
        | inr plain ↦ rw (scan_length, pointer, plain) (λ h. h, λ a u h. h)
        | inl given ↦
            let same = members-make_complex flag s in
            let kept =
              link_array-Keeps is_const name length (make_complex flag s) m (rw same there) in
            rw (scan_length, pointer, given) (rw same at kept)
      ]
    ]

-- The name that a member's element gives.
abbrev pub name_of : Element → Text
name_of e = elim (first_with (text "name") (children_of e)) [
  | none ↦ []
  | some name_elem ↦ none_str (text_of name_elem)
]

abbrev Apart : Text → Text → Type 0
Apart name a = text_eq name a ≡ false

added-Keeps :
    (members : Members) (name : Text) (e : Element)
    → get_member members name ≡ none
    → Keeps members (set_member members name (new_member e)) (Apart name)
added-Keeps members name e fresh =
    let after = set_member members name (new_member e) in
    let found = λ (a : Text). get_member-set_member members name a (new_member e) in
    (
      λ h.
          all-set_member (good_entry after) members name (new_member e) fresh
            (all_weaken (good_entry members) (good_entry after)
              (good_entry_mono members after λ a k. elim (Bool-cases (text_eq name a)) [
                | inl same ↦
                    (let e = (text_eq_iff name a).0 same in
                      let there = ap (get_member members) e in cc (rw (← there, fresh) at k))
                | inr other ↦ rw (found a, other) k
              ])
              members h)
            refl,
      λ a other h. rw (found a, other) h,
    )

scan_member-Keeps :
    (type_name : Text) (s : Scan) (e : Element) (s' : Scan)
    → scan_member type_name s e ≡ ok s'
    → get_member s.members (name_of e) ≡ none
    → Keeps s.members s'.members (Apart (name_of e))
unfolding scan_member
scan_member-Keeps type_name s e s' done fresh =
    elim (Option-cases (first_with (text "name") (children_of e))) [
      | inl missing ↦ cc (rw (scan_member, missing) at done)
      | inr (name_elem, found) ↦
          let name = none_str (text_of name_elem) in
          let named : name_of e ≡ name = rw (name_of, found) refl in
          let fresh' : get_member s.members name ≡ none = rw (← named) fresh in
          let flag = truthy (get e (text "altlen")) in
          let added : Scan = record s { members = set_member s.members name (new_member e) } in
          let same = members-make_complex flag added in
          let there : get_member added.members name ≡ some (new_member e) =
            get_member-set_member s.members name name (new_member e)
            ∙ rw (text_eq_refl name) refl in
          let (keeps, absent) =
            scan_length-Keeps type_name e name_elem name (make_complex flag added) (new_member e)
              (rw same there) in
          let (keeps', absent') = added-Keeps s.members name e fresh' in
          let skip =
            truthy (get e (text "deprecated"))
            || contains (text "sType" ∷ text "pNext" ∷ []) name in
          elim (Bool-cases skip) [
            | inl skipped ↦
                let shape = ok_injective s s' (rw (scan_member, found, skipped) at done) in
                rw (← shape) (λ h. h, λ a u h. h)
            | inr taken ↦
                let shape = ok_injective _ s' (rw (scan_member, found, taken) at done) in
                rw (← shape) (
                  λ h. keeps (rw same (keeps' h)),
                  λ a other h.
                      (let other' = ap (λ n. text_eq n a) (sym named) ∙ other in
                        absent a tt (rw same (absent' a other' h))),
                )
          ]
    ]

abbrev pub distinct : List Text → Bool
distinct [] = true
distinct (x ∷ xs) = not (contains xs x) && distinct xs

abbrev Absent : Members → List Text → Type 0
Absent members names = All (λ n. get_member members n ≡ none) names

Absent-keep :
    (before after : Members) (name : Text) (names : List Text)
    → contains names name ≡ false
    → ((a : Text) → Apart name a → get_member before a ≡ none → get_member after a ≡ none)
    → Absent before names
    → Absent after names
Absent-keep before after name [] other keep h = tt
Absent-keep before after name (n ∷ names) other keep h =
    (keep n (ground arith) h.0, Absent-keep before after name names (ground arith) keep h.1)

scan_members-Keeps :
    (type_name : Text) (s : Scan) (es : List Element) (s' : Scan)
    → scan_members type_name s es ≡ ok s'
    → distinct (map name_of es) ≡ true
    → Absent s.members (map name_of es)
    → IsLinked s.members
    → IsLinked s'.members
unfolding scan_members
scan_members-Keeps type_name s [] s' done apart_ absent h =
    let shape = ok_injective s s' done in rw (← shape) h
scan_members-Keeps type_name s (e ∷ es) s' done apart_ absent h =
    let (next, first, rest) = step_ok (scan_member type_name s e) _ s' done in
    let (keeps, missing) = scan_member-Keeps type_name s e next first absent.0 in
    scan_members-Keeps type_name next es s' rest (ground arith)
      (Absent-keep s.members next.members (name_of e) (map name_of es) (ground arith) missing
        absent.1)
      (keeps h)

start-Absent : (names : List Text) → Absent [] names
unfolding get_member
start-Absent [] = tt
start-Absent (n ∷ names) = (refl, start-Absent names)

-- If the members of a structure have different names, then after the loop each member that is the length
-- of arrays refers to members that are arrays, and each array knows whether it is const.
pub scan_members-IsLinked :
    (type_name : Text) (es : List Element) (s : Scan)
    → distinct (map name_of es) ≡ true
    → scan_members type_name start es ≡ ok s
    → IsLinked s.members
scan_members-IsLinked type_name es s different done =
    scan_members-Keeps type_name start es s done different (start-Absent (map name_of es)) refl
