-- ===== src/Vkex/Registry/Mark/Enums.antt =====
-- tools/vkex/reg.py: the marks of enums, which leave those of the types alone.
use teide.Base.{
  ◌≡◌, refl, ◌∙◌, inl, inr, ℕ, zero, suc, ◌<◌, Bool, not, ◌&&◌, true, false, List, [], ◌∷◌, Option,
  some, All, arith, Option-cases, if◌then◌else◌,
}
use teide.Base.Result.{Result, ok}
use teide.Base.Text.{Text, text}
use teide.Vkex.Exceptions.{Exception}
use teide.Vkex.Registry.{dict_get, named, Dictionaries, Marks, set_flag}
use teide.Vkex.Registry.Mark.{
  Step, mark_list, reference, find_info, remove_enum, mark_enum_required,
}
use teide.Vkex.Registry.Mark.Reaches.{Below, Falls}
use teide.Vkex.Xml.{Element, get}

module _ (d : Dictionaries) (rank : Text → ℕ) (falls : Falls d rank) where
  -- The marks of types are these.
  abbrev pub Same : Result Exception Marks → Marks → Type 0
  Same r s = (s' : Marks) × (r ≡ ok s') × (s'.types ≡ s.types)

  pub mark_list-Same :
      (mark : Option Text → Step) (n : ℕ)
      → ((r : Text) → rank r < n → (s : Marks) → Same (mark (some r) s) s)
      → (names : List (Option Text)) → All (Below rank n) names
      → (s : Marks) → Same (mark_list mark names s) s
  mark_list-Same mark n one [] h s = (s, refl, refl)
  mark_list-Same mark n one (o ∷ names) ((r, e, low), h) s =
      let (s1, done, same) = one r low s in
      let (s2, done', same') = mark_list-Same mark n one names h s1 in
      (s2, rw (e, done) done', same' ∙ same)

  remove_enum-types :
      (name : Text) (e : Element) (s : Marks) → (remove_enum d name e s).types ≡ s.types
  unfolding remove_enum
  remove_enum-types name e s = elim (Option-cases (get e (text "extends"))) [
    | inl loose ↦ rw (remove_enum, loose) refl
    | inr (group_name, extends) ↦ elim (Option-cases (dict_get d.groupdict (named group_name))) [
      | inl missing ↦ rw (remove_enum, extends, missing) refl
      | inr (i, there) ↦ rw (remove_enum, extends, there) refl
    ]
  ]

  -- The marks after an enum was taken out of its elements, where it is.
  abbrev taken_out : Bool → Text → Element → Marks → Marks
  taken_out b name e s = if b then remove_enum d name e s else s

  taken_out-types :
      (b : Bool) (name : Text) (e : Element) (s : Marks) → (taken_out b name e s).types ≡ s.types
  taken_out-types true name e s = remove_enum-types name e s
  taken_out-types false name e s = refl

  -- Enums do not change the marks of types.
  pub mark_enum_required-Same :
      (required : Bool) (depth : ℕ) (name : Text)
      → rank name < depth
      → (s : Marks) → Same (mark_enum_required d depth required (some name) s) s
  unfolding mark_enum_required
  mark_enum_required-Same required zero name low s = absurd (omega arith)
  mark_enum_required-Same required (suc depth) name low s =
      elim (Option-cases (find_info d name d.enumdict)) [
        | inl missing ↦ (s, rw (mark_enum_required, missing) refl, refl)
        | inr ((k, e), found) ↦
            let s1 = taken_out (not required && s.enums k) name e s in
            let (s', done, same) =
              mark_list-Same (mark_enum_required d depth required) (rank name)
                (λ r lower. mark_enum_required-Same required depth r (omega arith))
                (reference e (text "alias")) (falls.1 name k e found)
                (record s1 { enums = set_flag s1.enums k required }) in
            (
              s',
              rw (mark_enum_required, found) done,
              same ∙ taken_out-types (not required && s.enums k) name e s,
            )
      ]
