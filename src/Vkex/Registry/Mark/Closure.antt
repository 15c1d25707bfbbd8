-- ===== src/Vkex/Registry/Mark/Closure.antt =====
-- tools/vkex/reg.py: what is required along with a type.
use teide.Base.{
  ◌≡◌, refl, ◌⊎◌, ◌↔◌, inl, inr, ℕ, zero, suc, ◌<◌, true, List, [], ◌∷◌, ◌++◌, Option, none, some,
  All, arith, Bool-cases, Option-cases,
}
use teide.Base.Result.{ok}
use teide.Base.Text.{Text}
use teide.Vkex.Registry.{Key, key_eq, key_eq_iff, Dictionaries, Marks, set_flag}
use teide.Vkex.Registry.Mark.{
  find_info, mark_enum_required, type_references, enum_references, bitvalues, set_flag_type,
  require_dependencies, mark_type_required,
}
use teide.Vkex.Registry.Mark.Enums.{mark_list-Same, mark_enum_required-Same}
use teide.Vkex.Registry.Mark.Growth.{Required, Grows, Gives, From, mark_list-Gives}
use teide.Vkex.Registry.Mark.Reaches.{
  OneOf-append_left, OneOf-append_right, OneOf-append, all_references, Reaches, itself, through,
  Below, Falls,
}
use teide.Vkex.Xml.{Element}

module _ (d : Dictionaries) (rank : Text → ℕ) (falls : Falls d rank) where
  abbrev ReachesFrom : List (Option Text) → Key → Type 0
  ReachesFrom = From (Reaches d)

  set_flag_type-types :
      (k : Key) (deps : List (Option Text)) (s : Marks) → (set_flag_type d k deps s).types ≡ s.types
  unfolding set_flag_type
  set_flag_type-types k [] s = refl
  set_flag_type-types k (none ∷ []) s = refl
  set_flag_type-types k (none ∷ o ∷ deps) s = refl
  set_flag_type-types k ((some dep) ∷ o ∷ deps) s = refl
  set_flag_type-types k ((some dep) ∷ []) s = elim (Option-cases (find_info d dep d.groupdict)) [
    | inl missing ↦ rw (set_flag_type, missing) refl
    | inr ((g, i), found) ↦ rw (set_flag_type, found) refl
  ]

  Reaches-cases :
      (name : Text) (k l : Key) (e : Element)
      → find_info d name d.typedict ≡ some (k, e)
      → Reaches d name l
      → (k ≡ l) ⊎ ReachesFrom (all_references d name e) l
  Reaches-cases name k l e found (itself _ _ e' found') = inl (cc (found, found'))
  Reaches-cases name k l e found (through _ k' e' r _ found' m reached) =
      let same : e' ≡ e = cc (found, found') in inr (r, rw same at m, reached)

  Reaches-found :
      (name : Text) (l : Key) → Reaches d name l → find_info d name d.typedict ≡ none → ⊥
  Reaches-found name l (itself _ _ e' found') missing = cc
  Reaches-found name l (through _ k' e' r _ found' m reached) missing = cc

  All-split :
      {A : Type 0} (P : A → Type 0) (xs ys : List A) → All P (xs ++ ys) → All P xs × All P ys
  All-split P [] ys h = (tt, h)
  All-split P (x ∷ xs) ys (p, h) = let (l, r) = All-split P xs ys h in ((p, l), r)

  -- The type itself is required last.
  itself-Grows :
      (name : Text) (k : Key) (e : Element) (s s1 s2 s3 s4 : Marks)
      → find_info d name d.typedict ≡ some (k, e)
      → Grows (ReachesFrom (type_references d name e)) s s1
      → s2.types ≡ s1.types
      → Grows (ReachesFrom (bitvalues d e)) s2 s3
      → s4.types ≡ s3.types
      → Grows (Reaches d name) s (record s4 { types = set_flag s4.types k true })
  itself-Grows name k e s s1 s2 s3 s4 found first same second same' l =
      let refs = type_references d name e in
      let bits = bitvalues d e in
      let from : ReachesFrom (all_references d name e) l → Reaches d name l =
        λ (r, m, reached). through name k e r l found m reached in
      let old : (Required s3 l) ↔ (Required s l ⊎ ReachesFrom (all_references d name e) l) = (
        λ now. elim ((second l).0 now) [
          | inl before ↦ elim ((first l).0 (rw same at before)) [
            | inl old ↦ inl old
            | inr (r, m, reached) ↦ inr (r, OneOf-append_left (some r) refs bits m, reached)
          ]
          | inr (r, m, reached) ↦ inr (r, OneOf-append_right (some r) refs bits m, reached)
        ],
        λ x. elim x [
          | inl old ↦ (second l).1 (inl (rw same ((first l).1 (inl old))))
          | inr (r, m, reached) ↦ elim (OneOf-append (some r) refs bits m) [
            | inl here ↦ (second l).1 (inl (rw same ((first l).1 (inr (r, here, reached)))))
            | inr there ↦ (second l).1 (inr (r, there, reached))
          ]
        ],
      ) in
      elim (Bool-cases (key_eq k l)) [
        | inl here ↦
            let is : k ≡ l = (key_eq_iff k l).0 here in
            let reached : Reaches d name k = itself name k e found in
            (λ now. inr (rw is at reached), λ x. rw here refl)
        | inr other ↦ (
          λ now.
              (let now' : Required s3 l = rw (other, same') at now in
                elim (old.0 now') [ inl before ↦ inl before | inr reached ↦ inr (from reached) ]),
          λ x.
              rw (other, same')
                (elim x [
                  | inl before ↦ old.1 (inl before)
                  | inr reached ↦ elim (Reaches-cases name k l e found reached) [
                    | inl is ↦ absurd (cc (other, (key_eq_iff k l).1 is))
                    | inr more ↦ old.1 (inr more)
                  ]
                ]),
        )
      ]

  pub mark_type_required-Gives :
      (depth : ℕ) (name : Text)
      → rank name < depth
      → (s : Marks) → Gives (mark_type_required d depth true (some name) s) (Reaches d name) s
  unfolding mark_type_required require_dependencies
  mark_type_required-Gives zero name low s = absurd (omega arith)
  mark_type_required-Gives (suc depth) name low s =
      elim (Option-cases (find_info d name d.typedict)) [
        | inl missing ↦ (
          s,
          rw (mark_type_required, missing) refl,
          λ l. (
            λ now. inl now,
            λ x. elim x [
              | inl old ↦ old
              | inr reached ↦ absurd (Reaches-found name l reached missing)
            ],
          ),
        )
        | inr ((k, e), found) ↦
            let refs = type_references d name e in
            let bits = bitvalues d e in
            let (below, below_enums) = falls.0 name k e found in
            let (below_refs, below_bits) = All-split (Below rank (rank name)) refs bits below in
            let one : (r : Text)
                → rank r < rank name
                → (s : Marks) → Gives (mark_type_required d depth true (some r) s) (Reaches d r) s =
              λ r lower. mark_type_required-Gives depth r (omega arith) in
            let (s1, e1, first) =
              mark_list-Gives rank (Reaches d) (mark_type_required d depth true) (rank name) one
                refs below_refs s in
            let (s2, e2, same) =
              mark_list-Same d rank falls (mark_enum_required d depth true) (rank name)
                (λ r lower. mark_enum_required-Same d rank falls true depth r (omega arith))
                (enum_references d e) below_enums s1 in
            let (s3, e3, second) =
              mark_list-Gives rank (Reaches d) (mark_type_required d depth true) (rank name) one
                bits below_bits s2 in
            let s4 = set_flag_type d k bits s3 in
            (
              record s4 { types = set_flag s4.types k true },
              rw (mark_type_required, found, require_dependencies, e1, e2, e3) refl,
              itself-Grows name k e s s1 s2 s3 s4 found first same second
                  (set_flag_type-types k bits s3),
            )
      ]

-- Where the references of types and the aliases of enums lead to names of lower rank, a type whose rank is
-- below the depth of the recursion is marked without an exception, and then exactly those types are
-- required that were so before or that it refers to by any number of steps, itself included.
pub mark_type_required_lem :
    (d : Dictionaries) (rank : Text → ℕ) (depth : ℕ) (name : Text) (s : Marks)
    → Falls d rank
    → rank name < depth
    → (s' : Marks) × (mark_type_required d depth true (some name) s ≡ ok s')
      × ((k : Key) → (s'.types k ≡ true) ↔ ((s.types k ≡ true) ⊎ Reaches d name k))
mark_type_required_lem d rank depth name s falls low =
    mark_type_required-Gives d rank falls depth name low s
