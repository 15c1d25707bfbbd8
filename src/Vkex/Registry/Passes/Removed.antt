-- ===== src/Vkex/Registry/Passes/Removed.antt =====
-- tools/vkex/reg.py: what a `<remove>` element takes out.
use teide.Base.{
  ◌≡◌, refl, sym, ◌∙◌, ◌⊎◌, ◌↔◌, inl, inr, ℕ, zero, suc, ◌<◌, false, List, [], ◌∷◌, Option, some,
  keep, All, arith, Bool-cases, Option-cases,
}
use teide.Base.Result.{Result, ok, ◌>>=◌}
use teide.Base.Text.{Text, text}
use teide.Vkex.Exceptions.{Exception}
use teide.Vkex.Registry.{Key, key_eq, key_eq_iff, Dictionaries, Marks, set_flag}
use teide.Vkex.Registry.Mark.{
  Step, mark_list, names_in, find_info, mark_enum_required, mark_type_required, mark_cmd_required,
  extend_command, mark_required,
}
use teide.Vkex.Registry.Mark.Commands.{CmdFalls, IsWithin, aliases_of, extend_command-types}
use teide.Vkex.Registry.Mark.Enums.{Same, mark_list-Same, mark_enum_required-Same}
use teide.Vkex.Registry.Mark.Growth.{Required, From}
use teide.Vkex.Registry.Mark.Reaches.{OneOf, Below, Falls}
use teide.Vkex.Xml.{Element, children_of, has_tag}

-- These types are not required any more.
abbrev pub Loses : (Key → Type 0) → Marks → Marks → Type 0
Loses Less s s' = (k : Key) → Required s' k ↔ (Required s k × (Less k → ⊥))

abbrev pub Takes : Result Exception Marks → (Key → Type 0) → Marks → Type 0
Takes r Less s = (s' : Marks) × (r ≡ ok s') × Loses Less s s'

-- The type of this name.
abbrev pub IsNamed : Dictionaries → Text → Key → Type 0
IsNamed d name k = (e : Element) × (find_info d name d.typedict ≡ some (k, e))

-- A `<remove>` element takes out the types that it names.
abbrev pub BlockRemoves : Dictionaries → Element → Key → Type 0
BlockRemoves d feature = From (IsNamed d) (names_in (text "type") feature)

pub same-Takes :
    (r : Result Exception Marks) (s s' : Marks)
    → r ≡ ok s'
    → s'.types ≡ s.types
    → Takes r (λ k. ⊥) s
same-Takes r s s' done same =
    (s', done, λ k. (λ now. (rw same at now, λ no_. no_), λ x. rw same x.0))

pub bind-Takes :
    (r : Result Exception Marks) (f : Step) (M N : Key → Type 0) (s : Marks)
    → Takes r M s
    → ((s' : Marks) → Takes (f s') N s')
    → Takes (r >>= f) (λ k. M k ⊎ N k) s
bind-Takes r f M N s (s1, done, first) next =
    let (s2, done', second) = next s1 in
    (
      s2,
      rw done done',
      λ k. (
        λ now.
            let (before, not_n) = (second k).0 now in
            let (old, not_m) = (first k).0 before in
            (old, λ x. elim x [ inl m ↦ not_m m | inr n ↦ not_n n ]),
        λ x. (second k).1 ((first k).1 (x.0, λ m. x.1 (inl m)), λ n. x.1 (inr n)),
      ),
    )

pub iff-Takes :
    (r : Result Exception Marks) (M N : Key → Type 0) (s : Marks)
    → ((k : Key) → M k ↔ N k)
    → Takes r M s
    → Takes r N s
iff-Takes r M N s iff (s', done, lost) = (
  s',
  done,
  λ k. (
    λ now. (((lost k).0 now).0, λ n. ((lost k).0 now).1 ((iff k).1 n)),
    λ x. (lost k).1 (x.0, λ m. x.1 ((iff k).0 m)),
  ),
)

-- What a step takes out for each, a list of the steps takes out for all of them.
pub list-Takes :
    {A : Type 0} (mark : A → Step) (M : A → Key → Type 0) (as_ : List A)
    → All (λ a. (s : Marks) → Takes (mark a s) (M a) s) as_
    → (s : Marks) → Takes (mark_list mark as_ s) (λ k. (a : A) × OneOf a as_ × M a k) s
list-Takes mark M [] h s =
    iff-Takes (ok s) (λ k. ⊥) _ s (λ k. (λ no_. absurd no_, λ (a, no_, m). absurd no_))
      (same-Takes (ok s) s s refl refl)
list-Takes mark M (a ∷ as_) h s =
    iff-Takes (mark a s >>= mark_list mark as_) (λ k. M a k ⊎ ((b : _) × OneOf b as_ × M b k)) _ s
      (λ k. (
        λ x. elim x [ inl m ↦ (a, inl refl, m) | inr (b, i, m) ↦ (b, inr i, m) ],
        λ x. let (b, i, m) = x in elim i [ inl e ↦ inl (rw e at m) | inr i' ↦ inr (b, i', m) ],
      ))
      (bind-Takes (mark a s) (mark_list mark as_) (M a) (λ k. (b : _) × OneOf b as_ × M b k) s
        (h.0 s) (list-Takes mark M as_ h.1))

module _ (d : Dictionaries) (rank : Text → ℕ) (falls : Falls d rank)
    (cmd_falls : CmdFalls d rank) where
  type-Takes :
      (depth : ℕ) (name : Text)
      → rank name < depth
      → (s : Marks) → Takes (mark_type_required d depth false (some name) s) (IsNamed d name) s
  unfolding mark_type_required
  type-Takes zero name low s = absurd (omega arith)
  type-Takes (suc depth) name low s = elim (Option-cases (find_info d name d.typedict)) [
    | inl missing ↦
        iff-Takes (mark_type_required d (suc depth) false (some name) s) (λ k. ⊥) (IsNamed d name) s
          (λ k. (λ no_. absurd no_, λ (e, found). cc (missing, found)))
          (same-Takes _ s s (rw (mark_type_required, missing) refl) refl)
    | inr ((l, e), found) ↦ (
      record s { types = set_flag s.types l false },
      rw (mark_type_required, found) refl,
      λ k. elim (Bool-cases (key_eq l k)) [
        | inl here ↦
            let is : l ≡ k = (key_eq_iff l k).0 here in
            let this : IsNamed d name l = (e, found) in
            (λ now. cc (rw here at now), λ x. absurd (x.1 (rw is at this)))
        | inr other ↦ (
          λ now. (
            rw other at now,
            λ (e', found').
                let is : l ≡ k = cc (found, found') in cc (other, (key_eq_iff l k).1 is),
          ),
          λ x. rw other x.0,
        )
      ],
    )
  ]

  cmd-Same :
      (depth : ℕ) (name : Text)
      → rank name < depth
      → (s : Marks) → Same d rank falls (mark_cmd_required d depth false (some name) s) s
  unfolding mark_cmd_required
  cmd-Same zero name low s = absurd (omega arith)
  cmd-Same (suc depth) name low s = elim (Option-cases (find_info d name d.cmddict)) [
    | inl missing ↦ (s, rw (mark_cmd_required, missing) refl, refl)
    | inr ((k, e), found) ↦
        let (s', done, same) =
          mark_list-Same d rank falls (mark_cmd_required d depth false) (rank name)
            (λ r lower. cmd-Same depth r (omega arith)) (aliases_of d e)
            (cmd_falls name k e found).0 (record s { cmds = set_flag s.cmds k false }) in
        (s', rw (mark_cmd_required, found, done) refl, same)
  ]

  types-Takes :
      (depth : ℕ) (names : List (Option Text))
      → All (Below rank depth) names
      → (s : Marks)
      → Takes (mark_list (mark_type_required d depth false) names s) (From (IsNamed d) names) s
  types-Takes depth [] h s =
      iff-Takes (ok s) (λ k. ⊥) _ s (λ k. (λ no_. absurd no_, λ (a, no_, m). absurd no_))
        (same-Takes (ok s) s s refl refl)
  types-Takes depth (o ∷ names) ((r, e, low), h) s =
      let mark = mark_type_required d depth false in
      let first : Takes (mark o s) (IsNamed d r) s = rw e (type-Takes depth r low s) in
      iff-Takes (mark o s >>= mark_list mark names) (λ k. IsNamed d r k ⊎ From (IsNamed d) names k)
        _ s
        (λ k. (
          λ x. elim x [ inl m ↦ (r, inl (sym e), m) | inr (q, i, m) ↦ (q, inr i, m) ],
          λ x.
              let (q, i, m) = x in
              elim i [
                | inl same ↦ let here : q ≡ r = cc (e, same) in inl (rw here at m)
                | inr i' ↦ inr (q, i', m)
              ],
        ))
        (bind-Takes (mark o s) (mark_list mark names) (IsNamed d r) (From (IsNamed d) names) s first
          (types-Takes depth names h))

  pub mark_required-Takes :
      (depth : ℕ) (featurename : Text) (feature : Element) (s : Marks)
      → IsWithin rank depth feature
      → Takes (mark_required d depth featurename false feature s) (BlockRemoves d feature) s
  unfolding mark_required
  mark_required-Takes depth featurename feature s (types, enums, cmds) =
      let type_names = names_in (text "type") feature in
      let enum_names = names_in (text "enum") feature in
      let cmd_names = names_in (text "command") feature in
      let extends = keep (has_tag (text "extend")) (children_of feature) in
      let R = From (IsNamed d) type_names in
      iff-Takes (mark_required d depth featurename false feature s) (λ k. R k ⊎ ⊥) R s
        (λ k. (λ x. elim x [ inl r ↦ r | inr no_ ↦ absurd no_ ], λ r. inl r))
        (bind-Takes (mark_list (mark_type_required d depth false) type_names s)
          (λ s1. mark_list (mark_enum_required d depth false) enum_names s1 >>= λ s2.
            mark_list (mark_cmd_required d depth false) cmd_names s2 >>= λ s3.
            mark_list (extend_command d featurename) extends s3)
          R (λ k. ⊥) s (types-Takes depth type_names types s)
          λ s1.
            let (s2, e2, same2) =
              mark_list-Same d rank falls (mark_enum_required d depth false) depth
                (λ r low. mark_enum_required-Same d rank falls false depth r low) enum_names enums
                s1 in
            let (s3, e3, same3) =
              mark_list-Same d rank falls (mark_cmd_required d depth false) depth
                (λ r low. cmd-Same depth r low) cmd_names cmds s2 in
            let (s4, e4, same4) =
              extend_command-types d rank falls cmd_falls featurename extends s3 in
            same-Takes _ s1 s4 (rw (e2, e3) e4) (same4 ∙ same3 ∙ same2))
