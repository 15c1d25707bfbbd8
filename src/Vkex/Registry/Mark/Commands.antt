-- ===== src/Vkex/Registry/Mark/Commands.antt =====
-- tools/vkex/reg.py: what a command and a `<require>` element require.
use teide.Base.{
  ◌≡◌, refl, ◌⊎◌, ◌↔◌, inl, inr, ℕ, zero, suc, ◌<◌, true, List, [], ◌∷◌, ◌++◌, Option, none, some,
  keep, map, All, arith, Bool-cases, Option-cases, if◌then◌else◌,
}
use teide.Base.Result.{Result, ok, ◌>>=◌}
use teide.Base.Text.{Text, text}
use teide.Vkex.Exceptions.{Exception}
use teide.Vkex.Registry.{Key, Dictionaries, Marks, set_flag}
use teide.Vkex.Registry.Mark.{
  Step, mark_list, reference, names_in, same_name, find_info, mark_enum_required,
  mark_type_required, mark_cmd_required, codes, extend_command, mark_required,
}
use teide.Vkex.Registry.Mark.Closure.{mark_type_required-Gives}
use teide.Vkex.Registry.Mark.Enums.{mark_list-Same, mark_enum_required-Same}
use teide.Vkex.Registry.Mark.Growth.{Gives, From, mark_list-Gives}
use teide.Vkex.Registry.Mark.Reaches.{OneOf, Reaches, Below, Falls}
use teide.Vkex.Xml.{Element, text_of, children_of, get, has_tag, find_below}

abbrev types_in : Element → List (Option Text)
types_in e = map text_of (find_below (text "type") e)

abbrev pub aliases_of : Dictionaries → Element → List (Option Text)
aliases_of d e = if d.require_command_aliases then reference e (text "alias") else []

-- The types that a command is declared with, and those of the commands it is an alias of where
-- these are required as well.
pub data CmdReaches (d : Dictionaries) : Text → Key → Type 0 where
  by_type :
      (name : Text) (k : Key) (e : Element) (l : Key)
      → find_info d name d.cmddict ≡ some (k, e)
      → From (Reaches d) (types_in e) l
      → CmdReaches d name l
  by_alias :
      (name : Text) (k : Key) (e : Element) (a : Text) (l : Key)
      → find_info d name d.cmddict ≡ some (k, e)
      → OneOf (some a) (aliases_of d e)
      → CmdReaches d a l
      → CmdReaches d name l

abbrev pub CmdFalls : Dictionaries → (Text → ℕ) → Type 0
CmdFalls d rank =
    (name : Text) (k : Key) (e : Element)
    → find_info d name d.cmddict ≡ some (k, e)
    → All (Below rank (rank name)) (aliases_of d e) × All (Below rank (rank name)) (types_in e)

-- What a `<require>` element requires: the types it names and those of the commands it names.
abbrev pub BlockReaches : Dictionaries → Element → Key → Type 0
BlockReaches d feature k =
    From (Reaches d) (names_in (text "type") feature) k
    ⊎ From (CmdReaches d) (names_in (text "command") feature) k

-- Its elements have names, whose ranks are within the depth.
abbrev pub IsWithin : (Text → ℕ) → ℕ → Element → Type 0
IsWithin rank depth feature =
    All (Below rank depth) (names_in (text "type") feature)
    × All (Below rank depth) (names_in (text "enum") feature)
    × All (Below rank depth) (names_in (text "command") feature)

-- One step after another.
pub bind-Gives :
    (r : Result Exception Marks) (f : Step) (M N : Key → Type 0) (s : Marks)
    → Gives r M s
    → ((s' : Marks) → Gives (f s') N s')
    → Gives (r >>= f) (λ k. M k ⊎ N k) s
bind-Gives r f M N s (s1, done, first) next =
    let (s2, done', second) = next s1 in
    (
      s2,
      rw done done',
      λ k. (
        λ now. elim ((second k).0 now) [
          | inl before ↦ elim ((first k).0 before) [ inl old ↦ inl old | inr m ↦ inr (inl m) ]
          | inr n ↦ inr (inr n)
        ],
        λ x. elim x [
          | inl old ↦ (second k).1 (inl ((first k).1 (inl old)))
          | inr (inl m) ↦ (second k).1 (inl ((first k).1 (inr m)))
          | inr (inr n) ↦ (second k).1 (inr n)
        ],
      ),
    )

pub iff-Gives :
    (r : Result Exception Marks) (M N : Key → Type 0) (s : Marks)
    → ((k : Key) → M k ↔ N k)
    → Gives r M s
    → Gives r N s
iff-Gives r M N s iff (s', done, grown) = (
  s',
  done,
  λ k. (
    λ now. elim ((grown k).0 now) [ inl old ↦ inl old | inr m ↦ inr ((iff k).0 m) ],
    λ x. elim x [ inl old ↦ (grown k).1 (inl old) | inr n ↦ (grown k).1 (inr ((iff k).1 n)) ],
  ),
)

-- A step that does not change the types.
pub same-Gives :
    (r : Result Exception Marks) (s s' : Marks)
    → r ≡ ok s'
    → s'.types ≡ s.types
    → Gives r (λ k. ⊥) s
same-Gives r s s' done same = (
  s',
  done,
  λ k. (λ now. inl (rw same at now), λ x. elim x [ inl old ↦ rw same old | inr no_ ↦ absurd no_ ]),
)

CmdReaches-found :
    (d : Dictionaries) (name : Text) (l : Key)
    → CmdReaches d name l
    → find_info d name d.cmddict ≡ none
    → ⊥
CmdReaches-found d name l (by_type _ k e _ found reached) missing = cc
CmdReaches-found d name l (by_alias _ k e a _ found m reached) missing = cc

CmdReaches-cases :
    (d : Dictionaries) (name : Text) (k l : Key) (e : Element)
    → find_info d name d.cmddict ≡ some (k, e)
    → CmdReaches d name l
    → From (CmdReaches d) (aliases_of d e) l ⊎ From (Reaches d) (types_in e) l
CmdReaches-cases d name k l e found (by_type _ k' e' _ found' reached) =
    let same : e' ≡ e = cc (found, found') in inr (rw same at reached)
CmdReaches-cases d name k l e found (by_alias _ k' e' a _ found' m reached) =
    let same : e' ≡ e = cc (found, found') in inl (a, rw same at m, reached)

module _ (d : Dictionaries) (rank : Text → ℕ) (falls : Falls d rank)
    (cmd_falls : CmdFalls d rank) where
  types-Gives :
      (depth : ℕ) (names : List (Option Text))
      → All (Below rank depth) names
      → (s : Marks)
      → Gives (mark_list (mark_type_required d depth true) names s) (From (Reaches d) names) s
  types-Gives depth names h s =
      mark_list-Gives rank (Reaches d) (mark_type_required d depth true) depth
        (λ r low. mark_type_required-Gives d rank falls depth r low) names h s

  mark_cmd_required-Gives :
      (depth : ℕ) (name : Text)
      → rank name < depth
      → (s : Marks) → Gives (mark_cmd_required d depth true (some name) s) (CmdReaches d name) s
  unfolding mark_cmd_required
  mark_cmd_required-Gives zero name low s = absurd (omega arith)
  mark_cmd_required-Gives (suc depth) name low s =
      elim (Option-cases (find_info d name d.cmddict)) [
        | inl missing ↦
            iff-Gives (mark_cmd_required d (suc depth) true (some name) s) (λ k. ⊥)
              (CmdReaches d name) s
              (λ k.
                (λ no_. absurd no_, λ reached. absurd (CmdReaches-found d name k reached missing)))
              (same-Gives _ s s (rw (mark_cmd_required, missing) refl) refl)
        | inr ((k, e), found) ↦
            let (below_aliases, below_types) = cmd_falls name k e found in
            let marked : Marks = record s { cmds = set_flag s.cmds k true } in
            let both =
              bind-Gives (mark_list (mark_cmd_required d depth true) (aliases_of d e) marked)
                (mark_list (mark_type_required d depth true) (types_in e))
                (From (CmdReaches d) (aliases_of d e)) (From (Reaches d) (types_in e)) marked
                (mark_list-Gives rank (CmdReaches d) (mark_cmd_required d depth true) (rank name)
                  (λ r lower. mark_cmd_required-Gives depth r (omega arith)) (aliases_of d e)
                  below_aliases marked)
                (mark_list-Gives rank (Reaches d) (mark_type_required d depth true) (rank name)
                  (λ r lower. mark_type_required-Gives d rank falls depth r (omega arith))
                  (types_in e) below_types) in
            iff-Gives (mark_cmd_required d (suc depth) true (some name) s)
              (λ l. From (CmdReaches d) (aliases_of d e) l ⊎ From (Reaches d) (types_in e) l)
              (CmdReaches d name) s
              (λ l. (
                λ x. elim x [
                  | inl (a, m, reached) ↦ by_alias name k e a l found m reached
                  | inr reached ↦ by_type name k e l found reached
                ],
                CmdReaches-cases d name k l e found,
              ))
              (rw (mark_cmd_required, found) both)
      ]

  pub extend_command-types :
      (featurename : Text) (es : List Element) (s : Marks)
      → (s' : Marks) × (mark_list (extend_command d featurename) es s ≡ ok s')
        × (s'.types ≡ s.types)
  unfolding extend_command
  extend_command-types featurename [] s = (s, refl, refl)
  extend_command-types featurename (e ∷ es) s =
      elim (Bool-cases (same_name (get e (text "type")) (some (text "command")))) [
        | inl command ↦
            let name = get e (text "name") in
            let (s', done, same) = extend_command-types featurename es (record s {
              successes = s.successes ++ codes d featurename name (get e (text "successcodes"));
              errors = s.errors ++ codes d featurename name (get e (text "errorcodes"));
            }) in
            (s', rw (extend_command, command) done, same)
        | inr other ↦
            let (s', done, same) = extend_command-types featurename es s in
            (s', rw (extend_command, other) done, same)
      ]

  pub mark_required-Gives :
      (depth : ℕ) (featurename : Text) (feature : Element) (s : Marks)
      → IsWithin rank depth feature
      → Gives (mark_required d depth featurename true feature s) (BlockReaches d feature) s
  unfolding mark_required
  mark_required-Gives depth featurename feature s (types, enums, cmds) =
      let type_names = names_in (text "type") feature in
      let enum_names = names_in (text "enum") feature in
      let cmd_names = names_in (text "command") feature in
      let extends = keep (has_tag (text "extend")) (children_of feature) in
      let R = From (Reaches d) type_names in
      let N : Key → Type 0 = λ k. ⊥ in
      let C = From (CmdReaches d) cmd_names in
      iff-Gives (mark_required d depth featurename true feature s) (λ k. R k ⊎ (N k ⊎ (C k ⊎ N k)))
        (BlockReaches d feature) s
        (λ k. (
          λ x. elim x [
            | inl r ↦ inl r
            | inr (inl no_) ↦ absurd no_
            | inr (inr (inl c)) ↦ inr c
            | inr (inr (inr no_)) ↦ absurd no_
          ],
          λ x. elim x [ inl r ↦ inl r | inr c ↦ inr (inr (inl c)) ],
        ))
        (bind-Gives (mark_list (mark_type_required d depth true) type_names s)
          (λ s1. mark_list (mark_enum_required d depth true) enum_names s1 >>= λ s2.
            mark_list (mark_cmd_required d depth true) cmd_names s2 >>= λ s3.
            mark_list (extend_command d featurename) extends s3)
          R (λ k. N k ⊎ (C k ⊎ N k)) s (types-Gives depth type_names types s)
          λ s1.
            bind-Gives (mark_list (mark_enum_required d depth true) enum_names s1)
              (λ s2. mark_list (mark_cmd_required d depth true) cmd_names s2 >>= λ s3.
                mark_list (extend_command d featurename) extends s3)
              N (λ k. C k ⊎ N k) s1
              (let (s', done, same) =
                  mark_list-Same d rank falls (mark_enum_required d depth true) depth
                    (λ r low. mark_enum_required-Same d rank falls true depth r low) enum_names
                    enums s1 in
                same-Gives _ s1 s' done same)
              λ s2.
                bind-Gives (mark_list (mark_cmd_required d depth true) cmd_names s2)
                  (mark_list (extend_command d featurename) extends) C N s2
                  (mark_list-Gives rank (CmdReaches d) (mark_cmd_required d depth true) depth
                    (λ r low. mark_cmd_required-Gives depth r low) cmd_names cmds s2)
                  λ s3.
                    let (s', done, same) = extend_command-types featurename extends s3 in
                    same-Gives _ s3 s' done same)
