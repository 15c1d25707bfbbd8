-- ===== src/Vkex/Struct/Counts.antt =====
-- tools/vkex/vkexgenerator.py: the counts of structures and the list of those that were written.
use teide.Base.{
  ◌≡◌, ◌∙◌, ℕ, ◌+◌, Bool, true, false, ◌||◌, [], ◌∷◌, ◌++◌, Option, some, arith, length,
  length-append, Bool-cases, inl, inr,
}
use teide.Base.Result.{Result, ok, raised, ◌>>=◌, ok_injective}
use teide.Base.Text.{Text, text, contains}
use teide.Vkex.Exceptions.{Exception}
use teide.Vkex.Names.{gen_protect_string}
use teide.Vkex.Struct.{StructType, trivial, straightforward, complex, broken_structs}
use teide.Vkex.Sections.{append_section}
use teide.Vkex.Struct.Generate.{
  Generator, StructOptions, Types, count_struct, finish_struct, struct_text, written,
  generate_struct, asked_alias, extends_line, gen_struct, gen_type, drop_comments,
}
use teide.Vkex.Xml.{Element, get, truthy, none_str}

-- As many structures were written as were not trivial.
abbrev pub IsCounted : Generator → Type 0
IsCounted g = length g.emitted_structs ≡ g.straightforward_structs + g.complex_structs

-- A text that was added to a section, and then a step that keeps the count.
after-IsCounted :
    {A : Type 0} (r : Result Exception A) (f : A → Result Exception Generator) (g' : Generator)
    → ((a : A) (g'' : Generator) → f a ≡ ok g'' → IsCounted g'')
    → (r >>= f) ≡ ok g'
    → IsCounted g'
after-IsCounted (ok a) f g' h e = h a g' e
after-IsCounted (raised x) f g' h e = cc

written-IsCounted :
    (g : Generator) (type_name : Text) (n m : ℕ)
    → IsCounted g
    → n + m ≡ g.straightforward_structs + g.complex_structs + 1
    → length (g.emitted_structs ++ (type_name ∷ [])) ≡ n + m
written-IsCounted g type_name n m h e =
    length-append g.emitted_structs (type_name ∷ []) ∙ omega arith

finish_struct-IsCounted :
    (type_name : Text) (t : StructType) (body : Text) (g g' : Generator)
    → finish_struct type_name t body g ≡ ok g'
    → IsCounted g
    → IsCounted g'
unfolding finish_struct count_struct
finish_struct-IsCounted type_name trivial body g g' e h =
    let shape = ok_injective (count_struct trivial g) g' e in rw (← shape) h
finish_struct-IsCounted type_name straightforward body g g' e h =
    after-IsCounted (append_section g.feature (some (text "struct")) body) _ g'
      (λ feature g'' last.
        let counted = count_struct straightforward g in
        let shape = ok_injective (written type_name counted feature) g'' last in
        rw (← shape) (
          written-IsCounted g type_name (g.straightforward_structs + 1) g.complex_structs h
            (omega arith)))
      e
finish_struct-IsCounted type_name complex body g g' e h =
    after-IsCounted
      (append_section g.feature (some (text "struct")) (text "/*\n" ++ (body ++ text "*/\n"))) _ g'
      (λ feature g'' last.
        let counted = count_struct complex g in
        let shape = ok_injective (written type_name counted feature) g'' last in
        rw (← shape) (
          written-IsCounted g type_name g.straightforward_structs (g.complex_structs + 1) h
            (omega arith)))
      e

module _ (is_alnum : ℕ → Bool) (lower : ℕ → Text) (o : StructOptions) (types : Types) where
  generate_struct-IsCounted :
      (e : Element) (type_name : Text) (g g' : Generator)
      → generate_struct is_alnum lower o types e type_name g ≡ ok g'
      → IsCounted g
      → IsCounted g'
  unfolding generate_struct
  generate_struct-IsCounted e type_name g g' done h =
      let protect = gen_protect_string (get e (text "protect")) in
      let asked = asked_alias is_alnum lower o types type_name g in
      let front = protect.0 ++ extends_line is_alnum lower o types type_name e in
      let g0 : Generator = record g { may_alias = asked.1 } in
      after-IsCounted (struct_text is_alnum lower o types type_name front asked.0 e)
        (λ r. finish_struct type_name r.0 (r.1 ++ protect.1) g0) g'
        (λ r g'' last. finish_struct-IsCounted type_name r.0 (r.1 ++ protect.1) g0 g'' last h) done

  gen_struct-IsCounted :
      (in_feature : Bool) (e : Element) (type_name : Text) (alias : Option Text) (g g' : Generator)
      → gen_struct is_alnum lower o types in_feature e type_name alias g ≡ ok g'
      → IsCounted g
      → IsCounted g'
  unfolding gen_struct
  gen_struct-IsCounted false e type_name alias g g' done h = cc
  gen_struct-IsCounted true e type_name alias g g' done h =
      elim (Bool-cases (truthy alias || contains broken_structs type_name)) [
        | inl skipped ↦ rw (← ok_injective g g' (rw (gen_struct, skipped) at done)) h
        | inr generated ↦
            generate_struct-IsCounted (drop_comments e) type_name g g'
              (rw (gen_struct, generated) at done) h
      ]

  -- A call for a type that succeeds leaves as many written structures as were counted as straightforward
  -- or complex, if that was so before.
  pub gen_type-IsCounted :
      (in_feature : Bool) (e : Element) (name : Text) (alias : Option Text) (g g' : Generator)
      → gen_type is_alnum lower o types in_feature e name alias g ≡ ok g'
      → IsCounted g
      → IsCounted g'
  unfolding gen_type
  gen_type-IsCounted false e name alias g g' done h = cc
  gen_type-IsCounted true e name alias g g' done h =
      elim (Bool-cases
        (contains (text "struct" ∷ text "union" ∷ []) (none_str (get e (text "category"))))) [
          | inl structure ↦
              gen_struct-IsCounted true e name alias g g' (rw (gen_type, structure) at done) h
          | inr other ↦ rw (← ok_injective g g' (rw (gen_type, other) at done)) h
        ]
