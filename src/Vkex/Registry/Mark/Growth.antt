-- ===== src/Vkex/Registry/Mark/Growth.antt =====
-- tools/vkex/reg.py: steps after which more types are required, and lists of such steps.
use teide.Base.{◌≡◌, refl, sym, ◌⊎◌, ◌↔◌, inl, inr, ℕ, ◌<◌, true, List, [], ◌∷◌, Option, some, All}
use teide.Base.Result.{Result, ok}
use teide.Base.Text.{Text}
use teide.Vkex.Exceptions.{Exception}
use teide.Vkex.Registry.{Key, Marks}
use teide.Vkex.Registry.Mark.{Step, mark_list}
use teide.Vkex.Registry.Mark.Reaches.{OneOf, Below}

abbrev pub Required : Marks → Key → Type 0
Required s k = s.types k ≡ true

-- These types are required in addition.
abbrev pub Grows : (Key → Type 0) → Marks → Marks → Type 0
Grows More s s' = (k : Key) → Required s' k ↔ (Required s k ⊎ More k)

abbrev pub Gives : Result Exception Marks → (Key → Type 0) → Marks → Type 0
Gives r More s = (s' : Marks) × (r ≡ ok s') × Grows More s s'

-- The types that belong to one of these names.
abbrev pub From : (Text → Key → Type 0) → List (Option Text) → Key → Type 0
From R names k = (r : Text) × OneOf (some r) names × R r k

-- What a step does for each of the names, a list of the steps does for all of them.
pub mark_list-Gives :
    (rank : Text → ℕ) (R : Text → Key → Type 0) (mark : Option Text → Step) (n : ℕ)
    → ((r : Text) → rank r < n → (s : Marks) → Gives (mark (some r) s) (R r) s)
    → (names : List (Option Text)) → All (Below rank n) names
    → (s : Marks) → Gives (mark_list mark names s) (From R names) s
mark_list-Gives rank R mark n one [] h s =
    (s, refl, λ k. (λ r. inl r, λ x. elim x [ inl r ↦ r | inr (r, m, _) ↦ absurd m ]))
mark_list-Gives rank R mark n one (o ∷ names) ((r, e, low), h) s =
    let (s1, done, first) = one r low s in
    let (s2, done', more) = mark_list-Gives rank R mark n one names h s1 in
    (
      s2,
      rw (e, done) done',
      λ k. (
        λ now. elim ((more k).0 now) [
          | inl before ↦ elim ((first k).0 before) [
            | inl old ↦ inl old
            | inr reached ↦ inr (r, inl (sym e), reached)
          ]
          | inr (q, m, reached) ↦ inr (q, inr m, reached)
        ],
        λ x. elim x [
          | inl old ↦ (more k).1 (inl ((first k).1 (inl old)))
          | inr (q, inl same, reached) ↦
              let here : q ≡ r = cc (e, same) in
              (more k).1 (inl ((first k).1 (inr (rw here at reached))))
          | inr (q, inr m, reached) ↦ (more k).1 (inr (q, m, reached))
        ],
      ),
    )
