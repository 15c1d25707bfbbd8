-- ===== src/Vkex/Registry/Passes/Laws.antt =====
-- tools/vkex/reg.py: the passes as a whole.
use teide.Base.{◌≡◌, refl, ◌⊎◌, ◌↔◌, inl, inr, ℕ, Bool, true, false, List, [], ◌∷◌, All}
use teide.Base.Result.{Result, ok, ◌>>=◌}
use teide.Base.Text.{Text, text}
use teide.Vkex.Exceptions.{Exception}
use teide.Vkex.Registry.{Key, Dictionaries, Marks}
use teide.Vkex.Registry.Mark.{Step, mark_list, mark_required}
use teide.Vkex.Registry.Mark.Commands.{
  CmdFalls, IsWithin, BlockReaches, bind-Gives, iff-Gives, same-Gives, mark_required-Gives,
}
use teide.Vkex.Registry.Mark.Growth.{Gives}
use teide.Vkex.Registry.Mark.Reaches.{OneOf, Falls}
use teide.Vkex.Registry.Passes.{
  Feature, Setting, blocks, is_required, is_removed_block, when, require_features, remove_features,
  tag_features,
}
use teide.Vkex.Registry.Passes.Removed.{
  Takes, BlockRemoves, same-Takes, iff-Takes, list-Takes, mark_required-Takes,
}
use teide.Vkex.Xml.{Element}

-- What a step adds for each, a list of the steps adds for all of them.
list-Gives :
    {A : Type 0} (mark : A → Step) (M : A → Key → Type 0) (as_ : List A)
    → All (λ a. (s : Marks) → Gives (mark a s) (M a) s) as_
    → (s : Marks) → Gives (mark_list mark as_ s) (λ k. (a : A) × OneOf a as_ × M a k) s
list-Gives mark M [] h s =
    iff-Gives (ok s) (λ k. ⊥) _ s (λ k. (λ no_. absurd no_, λ (a, no_, m). absurd no_))
      (same-Gives (ok s) s s refl refl)
list-Gives mark M (a ∷ as_) h s =
    iff-Gives (mark a s >>= mark_list mark as_) (λ k. M a k ⊎ ((b : _) × OneOf b as_ × M b k)) _ s
      (λ k. (
        λ x. elim x [ inl m ↦ (a, inl refl, m) | inr (b, i, m) ↦ (b, inr i, m) ],
        λ x. let (b, i, m) = x in elim i [ inl e ↦ inl (rw e at m) | inr i' ↦ inr (b, i', m) ],
      ))
      (bind-Gives (mark a s) (mark_list mark as_) (M a) (λ k. (b : _) × OneOf b as_ × M b k) s
        (h.0 s) (list-Gives mark M as_ h.1))

-- The test of an element gives an answer.
abbrev Decided : Result Exception Bool → Type 0
Decided test = (b : Bool) × (test ≡ ok b)

when-Gives :
    (test : Result Exception Bool) (step : Step) (M : Key → Type 0) (s : Marks)
    → Decided test
    → Gives (step s) M s
    → Gives (when test step s) (λ k. (test ≡ ok true) × M k) s
when-Gives test step M s (true, yes_) h =
    rw yes_ (iff-Gives (step s) M _ s (λ k. (λ m. (refl, m), λ x. x.1)) h)
when-Gives test step M s (false, no_) h = rw no_ (
    iff-Gives (ok s) (λ k. ⊥) _ s (λ k. (λ x. absurd x, λ x. cc (x.0)))
      (same-Gives (ok s) s s refl refl))

when-Takes :
    (test : Result Exception Bool) (step : Step) (M : Key → Type 0) (s : Marks)
    → Decided test
    → Takes (step s) M s
    → Takes (when test step s) (λ k. (test ≡ ok true) × M k) s
when-Takes test step M s (true, yes_) h =
    rw yes_ (iff-Takes (step s) M _ s (λ k. (λ m. (refl, m), λ x. x.1)) h)
when-Takes test step M s (false, no_) h = rw no_ (
    iff-Takes (ok s) (λ k. ⊥) _ s (λ k. (λ x. absurd x, λ x. cc (x.0)))
      (same-Takes (ok s) s s refl refl))

-- An element of this kind that counts has this effect.
abbrev pub Block :
    Text → (Element → Result Exception Bool) → (Element → Key → Type 0) → Feature → Key → Type 0
Block tag counts Effect f k =
    (b : Element) × OneOf b (blocks tag f) × ((counts b ≡ ok true) × Effect b k)

abbrev pub RequiredBy : Dictionaries → Setting → List Feature → Key → Type 0
RequiredBy d g features k =
    (f : Feature) × OneOf f features × Block (text "require") (is_required g) (BlockReaches d) f k

abbrev pub RemovedBy : Dictionaries → Setting → List Feature → Key → Type 0
RemovedBy d g features k =
    (f : Feature) × OneOf f features
    × Block (text "remove") (is_removed_block g) (BlockRemoves d) f k

abbrev pub IsReady : (Text → ℕ) → ℕ → Text → (Element → Result Exception Bool) → Feature → Type 0
IsReady rank depth tag counts f =
    All (λ b. Decided (counts b) × IsWithin rank depth b) (blocks tag f)

All-map :
    {A : Type 0} (P Q : A → Type 0) → ((a : A) → P a → Q a) → (as_ : List A) → All P as_ → All Q as_
All-map P Q f [] h = tt
All-map P Q f (a ∷ as_) h = (f a h.0, All-map P Q f as_ h.1)

module _ (d : Dictionaries) (rank : Text → ℕ) (falls : Falls d rank) (cmd_falls : CmdFalls d rank)
    (g : Setting) (depth : ℕ) where
  require_features-Gives :
      (f : Feature) (s : Marks)
      → IsReady rank depth (text "require") (is_required g) f
      → Gives
          (require_features d g depth f s)
          (Block (text "require") (is_required g) (BlockReaches d) f)
          s
  unfolding require_features
  require_features-Gives f s ready =
      list-Gives (λ b. when (is_required g b) (mark_required d depth f.name true b))
        (λ b k. (is_required g b ≡ ok true) × BlockReaches d b k) (blocks (text "require") f)
        (All-map _ _
          (λ b h s.
            when-Gives (is_required g b) (mark_required d depth f.name true b) (BlockReaches d b) s
              h.0 (mark_required-Gives d rank falls cmd_falls depth f.name b s h.1))
          (blocks (text "require") f) ready)
        s

  remove_features-Takes :
      (f : Feature) (s : Marks)
      → IsReady rank depth (text "remove") (is_removed_block g) f
      → Takes
          (remove_features d g depth f s)
          (Block (text "remove") (is_removed_block g) (BlockRemoves d) f)
          s
  unfolding remove_features
  remove_features-Takes f s ready =
      list-Takes (λ b. when (is_removed_block g b) (mark_required d depth f.name false b))
        (λ b k. (is_removed_block g b ≡ ok true) × BlockRemoves d b k) (blocks (text "remove") f)
        (All-map _ _
          (λ b h s.
            when-Takes (is_removed_block g b) (mark_required d depth f.name false b)
              (BlockRemoves d b) s h.0
              (mark_required-Takes d rank falls cmd_falls depth f.name b s h.1))
          (blocks (text "remove") f) ready)
        s

  -- Where references lead to lower ranks, the names in the elements `<require>` and `<remove>` are of ranks
  -- below the depth of the recursion, and the tests of these elements raise nothing, the calls of
  -- `requireFeatures` and then of `removeFeatures` for all features end without an exception; then a type
  -- is required exactly if it was so before, or an element `<require>` that counts reaches it by a type or a
  -- command, and no element `<remove>` that counts names it.
  pub tag_features_lem :
      (features : List Feature) (s : Marks)
      → All (IsReady rank depth (text "require") (is_required g)) features
      → All (IsReady rank depth (text "remove") (is_removed_block g)) features
      → (s' : Marks) × (tag_features d g depth features s ≡ ok s')
        × ((k : Key)
            → (s'.types k ≡ true)
              ↔ (((s.types k ≡ true) ⊎ RequiredBy d g features k) × (RemovedBy d g features k → ⊥)))
  unfolding tag_features
  tag_features_lem features s ready ready' =
      let (s1, e1, grown) =
        list-Gives (require_features d g depth)
          (Block (text "require") (is_required g) (BlockReaches d)) features
          (All-map _ _ (λ f h s. require_features-Gives f s h) features ready) s in
      let (s2, e2, lost) =
        list-Takes (remove_features d g depth)
          (Block (text "remove") (is_removed_block g) (BlockRemoves d)) features
          (All-map _ _ (λ f h s. remove_features-Takes f s h) features ready') s1 in
      (
        s2,
        rw e1 e2,
        λ k. (
          λ now. ((grown k).0 ((lost k).0 now).0, ((lost k).0 now).1),
          λ x. (lost k).1 ((grown k).1 x.0, x.1),
        ),
      )
