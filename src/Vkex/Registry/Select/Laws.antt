-- ===== src/Vkex/Registry/Select/Laws.antt =====
-- tools/vkex/reg.py: what the loops of `apiGen` have selected in the end.
use teide.Base.{
  ◌≡◌, refl, sym, ◌∙◌, ap, Bool, false, ◌||◌, List, [], ◌∷◌, ◌++◌, keep, arith, append_assoc,
  append-nil, Bool-cases, inl, inr,
}
use teide.Base.Text.{Text, contains}
use teide.Vkex.Registry.Select.{
  FeatureInfo, SelectOptions, Selection, sort_by_number, is_version, select_version, is_included,
  is_removed, select_extension, select_versions, select_extensions, select,
}
use teide.Vkex.Registry.Select.Names.{
  names, keys, IsAscending, sort_by_number-IsAscending, contains-sort_by_number,
  contains-set_feature, contains-add_name,
}

module _ (o : SelectOptions) where
  -- What a loop over these extensions, and the loop over these versions, adds.
  abbrev Adds : List FeatureInfo → Selection → Selection → Type 0
  Adds exts s s' =
      (s'.required_extensions ≡ s.required_extensions ++ names (keep (is_included o) exts))
      × ((n : Text)
          → contains (keys s'.gen_features) n
            ≡ (contains (keys s.gen_features) n || contains (names (keep (is_included o) exts)) n))
      × ((n : Text)
          → contains s'.removed_extension_names n ≡ (
              contains s.removed_extension_names n
              || contains (names (keep (is_removed o) exts)) n))

  select_extension-Adds :
      (ei : FeatureInfo) (s : Selection) → Adds (ei ∷ []) s (select_extension o ei s)
  unfolding select_extension
  select_extension-Adds ei s = elim (Bool-cases (is_removed o ei)) [
    | inl removed ↦
        let other : is_included o ei ≡ false = ground arith in
        (
          rw (select_extension, removed, other) (sym (append-nil s.required_extensions)),
          λ n. rw (select_extension, removed, other) (ground arith),
          λ n.
              let added = contains-add_name s.removed_extension_names ei.name n in
              rw (select_extension, removed, other, added) (ground arith),
        )
    | inr kept ↦ elim (Bool-cases (is_included o ei)) [
      | inl included ↦ (
        rw (select_extension, kept, included) refl,
        λ n.
            let added = contains-set_feature s.gen_features ei.name n in
            rw (select_extension, kept, included, added _) (ground arith),
        λ n. rw (select_extension, kept, included) (ground arith),
      )
      | inr other ↦ (
        rw (select_extension, kept, other) (sym (append-nil s.required_extensions)),
        λ n. rw (select_extension, kept, other) (ground arith),
        λ n. rw (select_extension, kept, other) (ground arith),
      )
    ]
  ]

  names-cons :
      (p : FeatureInfo → Bool) (x : FeatureInfo) (xs : List FeatureInfo)
      → names (keep p (x ∷ xs)) ≡ names (keep p (x ∷ [])) ++ names (keep p xs)
  names-cons p x xs = elim (Bool-cases (p x)) [ inl yes_ ↦ rw yes_ refl | inr no_ ↦ rw no_ refl ]

  contains-append :
      (xs ys : List Text) (n : Text) → contains (xs ++ ys) n ≡ (contains xs n || contains ys n)
  contains-append [] ys n = refl
  contains-append (x ∷ xs) ys n = ground (arith, contains-append xs ys n)

  contains-cons :
      (p : FeatureInfo → Bool) (x : FeatureInfo) (xs : List FeatureInfo) (n : Text)
      → contains (names (keep p (x ∷ xs))) n
        ≡ (contains (names (keep p (x ∷ []))) n || contains (names (keep p xs)) n)
  contains-cons p x xs n =
      ap (λ l. contains l n) (names-cons p x xs)
      ∙ contains-append (names (keep p (x ∷ []))) (names (keep p xs)) n

  select_extensions-Adds :
      (exts : List FeatureInfo) (s : Selection) → Adds exts s (select_extensions o exts s)
  unfolding select_extensions
  select_extensions-Adds [] s =
      (sym (append-nil s.required_extensions), λ n. ground arith, λ n. ground arith)
  select_extensions-Adds (ei ∷ exts) s =
      let (required, features, removed) = select_extension-Adds ei s in
      let (required', features', removed') =
        select_extensions-Adds exts (select_extension o ei s) in
      (
        required'
            ∙ ap (λ l. l ++ names (keep (is_included o) exts)) required
            ∙ append_assoc s.required_extensions (names (keep (is_included o) (ei ∷ [])))
                (names (keep (is_included o) exts))
            ∙ ap (λ l. s.required_extensions ++ l) (sym (names-cons (is_included o) ei exts)),
        λ n.
            (let a = features n in
              let b = features' n in
              let c = contains-cons (is_included o) ei exts n in ground arith),
        λ n.
            (let a = removed n in
              let b = removed' n in let c = contains-cons (is_removed o) ei exts n in ground arith),
      )

  -- The loop over the versions adds those that match.
  abbrev AddsVersions : List FeatureInfo → Selection → Selection → Type 0
  AddsVersions apis s s' =
      (s'.required_extensions ≡ s.required_extensions)
      × ((n : Text)
          → contains (keys s'.gen_features) n
            ≡ (contains (keys s.gen_features) n || contains (names (keep (is_version o) apis)) n))
      × (s'.removed_extension_names ≡ s.removed_extension_names)

  select_versions-AddsVersions :
      (apis : List FeatureInfo) (s : Selection) → AddsVersions apis s (select_versions o apis s)
  unfolding select_versions select_version
  select_versions-AddsVersions [] s = (refl, λ n. ground arith, refl)
  select_versions-AddsVersions (fi ∷ apis) s =
      let (required, features, removed) =
        select_versions-AddsVersions apis (select_version o fi s) in
      elim (Bool-cases (is_version o fi)) [
        | inl chosen ↦ (
          required ∙ rw (select_version, chosen) refl,
          λ n.
              features n
              ∙ (let added = contains-set_feature s.gen_features fi.name n in
                  let c = contains-cons (is_version o) fi apis n in
                  rw (select_version, chosen, added _) (ground arith)),
          removed ∙ rw (select_version, chosen) refl,
        )
        | inr other ↦ (
          required ∙ rw (select_version, other) refl,
          λ n. features n ∙ rw (select_version, other) (ground arith),
          removed ∙ rw (select_version, other) refl,
        )
      ]

  -- The selected features are the versions and the extensions that match; the extensions that are required
  -- are those that match, in the order of their numbers; and the removed names are those of extensions that
  -- the default includes and the pattern of the removed ones matches.
  pub select_lem :
      (apis exts : List FeatureInfo)
      → ((n : Text)
          → contains (keys (select o apis exts).gen_features) n ≡ (
              contains (names (keep (is_version o) apis)) n
              || contains (names (keep (is_included o) exts)) n))
        × ((select o apis exts).required_extensions
            ≡ names (keep (is_included o) (sort_by_number exts)))
        × IsAscending (sort_by_number exts)
        × ((n : Text)
            → contains (select o apis exts).removed_extension_names n
              ≡ contains (names (keep (is_removed o) exts)) n)
  unfolding select
  select_lem apis exts =
      let nothing : Selection = record {
        gen_features = [];
        removed_extension_names = [];
        required_extensions = [];
      } in
      let versions = select_versions o apis nothing in
      let (required, features, removed) = select_versions-AddsVersions apis nothing in
      let (required', features', removed') =
        select_extensions-Adds (sort_by_number exts) versions in
      (
        λ n.
            (let a = features n in
              let b = features' n in
              let c = contains-sort_by_number (is_included o) n exts in ground arith),
        required' ∙ ap (λ l. l ++ names (keep (is_included o) (sort_by_number exts))) required,
        sort_by_number-IsAscending exts,
        λ n.
            removed' n
            ∙ ap
                (λ l.
                  contains l n || contains (names (keep (is_removed o) (sort_by_number exts))) n)
                removed
            ∙ contains-sort_by_number (is_removed o) n exts,
      )
