-- ===== src/GenFilelists/Listing/Rendering.antt =====
-- tools/gen_filelists.py: the written text determines the list of entries.
use mathlib.Core.List.{append_cancel_left, append_cancel_right}
use teide.Base.{◌≡◌, ◌≢◌, refl, sym, ◌∙◌, ap, ℕ, true, false, List, [], ◌∷◌, ◌++◌, All, arith}
use teide.Base.Text.{Text, text}
use teide.GenFilelists.Listing.{has, join, render}

-- An entry is not empty and stands on one line.
abbrev pub IsEntry : Text → Type 0
IsEntry s = (s ≢ []) × (has b'\n' s ≡ false)

abbrev gap : Text
gap = text "\n    "

tail-eq : (c d : ℕ) (s t : Text) → Path Text (c ∷ s) (d ∷ t) → (c ≡ d) × (s ≡ t)
tail-eq c d s t e = (cc, cc)

line_end :
    (s t a b : Text)
    → has b'\n' s ≡ false
    → has b'\n' t ≡ false
    → s ++ (b'\n' ∷ a) ≡ t ++ (b'\n' ∷ b)
    → (s ≡ t) × (a ≡ b)
line_end [] [] a b h k e = (refl, (tail-eq b'\n' b'\n' a b e).1)
line_end [] (d ∷ t) a b h k e =
    let (p, _) = tail-eq b'\n' d a (t ++ (b'\n' ∷ b)) e in ground (arith, p)
line_end (c ∷ s) [] a b h k e =
    let (p, _) = tail-eq c b'\n' (s ++ (b'\n' ∷ a)) b e in ground (arith, p)
line_end (c ∷ s) (d ∷ t) a b h k e =
    let (p, q) = tail-eq c d (s ++ (b'\n' ∷ a)) (t ++ (b'\n' ∷ b)) e in
    let (same, rest) = line_end s t a b (ground arith) (ground arith) q in (cc, rest)

has-append_end : (s a : Text) → has b'\n' (s ++ (b'\n' ∷ a)) ≡ true
has-append_end [] a = refl
has-append_end (c ∷ s) a = ground (arith, has-append_end s a)

no_gap : (s t a : Text) → has b'\n' s ≡ false → s ≢ t ++ (b'\n' ∷ a)
no_gap s t a h e = cc (has-append_end t a, sym h ∙ ap (has b'\n') e)

join-injective :
    (xs ys : List Text) → All IsEntry xs → All IsEntry ys → join gap xs ≡ join gap ys → xs ≡ ys
unfolding join
join-injective [] [] h k e = refl
join-injective [] (y ∷ []) h k e = absurd (k.0.0 (sym e))
join-injective [] (y ∷ z ∷ ys) h k e = absurd (no_gap [] y _ refl e)
join-injective (x ∷ []) [] h k e = absurd (h.0.0 e)
join-injective (x ∷ w ∷ xs) [] h k e = absurd (no_gap [] x _ refl (sym e))
join-injective (x ∷ []) (y ∷ []) h k e = ap (λ l. l ∷ []) e
join-injective (x ∷ []) (y ∷ z ∷ ys) h k e = absurd (no_gap x y _ h.0.1 e)
join-injective (x ∷ w ∷ xs) (y ∷ []) h k e = absurd (no_gap y x _ k.0.1 (sym e))
join-injective (x ∷ w ∷ xs) (y ∷ z ∷ ys) h k e =
    let (same, rest) = line_end x y _ _ h.0.1 k.0.1 e in
    let parts = append_cancel_left (text "    ") (join gap (w ∷ xs)) (join gap (z ∷ ys)) rest in
    cc (join-injective (w ∷ xs) (z ∷ ys) h.1 k.1 parts)

-- Two lists of entries with the same text are the same list.
pub render-injective :
    (xs ys : List Text) → All IsEntry xs → All IsEntry ys → render xs ≡ render ys → xs ≡ ys
unfolding render
render-injective xs ys h k e =
    let body = append_cancel_left (text "set(sources\n    ") _ _ e in
    join-injective xs ys h k (append_cancel_right (join gap xs) (join gap ys) (text ")\n") body)
