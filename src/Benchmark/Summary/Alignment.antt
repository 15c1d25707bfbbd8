-- ===== src/Benchmark/Summary/Alignment.antt =====
-- tools/benchmark.py: the columns of the summary's table.
use teide.Base.{
  ◌≡◌, refl, sym, ◌∙◌, ap, ℕ, suc, ◌+◌, ◌*◌, ◌-◌, ◌≤◌, List, [], ◌∷◌, ◌++◌, map, All, arith, length,
  length-append, length-replicate, replicate,
}
use teide.Base.Text.{Text, text}
use teide.GenFilelists.Listing.{join}
use teide.Benchmark.Summary.{headers, zip_with, max, col_widths, pad, format_row, table}

-- Each cell is at most as wide as its column, and there are as many cells as columns.
Fits : List Text → List ℕ → Type 0
Fits [] [] = Unit
Fits [] (w ∷ widths) = ⊥
Fits (c ∷ cells) [] = ⊥
Fits (c ∷ cells) (w ∷ widths) = (length c ≤ w) × Fits cells widths

abbrev pub sum : List ℕ → ℕ
sum [] = 0
sum (w ∷ widths) = w + sum widths

length-pad : (cell : Text) (width : ℕ) → length cell ≤ width → length (pad cell width) ≡ width
unfolding pad
length-pad cell width le = omega (
  arith,
  length-append cell (replicate (width - length cell) b' '),
  length-replicate {A = ℕ} (width - length cell) b' ',
)

-- What the cells after the first one add to a line.
length-join :
    (c : Text) (cells : List Text) (w : ℕ) (widths : List ℕ)
    → Fits (c ∷ cells) (w ∷ widths)
    → length (join (text " | ") (zip_with pad (c ∷ cells) (w ∷ widths)))
      ≡ w + sum widths + 3 * length widths
unfolding join Fits
length-join c [] w [] fits = omega (arith, length-pad c w fits.0)
length-join c [] w (v ∷ widths) fits = elim fits.1 [ ]
length-join c (d ∷ cells) w [] fits = elim fits.1 [ ]
length-join c (d ∷ cells) w (v ∷ widths) fits =
    let ih = length-join d cells v widths fits.1 in
    let padded = zip_with pad (d ∷ cells) (v ∷ widths) in
    omega (
      arith,
      length-append (pad c w) (text " | " ++ join (text " | ") padded),
      length-pad c w fits.0,
      ih,
    )

length-format_row :
    (c : Text) (cells : List Text) (w : ℕ) (widths : List ℕ)
    → Fits (c ∷ cells) (w ∷ widths)
    → length (format_row (w ∷ widths) (c ∷ cells)) ≡ w + sum widths + 3 * length widths + 5
unfolding format_row
length-format_row c cells w widths fits =
    let joined = join (text " | ") (zip_with pad (c ∷ cells) (w ∷ widths)) in
    omega (arith, length-append joined (text " |\n"), length-join c cells w widths fits)

row-Fits : (row : List Text) → Fits row (map length row)
unfolding Fits
row-Fits [] = tt
row-Fits (c ∷ row) = (omega arith, row-Fits row)

dashes-Fits : (widths : List ℕ) → Fits (map (λ i. replicate i b'-') widths) widths
unfolding Fits
dashes-Fits [] = tt
dashes-Fits (w ∷ widths) =
    ((let made = length-replicate {A = ℕ} w b'-' in omega arith), dashes-Fits widths)

length-lengths : (row : List Text) → length (map length row) ≡ length row
length-lengths [] = refl
length-lengths (c ∷ row) = ap suc (length-lengths row)

length-zip_with : (xs ys : List ℕ) → length xs ≡ length ys → length (zip_with max xs ys) ≡ length xs
length-zip_with [] ys e = refl
length-zip_with (x ∷ xs) [] e = omega arith
length-zip_with (x ∷ xs) (y ∷ ys) e = ap suc (length-zip_with xs ys (omega arith))

Fits-zip_left :
    (row : List Text) (xs ys : List ℕ)
    → Fits row xs
    → length xs ≡ length ys
    → Fits row (zip_with max xs ys)
unfolding Fits
Fits-zip_left [] [] ys fits e = tt
Fits-zip_left [] (x ∷ xs) ys fits e = absurd fits
Fits-zip_left (c ∷ row) [] ys fits e = absurd fits
Fits-zip_left (c ∷ row) (x ∷ xs) [] fits e = absurd (omega arith)
Fits-zip_left (c ∷ row) (x ∷ xs) (y ∷ ys) fits e =
    ((let le = fits.0 in ground arith), Fits-zip_left row xs ys fits.1 (omega arith))

Fits-zip_right :
    (row : List Text) (xs ys : List ℕ)
    → Fits row ys
    → length xs ≡ length ys
    → Fits row (zip_with max xs ys)
unfolding Fits
Fits-zip_right [] [] ys fits e = tt
Fits-zip_right [] (x ∷ xs) [] fits e = absurd (omega arith)
Fits-zip_right [] (x ∷ xs) (y ∷ ys) fits e = absurd fits
Fits-zip_right (c ∷ row) xs [] fits e = absurd fits
Fits-zip_right (c ∷ row) [] (y ∷ ys) fits e = absurd (omega arith)
Fits-zip_right (c ∷ row) (x ∷ xs) (y ∷ ys) fits e =
    ((let le = fits.0 in ground arith), Fits-zip_right row xs ys fits.1 (omega arith))

weaken_all :
    {A : Type 0} {P Q : A → Type 0} → ((a : A) → P a → Q a) → (xs : List A) → All P xs → All Q xs
weaken_all f [] h = tt
weaken_all f (x ∷ xs) h = (f x h.0, weaken_all f xs h.1)

col_widths-Fits :
    (n : ℕ) (row : List Text) (rows : List (List Text))
    → All (λ r. length r ≡ n) (row ∷ rows)
    → (length (col_widths row rows) ≡ n) × All (λ r. Fits r (col_widths row rows)) (row ∷ rows)
unfolding col_widths
col_widths-Fits n row [] h = (length-lengths row ∙ h.0, (row-Fits row, tt))
col_widths-Fits n row (next ∷ rows) h =
    let (count, fits) = col_widths-Fits n next rows h.1 in
    let own = length-lengths row ∙ h.0 in
    let widths = col_widths next rows in
    let equal : length (map length row) ≡ length widths = own ∙ sym count in
    (
      length-zip_with (map length row) widths equal ∙ own,
      (
        Fits-zip_left row (map length row) widths (row-Fits row) equal,
        weaken_all {P = λ r. Fits r widths} {Q = λ r. Fits r (zip_with max (map length row) widths)}
            (λ r fit. Fits-zip_right r (map length row) widths fit equal) (next ∷ rows) fits,
      ),
    )

length-line :
    (widths : List ℕ) (row : List Text)
    → length widths ≡ 5
    → Fits row widths
    → length (format_row widths row) ≡ sum widths + 17
unfolding Fits
length-line [] row five fits = absurd (omega arith)
length-line (w ∷ widths) [] five fits = absurd fits
length-line (w ∷ widths) (c ∷ cells) five fits =
    let whole = length-format_row c cells w widths fits in omega arith

lines :
    (widths : List ℕ) (rows : List (List Text))
    → length widths ≡ 5
    → All (λ r. Fits r widths) rows
    → All (λ line. length line ≡ sum widths + 17) (map (format_row widths) rows)
lines widths [] five fits = tt
lines widths (row ∷ rows) five fits =
    (length-line widths row five fits.0, lines widths rows five fits.1)

-- Of a table whose rows have five cells, all lines have the same length: the widths of the columns,
-- and 17 characters for the bars, the blanks around them and the end of the line.
pub table-lines :
    (rows : List (List Text))
    → All (λ r. length r ≡ 5) rows
    → All (λ line. length line ≡ sum (col_widths headers rows) + 17) (table rows)
unfolding table
table-lines rows five =
    let widths = col_widths headers rows in
    let (count, fits) = col_widths-Fits 5 headers rows (refl, five) in
    (
      length-line widths headers count fits.0,
      (
        length-line widths (map (λ i. replicate i b'-') widths) count (dashes-Fits widths),
        lines widths rows count fits.1,
      ),
    )
