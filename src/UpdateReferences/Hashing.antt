-- ===== src/UpdateReferences/Hashing.antt =====
-- tools/update_references.py: reading in pieces does not change the hash.
use mathlib.Core.List.{foldl, flatten}
use Prim.Native.Nat.{zero, suc}
use teide.Base.{◌≡◌, refl, ◌∙◌, ap, ℕ, ◌<◌, List, [], ◌∷◌, ◌++◌, length, length-append, arith}
use teide.Base.Text.{Text}
use teide.UpdateReferences.{Hash, IsIncremental, read, hash_loop, hash_file}

read-append : (size : ℕ) (bytes : Text) → (read size bytes).0 ++ (read size bytes).1 ≡ bytes
unfolding read
read-append zero bytes = refl
read-append (suc size) [] = refl
read-append (suc size) (b ∷ bytes) = ap (λ l. b ∷ l) (read-append size bytes)

module _ (h : Hash) (size : ℕ) where
  -- With enough fuel, the loop makes one update for each piece, and the pieces make up the file.
  hash_loop_pieces :
      (fuel : ℕ) (state : h.State) (bytes : Text)
      → length bytes < fuel
      → (chunks : List Text) × (hash_loop h (suc size) fuel state bytes
          ≡ foldl h.update state chunks)
        × (flatten chunks ≡ bytes)
  unfolding hash_loop flatten
  hash_loop_pieces zero state bytes less = elim less [ ]
  hash_loop_pieces (suc fuel) state [] less = ([], refl, refl)
  hash_loop_pieces (suc fuel) state (b ∷ bytes) less =
      let (front, rest) = read size bytes in
      let whole = read-append size bytes in
      let (chunks, e, f) =
        hash_loop_pieces fuel (h.update state (b ∷ front)) rest
          (let lengths = ap length whole in omega (arith, length-append front rest)) in
      ((b ∷ front) ∷ chunks, e, ap (λ l. b ∷ (front ++ l)) f ∙ ap (λ l. b ∷ l) whole)

-- Whatever the size of the buffer, the hash of a file is that of one update with all of its bytes.
pub hash_file_lem :
    (h : Hash) (size : ℕ) (bytes : Text)
    → IsIncremental h
    → hash_file h (suc size) bytes ≡ h.digest (h.update h.new bytes)
unfolding hash_file
hash_file_lem h size bytes incremental =
    let (chunks, e, f) = hash_loop_pieces h size (suc (length bytes)) h.new bytes (omega arith) in
    ap h.digest e ∙ incremental chunks ∙ ap (λ b. h.digest (h.update h.new b)) f
