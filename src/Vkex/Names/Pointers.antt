-- ===== src/Vkex/Names/Pointers.antt =====
-- tools/vkex/vkexgenerator.py: the type that a pointer points to.
use teide.Base.{
  ◌≡◌, refl, sym, ◌∙◌, ap, ℕ, ◌-◌, true, false, [], ◌∷◌, ◌++◌, length, length-append, append_assoc,
  arith,
}
use teide.Base.Result.{ok}
use teide.Base.Strip.{is_space, strip, lstrip, rstrip}
use teide.Base.Text.{Text, text, text_eq_refl, starts_with}
use teide.Vkex.Names.{last, drop, take, drop_last, ends_with, without_const, remove_pointer}
use teide.Vkex.Names.Pieces.{last-append}

rstrip_trimmed : (c : ℕ) (s : Text) → is_space (last c s) ≡ false → rstrip (c ∷ s) ≡ c ∷ s
unfolding rstrip
rstrip_trimmed c [] h = rw h refl
rstrip_trimmed c (d ∷ s) h = rw (rstrip_trimmed d s h) refl

rstrip_blank :
    (c : ℕ) (s : Text) → is_space (last c s) ≡ false → rstrip (c ∷ (s ++ text " ")) ≡ c ∷ s
unfolding rstrip is_space
rstrip_blank c [] h = rw h refl
rstrip_blank c (d ∷ s) h = rw (rstrip_blank d s h) refl

strip_trimmed :
    (c : ℕ) (s : Text) → is_space c ≡ false → is_space (last c s) ≡ false → strip (c ∷ s) ≡ c ∷ s
unfolding strip
strip_trimmed c s h k = rw (rstrip_trimmed c s k) (rw (lstrip, h) refl)

take-append : (s p : Text) → take (length s) (s ++ p) ≡ s
take-append [] p = refl
take-append (c ∷ s) p = ap (λ l. c ∷ l) (take-append s p)

drop-append : (s p : Text) → drop (length s) (s ++ p) ≡ p
drop-append [] p = refl
drop-append (c ∷ s) p = drop-append s p

sub-length : (s p : Text) → length (s ++ p) - length p ≡ length s
sub-length s p = omega (arith, length-append s p)

drop_last-append : (s p : Text) → drop_last (length p) (s ++ p) ≡ s
drop_last-append s p = rw (sub-length s p) (take-append s p)

ends_with-append : (s p : Text) → ends_with (s ++ p) p ≡ true
ends_with-append s p =
    let whole = length-append s p in
    rw (sub-length s p, drop-append s p, text_eq_refl p) (ground arith)

-- The type in front of a star, without `const` and blanks.
star :
    (c : ℕ) (s : Text)
    → is_space c ≡ false
    → is_space (last c s) ≡ false
    → remove_pointer (c ∷ (s ++ text "*")) ≡ ok (without_const (c ∷ s))
unfolding remove_pointer is_space
star c s h k =
    let at_end = last-append c b'*' s [] in
    rw (remove_pointer, strip_trimmed c (s ++ text "*") h (rw at_end refl), at_end)
      (rw (drop_last-append (c ∷ s) (text "*"), strip_trimmed c s h k) refl)

const_before :
    (c : ℕ) (s : Text)
    → is_space c ≡ false
    → is_space (last c s) ≡ false
    → ends_with (text "const " ++ (c ∷ s)) (text "const") ≡ false
    → remove_pointer (text "const " ++ (c ∷ (s ++ text "*"))) ≡ ok (c ∷ s)
unfolding strip is_space starts_with without_const
const_before c s h k end =
    star b'c' (text "onst " ++ (c ∷ s)) refl k
    ∙ rw (without_const, end, rstrip_trimmed b' ' (c ∷ s) k, lstrip, h) refl

const_behind :
    (c : ℕ) (s : Text)
    → is_space c ≡ false
    → is_space (last c s) ≡ false
    → remove_pointer (c ∷ (s ++ text " const*")) ≡ ok (c ∷ s)
unfolding strip is_space without_const
const_behind c s h k =
    let at_end = last-append c b' ' s (text "const") in
    let ends : ends_with (c ∷ (s ++ text " const")) (text "const") ≡ true =
      ap (λ l. ends_with (c ∷ l) (text "const")) (sym (append_assoc s (text " ") (text "const")))
      ∙ ends_with-append (c ∷ (s ++ text " ")) (text "const") in
    let dropped : drop_last 5 (c ∷ (s ++ text " const")) ≡ c ∷ (s ++ text " ") =
      ap (λ l. drop_last 5 (c ∷ l)) (sym (append_assoc s (text " ") (text "const")))
      ∙ drop_last-append (c ∷ (s ++ text " ")) (text "const") in
    ap (λ l. remove_pointer (c ∷ l)) (sym (append_assoc s (text " const") (text "*")))
    ∙ star c (s ++ text " const") h (rw at_end refl)
    ∙ rw (without_const, ends, dropped, rstrip_blank c s k, lstrip, h) refl

-- For a type without blanks at its ends and without `const`, its pointer, the pointer to its constants,
-- and the latter with `const` behind the type all lead back to the type.
pub remove_pointer_lem :
    (c : ℕ) (s : Text)
    → is_space c ≡ false
    → is_space (last c s) ≡ false
    → starts_with (c ∷ s) (text "const") ≡ false
    → ends_with (c ∷ s) (text "const") ≡ false
    → ends_with (text "const " ++ (c ∷ s)) (text "const") ≡ false
    → (remove_pointer (c ∷ (s ++ text "*")) ≡ ok (c ∷ s))
      × (remove_pointer (text "const " ++ (c ∷ (s ++ text "*"))) ≡ ok (c ∷ s))
      × (remove_pointer (c ∷ (s ++ text " const*")) ≡ ok (c ∷ s))
unfolding without_const is_space starts_with
remove_pointer_lem c s h k first end end' = (
  star c s h k ∙ rw (without_const, end, first) refl,
  const_before c s h k end',
  const_behind c s h k,
)
