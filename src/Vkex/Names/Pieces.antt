-- ===== src/Vkex/Names/Pieces.antt =====
-- tools/vkex/vkexgenerator.py: the last character of joined pieces.
use teide.Base.{◌≡◌, refl, ℕ, [], ◌∷◌, ◌++◌}
use teide.Base.Text.{Text}
use teide.Vkex.Names.{last}

pub last-append : (c d : ℕ) (a b : Text) → last c (a ++ (d ∷ b)) ≡ last d b
last-append c d [] b = refl
last-append c d (e ∷ a) b = last-append e d a b
