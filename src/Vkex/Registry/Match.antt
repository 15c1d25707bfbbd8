-- ===== src/Vkex/Registry/Match.antt =====
-- tools/vkex/reg.py: whether an element is for an API and a profile.
pub mod Strip
mod Examples
use teide.Base.{Bool, true, false, not, List, [], ◌∷◌, Option, none, some, if◌then◌else◌}
use teide.Base.Result.{Result, ok, raised, ◌>>=◌}
use teide.Base.Strip.{split}
use teide.Base.Text.{Text, text, text_eq, contains}
use teide.Vkex.Exceptions.{Exception, user_warning}
use teide.Vkex.Xml.{Element, get}

unfoldable pub api_name_match : Option Text → Option Text → Bool
unfolding split
api_name_match none supported = false
api_name_match (some str) none = true
api_name_match (some str) (some supported) = contains (split b',' supported) str

-- An attribute of an element, against what is requested.
abbrev match_attribute : Option Text → Option Text → Result Exception Bool
match_attribute requested none = ok true
match_attribute requested (some []) = ok true
match_attribute none (some (c ∷ s)) = raised user_warning
match_attribute (some requested) (some (c ∷ s)) = ok (text_eq requested (c ∷ s))

unfoldable pub match_api_profile : Option Text → Option Text → Element → Result Exception Bool
match_api_profile api profile elem = match_attribute api (get elem (text "api")) >>= λ matched.
    if not matched then ok false else match_attribute profile (get elem (text "profile"))
