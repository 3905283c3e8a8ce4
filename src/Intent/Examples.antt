-- ===== src/Intent/Examples.antt =====
-- A text with a word of a crisis and one of spam.
use analysis_srv.Prelude.{refl, String, List, [], ◌∷◌}
use analysis_srv.Prelude.Dict.{Dict}
use analysis_srv.Prelude.Int.{ℤ}
use analysis_srv.Prelude.Float.{scaled}
use analysis_srv.Prelude.Text.{non_empty}
use analysis_srv.Prelude.Text.Split.{contains}
use analysis_srv.Intent.{Intent, process}
use analysis_srv.Intent.Best.{Decides, process-Decides}

abbrev patterns : Dict Intent (List String)
patterns = (Intent.crisis, "scam" ∷ []) ∷ (Intent.spam, "loan" ∷ "sim" ∷ []) ∷ []

process-Decides_example :
    Decides contains "a loan scam" ℤ patterns (process contains patterns "a loan scam")
unfolding non_empty
process-Decides_example = process-Decides contains "a loan scam" ℤ patterns refl
