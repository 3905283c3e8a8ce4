-- ===== src/Spam/Examples.antt =====
-- A batch of three mentions, and a burst of three within an hour.
use analysis_srv.Prelude.{ℕ, ◌≡◌, none, List, [], ◌∷◌, leb}
use analysis_srv.Prelude.Int.{ℤ, pos}
use analysis_srv.Prelude.Float.{scaled}
use analysis_srv.Prelude.Sort.{sort_by}
use analysis_srv.Prelude.Text.Split.{words}
use analysis_srv.Model.Mention.{MentionRecord}
use analysis_srv.Model.Samples.{sample_mention}
use analysis_srv.Spam.{Patterns, SpamConfig}
use analysis_srv.Spam.Burst.{best_burst}
use analysis_srv.Spam.Burst.Window.{counted_from, best_burst-counted}

-- The words of a text, and no replacement.
abbrev patterns : Patterns
patterns = record { word_tokens = words; sub = λ pattern replacement text. text }

abbrev config : SpamConfig ℤ
config = record {
  mention_threshold = pos 650_000;
  author_threshold = pos 650_000;
  burst_window_minutes = 60;
  quality_weight_floor = pos 150_000;
  mention_discount_strength = pos 650_000;
  author_discount_strength = pos 450_000;
}

abbrev batch : List (MentionRecord ℤ)
batch =
    sample_mention "m1" none "rt buy now"
    ∷ sample_mention "m2" none "rt buy buy buy"
    ∷ sample_mention "m3" none "a fine car"
    ∷ []

abbrev posted : List ℕ
posted = 70 ∷ 10 ∷ 500 ∷ 30 ∷ []

best_burst-counted_example :
    best_burst 60 (sort_by leb posted) ≡ counted_from 60 1 [] (sort_by leb posted)
best_burst-counted_example = best_burst-counted 60 posted
