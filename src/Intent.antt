-- ===== src/Intent.antt =====
-- internal/intent_classification: the intent of a text. The patterns' search is a parameter. `F` is the
-- type of floats.
pub mod Best
mod Examples
use analysis_srv.Prelude.{
  ℕ, String, Bool, true, false, Option, none, some, List, [], ◌∷◌, filter, length, ltb,
  if◌then◌else◌,
}
use analysis_srv.Prelude.Dict.{Dict}
use analysis_srv.Prelude.Float.{Float, min_f}
use analysis_srv.Prelude.Text.{non_empty}

pub data Intent : Type 0 where
  crisis seeding spam complaint lead support discussion : Intent

unfoldable pub priority : Intent → ℕ
priority Intent.crisis = 10
priority Intent.seeding = 9
priority Intent.spam = 9
priority Intent.complaint = 7
priority Intent.lead = 5
priority Intent.support = 4
priority Intent.discussion = 1

pub record Output (F : Type 0) : Type 0 where
  pub intent : Intent
  pub confidence : F
  pub should_skip : Bool
  pub matched_patterns : List String

-- best_intent in (Intent.SPAM, Intent.SEEDING)
abbrev pub is_skipped : Intent → Bool
is_skipped Intent.crisis = false
is_skipped Intent.seeding = true
is_skipped Intent.spam = true
is_skipped Intent.complaint = false
is_skipped Intent.lead = false
is_skipped Intent.support = false
is_skipped Intent.discussion = false

-- With `search pattern text` for `pattern.search(text)`.
module _ (search : String → String → Bool) where
  -- The intents with a pattern that the text has, each with these patterns.
  unfoldable pub matches_of : String → Dict Intent (List String) → Dict Intent (List String)
  matches_of text [] = []
  matches_of text ((intent, patterns) ∷ rest) = elim (filter (λ p. search p text) patterns) [
    | [] ↦ matches_of text rest
    | p ∷ ps ↦ (intent, p ∷ ps) ∷ matches_of text rest
  ]

-- max(matches.keys(), key=lambda i: i.priority), with its patterns: the first of the highest ones.
unfoldable pub best_of : Intent × List String → Dict Intent (List String) → Intent × List String
best_of best [] = best
best_of best (entry ∷ rest) =
    best_of (if ltb (priority best.0) (priority entry.0) then entry else best) rest

module _ {F : Type 0} ⦃fl : Float F⦄ where
  abbrev pub discussion_output : Output F
  discussion_output = record {
    intent = Intent.discussion;
    confidence = fl.lit 1 1;
    should_skip = false;
    matched_patterns = [];
  }

  unfoldable pub output_of : Intent × List String → Output F
  output_of best = record {
    intent = best.0;
    confidence =
        min_f (fl.add (fl.lit 5 10) (fl.mul (fl.lit (length best.1) 1) (fl.lit 1 10))) (fl.lit 1 1);
    should_skip = is_skipped best.0;
    matched_patterns = best.1;
  }

  -- The end, with what matched.
  unfoldable pub classified : Dict Intent (List String) → Output F
  classified [] = discussion_output
  classified (entry ∷ rest) = output_of (best_of entry rest)

  unfoldable pub process : (String → String → Bool) → Dict Intent (List String) → String → Output F
  process search patterns text =
      if non_empty text then classified (matches_of search text patterns) else discussion_output
