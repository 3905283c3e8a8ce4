-- ===== src/Consumer/Gate.antt =====
-- `_should_skip_insight` of the consumer, before an insight is stored. The record that it asks for a
-- domain code, NLPFact, and the input of the store, CreatePostInsightInput, have neither
-- `domain_type_code` nor `uap_metadata` nor `content`, so that `getattr` gives its default for each.
-- Regular expressions are a parameter; compiled ones are cached for the class.
pub mod Blind
mod Examples
use analysis_srv.Prelude.{String, Bool, true, false, Option, none, some, List, if◌then◌else◌}
use analysis_srv.Prelude.Eq.{text_key}
use analysis_srv.Prelude.Dict.{Dict, get, set}
use analysis_srv.Prelude.Float.{Float}
use analysis_srv.Prelude.Text.{non_empty}
use analysis_srv.Domain.{DomainRegistry, lookup}

-- `re.compile`, with `none` for `re.error`, and `search`.
pub record Regex (R : Type 0) : Type 0 where
  pub compile : String → Option R
  pub search : R → String → Bool

-- The fields of CreatePostInsightInput that concern the gate.
pub record InsightInput (F : Type 0) : Type 0 where
  pub content_text : Option String
  pub business_relevance_score : F

abbrev pub Cache : Type 0 → Type 0
Cache R = Dict String (Option R)

-- getattr(nlp_fact, "domain_type_code", "") and what comes after it; and getattr(pi_input, "content", "")
abbrev pub domain_code : String
domain_code = ""

abbrev pub searched_content : {F : Type 0} → InsightInput F → String
searched_content input = ""

module _ {R : Type 0} (regex : Regex R) where
  -- The compiled pattern, from the cache or not, and the cache after it.
  unfoldable pub compiled : String → Cache R → Option R × Cache R
  compiled spam_regex cache = elim (get spam_regex cache) [
    | some (some pattern) ↦ (some pattern, cache)
    | _ ↦ (regex.compile spam_regex, set spam_regex (regex.compile spam_regex) cache)
  ]

  abbrev pub matches : Option R → String → Bool
  matches none content = false
  matches (some pattern) content = regex.search pattern content

  -- The end, for scores that are not too low.
  unfoldable pub is_spam : String → String → Cache R → Bool × Cache R
  is_spam spam_regex content cache =
      if non_empty spam_regex
      then (matches (compiled spam_regex cache).0 content, (compiled spam_regex cache).1)
      else (false, cache)

  module _ {F : Type 0} ⦃fl : Float F⦄ where
    unfoldable pub should_skip_insight :
        DomainRegistry F → InsightInput F → Cache R → Bool × Cache R
    should_skip_insight registry input cache =
        let cfg = lookup domain_code registry in
        if fl.lt input.business_relevance_score cfg.min_relevance_score
        then (true, cache)
        else is_spam cfg.spam_regex (searched_content input) cache
