-- ===== src/Consumer/Gate/Examples.antt =====
-- An insight of a domain that wants a high relevance, with a pattern that finds a text in another.
use analysis_srv.Prelude.{String, ◌≡◌, Option, none, some, List, [], ◌∷◌}
use analysis_srv.Prelude.Eq.{text_key}
use analysis_srv.Prelude.Dict.{get}
use analysis_srv.Prelude.Int.{ℤ, pos}
use analysis_srv.Prelude.Float.{scaled}
use analysis_srv.Prelude.Text.Split.{contains}
use analysis_srv.Domain.{DomainFile, DomainRegistry, load_from_dir}
use analysis_srv.Domain.Laws.{load_from_dir-IsNamed}
use analysis_srv.Consumer.Gate.{Regex, InsightInput, should_skip_insight}
use analysis_srv.Consumer.Gate.Blind.{IsCoherent, fallback_of, judged, should_skip_insight-judged}

abbrev strict : DomainFile ℤ
strict = record {
  domain_code = some "strict";
  display_name = none;
  ontology_path = none;
  ontology_overlays = [];
  brand_names = [];
  topic_seeds = [];
  stop_entities = [];
  domain_overlay = none;
  min_relevance_score = some (pos 900_000);
  spam_regex = some "sale";
}

abbrev files : List (Option (DomainFile ℤ))
files = some strict ∷ []

abbrev loaded : DomainRegistry ℤ
loaded = load_from_dir "_default" files

abbrev by_part : Regex String
by_part = record { compile = some; search = contains }

abbrev for_sale : InsightInput ℤ
for_sale = record { content_text = some "sale!"; business_relevance_score = pos 500_000 }

should_skip_insight-judged_example :
    ((should_skip_insight by_part loaded for_sale []).0
      ≡ judged by_part (fallback_of by_part loaded) (pos 500_000) "")
    × IsCoherent by_part (should_skip_insight by_part loaded for_sale []).1
unfolding get
should_skip_insight-judged_example =
    should_skip_insight-judged by_part loaded for_sale [] (load_from_dir-IsNamed "_default" files)
      (λ text pattern e. cc)
