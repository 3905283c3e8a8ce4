-- ===== src/Domain/Examples.antt =====
-- A directory with one domain and one file without a code.
use analysis_srv.Prelude.{◌≡◌, String, Option, none, some, List, [], ◌∷◌}
use analysis_srv.Prelude.Int.{ℤ, pos}
use analysis_srv.Prelude.Float.{scaled}
use analysis_srv.Domain.{DomainFile, bare_default, with_default, lookup, load_from_dir}
use analysis_srv.Domain.Laws.{prefer, last_with, lookup-load_from_dir}

abbrev file : Option String → DomainFile ℤ
file domain_code = record {
  domain_code = domain_code;
  display_name = none;
  ontology_path = none;
  ontology_overlays = [];
  brand_names = "VinFast" ∷ [];
  topic_seeds = [];
  stop_entities = [];
  domain_overlay = some "domain-vinfast-vn";
  min_relevance_score = some (pos 500_000);
  spam_regex = none;
}

abbrev files : List (Option (DomainFile ℤ))
files = some (file (some "vinfast")) ∷ some (file none) ∷ none ∷ []

lookup-load_from_dir_example :
    lookup "vinfast" (load_from_dir "_default" files)
    ≡ with_default bare_default (prefer (last_with "vinfast" files) (last_with "_default" files))
lookup-load_from_dir_example = lookup-load_from_dir "_default" "vinfast" files
