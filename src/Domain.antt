-- ===== src/Domain.antt =====
-- The domain registry (internal/domain): the runtime configuration of each domain, by its code. Reading
-- the YAML files is left out: the loader gets what `yaml.safe_load` gave for each file, in the order of
-- the file names, or `none` for a file that it skips. `F` is the type of floats.
mod Examples
pub mod Laws
use analysis_srv.Prelude.{String, Bool, Option, none, some, List, [], ◌∷◌, if◌then◌else◌}
use analysis_srv.Prelude.Eq.{text_key}
use analysis_srv.Prelude.Dict.{Dict, get, set}
use analysis_srv.Prelude.Float.{Float}
use analysis_srv.Prelude.Text.{non_empty}

pub record DomainRuntimeConfig (F : Type 0) : Type 0 where
  pub domain_code : String
  pub display_name : String
  pub contract_domain_overlay : String
  pub ontology_path : String
  pub overlay_paths : List String
  pub brand_names : List String
  pub topic_seeds : List String
  pub stop_entities : List String
  pub min_relevance_score : F
  pub spam_regex : String

pub record DomainRegistry (F : Type 0) : Type 0 where
  pub domains : Dict String (DomainRuntimeConfig F)
  pub fallback_code : String

-- The parts of a YAML file that the loader reads, `none` for a missing one.
pub record DomainFile (F : Type 0) : Type 0 where
  pub domain_code : Option String
  pub display_name : Option String
  pub ontology_path : Option String
  pub ontology_overlays : List String
  pub brand_names : List String
  pub topic_seeds : List String
  pub stop_entities : List String
  pub domain_overlay : Option String
  pub min_relevance_score : Option F
  pub spam_regex : Option String

abbrev pub with_default : {A : Type 0} → A → Option A → A
with_default a none = a
with_default a (some b) = b

abbrev default_ontology_path : String
default_ontology_path = "config/ontology/vinfast_vn.yaml"

module _ {F : Type 0} ⦃fl : Float F⦄ where
  -- DomainRuntimeConfig(domain_code="_default")
  abbrev pub bare_default : DomainRuntimeConfig F
  bare_default = record {
    domain_code = "_default";
    display_name = "";
    contract_domain_overlay = "";
    ontology_path = default_ontology_path;
    overlay_paths = [];
    brand_names = [];
    topic_seeds = [];
    stop_entities = [];
    min_relevance_score = fl.lit 30 100;
    spam_regex = "";
  }

  unfoldable pub register : DomainRuntimeConfig F → DomainRegistry F → DomainRegistry F
  register cfg registry = record registry { domains = set cfg.domain_code cfg registry.domains }

  unfoldable pub lookup : String → DomainRegistry F → DomainRuntimeConfig F
  lookup domain_code registry = elim (get domain_code registry.domains) [
    | some cfg ↦ cfg
    | none ↦ elim (get registry.fallback_code registry.domains) [
      | some cfg ↦ cfg
      | none ↦ bare_default
    ]
  ]

  -- `none` where `domain_code is required` is raised.
  unfoldable pub parse : DomainFile F → Option (DomainRuntimeConfig F)
  parse file =
      let domain_code = with_default "" file.domain_code in
      if non_empty domain_code
      then some (record {
        domain_code = domain_code;
        display_name = with_default "" file.display_name;
        contract_domain_overlay = with_default "" file.domain_overlay;
        ontology_path = with_default default_ontology_path file.ontology_path;
        overlay_paths = file.ontology_overlays;
        brand_names = file.brand_names;
        topic_seeds = file.topic_seeds;
        stop_entities = file.stop_entities;
        min_relevance_score = with_default (fl.lit 30 100) file.min_relevance_score;
        spam_regex = with_default "" file.spam_regex;
      })
      else none

  unfoldable pub load_onto : DomainRegistry F → List (Option (DomainFile F)) → DomainRegistry F
  load_onto registry [] = registry
  load_onto registry (none ∷ files) = load_onto registry files
  load_onto registry (some file ∷ files) = elim (parse file) [
    | none ↦ load_onto registry files
    | some cfg ↦ load_onto (register cfg registry) files
  ]

  unfoldable pub load_from_dir : String → List (Option (DomainFile F)) → DomainRegistry F
  load_from_dir fallback_code files =
      load_onto (record { domains = []; fallback_code = fallback_code }) files
