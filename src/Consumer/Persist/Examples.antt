-- ===== src/Consumer/Persist/Examples.antt =====
-- Three facts: one without a result, one whose insight passes, and one below the bound.
use analysis_srv.Prelude.{
  ℕ, zero, suc, String, ◌≡◌, Bool, true, false, Option, none, some, List, [], ◌∷◌, ◌++◌,
}
use analysis_srv.Prelude.Eq.{text_key}
use analysis_srv.Prelude.Dict.{get}
use analysis_srv.Prelude.Result.{Result, ok}
use analysis_srv.Prelude.Int.{ℤ, pos}
use analysis_srv.Prelude.Float.{scaled}
use analysis_srv.Prelude.Text.Split.{contains}
use analysis_srv.Model.Samples.{sample_record, sample_message}
use analysis_srv.Domain.{DomainFile, DomainRegistry, load_from_dir}
use analysis_srv.Domain.Laws.{load_from_dir-IsNamed}
use analysis_srv.Publisher.{ContractPublishConfig}
use analysis_srv.Publisher.Order.{Message}
use analysis_srv.Publisher.Buffer.{Now, publish_all, flush}
use analysis_srv.Consumer.Gate.{Regex, InsightInput}
use analysis_srv.Consumer.Persist.{
  Analysed, no_result, convertible, NlpFact, World, persist_and_publish,
}
use analysis_srv.Consumer.Persist.Published.{kept, stored_of, persist_and_publish_lem}

abbrev takes : Message ℤ → ℕ → Bool × ℕ
takes m zero = (false, 0)
takes m (suc n) = (true, n)

abbrev with_query_param : String → String → String → Result String String
with_query_param url name value = ok url

abbrev config : ContractPublishConfig
config = record { batch_size = 2; enabled = true; domain_overlay = "" }

abbrev by_part : Regex String
by_part = record { compile = some; search = contains }

abbrev no_files : List (Option (DomainFile ℤ))
no_files = []

abbrev registry : DomainRegistry ℤ
registry = load_from_dir "_default" no_files

abbrev works : InsightInput ℤ → Bool
works input = true

abbrev now : Now
now = record { run_id = "r"; iso = "2026-01-02T00:00:00Z" }

abbrev fact : String → Analysed ℤ → NlpFact ℤ
fact doc_id analysed = record {
  at = now;
  pair = record { uap = sample_record doc_id "post"; msg = sample_message doc_id };
  analysed = analysed;
}

abbrev scored : ℕ → Analysed ℤ
scored n = convertible (record { content_text = some "text"; business_relevance_score = pos n })

abbrev facts : List (NlpFact ℤ)
facts = fact "a" no_result ∷ fact "b" (scored 800_000) ∷ fact "c" (scored 100_000) ∷ []

abbrev world : World ℤ ℕ String
world = record {
  stored = [];
  cache = [];
  publisher = record { buffer = []; producer = record { enqueued = []; state = 9 } };
}

persist_and_publish_lem_example :
    ((persist_and_publish with_query_param takes config by_part registry works now facts
        world).publisher
      ≡ (flush with_query_param takes config now none [] none (
          publish_all with_query_param takes config
            (kept with_query_param takes config by_part registry works facts)
            world.publisher)).1)
    × ((persist_and_publish with_query_param takes config by_part registry works now facts
          world).stored
        ≡ [] ++ stored_of with_query_param takes config by_part registry works facts)
unfolding get
persist_and_publish_lem_example =
    persist_and_publish_lem with_query_param takes config by_part registry works now facts world
      (load_from_dir-IsNamed "_default" no_files) (λ text pattern e. cc)
