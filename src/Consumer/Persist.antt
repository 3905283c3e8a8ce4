-- ===== src/Consumer/Persist.antt =====
-- `_persist_and_publish` of the consumer: each analysed document goes through the gate into the insight
-- store, and to the contract publisher, which is flushed at the end. The conversion of the analysis into
-- the input of the store is part of the document here; the store takes an input or raises. The store
-- and the publisher are both configured.
pub mod Published
mod Examples
use analysis_srv.Prelude.{
  String, Bool, true, false, Option, none, some, List, [], ◌∷◌, ◌++◌, if◌then◌else◌,
}
use analysis_srv.Prelude.Result.{Result}
use analysis_srv.Prelude.Float.{Float}
use analysis_srv.Domain.{DomainRegistry}
use analysis_srv.Publisher.{Pair, ContractPublishConfig}
use analysis_srv.Publisher.Order.{Message}
use analysis_srv.Publisher.Buffer.{Now, Publisher, publish_one, flush}
use analysis_srv.Consumer.Gate.{Regex, InsightInput, Cache, should_skip_insight}

-- `analytics_result` of a fact: none, one that `to_post_insight_input` raises on, or its input.
pub data Analysed (F : Type 0) : Type 0 where
  no_result : Analysed F
  not_convertible : Analysed F
  convertible : InsightInput F → Analysed F

-- A fact, with the time at which the consumer comes to it.
pub record NlpFact (F : Type 0) : Type 0 where
  pub at : Now
  pub pair : Pair F
  pub analysed : Analysed F

pub record World (F S R : Type 0) : Type 0 where
  pub stored : List (InsightInput F)
  pub cache : Cache R
  pub publisher : Publisher F S

module _ {F S R : Type 0} ⦃fl : Float F⦄
    (with_query_param : String → String → String → Result String String)
    (takes : Message F → S → Bool × S) (config : ContractPublishConfig) (regex : Regex R)
    (registry : DomainRegistry F) (create_works : InsightInput F → Bool) where
  unfoldable pub publish : NlpFact F → World F S R → World F S R
  publish fact w = record w {
    publisher = publish_one with_query_param takes config fact.at fact.pair w.publisher;
  }

  unfoldable pub store : InsightInput F → World F S R → World F S R
  store input w = record w {
    stored = if create_works input then w.stored ++ input ∷ [] else w.stored;
  }

  -- With the gate's answer and the cache after it: a skipped insight is not published either.
  unfoldable pub store_and_publish :
      NlpFact F → InsightInput F → Bool × Cache R → World F S R → World F S R
  store_and_publish fact input gate w =
      let v : World F S R = record w { cache = gate.1 } in
      if gate.0 then v else publish fact (store input v)

  unfoldable pub persist_analysed : NlpFact F → Analysed F → World F S R → World F S R
  persist_analysed fact no_result w = publish fact w
  persist_analysed fact not_convertible w = publish fact w
  persist_analysed fact (convertible input) w =
      store_and_publish fact input (should_skip_insight regex registry input w.cache) w

  unfoldable pub persist_all : List (NlpFact F) → World F S R → World F S R
  persist_all [] w = w
  persist_all (fact ∷ facts) w = persist_all facts (persist_analysed fact fact.analysed w)

  -- With the time of the final flush.
  unfoldable pub persist_and_publish : Now → List (NlpFact F) → World F S R → World F S R
  persist_and_publish now facts w =
      let v = persist_all facts w in
      record v { publisher = (flush with_query_param takes config now none [] none v.publisher).1 }
