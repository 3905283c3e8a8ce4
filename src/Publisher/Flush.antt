-- ===== src/Publisher/Flush.antt =====
-- What one flush does.
use analysis_srv.Prelude.{
  String, ◌≡◌, ◌≢◌, refl, Bool, true, false, Option, List, [], ◌++◌, ◌⊎◌, inl, inr, append-nil,
  length, any, filter,
}
use analysis_srv.Prelude.Float.{Float}
use analysis_srv.Prelude.Result.{Result, ok, err, Result-cases}
use analysis_srv.Publisher.{
  Pair, RunContext, BatchPayload, ContractPublishConfig, PublishOutput, InsightCard, InsightPayload,
  DigestBundle,
}
use analysis_srv.Publisher.Batch.{build_batch_completed_payload}
use analysis_srv.Publisher.Gates.{Builds, has_bad_url, has_id_and_text, build_batch-Builds}
use analysis_srv.Publisher.Insights.{build_insights_published_payloads}
use analysis_srv.Publisher.Digest.{build_report_digest_payload}
use analysis_srv.Publisher.Order.{Message, Producer, KafkaPublishError, publish_in_required_order}
use analysis_srv.Publisher.Ordering.{required, Sent, publish_in_required_order-Sent}
use analysis_srv.Publisher.Buffer.{Publisher, finish, finish_unexpected, flush_batch}

module _ {F : Type 0} ⦃fl : Float F⦄ where
  -- The three layers of a flush of `batch`, once its payload is built.
  abbrev pub plan_of :
      RunContext
      → List (InsightCard F)
      → Option (DigestBundle F)
      → List (Pair F)
      → BatchPayload F
      → List (Message F)
  plan_of ctx cards bundle batch layer3 =
      required layer3 (build_insights_published_payloads cards ctx)
        (build_report_digest_payload ctx (length batch) bundle)

module _ {F S : Type 0} where
  -- What a flush of `batch` has come to, once its payload is built.
  abbrev pub Sends :
      List (Message F) → List (Pair F) → Producer F S → PublishOutput × Publisher F S → Type 0
  Sends plan batch b r =
      (sent : List (Message F)) × (rest : List (Message F)) × (plan ≡ sent ++ rest)
      × (r.1.producer.enqueued ≡ b.enqueued ++ sent)
      × (((r.0.success ≡ true) × (r.1.buffer ≡ []) × (rest ≡ []))
          ⊎ ((r.0.success ≡ false) × (r.1.buffer ≡ batch) × (rest ≢ [])))

module _ {F : Type 0} ⦃fl : Float F⦄
    (with_query_param : String → String → String → Result String String) where
  -- `layer3` is the payload of `batch`: its documents are those of the pairs with an id and a text.
  abbrev pub IsPayload : RunContext → List (Pair F) → BatchPayload F → Type 0
  IsPayload ctx batch layer3 =
      (build_batch_completed_payload with_query_param batch ctx ≡ ok layer3)
      × Builds with_query_param batch (ok layer3)

  -- The URL of a document of the batch raises.
  abbrev pub IsBroken : List (Pair F) → Type 0
  IsBroken batch = any (has_bad_url with_query_param) (filter has_id_and_text batch) ≡ true

  -- What a flush may come to.
  abbrev pub Flushed :
      {S : Type 0}
      → RunContext
      → List (InsightCard F)
      → Option (DigestBundle F)
      → Publisher F S
      → PublishOutput × Publisher F S
      → Type 0
  Flushed ctx cards bundle p r =
      (IsBroken p.buffer
        × (r.0.success ≡ false)
        × (r.1.buffer ≡ [])
        × (r.1.producer.enqueued ≡ p.producer.enqueued))
      ⊎ ((layer3 : BatchPayload F) × IsPayload ctx p.buffer layer3
          × Sends (plan_of ctx cards bundle p.buffer layer3) p.buffer p.producer r)

module _ {F S : Type 0} ⦃fl : Float F⦄
    (with_query_param : String → String → String → Result String String)
    (takes : Message F → S → Bool × S) (config : ContractPublishConfig) where
  finish-Sends :
      (plan : List (Message F)) (batch : List (Pair F)) (layer3 : BatchPayload F)
      (cards : List (InsightPayload F)) (b : Producer F S) (r : Result KafkaPublishError (Unit {0}))
      (b' : Producer F S)
      → Sent plan b (r, b')
      → Sends plan batch b (finish with_query_param takes config batch layer3 cards (r, b'))
  unfolding finish
  finish-Sends plan batch layer3 cards b (ok u) b' (sent, rest, e, a, inl (q, re)) =
      (sent, rest, e, a, inl (refl, refl, re))
  finish-Sends plan batch layer3 cards b (ok u) b' (sent, rest, e, a, inr (x, q, ne)) = cc
  finish-Sends plan batch layer3 cards b (err x) b' (sent, rest, e, a, inl (q, re)) = cc
  finish-Sends plan batch layer3 cards b (err x) b' (sent, rest, e, a, inr (y, q, ne)) =
      (sent, rest, e, a, inr (refl, append-nil batch, ne))

  -- If the URL of a document with an id and a text raises, the flush fails before anything is sent, and
  -- the buffer is emptied all the same. Otherwise the payload has exactly the documents with an id and a
  -- text, and: a flush that reports success has emptied the buffer and has put all three layers into the
  -- producer's queue in the contract's order; one that fails has kept the buffer as it was, and has put
  -- there a part of the sequence that is not the whole.
  pub flush_batch-Flushed :
      (ctx : RunContext) (cards : List (InsightCard F)) (bundle : Option (DigestBundle F))
      (p : Publisher F S)
      → Flushed with_query_param ctx cards bundle p
          (flush_batch with_query_param takes config ctx cards bundle p)
  unfolding flush_batch finish_unexpected
  flush_batch-Flushed ctx cards bundle p =
      let payloads = build_insights_published_payloads cards ctx in
      let layer1 = build_report_digest_payload ctx (length p.buffer) bundle in
      let built = build_batch-Builds with_query_param p.buffer ctx in
      elim (Result-cases (build_batch_completed_payload with_query_param p.buffer ctx)) [
        | inr (message, x) ↦ rw (flush_batch, x) (inl (rw x at built, refl, refl, refl))
        | inl (layer3, x) ↦
            let (r, b) = publish_in_required_order takes layer3 payloads layer1 p.producer in
            rw (flush_batch, x)
              (inr (
                layer3,
                (refl, rw x at built),
                finish-Sends (plan_of ctx cards bundle p.buffer layer3) p.buffer layer3 payloads
                    p.producer r b
                    (publish_in_required_order-Sent takes layer3 payloads layer1 p.producer),
              ))
      ]
