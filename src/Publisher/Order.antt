-- ===== src/Publisher/Order.antt =====
-- The publish order of the contract (publish_order.py): batch, insights, digest, and a stop at the
-- first failure. `KafkaProducer.send` of pkg/kafka is a parameter: `takes` says whether it returns, having
-- put the message into the client's queue, or raises. `enqueued` is what was put there, in this order. The
-- code does not wait for the broker's answer, so what becomes of a queued message is not seen here.
use analysis_srv.Prelude.{String, Bool, Option, none, some, List, [], ◌∷◌, ◌++◌, if◌then◌else◌}
use analysis_srv.Prelude.Result.{Result, ok, err}
use analysis_srv.Prelude.Text.{non_empty}
use analysis_srv.Publisher.{BatchPayload, InsightPayload, DigestPayload}

pub data Topic : Type 0 where
  batch_completed insights_published report_digest : Topic

-- A payload with its topic.
pub data Payload (F : Type 0) : Type 0 where
  batch : BatchPayload F → Payload F
  insight : InsightPayload F → Payload F
  digest : DigestPayload F → Payload F

unfoldable pub topic_of : {F : Type 0} → Payload F → Topic
topic_of (batch p) = batch_completed
topic_of (insight p) = insights_published
topic_of (digest p) = report_digest

pub record Message (F : Type 0) : Type 0 where
  pub key : Option String
  pub payload : Payload F

pub record Producer (F S : Type 0) : Type 0 where
  pub enqueued : List (Message F)
  pub state : S

-- KafkaPublishError, with the topic that it names.
pub data KafkaPublishError : Type 0 where
  failed_on : Topic → KafkaPublishError

-- A call on the producer that raises or returns nothing.
abbrev pub Publishes : Type 0 → Type 0 → Type 0
Publishes F S = Producer F S → Result KafkaPublishError (Unit {0}) × Producer F S

module _ {F S : Type 0} where
  abbrev pub continue :
      Result KafkaPublishError (Unit {0})
      → Publishes F S
      → Producer F S
      → Result KafkaPublishError (Unit {0}) × Producer F S
  continue (ok a) f b = f b
  continue (err e) f b = (err e, b)

  infixl 5 ◌>>◌
  abbrev pub ◌>>◌ : Publishes F S → Publishes F S → Publishes F S
  ◌>>◌ m k b = let (r, b') = m b in continue r k b'

-- `key.encode() if key else None`
unfoldable pub key_of : String → Option String
unfolding non_empty
key_of key = if non_empty key then some key else none

abbrev pub message_of : {F : Type 0} → String → Payload F → Message F
message_of key payload = record { key = key_of key; payload = payload }

module _ {F S : Type 0} (takes : Message F → S → Bool × S) where
  unfoldable pub send : String → Payload F → Publishes F S
  unfolding key_of topic_of
  send key payload b =
      let (taken, s) = takes (message_of key payload) b.state in
      if taken
      then (ok tt, record { enqueued = b.enqueued ++ message_of key payload ∷ []; state = s })
      else (err (failed_on (topic_of payload)), record b { state = s })

  unfoldable pub send_cards : String → List (InsightPayload F) → Publishes F S
  unfolding send
  send_cards run_id [] b = (ok tt, b)
  send_cards run_id (card ∷ cards) b = (do send run_id (insight card); send_cards run_id cards) b

  unfoldable pub publish_in_required_order :
      BatchPayload F → List (InsightPayload F) → DigestPayload F → Publishes F S
  unfolding send send_cards
  publish_in_required_order layer3 cards layer1 = do
    send layer3.project_id (batch layer3)
    send_cards layer1.run_id cards
    send layer1.run_id (digest layer1)
