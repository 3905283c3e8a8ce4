-- ===== src/Publisher/Ordering.antt =====
-- What is put into the producer's queue, and in which order.
use analysis_srv.Prelude.{
  String, ◌≡◌, ◌≢◌, refl, sym, Bool, List, [], ◌∷◌, ◌++◌, ◌⊎◌, inl, inr, map, append_assoc,
  append-nil, arith, Bool-cases,
}
use analysis_srv.Prelude.Result.{Result, ok, err}
use analysis_srv.Publisher.{BatchPayload, InsightPayload, DigestPayload}
use analysis_srv.Publisher.Order.{
  Payload, batch, insight, digest, Message, Producer, KafkaPublishError, Publishes, continue, ◌>>◌,
  message_of, topic_of, failed_on, send, send_cards, publish_in_required_order,
}

-- The contract's sequence: the batch, the cards in their order, and the digest last.
abbrev pub required :
    {F : Type 0} → BatchPayload F → List (InsightPayload F) → DigestPayload F → List (Message F)
required layer3 cards layer1 =
    message_of layer3.project_id (batch layer3)
      ∷ map (λ c. message_of layer1.run_id (insight c)) cards
    ++ message_of layer1.run_id (digest layer1) ∷ []

append-ne-nil : {F : Type 0} (xs ys : List (Message F)) → xs ≢ [] → xs ++ ys ≢ []
append-ne-nil [] ys ne e = ne refl
append-ne-nil (x ∷ xs) ys ne e = cc

module _ {F S : Type 0} where
  -- `r` is what a call that has `plan` to send did: it sent a prefix, all of it if it returned, and
  -- not all of it if it raised.
  abbrev pub Sent :
      List (Message F) → Producer F S → Result KafkaPublishError (Unit {0}) × Producer F S → Type 0
  Sent plan b r =
      (sent : List (Message F)) × (rest : List (Message F)) × (plan ≡ sent ++ rest)
      × (r.1.enqueued ≡ b.enqueued ++ sent)
      × (((r.0 ≡ ok tt) × (rest ≡ [])) ⊎ ((e : KafkaPublishError) × (r.0 ≡ err e) × (rest ≢ [])))

  Sent-continue :
      (plan more : List (Message F)) (b : Producer F S) (r : Result KafkaPublishError (Unit {0}))
      (b' : Producer F S) (k : Publishes F S)
      → Sent plan b (r, b')
      → ((c : Producer F S) → Sent more c (k c))
      → Sent (plan ++ more) b (continue r k b')
  Sent-continue plan more b (ok u) b' k (sent, rest, e, a, inr (x, q, ne)) hk = cc
  Sent-continue plan more b (ok u) b' k (sent, rest, e, a, inl (q, re)) hk =
      let (sent', rest', e', a', end) = hk b' in
      (
        sent ++ sent',
        rest',
        cc (append-nil sent, append_assoc sent sent' rest'),
        cc (append_assoc b.enqueued sent sent'),
        end,
      )
  Sent-continue plan more b (err x) b' k (sent, rest, e, a, inl (q, re)) hk = cc
  Sent-continue plan more b (err x) b' k (sent, rest, e, a, inr (y, q, ne)) hk = (
    sent,
    rest ++ more,
    cc (append_assoc sent rest more),
    a,
    inr (x, refl, append-ne-nil rest more ne),
  )

module _ {F S : Type 0} (takes : Message F → S → Bool × S) where
  send-Sent :
      (key : String) (payload : Payload F) (b : Producer F S)
      → Sent (message_of key payload ∷ []) b (send takes key payload b)
  unfolding send
  send-Sent key payload b =
      let (taken, s) = takes (message_of key payload) b.state in
      elim (Bool-cases taken) [
        | inl yes' ↦ (message_of key payload ∷ [], [], refl, ground arith, ground arith)
        | inr no' ↦ (
          [],
          message_of key payload ∷ [],
          refl,
          ground (arith, append-nil b.enqueued),
          inr (failed_on (topic_of payload), ground arith, λ e. cc),
        )
      ]

  send_cards-Sent :
      (run_id : String) (cards : List (InsightPayload F)) (b : Producer F S)
      → Sent (map (λ c. message_of run_id (insight c)) cards) b (send_cards takes run_id cards b)
  unfolding send_cards
  send_cards-Sent run_id [] b = ([], [], refl, sym (append-nil b.enqueued), inl (refl, refl))
  send_cards-Sent run_id (card ∷ cards) b =
      let (r, b') = send takes run_id (insight card) b in
      Sent-continue (message_of run_id (insight card) ∷ [])
        (map (λ c. message_of run_id (insight c)) cards) b r b' (send_cards takes run_id cards)
        (send-Sent run_id (insight card) b) (send_cards-Sent run_id cards)

  -- Whatever message the producer's `send` raises on, a prefix of the contract's sequence has been put
  -- into its queue, so the digest only after the batch and every card; the whole sequence has been put
  -- there exactly if no error is raised.
  pub publish_in_required_order-Sent :
      (layer3 : BatchPayload F) (cards : List (InsightPayload F)) (layer1 : DigestPayload F)
      (b : Producer F S)
      → Sent
          (required layer3 cards layer1)
          b
          (publish_in_required_order takes layer3 cards layer1 b)
  unfolding publish_in_required_order
  publish_in_required_order-Sent layer3 cards layer1 b =
      let first = message_of layer3.project_id (batch layer3) ∷ [] in
      let middle = map (λ (c : InsightPayload F). message_of layer1.run_id (insight c)) cards in
      let last = message_of layer1.run_id (digest layer1) ∷ [] in
      let (r, c) = send takes layer3.project_id (batch layer3) b in
      Sent-continue first (middle ++ last) b r c
        (send_cards takes layer1.run_id cards >> send takes layer1.run_id (digest layer1))
        (send-Sent layer3.project_id (batch layer3) b)
        λ d.
          let (q, d') = send_cards takes layer1.run_id cards d in
          Sent-continue middle last d q d' (send takes layer1.run_id (digest layer1))
            (send_cards-Sent layer1.run_id cards d) (send-Sent layer1.run_id (digest layer1))
