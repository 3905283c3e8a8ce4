-- ===== src/Publisher/Delivery.antt =====
-- What becomes of the documents between the buffer and the producer's queue.
use analysis_srv.Prelude.{
  String, ◌≡◌, refl, sym, ap, ◌∙◌, Bool, true, none, List, [], ◌∷◌, ◌++◌, ◌⊎◌, inl, inr, map,
  append_assoc, append-nil, flatten, flatten-append, All-append, All, length, leb, Bool-cases,
}
use analysis_srv.Prelude.Float.{Float}
use analysis_srv.Prelude.Result.{Result}
use analysis_srv.Publisher.{Pair, RunContext, BatchPayload, ContractPublishConfig, PublishOutput}
use analysis_srv.Publisher.Flush.{plan_of, IsPayload, IsBroken, Flushed, flush_batch-Flushed}
use analysis_srv.Publisher.Order.{Message}
use analysis_srv.Publisher.Buffer.{
  Publisher, Now, flush_batch, flush_buffer, flush, publish_one, publish_all, build_ctx_from_batch,
}

module _ {F S : Type 0} ⦃fl : Float F⦄
    (with_query_param : String → String → String → Result String String)
    (takes : Message F → S → Bool × S) (config : ContractPublishConfig) where
  -- The whole sequence of a flush of `batch` stands in `log`.
  abbrev pub Within : List (Message F) → List (Pair F) → Type 0
  Within log batch =
      (ctx : RunContext) × (layer3 : BatchPayload F) × IsPayload with_query_param ctx batch layer3
      × (before : List (Message F)) × (after : List (Message F)) × (log
          ≡ before ++ plan_of ctx [] none batch layer3 ++ after)

  -- A batch that left the buffer: `log` holds it whole, or it was dropped for the URL of a document.
  abbrev pub Settled : List (Message F) → List (Pair F) → Type 0
  Settled log batch = Within log batch ⊎ IsBroken with_query_param batch

  -- From `p` to `q` with the documents `inputs`: the producer's queue has grown, and each pair of the
  -- buffer and of the inputs is, in its order, in a batch that is settled by the growth, or still in the
  -- buffer.
  abbrev pub Progress : Publisher F S → Publisher F S → List (Pair F) → Type 0
  Progress p q inputs =
      (batches : List (List (Pair F))) × (more : List (Message F)) × (q.producer.enqueued
        ≡ p.producer.enqueued ++ more)
      × (flatten batches ++ q.buffer ≡ p.buffer ++ inputs)
      × All (Settled more) batches

  Settled-left :
      (log more : List (Message F)) (batches : List (List (Pair F)))
      → All (Settled log) batches
      → All (Settled (log ++ more)) batches
  Settled-left log more [] h = tt
  Settled-left log more (batch ∷ batches) (inr broken, hs) =
      (inr broken, Settled-left log more batches hs)
  Settled-left log more (batch ∷ batches) (inl (ctx, layer3, built, before, after, e), hs) = (
    inl (
      ctx,
      layer3,
      built,
      before,
      after ++ more,
      cc (append_assoc (before ++ plan_of ctx [] none batch layer3) after more),
    ),
    Settled-left log more batches hs,
  )

  Settled-right :
      (log more : List (Message F)) (batches : List (List (Pair F)))
      → All (Settled more) batches
      → All (Settled (log ++ more)) batches
  Settled-right log more [] h = tt
  Settled-right log more (batch ∷ batches) (inr broken, hs) =
      (inr broken, Settled-right log more batches hs)
  Settled-right log more (batch ∷ batches) (inl (ctx, layer3, built, before, after, e), hs) = (
    inl (
      ctx,
      layer3,
      built,
      log ++ before,
      after,
      cc (
        append_assoc log before (plan_of ctx [] none batch layer3),
        append_assoc log (before ++ plan_of ctx [] none batch layer3) after,
      ),
    ),
    Settled-right log more batches hs,
  )

  Progress-trans :
      (p q r : Publisher F S) (xs ys : List (Pair F))
      → Progress p q xs
      → Progress q r ys
      → Progress p r (xs ++ ys)
  Progress-trans p q r xs ys (bs, more, a, e, h) (cs, more', a', e', h') = (
    bs ++ cs,
    more ++ more',
    cc (append_assoc p.producer.enqueued more more'),
    rw flatten-append (
        cc (
          append_assoc (flatten bs) (flatten cs) r.buffer,
          append_assoc (flatten bs) q.buffer ys,
          append_assoc p.buffer xs ys,
        )),
    All-append (Settled (more ++ more')) bs cs (Settled-left more more' bs h)
        (Settled-right more more' cs h'),
  )

  Flushed-Progress :
      (ctx : RunContext) (p : Publisher F S) (out : PublishOutput) (q : Publisher F S)
      → Flushed with_query_param ctx [] none p (out, q)
      → Progress p q []
  unfolding flatten
  Flushed-Progress ctx p out q (inl (broken, t, emptied, a)) = (
    p.buffer ∷ [],
    [],
    a ∙ sym (append-nil p.producer.enqueued),
    rw emptied (append-nil (p.buffer ++ [])),
    (inr broken, tt),
  )
  Flushed-Progress ctx p out q (inr (layer3, built, (sent, rest, e, a, inl (t, emptied, whole)))) =
      let plan = plan_of ctx [] none p.buffer layer3 in
      (
        p.buffer ∷ [],
        sent,
        a,
        rw emptied (append-nil (p.buffer ++ [])),
        (
          inl (
            ctx,
            layer3,
            built,
            [],
            [],
            sym (append-nil sent) ∙ ap (◌++◌ sent) (sym whole) ∙ sym e ∙ sym (append-nil plan),
          ),
          tt,
        ),
      )
  Flushed-Progress ctx p out q (inr (layer3, built, (sent, rest, e, a, inr (t, kept, part)))) =
      ([], sent, a, kept ∙ sym (append-nil p.buffer), tt)

  flush_buffer-Progress :
      (now : Now) (p : Publisher F S) (xs : List (Pair F))
      → config.enabled ≡ true
      → Progress p (flush_buffer with_query_param takes config now none [] none p xs).1 []
  unfolding flush_buffer flatten
  flush_buffer-Progress now p [] on =
      ([], [], sym (append-nil p.producer.enqueued), sym (append-nil p.buffer), tt)
  flush_buffer-Progress now p (first ∷ rest) on =
      let ctx = build_ctx_from_batch with_query_param takes config now first p.buffer in
      let (out, q) = flush_batch with_query_param takes config ctx [] none p in
      rw on (
        Flushed-Progress ctx p out q
          (flush_batch-Flushed with_query_param takes config ctx [] none p))

  publish_one-Progress :
      (now : Now) (pair : Pair F) (p : Publisher F S)
      → config.enabled ≡ true
      → Progress p (publish_one with_query_param takes config now pair p) (pair ∷ [])
  unfolding publish_one flatten
  publish_one-Progress now pair p on =
      let q : Publisher F S = record p { buffer = p.buffer ++ pair ∷ [] } in
      let grown : Progress p q (pair ∷ []) =
        ([], [], sym (append-nil p.producer.enqueued), refl, tt) in
      simp on (elim (Bool-cases (leb config.batch_size (length q.buffer))) [
        | inl full ↦ rw full (
            Progress-trans p q (flush with_query_param takes config now none [] none q).1
              (pair ∷ []) [] grown (flush_buffer-Progress now q q.buffer on))
        | inr room ↦ rw room grown
      ])

  -- With publishing enabled, and however often the producer's `send` raises, no document that was handed
  -- over is reordered, and each is still in the buffer, or in a batch of which all three layers have been
  -- put into the producer's queue, the payload being that of the documents with an id and a text, or in
  -- a batch with a document whose URL raises, which was dropped.
  pub publish_all-Progress :
      (events : List (Now × Pair F)) (p : Publisher F S)
      → config.enabled ≡ true
      → Progress p (publish_all with_query_param takes config events p) (map (λ e. e.1) events)
  unfolding publish_all flatten
  publish_all-Progress [] p on =
      ([], [], sym (append-nil p.producer.enqueued), sym (append-nil p.buffer), tt)
  publish_all-Progress ((now, pair) ∷ rest) p on =
      let q = publish_one with_query_param takes config now pair p in
      Progress-trans p q (publish_all with_query_param takes config rest q) (pair ∷ [])
        (map (λ (e : Now × Pair F). e.1) rest) (publish_one-Progress now pair p on)
        (publish_all-Progress rest q on)
