-- ===== src/Publisher/Gates.antt =====
-- What the gates of the two payload builders let through.
use analysis_srv.Prelude.Result.{Result, ok, err, Result-cases}
use analysis_srv.Publisher.Source.{resolve_original_url, map_source}
use analysis_srv.Prelude.{
  ℕ, ◌+◌, String, ◌≡◌, ◌≤◌, refl, List, [], ◌∷◌, arith, All, length, count, Bool-cases, inl, inr,
  leb, Bool, true, false, ◌&&◌, ◌||◌, map, filter, any,
}
use analysis_srv.Prelude.Float.{Float}
use analysis_srv.Prelude.Text.{
  non_empty, len, take_chars, rstrip, len-append, len-rstrip, len-take_chars,
}
use analysis_srv.Publisher.{Pair, RunContext, InsightCard, InsightPayload, Document, BatchPayload}
use analysis_srv.Publisher.Helpers.{truncate_summary}
use analysis_srv.Publisher.Batch.{
  should_include, document_with, map_document, map_documents, build_batch_completed_payload,
}
use analysis_srv.Publisher.Insights.{is_publishable, build_insights_published_payloads}

module _ {F : Type 0} ⦃fl : Float F⦄ where
  abbrev pub IsIndexable : InsightPayload F → Type 0
  IsIndexable p =
      (p.should_index ≡ true) × (non_empty p.title ≡ true) × (non_empty p.summary ≡ true)

  -- Every published card has a title and a summary, is marked for the index, and keeps its place
  -- among the cards that pass.
  pub build_insights-IsIndexable :
      (cards : List (InsightCard F)) (ctx : RunContext)
      → All IsIndexable (build_insights_published_payloads cards ctx)
        × (length (build_insights_published_payloads cards ctx) ≡ count is_publishable cards)
  unfolding build_insights_published_payloads
  build_insights-IsIndexable [] ctx = (tt, refl)
  build_insights-IsIndexable (card ∷ cards) ctx =
      ground (arith, build_insights-IsIndexable cards ctx)

-- The document has an id and a text.
abbrev pub has_id_and_text : {F : Type 0} → Pair F → Bool
has_id_and_text p =
    non_empty p.msg.identity.doc_id
    && (non_empty p.msg.content.clean_text || non_empty p.msg.content.text)

or-true : (a b : Bool) → b ≡ true → (a || b) ≡ true
or-true a b h = ground arith

module _ {F : Type 0} ⦃fl : Float F⦄
    (with_query_param : String → String → String → Result String String) where
  -- The document's URL raises.
  unfoldable pub has_bad_url : Pair F → Bool
  has_bad_url p = elim (resolve_original_url with_query_param p.uap) [
    | ok url ↦ false
    | err message ↦ true
  ]

  abbrev pub ids_of : List (Pair F) → List String
  ids_of = map (λ p. p.msg.identity.doc_id)

  map_document-ok :
      (p : Pair F) (d : Document F)
      → map_document with_query_param p ≡ ok d
      → (d.uap_id ≡ p.msg.identity.doc_id) × (has_bad_url p ≡ false)
  unfolding map_document document_with map_source has_bad_url
  map_document-ok p d h = ground arith

  map_document-err :
      (p : Pair F) (message : String)
      → map_document with_query_param p ≡ err message
      → has_bad_url p ≡ true
  unfolding map_document map_source has_bad_url
  map_document-err p message h = ground arith

  map_documents-ids :
      (pairs : List (Pair F)) (ds : List (Document F))
      → map_documents with_query_param pairs ≡ ok ds
      → (map (λ d. d.uap_id) ds ≡ ids_of pairs) × (any has_bad_url pairs ≡ false)
  unfolding map_documents
  map_documents-ids [] ds h = (ground arith, refl)
  map_documents-ids (p ∷ pairs) ds h = elim (Result-cases (map_document with_query_param p)) [
    | inr (e, x) ↦ cc (rw (map_documents, x) at h)
    | inl (d, x) ↦ elim (Result-cases (map_documents with_query_param pairs)) [
      | inr (e, y) ↦ cc (rw (map_documents, x, y) at h)
      | inl (rest, y) ↦
          let same : ds ≡ d ∷ rest = cc (rw (map_documents, x, y) at h) in
          let (here, good) = map_document-ok p d x in
          let (later, all_good) = map_documents-ids pairs rest y in
          (rw same (cc (here, later)), rw good all_good)
    ]
  ]

  map_documents-err :
      (pairs : List (Pair F)) (message : String)
      → map_documents with_query_param pairs ≡ err message
      → any has_bad_url pairs ≡ true
  unfolding map_documents
  map_documents-err [] message h = cc
  map_documents-err (p ∷ pairs) message h = elim (Result-cases (map_document with_query_param p)) [
    | inr (e, x) ↦ rw (map_document-err p e x) refl
    | inl (d, x) ↦ elim (Result-cases (map_documents with_query_param pairs)) [
      | inl (rest, y) ↦ cc (rw (map_documents, x, y) at h)
      | inr (e, y) ↦ or-true (has_bad_url p) (any has_bad_url pairs) (map_documents-err pairs e y)
    ]
  ]

  -- What the build of a batch comes to: the documents of the payload are those of the pairs with an id
  -- and a text, one for each and in their order, and the URL of no such pair raises; or one does.
  abbrev pub Builds : List (Pair F) → Result String (BatchPayload F) → Type 0
  Builds pairs (ok payload) =
      (map (λ d. d.uap_id) payload.documents ≡ ids_of (filter has_id_and_text pairs))
      × (any has_bad_url (filter has_id_and_text pairs) ≡ false)
  Builds pairs (err message) = any has_bad_url (filter has_id_and_text pairs) ≡ true

  pub build_batch-Builds :
      (pairs : List (Pair F)) (ctx : RunContext)
      → Builds pairs (build_batch_completed_payload with_query_param pairs ctx)
  unfolding build_batch_completed_payload should_include
  build_batch-Builds pairs ctx =
      elim (Result-cases (map_documents with_query_param (filter has_id_and_text pairs))) [
        | inl (ds, x) ↦
            rw (build_batch_completed_payload, x)
              (map_documents-ids (filter has_id_and_text pairs) ds x)
        | inr (e, x) ↦
            rw (build_batch_completed_payload, x)
              (map_documents-err (filter has_id_and_text pairs) e x)
      ]

-- A fallback summary has at most one character more than the limit, the ellipsis.
pub len-truncate_summary :
    (max_chars : ℕ) (text : String) → len (truncate_summary max_chars text) ≤ max_chars + 1
unfolding truncate_summary
len-truncate_summary max_chars text = elim (Bool-cases (non_empty text)) [
  | inl e ↦ rw e (elim (Bool-cases (leb (len text) max_chars)) [
    | inl short ↦ rw short (ground arith)
    | inr long ↦ rw long (
        omega (
          arith,
          len-append (rstrip (take_chars max_chars text)) "…",
          len-rstrip (take_chars max_chars text),
          len-take_chars max_chars text,
        ))
  ])
  | inr e ↦ rw e (omega arith)
]
