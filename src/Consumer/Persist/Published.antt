-- ===== src/Consumer/Persist/Published.antt =====
-- What `_persist_and_publish` stores and publishes: the facts that the gate lets pass.
use analysis_srv.Prelude.{
  ◌≡◌, refl, ap, ◌∙◌, String, Bool, true, false, not, ◌&&◌, none, List, [], ◌∷◌, ◌++◌, arith,
  filter, map, Bool-cases, inl, inr, append-nil, append_assoc, sym, if◌then◌else◌,
}
use analysis_srv.Prelude.Result.{Result}
use analysis_srv.Prelude.Float.{Float}
use analysis_srv.Domain.{DomainRegistry}
use analysis_srv.Domain.Laws.{IsNamed}
use analysis_srv.Publisher.{Pair, ContractPublishConfig}
use analysis_srv.Publisher.Order.{Message}
use analysis_srv.Publisher.Buffer.{Now, Publisher, publish_one, publish_all, flush}
use analysis_srv.Consumer.Gate.{Regex, InsightInput, Cache, should_skip_insight}
use analysis_srv.Consumer.Gate.Blind.{IsCoherent, fallback_of, judged, should_skip_insight-judged}
use analysis_srv.Consumer.Persist.{
  Analysed, no_result, not_convertible, convertible, NlpFact, World, publish, store,
  store_and_publish, persist_analysed, persist_all, persist_and_publish,
}

module _ {F S R : Type 0} ⦃fl : Float F⦄
    (with_query_param : String → String → String → Result String String)
    (takes : Message F → S → Bool × S) (config : ContractPublishConfig) (regex : Regex R)
    (registry : DomainRegistry F) (create_works : InsightInput F → Bool) where
  abbrev passes : Analysed F → Bool
  passes no_result = true
  passes not_convertible = true
  passes (convertible input) =
      not (judged regex (fallback_of regex registry) input.business_relevance_score "")

  -- The events for the publisher: the facts that the fallback domain does not reject, each at its time.
  abbrev pub kept : List (NlpFact F) → List (Now × Pair F)
  kept facts = map (λ f. (f.at, f.pair)) (filter (λ f. passes f.analysed) facts)

  abbrev inputs_of : Analysed F → List (InsightInput F)
  inputs_of no_result = []
  inputs_of not_convertible = []
  inputs_of (convertible input) =
      if not (judged regex (fallback_of regex registry) input.business_relevance_score "")
        && create_works input
      then input ∷ []
      else []

  -- The inputs that pass and that the store takes.
  abbrev pub stored_of : List (NlpFact F) → List (InsightInput F)
  stored_of [] = []
  stored_of (f ∷ facts) = inputs_of f.analysed ++ stored_of facts

  abbrev Persists : List (Now × Pair F) → List (InsightInput F) → World F S R → World F S R → Type 0
  Persists events inputs w v =
      (v.publisher ≡ publish_all with_query_param takes config events w.publisher)
      × (v.stored ≡ w.stored ++ inputs)
      × IsCoherent regex v.cache

  store-lem :
      (input : InsightInput F) (w : World F S R)
      → (store with_query_param takes config regex registry create_works input w).stored
        ≡ w.stored ++ (if create_works input then input ∷ [] else [])
  unfolding store
  store-lem input w = elim (Bool-cases (create_works input)) [
    | inl e ↦ simp (store, e)
    | inr e ↦ simp (store, e) (sym (append-nil w.stored))
  ]

  store_and_publish-Persists :
      (fact : NlpFact F) (input : InsightInput F) (gate : Bool × Cache R) (w : World F S R)
      (skip : Bool)
      → gate.0 ≡ skip
      → IsCoherent regex gate.1
      → Persists
          (if not skip then (fact.at, fact.pair) ∷ [] else [])
          (if not skip && create_works input then input ∷ [] else [])
          w
          (store_and_publish with_query_param takes config regex registry create_works fact input
            gate w)
  unfolding store_and_publish publish publish_all store
  store_and_publish-Persists fact input gate w true e h =
      rw (store_and_publish, e) (refl, sym (append-nil w.stored), h)
  store_and_publish-Persists fact input gate w false e h =
      rw (store_and_publish, e) (refl, store-lem input (record w { cache = gate.1 }), h)

  persist_analysed-Persists :
      (fact : NlpFact F) (analysed : Analysed F) (w : World F S R)
      → IsNamed registry
      → IsCoherent regex w.cache
      → Persists
          (if passes analysed then (fact.at, fact.pair) ∷ [] else [])
          (inputs_of analysed)
          w
          (persist_analysed with_query_param takes config regex registry create_works fact analysed
            w)
  unfolding persist_analysed publish publish_all
  persist_analysed-Persists fact no_result w named h = (refl, sym (append-nil w.stored), h)
  persist_analysed-Persists fact not_convertible w named h = (refl, sym (append-nil w.stored), h)
  persist_analysed-Persists fact (convertible input) w named h =
      let (same, coherent) = should_skip_insight-judged regex registry input w.cache named h in
      store_and_publish-Persists fact input (should_skip_insight regex registry input w.cache) w
        (judged regex (fallback_of regex registry) input.business_relevance_score "") same coherent

  publish_all-append :
      (xs ys : List (Now × Pair F)) (p : Publisher F S)
      → publish_all with_query_param takes config (xs ++ ys) p
        ≡ publish_all with_query_param takes config ys
            (publish_all with_query_param takes config xs p)
  unfolding publish_all
  publish_all-append [] ys p = refl
  publish_all-append ((now, pair) ∷ xs) ys p =
      publish_all-append xs ys (publish_one with_query_param takes config now pair p)

  kept-cons :
      (f : NlpFact F) (facts : List (NlpFact F))
      → kept (f ∷ facts) ≡ (if passes f.analysed then (f.at, f.pair) ∷ [] else []) ++ kept facts
  kept-cons f facts = ground arith

  persist_all-Persists :
      (facts : List (NlpFact F)) (w : World F S R)
      → IsNamed registry
      → IsCoherent regex w.cache
      → Persists
          (kept facts)
          (stored_of facts)
          w
          (persist_all with_query_param takes config regex registry create_works facts w)
  unfolding persist_all publish_all
  persist_all-Persists [] w named h = (refl, sym (append-nil w.stored), h)
  persist_all-Persists (f ∷ facts) w named h =
      let first = if passes f.analysed then (f.at, f.pair) ∷ [] else [] in
      let v =
        persist_analysed with_query_param takes config regex registry create_works f f.analysed w in
      let (published, stored, coherent) = persist_analysed-Persists f f.analysed w named h in
      let (published', stored', coherent') = persist_all-Persists facts v named coherent in
      (
        published'
            ∙ ap (publish_all with_query_param takes config (kept facts)) published
            ∙ sym (publish_all-append first (kept facts) w.publisher)
            ∙ ap (λ es. publish_all with_query_param takes config es w.publisher)
                (sym (kept-cons f facts)),
        stored'
            ∙ ap (λ inputs. inputs ++ stored_of facts) stored
            ∙ append_assoc w.stored (inputs_of f.analysed) (stored_of facts),
        coherent',
      )

  -- With a registry of named domains and a coherent cache: the publisher gets, one after another and each
  -- at its time, exactly the facts that the fallback domain does not reject, then a flush; and the inputs
  -- that pass and that the store takes are stored, in their order.
  pub persist_and_publish_lem :
      (now : Now) (facts : List (NlpFact F)) (w : World F S R)
      → IsNamed registry
      → IsCoherent regex w.cache
      → ((persist_and_publish with_query_param takes config regex registry create_works now facts
            w).publisher
          ≡ (flush with_query_param takes config now none [] none
              (publish_all with_query_param takes config (kept facts) w.publisher)).1)
        × ((persist_and_publish with_query_param takes config regex registry create_works now facts
              w).stored
            ≡ w.stored ++ stored_of facts)
  unfolding persist_and_publish
  persist_and_publish_lem now facts w named h =
      let (published, stored, coherent) = persist_all-Persists facts w named h in
      (ap (λ p. (flush with_query_param takes config now none [] none p).1) published, stored)
