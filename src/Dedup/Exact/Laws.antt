-- ===== src/Dedup/Exact/Laws.antt =====
-- An exact cluster is the list of all mentions of one fingerprint.
use analysis_srv.Prelude.{
  ◌≤◌, ◌≡◌, refl, sym, ap, ◌∙◌, String, Bool, false, Option, none, some, List, [], ◌∷◌, ◌++◌, arith,
  Option-cases, inl, inr, map, length, filter, All, length-map, append_assoc, append-nil,
}
use analysis_srv.Prelude.Eq.{◌==◌, text_key}
use analysis_srv.Prelude.Dict.{Dict, get, push_at, items_at}
use analysis_srv.Prelude.Dict.Laws.{items_at-push_at}
use analysis_srv.Prelude.Dict.Entries.{HasOneEach, push_at-HasOneEach, entries_lem}
use analysis_srv.Prelude.Float.{Float}
use analysis_srv.Prelude.Sort.{sort_by, sort_by-All}
use analysis_srv.Model.Mention.{MentionRecord}
use analysis_srv.Dedup.{Digests, DedupConfig, DedupClusterRecord, fingerprint}
use analysis_srv.Dedup.Exact.{
  group_onto_fingerprints, exact_cluster, clusters_of, prints_in_order, exact_clusters,
}

module _ {F : Type 0} ⦃fl : Float F⦄ (digests : Digests) (config : DedupConfig F) where
  abbrev is_print : String → Option String → Bool
  is_print p none = false
  is_print p (some q) = q == p

  -- The mention has this fingerprint.
  abbrev pub has_print : String → MentionRecord F → Bool
  has_print p m = is_print p (fingerprint digests config m.normalized_text_compact)

  group_onto_fingerprints-items_at :
      (p : String) (groups : Dict String (List (MentionRecord F))) (ms : List (MentionRecord F))
      → items_at p (group_onto_fingerprints digests config groups ms)
        ≡ items_at p groups ++ filter (has_print p) ms
  unfolding group_onto_fingerprints get
  group_onto_fingerprints-items_at p groups [] = sym (append-nil (items_at p groups))
  group_onto_fingerprints-items_at p groups (m ∷ ms) =
      elim (Option-cases (fingerprint digests config m.normalized_text_compact)) [
        | inl e ↦ rw (group_onto_fingerprints, e) (group_onto_fingerprints-items_at p groups ms)
        | inr (print, e) ↦
            rw (group_onto_fingerprints, e)
              (group_onto_fingerprints-items_at p (push_at print m groups) ms
                ∙ ground (
                  arith,
                  items_at-push_at print p m groups,
                  append_assoc (items_at p groups) (m ∷ []) (filter (has_print p) ms),
                ))
      ]

  group_onto_fingerprints-HasOneEach :
      (groups : Dict String (List (MentionRecord F))) (ms : List (MentionRecord F))
      → HasOneEach groups
      → HasOneEach (group_onto_fingerprints digests config groups ms)
  unfolding group_onto_fingerprints
  group_onto_fingerprints-HasOneEach groups [] h = h
  group_onto_fingerprints-HasOneEach groups (m ∷ ms) h =
      elim (Option-cases (fingerprint digests config m.normalized_text_compact)) [
        | inl e ↦ rw (group_onto_fingerprints, e) (group_onto_fingerprints-HasOneEach groups ms h)
        | inr (print, e) ↦
            rw (group_onto_fingerprints, e)
              (group_onto_fingerprints-HasOneEach (push_at print m groups) ms
                (push_at-HasOneEach print m groups h))
      ]

  -- The cluster holds all mentions of one fingerprint, two at least.
  pub record IsExact (mentions : List (MentionRecord F)) (c : DedupClusterRecord F) : Type 0 where
    pub print : String
    pub named : c.text_fingerprint ≡ some print
    pub members : c.mention_ids ≡ map (λ m. m.mention_id) (filter (has_print print) mentions)
    pub sized : c.cluster_size ≡ length c.mention_ids
    pub several : 2 ≤ c.cluster_size

  clusters_of-IsExact :
      (mentions : List (MentionRecord F)) (groups : Dict String (List (MentionRecord F)))
      → All (λ e. filter (has_print e.0) mentions ≡ e.1) groups
      → All (IsExact mentions) (clusters_of digests config groups)
  unfolding clusters_of exact_cluster
  clusters_of-IsExact mentions [] h = tt
  clusters_of-IsExact mentions ((print, []) ∷ groups) h = clusters_of-IsExact mentions groups h.1
  clusters_of-IsExact mentions ((print, only ∷ []) ∷ groups) h =
      clusters_of-IsExact mentions groups h.1
  clusters_of-IsExact mentions ((print, first ∷ second ∷ rest) ∷ groups) h = (
    record {
      print = print;
      named = refl;
      members = ap (map (λ m. m.mention_id)) (sym h.0);
      sized = sym (length-map (λ m. m.mention_id) (first ∷ second ∷ rest));
      several = omega arith;
    },
    clusters_of-IsExact mentions groups h.1,
  )

  All-through :
      (mentions : List (MentionRecord F)) (d es : Dict String (List (MentionRecord F)))
      → ((p : String) → items_at p d ≡ filter (has_print p) mentions)
      → All (λ e. items_at e.0 d ≡ e.1) es
      → All (λ e. filter (has_print e.0) mentions ≡ e.1) es
  All-through mentions d [] same h = tt
  All-through mentions d (e ∷ es) same h =
      (sym (same e.0) ∙ h.0, All-through mentions d es same h.1)

  -- Each exact cluster has a fingerprint, of which its ids are those of all the mentions of the batch, in
  -- their order; its size is their number, two at least.
  pub exact_clusters-IsExact :
      (mentions : List (MentionRecord F))
      → All (IsExact mentions) (exact_clusters digests config mentions)
  unfolding exact_clusters get
  exact_clusters-IsExact mentions =
      let groups = group_onto_fingerprints digests config [] mentions in
      let entries =
        entries_lem groups (group_onto_fingerprints-HasOneEach [] mentions (λ k. omega arith)) in
      let filtered =
        All-through mentions groups groups (λ p. group_onto_fingerprints-items_at p [] mentions)
          entries in
      clusters_of-IsExact mentions (sort_by (prints_in_order digests config) groups) (
        sort_by-All (prints_in_order digests config) (λ e. filter (has_print e.0) mentions ≡ e.1)
          groups filtered)
