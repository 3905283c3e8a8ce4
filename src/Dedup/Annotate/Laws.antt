-- ===== src/Dedup/Annotate/Laws.antt =====
-- What `annotate` gives for each mention.
use mathlib.Core.Path.{subst}
use analysis_srv.Prelude.{
  ◌≡◌, refl, sym, ap, ◌∙◌, String, true, false, Option, some, List, [], ◌∷◌, ◌++◌, arith,
  Bool-cases, inl, inr, map, flatten, All, if◌then◌else◌,
}
use analysis_srv.Prelude.Eq.{◌==◌, ==_iff, text_key}
use analysis_srv.Prelude.Dict.{Dict, get, set}
use analysis_srv.Prelude.Dict.Laws.{get-set}
use analysis_srv.Prelude.Float.{Float}
use analysis_srv.Prelude.Sets.{member, member-append}
use analysis_srv.Model.Mention.{MentionRecord}
use analysis_srv.Dedup.{Digests, DedupConfig, DedupClusterRecord, DedupAnalysisResult}
use analysis_srv.Dedup.Near.Members.{IsApart, near_clusters-IsApart}
use analysis_srv.Prelude.Sort.{sort_by}
use analysis_srv.Dedup.Exact.{group_onto_fingerprints, clusters_of, exact_clusters}
use analysis_srv.Dedup.Annotate.{
  Update, update_of, write_update, annotations_onto, annotation_map, annotated, member_ids,
  annotate_with, exact_part, near_part, annotate,
}

member-apart :
    (k : String) (exact_members ids : List String)
    → All (λ mid. member mid exact_members ≡ false) ids
    → member k exact_members ≡ true
    → member k ids ≡ false
member-apart k exact_members [] h e = refl
member-apart k exact_members (mid ∷ ids) h e = elim (Bool-cases (mid == k)) [
  | inl t ↦ cc (subst (λ x. member x exact_members ≡ false) ((==_iff mid k).0 t) h.0, e)
  | inr t ↦ rw t (member-apart k exact_members ids h.1 e)
]

module _ {F : Type 0} ⦃fl : Float F⦄ where
  get-write_update :
      (update : Update F) (mids : List String) (k : String) (updates : Dict String (Update F))
      → get k (write_update update mids updates)
        ≡ (if member k mids then some update else get k updates)
  unfolding write_update
  get-write_update update [] k updates = refl
  get-write_update update (mid ∷ mids) k updates =
      ground (
        arith,
        get-write_update update mids k (set mid update updates),
        get-set mid k update updates,
      )

  -- The update of the last cluster that holds an id.
  abbrev pub last_update :
      String → Option (Update F) → List (DedupClusterRecord F) → Option (Update F)
  last_update k before [] = before
  last_update k before (cluster ∷ clusters) =
      last_update k (if member k cluster.mention_ids then some (update_of cluster) else before)
        clusters

  get-annotations_onto :
      (k : String) (updates : Dict String (Update F)) (clusters : List (DedupClusterRecord F))
      → get k (annotations_onto updates clusters) ≡ last_update k (get k updates) clusters
  unfolding annotations_onto
  get-annotations_onto k updates [] = refl
  get-annotations_onto k updates (cluster ∷ clusters) =
      get-annotations_onto k (write_update (update_of cluster) cluster.mention_ids updates) clusters
      ∙ ap (λ u. last_update k u clusters)
          (get-write_update (update_of cluster) cluster.mention_ids k updates)

  -- Clusters that do not hold the id change nothing.
  last_update-apart :
      (k : String) (before : Option (Update F)) (near : List (DedupClusterRecord F))
      → All (λ c. member k c.mention_ids ≡ false) near
      → last_update k before near ≡ before
  last_update-apart k before [] h = refl
  last_update-apart k before (c ∷ near) h =
      rw (last_update, h.0) (last_update-apart k before near h.1)

  last_update-append :
      (k : String) (before : Option (Update F)) (exact near : List (DedupClusterRecord F))
      → All (λ c. member k c.mention_ids ≡ false) near
      → last_update k before (exact ++ near) ≡ last_update k before exact
  last_update-append k before [] near h = last_update-apart k before near h
  last_update-append k before (c ∷ exact) near h =
      last_update-append k (if member k c.mention_ids then some (update_of c) else before) exact
        near h

  ids_apart :
      (k : String) (exact_members : List String) (near : List (DedupClusterRecord F))
      → All (IsApart exact_members) near
      → member k exact_members ≡ true
      → All (λ c. member k c.mention_ids ≡ false) near
  ids_apart k exact_members [] h e = tt
  ids_apart k exact_members (c ∷ near) h e =
      (member-apart k exact_members c.mention_ids h.0.0 e, ids_apart k exact_members near h.1 e)

  -- The update of a member of an exact cluster is that of the last exact cluster with it, whatever the
  -- near clusters are, when these are apart.
  annotation_map-exact :
      (exact near : List (DedupClusterRecord F)) (k : String)
      → All (IsApart (member_ids exact)) near
      → member k (member_ids exact) ≡ true
      → get k (annotation_map (exact ++ near)) ≡ get k (annotation_map exact)
  unfolding annotation_map flatten
  annotation_map-exact exact near k h e =
      get-annotations_onto k [] (exact ++ near)
      ∙ last_update-append k (get k []) exact near (ids_apart k (member_ids exact) near h e)
      ∙ sym (get-annotations_onto k [] exact)

  last_update-skip :
      (k : String) (before : Option (Update F)) (exact near : List (DedupClusterRecord F))
      → member k (member_ids exact) ≡ false
      → last_update k before (exact ++ near) ≡ last_update k before near
  unfolding flatten
  last_update-skip k before [] near h = refl
  last_update-skip k before (c ∷ exact) near h =
      let both = sym (member-append k c.mention_ids (member_ids exact)) ∙ h in
      let here : member k c.mention_ids ≡ false = ground (arith, both) in
      let later : member k (member_ids exact) ≡ false = ground (arith, both) in
      rw (last_update, here) (last_update-skip k before exact near later)

  -- The update of an id comes from the exact clusters if one holds it, and else from the near ones, when
  -- these are apart.
  annotation_map-split :
      (exact near : List (DedupClusterRecord F)) (k : String)
      → All (IsApart (member_ids exact)) near
      → get k (annotation_map (exact ++ near))
        ≡ get k (annotation_map (if member k (member_ids exact) then exact else near))
  unfolding annotation_map
  annotation_map-split exact near k apart = elim (Bool-cases (member k (member_ids exact))) [
    | inl e ↦ rw e (annotation_map-exact exact near k apart e)
    | inr e ↦ rw e (
        get-annotations_onto k [] (exact ++ near)
        ∙ last_update-skip k (get k []) exact near e
        ∙ sym (get-annotations_onto k [] near))
  ]

  annotated-same :
      (a b : Dict String (Update F)) (m : MentionRecord F)
      → get m.mention_id a ≡ get m.mention_id b
      → annotated a m ≡ annotated b m
  unfolding annotated
  annotated-same a b m h = rw (annotated, h) refl

  module _ (digests : Digests) (config : DedupConfig F) where
    exact_part-nil : exact_part digests config [] ≡ []
    unfolding exact_part exact_clusters group_onto_fingerprints clusters_of sort_by
    exact_part-nil = ground arith

    near_part-IsApart :
        (mentions : List (MentionRecord F)) (exact : List (DedupClusterRecord F))
        → (near : List (DedupClusterRecord F)) × (near_part digests config mentions exact
            ≡ some near)
          × All (IsApart (member_ids exact)) near
    unfolding near_part
    near_part-IsApart mentions exact = elim (Bool-cases config.near_enabled) [
      | inl e ↦
          let (near, done, apart) =
            near_clusters-IsApart digests config (member_ids exact) mentions in
          (near, simp (near_part, e, done), apart)
      | inr e ↦ ([], simp (near_part, e), tt)
    ]

    -- `annotate` ends with a result, for any batch. Its clusters are the exact ones, then near ones; its
    -- mentions are those of the batch, each with the update of the clusters for its id. For any mention
    -- this is the update that the exact clusters alone give if one of them holds its id, so that no near
    -- cluster takes it over, and else the one that the near clusters alone give.
    pub annotate_lem :
        (mentions : List (MentionRecord F)) (m : MentionRecord F)
        → (r : List (MentionRecord F) × DedupAnalysisResult F) × (near : List
            (DedupClusterRecord F))
          × (annotate digests config mentions ≡ some r)
          × (r.1.clusters ≡ exact_part digests config mentions ++ near)
          × (r.0 ≡ map (annotated (annotation_map r.1.clusters)) mentions)
          × (annotated (annotation_map r.1.clusters) m
              ≡ annotated
                  (annotation_map (
                    if member m.mention_id (member_ids (exact_part digests config mentions))
                    then exact_part digests config mentions
                    else near))
                  m)
    unfolding annotate annotate_with flatten
    annotate_lem [] m = (
      (
        [],
        record {
          mentions_updated = 0;
          exact_cluster_count = 0;
          near_cluster_count = 0;
          clusters = [];
        },
      ),
      [],
      refl,
      rw exact_part-nil refl,
      refl,
      rw exact_part-nil refl,
    )
    annotate_lem (n ∷ ns) m =
        let exact = exact_part digests config (n ∷ ns) in
        let (near, done, apart) = near_part-IsApart (n ∷ ns) exact in
        rw (annotate, done)
          (
            annotate_with (n ∷ ns) exact near,
            near,
            refl,
            refl,
            refl,
            annotated-same (annotation_map (exact ++ near))
                (annotation_map (if member m.mention_id (member_ids exact) then exact else near)) m
                (annotation_map-split exact near m.mention_id apart),
          )
