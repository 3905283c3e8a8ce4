-- ===== src/Dedup/Near/Chains.antt =====
-- What the united pairs are: pairs of ids of the batch whose mentions are similar; and in a small
-- batch, all of these.
pub mod Groups
use mathlib.Core.Path.{subst}
use analysis_srv.Prelude.{
  ℕ, ◌+◌, ◌≤◌, ◌<◌, ◌≡◌, ◌↔◌, ◌⊎◌, refl, sym, ap, ◌∙◌, String, Bool, true, false, ◌||◌, Option,
  none, some, List, [], ◌∷◌, ◌++◌, arith, Bool-cases, Option-cases, inl, inr, length, filter,
  filter-All, filter-keeps, any, All, All-append, count, count-le-length, map, ltb, leb,
  if◌then◌else◌,
}
use analysis_srv.Prelude.Eq.{Key, ◌==◌, ==_iff, text_key, nat_key, pair_key, list_key}
use analysis_srv.Prelude.Dict.{Dict, get, keys, values, push_at, items_at}
use analysis_srv.Prelude.Dict.Keys.{push_at-All}
use analysis_srv.Prelude.Float.{Float}
use analysis_srv.Model.Mention.{MentionRecord}
use analysis_srv.Dedup.{Digests, DedupConfig, pairs_of}
use analysis_srv.Dedup.Pairs.{Meets, Both, pairs_of-All, pairs_of-Has, Has-append_right, Has-filter}
use analysis_srv.Dedup.Near.{
  Band, is_similar, bucket_pairs, brute_pairs, brute_force_threshold, push_bands, buckets_onto,
  bands_from, united_pairs,
}
use analysis_srv.Dedup.Near.Similar.{HasDistinctSets, is_similar_sym}
use analysis_srv.Dedup.UnionFind.Links.{
  Has, Linked, paired, itself, back, chained, is_in, AreInside,
}

-- Chains of similar items of a list.
pub data Chain (similar : String × String → Bool) (ids : List String)
    : String → String → Type 0 where
  step :
      {a b : String}
      → is_in ids a ≡ true
      → is_in ids b ≡ true
      → similar (a, b) ≡ true
      → Chain similar ids a b
  here : {a : String} → Chain similar ids a a
  turned : {a b : String} → Chain similar ids a b → Chain similar ids b a
  longer : {a b c : String} → Chain similar ids a b → Chain similar ids b c → Chain similar ids a c

keys-in_cons :
    (k : String) (ks : List String) (xs : List String)
    → All (λ x. is_in ks x ≡ true) xs
    → All (λ x. is_in (k ∷ ks) x ≡ true) xs
keys-in_cons k ks [] h = tt
keys-in_cons k ks (x ∷ xs) h = (ground (arith, h.0), keys-in_cons k ks xs h.1)

ids_stand : (xs : List String) → All (λ x. is_in xs x ≡ true) xs
ids_stand [] = tt
ids_stand (x ∷ xs) = (ground (arith, ==_iff x x), keys-in_cons x xs xs (ids_stand xs))

module _ {F : Type 0} ⦃fl : Float F⦄ (digests : Digests) (config : DedupConfig F) where
  module _ (P : String → Type 0) where
    push_bands-All :
        (mid : String) (bands : List Band) (buckets : Dict Band (List String))
        → P mid
        → All (All P) (values buckets)
        → All (All P) (values (push_bands digests config mid bands buckets))
    unfolding push_bands
    push_bands-All mid [] buckets p h = h
    push_bands-All mid (band ∷ bands) buckets p h =
        push_bands-All mid bands (push_at band mid buckets) p (push_at-All P band mid buckets p h)

    buckets_onto-All :
        (buckets : Dict Band (List String)) (sigs : Dict String (List ℕ))
        → All P (keys sigs)
        → All (All P) (values buckets)
        → All (All P) (values (buckets_onto digests config buckets sigs))
    unfolding buckets_onto
    buckets_onto-All buckets [] p h = h
    buckets_onto-All buckets ((mid, signature) ∷ sigs) p h =
        let bands = bands_from digests config config.num_bands 0 signature in
        buckets_onto-All (push_bands digests config mid bands buckets) sigs p.1
          (push_bands-All mid bands buckets p.0 h)

    bucket_pairs-Both :
        (sets : Dict String (List String)) (buckets : List (List String))
        → All (All P) buckets
        → All (Both P) (bucket_pairs digests config sets buckets)
    unfolding bucket_pairs
    bucket_pairs-Both sets [] h = tt
    bucket_pairs-Both sets (bucket ∷ buckets) h =
        let rest = bucket_pairs-Both sets buckets h.1 in
        let good = filter (is_similar digests config sets) (pairs_of bucket) in
        elim (Bool-cases (ltb (length bucket) 2 || ltb config.max_bucket_size (length bucket))) [
          | inl e ↦ rw e rest
          | inr e ↦ rw e (
              All-append (Both P) good (bucket_pairs digests config sets buckets)
                (filter-keeps (Both P) (is_similar digests config sets) (pairs_of bucket)
                  (pairs_of-All P bucket h.0))
                rest)
        ]

    brute_pairs-Both :
        (sets : Dict String (List String)) (ids : List String)
        → All P ids
        → All (Both P) (brute_pairs digests config sets ids)
    unfolding brute_pairs
    brute_pairs-Both sets ids h = elim (Bool-cases (leb (length ids) brute_force_threshold)) [
      | inl e ↦ rw e (
          filter-keeps (Both P) (is_similar digests config sets) (pairs_of ids)
            (pairs_of-All P ids h))
      | inr e ↦ rw e tt
    ]

  module _ (sets : Dict String (List String)) where
    bucket_pairs-similar :
        (buckets : List (List String))
        → All
            (λ pair. is_similar digests config sets pair ≡ true)
            (bucket_pairs digests config sets buckets)
    unfolding bucket_pairs
    bucket_pairs-similar [] = tt
    bucket_pairs-similar (bucket ∷ buckets) =
        elim (Bool-cases (ltb (length bucket) 2 || ltb config.max_bucket_size (length bucket))) [
          | inl e ↦ rw e (bucket_pairs-similar buckets)
          | inr e ↦ rw e (
              All-append _ (filter (is_similar digests config sets) (pairs_of bucket))
                (bucket_pairs digests config sets buckets)
                (filter-All (is_similar digests config sets) (pairs_of bucket))
                (bucket_pairs-similar buckets))
        ]

    brute_pairs-similar :
        (ids : List String)
        → All
            (λ pair. is_similar digests config sets pair ≡ true)
            (brute_pairs digests config sets ids)
    unfolding brute_pairs
    brute_pairs-similar ids = elim (Bool-cases (leb (length ids) brute_force_threshold)) [
      | inl e ↦ rw e (filter-All (is_similar digests config sets) (pairs_of ids))
      | inr e ↦ rw e tt
    ]

    pub united_pairs-AreInside :
        (sigs : Dict String (List ℕ))
        → AreInside
            (keys sigs)
            (united_pairs digests config sets sigs)
            (united_pairs digests config sets sigs)
    unfolding united_pairs
    united_pairs-AreInside sigs =
        let inside : String → Type 0 = λ x. is_in (keys sigs) x ≡ true in
        All-append (Both inside)
          (bucket_pairs digests config sets (values (buckets_onto digests config [] sigs)))
          (brute_pairs digests config sets (keys sigs))
          (bucket_pairs-Both inside sets (values (buckets_onto digests config [] sigs))
            (buckets_onto-All inside [] sigs (ids_stand (keys sigs)) tt))
          (brute_pairs-Both inside sets (keys sigs) (ids_stand (keys sigs)))

    united_pairs-similar :
        (sigs : Dict String (List ℕ))
        → All
            (λ pair. is_similar digests config sets pair ≡ true)
            (united_pairs digests config sets sigs)
    unfolding united_pairs
    united_pairs-similar sigs =
        All-append (λ pair. is_similar digests config sets pair ≡ true)
          (bucket_pairs digests config sets (values (buckets_onto digests config [] sigs)))
          (brute_pairs digests config sets (keys sigs))
          (bucket_pairs-similar (values (buckets_onto digests config [] sigs)))
          (brute_pairs-similar (keys sigs))

    -- A pair that is in the list has what all pairs of the list have.
    Has-All :
        (P : String × String → Type 0) (pairs : List (String × String)) (a b : String)
        → All P pairs
        → Has pairs a b
        → P (a, b)
    Has-All P [] a b h g = absurd g
    Has-All P ((x, y) ∷ pairs) a b h (inl (ex, ey)) =
        subst (λ c. P (c, b)) ex (subst (λ c. P (x, c)) ey h.0)
    Has-All P ((x, y) ∷ pairs) a b h (inr g) = Has-All P pairs a b h.1 g

    -- Linked items are chained, whatever the size of the batch.
    pub Linked-Chain :
        (sigs : Dict String (List ℕ)) {a b : String}
        → Linked (united_pairs digests config sets sigs) a b
        → Chain (is_similar digests config sets) (keys sigs) a b
    Linked-Chain sigs {a} {b} (paired h) =
        let inside =
          Has-All (λ pair. (is_in (keys sigs) pair.0 ≡ true) × (is_in (keys sigs) pair.1 ≡ true))
            (united_pairs digests config sets sigs) a b (united_pairs-AreInside sigs) h in
        step inside.0 inside.1 (
          Has-All (λ pair. is_similar digests config sets pair ≡ true)
            (united_pairs digests config sets sigs) a b (united_pairs-similar sigs) h)
    Linked-Chain sigs itself = here
    Linked-Chain sigs (back l) = turned (Linked-Chain sigs l)
    Linked-Chain sigs (chained l m) = longer (Linked-Chain sigs l) (Linked-Chain sigs m)

    united_pairs-Has :
        (sigs : Dict String (List ℕ)) (a b : String)
        → length (keys sigs) ≤ brute_force_threshold
        → Has (pairs_of (keys sigs)) a b
        → is_similar digests config sets (a, b) ≡ true
        → Has (united_pairs digests config sets sigs) a b
    unfolding united_pairs brute_pairs
    united_pairs-Has sigs a b small h e =
        let test : leb (length (keys sigs)) brute_force_threshold ≡ true = ground (arith, small) in
        Has-append_right
          (bucket_pairs digests config sets (values (buckets_onto digests config [] sigs)))
          (brute_pairs digests config sets (keys sigs)) a b
          (rw (brute_pairs, test)
            (Has-filter (is_similar digests config sets) (pairs_of (keys sigs)) a b h e))

    step-Linked :
        (sigs : Dict String (List ℕ)) (a b : String)
        → HasDistinctSets digests config sets
        → length (keys sigs) ≤ brute_force_threshold
        → Meets (pairs_of (keys sigs)) a b
        → is_similar digests config sets (a, b) ≡ true
        → Linked (united_pairs digests config sets sigs) a b
    step-Linked sigs a b distinct small (inl e) s =
        subst (Linked (united_pairs digests config sets sigs) a) e itself
    step-Linked sigs a b distinct small (inr (inl h)) s =
        paired (united_pairs-Has sigs a b small h s)
    step-Linked sigs a b distinct small (inr (inr h)) s = back (
        paired (
          united_pairs-Has sigs b a small h
            (sym (is_similar_sym digests config sets a b distinct) ∙ s)))

    -- In a small batch chained items are linked.
    pub Chain-Linked :
        (sigs : Dict String (List ℕ)) {a b : String}
        → HasDistinctSets digests config sets
        → length (keys sigs) ≤ brute_force_threshold
        → Chain (is_similar digests config sets) (keys sigs) a b
        → Linked (united_pairs digests config sets sigs) a b
    Chain-Linked sigs {a} {b} distinct small (step ha hb s) =
        step-Linked sigs a b distinct small (pairs_of-Has (keys sigs) a b ha hb) s
    Chain-Linked sigs distinct small here = itself
    Chain-Linked sigs distinct small (turned c) = back (Chain-Linked sigs distinct small c)
    Chain-Linked sigs distinct small (longer c d) =
        chained (Chain-Linked sigs distinct small c) (Chain-Linked sigs distinct small d)
