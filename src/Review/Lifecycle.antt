-- ===== src/Review/Lifecycle.antt =====
-- The life of an item: found under its id, decided once, and left alone by what concerns others.
use analysis_srv.Prelude.{
  ℕ, String, ◌≡◌, ◌≢◌, Bool, false, Option, none, some, arith, Bool-cases, inl, inr, leb, refl, ◌≤◌,
}
use analysis_srv.Prelude.Eq.{◌==◌, ==_iff, text_key}
use analysis_srv.Prelude.Float.{Float}
use analysis_srv.Prelude.Result.{ok, err}
use analysis_srv.Review.{
  ReviewItem, ReviewDecision, ReviewRepository, IsRepository, Fact, ReviewError, queue_full,
  already_resolved, max_queue_size, new_item, passes_over, enqueue_review_item, decided, status_of,
  resolve_found, resolve_review_item,
}

abbrev pub Names : {F P : Type 0} → String → Option (ReviewItem F P) → Type 0
Names key none = Unit
Names key (some item) = item.id ≡ key

-- What stands under an id has that id.
abbrev pub IsKeyed : {F P S : Type 0} → ReviewRepository F P S → S → Type 0
IsKeyed repo s = (key : String) → Names key (repo.get_by_id key s)

module _ {F P S : Type 0} (repo : ReviewRepository F P S) (laws : IsRepository repo) where
  save-IsKeyed : (item : ReviewItem F P) (s : S) → IsKeyed repo s → IsKeyed repo (repo.save item s)
  save-IsKeyed item s keyed key =
      rw (laws.get_by_id-save item key s) (elim (Bool-cases (item.id == key)) [
        | inl e ↦ rw e ((==_iff item.id key).0 e)
        | inr e ↦ rw e (keyed key)
      ])

  module _ ⦃fl : Float F⦄ where
    -- Over any repository with the laws of `IsRepository`: enqueueing keeps every item under its
    -- own id.
    pub enqueue-IsKeyed :
        (threshold : F) (force : Bool) (uuid : String) (now : ℕ) (fact : Fact F P) (s : S)
        → IsKeyed repo s
        → IsKeyed repo (enqueue_review_item repo threshold force uuid now fact s).1
    unfolding enqueue_review_item
    enqueue-IsKeyed threshold force uuid now fact s keyed =
        elim (Bool-cases (passes_over repo threshold force fact)) [
          | inl over ↦ rw over keyed
          | inr on ↦
              rw on (elim (Bool-cases (leb max_queue_size (repo.count_pending fact.project_id s))) [
                | inl full ↦ rw full keyed
                | inr room ↦ rw room (save-IsKeyed (new_item uuid now fact) s keyed)
              ])
        ]

    -- Over any repository with the laws of `IsRepository`: an item that is queued is found under
    -- its new id.
    pub enqueue_finds :
        (threshold : F) (force : Bool) (uuid : String) (now : ℕ) (fact : Fact F P) (s s' : S)
        (item : ReviewItem F P)
        → enqueue_review_item repo threshold force uuid now fact s ≡ (ok (some item), s')
        → repo.get_by_id uuid s' ≡ some item
    unfolding enqueue_review_item new_item
    enqueue_finds threshold force uuid now fact s s' item h =
        ground (arith, laws.get_by_id-save (new_item uuid now fact) uuid s, ==_iff uuid uuid)

    -- The only error is `queue_full`, for a fact that qualifies and meets a full queue; the store
    -- stays as it was.
    pub enqueue_full :
        (threshold : F) (force : Bool) (uuid : String) (now : ℕ) (fact : Fact F P) (s s' : S)
        (e : ReviewError)
        → enqueue_review_item repo threshold force uuid now fact s ≡ (err e, s')
        → (e ≡ queue_full)
          × (s' ≡ s)
          × (passes_over repo threshold force fact ≡ false)
          × (max_queue_size ≤ repo.count_pending fact.project_id s)
    unfolding enqueue_review_item
    enqueue_full threshold force uuid now fact s s' e h = ground arith

  resolve_found-once :
      (key : String) (d e : ReviewDecision) (m n : Option String) (t u : ℕ) (s s' : S)
      (item : ReviewItem F P) (found : Option (ReviewItem F P))
      → Names key found
      → resolve_found repo d m t s found ≡ (ok item, s')
      → resolve_found repo e n u s' (repo.get_by_id key s') ≡ (err already_resolved, s')
  unfolding resolve_found status_of
  resolve_found-once key d e m n t u s s' item none ids h = cc
  resolve_found-once key d e m n t u s s' item (some i) ids h =
      ground (arith, laws.get_by_id-save (decided repo d m t i) key s, ==_iff i.id key, ids)

  -- Over any repository with the laws of `IsRepository`: where items stand under their ids, an item
  -- takes one decision: after a successful one, any further decision on it is refused and changes
  -- nothing.
  pub resolve_once :
      (key : String) (d e : ReviewDecision) (m n : Option String) (t u : ℕ) (s s' : S)
      (item : ReviewItem F P)
      → IsKeyed repo s
      → resolve_review_item repo key d m t s ≡ (ok item, s')
      → resolve_review_item repo key e n u s' ≡ (err already_resolved, s')
  unfolding resolve_review_item
  resolve_once key d e m n t u s s' item keyed h =
      resolve_found-once key d e m n t u s s' item (repo.get_by_id key s) (keyed key) h

  resolve_found-others :
      (key other : String) (d : ReviewDecision) (m : Option String) (t : ℕ) (s : S)
      (found : Option (ReviewItem F P))
      → Names key found
      → key ≢ other
      → repo.get_by_id other (resolve_found repo d m t s found).1 ≡ repo.get_by_id other s
  unfolding resolve_found
  resolve_found-others key other d m t s none ids ne = refl
  resolve_found-others key other d m t s (some i) ids ne =
      ground (arith, laws.get_by_id-save (decided repo d m t i) other s, ==_iff i.id other, ids)

  -- Over any repository with the laws of `IsRepository`: where items stand under their ids, a
  -- decision on one id leaves what stands under every other.
  pub resolve_others :
      (key other : String) (d : ReviewDecision) (m : Option String) (t : ℕ) (s : S)
      → IsKeyed repo s
      → key ≢ other
      → repo.get_by_id other (resolve_review_item repo key d m t s).1 ≡ repo.get_by_id other s
  unfolding resolve_review_item
  resolve_others key other d m t s keyed ne =
      resolve_found-others key other d m t s (repo.get_by_id key s) (keyed key) ne
