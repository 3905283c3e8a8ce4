-- ===== src/Consumer/Cooldown.antt =====
-- The automatic crisis response does not flap: requests for one project stay a cooldown away from the
-- last one that was answered.
use analysis_srv.Prelude.{
  ℕ, String, ◌≤◌, ◌<◌, ◌+◌, ◌≡◌, ◌≢◌, inl, inr, refl, sym, ◌∙◌, false, ◌&&◌, Option, none, some,
  List, [], ◌∷◌, All, arith, Bool-cases, if◌then◌else◌,
}
use analysis_srv.Prelude.Eq.{◌==◌, ==_iff, text_key}
use analysis_srv.Prelude.Dict.{Dict, get, set}
use analysis_srv.Prelude.Dict.Laws.{get-set}
use analysis_srv.Prelude.Text.{non_empty, strip}
use analysis_srv.Consumer.Levels.{map_crisis_level_to_status}
use analysis_srv.Consumer.Runtime.{
  RuntimeState, Redis, Request, Runtime, Assessment, Surroundings, get_crisis_runtime_state,
  write_redis, acquire_lock, release_lock, must_wait, apply_locked, with_lock, apply_for,
  maybe_apply_crisis_runtime, run, request_of,
}

-- The status and the time of the last answer to a request for a project.
abbrev pub last_answered : String → List Request → Option RuntimeState
last_answered project [] = none
last_answered project (r ∷ rs) =
    if r.project_id == project
    then elim r.answered_at [
      | none ↦ last_answered project rs
      | some t ↦ some (record { status = r.status; updated_at = t })
    ]
    else last_answered project rs

-- What a reading without faults gives.
unfoldable pub seen_in : String → Dict String RuntimeState → Option Redis → Option RuntimeState
seen_in project local none = get project local
seen_in project local (some r) = elim (get project r.states) [
  | none ↦ get project local
  | some s ↦ some s
]

-- The stored states are those of the last answered requests.
abbrev pub IsTracked : Runtime → Type 0
IsTracked w =
    (project : String) → seen_in project w.last_status w.redis ≡ last_answered project w.requested

abbrev pub Follows : ℕ → Option RuntimeState → Request → Type 0
Follows gap none r = Unit
Follows gap (some prev) r = (prev.updated_at + gap ≤ r.sent_at) × (prev.status ≢ r.status)

-- Every request is sent at least `gap` seconds after the last answer to an earlier one for its
-- project, and asks for another status than this one did.
abbrev pub IsSpaced : ℕ → List Request → Type 0
IsSpaced gap [] = Unit
IsSpaced gap (r ∷ rs) = Follows gap (last_answered r.project_id rs) r × IsSpaced gap rs

-- A call in which Redis answers and the cooldown is at least `gap`.
pub record IsHealthy (gap : ℕ) (env : Surroundings) : Type 0 where
  pub gets : env.get_fails ≡ false
  pub sets : env.set_fails ≡ false
  pub waits : gap ≤ env.cooldown_seconds
  pub some_gap : 0 < gap

module _ (gap : ℕ) (env : Surroundings) (h : IsHealthy gap env) where
  state-eq-seen :
      (project : String) (w : Runtime)
      → get_crisis_runtime_state env project w ≡ seen_in project w.last_status w.redis
  unfolding get_crisis_runtime_state seen_in
  state-eq-seen project w = ground (arith, h.gets)

  seen-write :
      (p q : String) (s : RuntimeState) (local : Dict String RuntimeState) (r : Option Redis)
      → seen_in q (set p s local) (write_redis env p s r)
        ≡ (if p == q then some s else seen_in q local r)
  unfolding write_redis seen_in
  seen-write p q s local none = get-set p q s local
  seen-write p q s local (some r) =
      ground (arith, h.sets, get-set p q s local, get-set p q s r.states)

  acquire-seen :
      (p q : String) (local : Dict String RuntimeState) (r : Option Redis) (token : String)
      (r' : Option Redis)
      → acquire_lock env p r ≡ some (token, r')
      → seen_in q local r' ≡ seen_in q local r
  unfolding acquire_lock seen_in
  acquire-seen p q local none token r' e = ground arith
  acquire-seen p q local (some r) token r' e = ground arith

  release-seen :
      (p q token : String) (local : Dict String RuntimeState) (r : Option Redis)
      → seen_in q local (release_lock env p token r) ≡ seen_in q local r
  unfolding release_lock seen_in
  release-seen p q token local none = refl
  release-seen p q token local (some r) = ground arith

  abbrev Good : Runtime → Type 0
  Good w = IsTracked w × IsSpaced gap w.requested

  must_wait-false :
      (target : String) (s : RuntimeState)
      → must_wait env.cooldown_seconds env.later target (some s) ≡ false
      → (s.updated_at + gap ≤ env.later) × (s.status ≢ target)
  unfolding must_wait
  must_wait-false target s e =
      (ground (arith, h.waits, h.some_gap), λ same. ground (arith, ==_iff s.status target))

  -- The latest request is the stored state, so the test that let this one through spoke of it.
  spaced_from :
      (p target : String) (w : Runtime)
      → IsTracked w
      → must_wait env.cooldown_seconds env.later target (get_crisis_runtime_state env p w) ≡ false
      → (answered_at : Option ℕ) (last : Option RuntimeState) → last_answered p w.requested ≡ last
      → Follows gap last (request_of env p target answered_at)
  spaced_from p target w tracked free answered_at none e = tt
  spaced_from p target w tracked free answered_at (some prev) e =
      must_wait-false target prev (rw (sym (state-eq-seen p w ∙ tracked p ∙ e)) free)

  apply_locked-Good :
      (p target : String) (w : Runtime) → Good w → Good (apply_locked env p target w)
  unfolding apply_locked
  apply_locked-Good p target w good =
      elim (Bool-cases
        (must_wait env.cooldown_seconds env.later target (get_crisis_runtime_state env p w))) [
          | inl wait ↦ rw wait good
          | inr free ↦ rw free (elim (Bool-cases env.apply_fails) [
            | inl fails ↦ simp fails (
              λ q. good.0 q ∙ ground arith,
              (spaced_from p target w good.0 free none (last_answered p w.requested) refl, good.1),
            )
            | inr works ↦ simp works (
              λ q.
                  seen-write p q (record { status = target; updated_at = env.written })
                    w.last_status w.redis
                  ∙ ground (arith, good.0 q),
              (
                spaced_from p target w good.0 free (some env.written) (last_answered p w.requested)
                    refl,
                good.1,
              ),
            )
          ])
        ]

  with_lock-Good :
      (p target : String) (w : Runtime) (lock : Option (String × Option Redis))
      → ((token : String) (r : Option Redis)
          → lock ≡ some (token, r)
          → (q : String) → seen_in q w.last_status r ≡ seen_in q w.last_status w.redis)
      → Good w
      → Good (with_lock env p target w lock)
  unfolding with_lock
  with_lock-Good p target w none same good = good
  with_lock-Good p target w (some (token, r)) same good =
      let locked : Runtime = record w { redis = r } in
      let after = apply_locked env p target locked in
      let kept =
        apply_locked-Good p target locked ((λ q. same token r refl q ∙ good.0 q), good.1) in
      ((λ q. release-seen p q token after.last_status after.redis ∙ kept.0 q), kept.1)

  apply_for-Good : (p target : String) (w : Runtime) → Good w → Good (apply_for env p target w)
  unfolding apply_for
  apply_for-Good p target w good =
      elim (Bool-cases
        (must_wait env.cooldown_seconds env.now target (get_crisis_runtime_state env p w))) [
          | inl wait ↦ rw wait good
          | inr free ↦ rw free (
              with_lock-Good p target w (acquire_lock env p w.redis)
                (λ token r e q. acquire-seen p q w.last_status w.redis token r e) good)
        ]

  pub maybe_apply-Good :
      (a : Option Assessment) (w : Runtime)
      → IsTracked w × IsSpaced gap w.requested
      → let w' = maybe_apply_crisis_runtime env a w in IsTracked w' × IsSpaced gap w'.requested
  unfolding maybe_apply_crisis_runtime
  maybe_apply-Good none w good = good
  maybe_apply-Good (some a) w good =
      elim (Bool-cases (env.apply_enabled && env.has_client && non_empty (strip a.project_id))) [
        | inl on ↦
            rw on (
              apply_for-Good (strip a.project_id) (map_crisis_level_to_status a.crisis_level) w
                good)
        | inr off ↦ rw off good
      ]

-- Over any sequence of assessments, for any projects, whatever locks are held or fail: each request to
-- the project service, failed ones included, is sent at least `gap` seconds after the last answer to a
-- request for its project, and asks for another status than the request answered then; and the stored
-- states are those of these answers. A request that raised holds none back. It starts from a state of
-- this kind, and in each call the reads and writes of Redis succeed and the cooldown is at least `gap`,
-- which is positive.
pub run-IsSpaced :
    (gap : ℕ) (calls : List (Surroundings × Option Assessment)) (w : Runtime)
    → All (λ c. IsHealthy gap c.0) calls
    → IsTracked w
    → IsSpaced gap w.requested
    → IsTracked (run calls w) × IsSpaced gap (run calls w).requested
unfolding run
run-IsSpaced gap [] w hs tracked spaced = (tracked, spaced)
run-IsSpaced gap ((env, a) ∷ rest) w hs tracked spaced =
    let (t, s) = maybe_apply-Good gap env hs.0 a w (tracked, spaced) in
    run-IsSpaced gap rest (maybe_apply_crisis_runtime env a w) hs.1 t s
