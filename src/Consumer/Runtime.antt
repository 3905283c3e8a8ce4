-- ===== src/Consumer/Runtime.antt =====
-- The automatic crisis response (`_maybe_apply_crisis_runtime` and its helpers): the state that the
-- consumer keeps for each project, in Redis and in a local dict, the lock, and the cooldown. Times
-- are whole seconds. A Redis call that raises is a flag of the call's environment, and so is the
-- outcome of the request to the project service. `requested` is the history of the requests that were
-- sent to this service, newest first, those that raised included, whether the service carried them out
-- or not. The cooldown is at least a minute in the source, so that a clock that ran back waits here as
-- it does there.
use analysis_srv.Prelude.{
  ℕ, String, ◌-◌, Bool, false, not, ◌&&◌, ◌||◌, Option, none, some, List, [], ◌∷◌, ltb,
  if◌then◌else◌,
}
use analysis_srv.Prelude.Eq.{◌==◌, text_key}
use analysis_srv.Prelude.Dict.{Dict, get, set}
use analysis_srv.Prelude.Text.{non_empty, strip}
use analysis_srv.Consumer.Levels.{map_crisis_level_to_status}

pub record RuntimeState : Type 0 where
  pub status : String
  pub updated_at : ℕ

pub record Redis : Type 0 where
  pub states : Dict String RuntimeState
  -- the token that holds a project's lock, until it expires
  pub locks : Dict String (Option String)

-- A request, sent at one time and answered at another; `none` where the call raised.
pub record Request : Type 0 where
  pub project_id : String
  pub status : String
  pub sent_at : ℕ
  pub answered_at : Option ℕ

pub record Runtime : Type 0 where
  pub last_status : Dict String RuntimeState
  pub redis : Option Redis
  pub requested : List Request

pub record Assessment : Type 0 where
  pub project_id : String
  pub crisis_level : String

-- What the surroundings do during one call: the switches, the two readings of the clock (before the
-- lock is taken and with it held, and when the state is written), the lock's token and the faults.
pub record Surroundings : Type 0 where
  pub apply_enabled : Bool
  pub has_client : Bool
  pub cooldown_seconds : ℕ
  pub now : ℕ
  pub later : ℕ
  pub written : ℕ
  pub token : String
  pub get_fails : Bool
  pub set_fails : Bool
  pub lock_fails : Bool
  pub apply_fails : Bool

unfoldable pub read_redis : Surroundings → String → Option Redis → Option RuntimeState
unfolding get
read_redis env project none = none
read_redis env project (some r) = if env.get_fails then none else get project r.states

unfoldable pub get_crisis_runtime_state : Surroundings → String → Runtime → Option RuntimeState
unfolding get read_redis
get_crisis_runtime_state env project w = elim (read_redis env project w.redis) [
  | none ↦ get project w.last_status
  | some s ↦ some s
]

unfoldable pub write_redis : Surroundings → String → RuntimeState → Option Redis → Option Redis
unfolding set
write_redis env project s none = none
write_redis env project s (some r) =
    if env.set_fails then some r else some (record r { states = set project s r.states })

unfoldable pub set_crisis_runtime_state : Surroundings → String → RuntimeState → Runtime → Runtime
unfolding set write_redis
set_crisis_runtime_state env project s w = record w {
  last_status = set project s w.last_status;
  redis = write_redis env project s w.redis;
}

-- SET key token EX 45 NX
unfoldable pub take_lock :
    String → String → Dict String (Option String) → Option (Dict String (Option String))
unfolding get set
take_lock project token locks = elim (get project locks) [
  | none ↦ some (set project (some token) locks)
  | some none ↦ some (set project (some token) locks)
  | some (some holder) ↦ none
]

-- The lock's token, the empty one where there is no Redis or it raises; `none` if it is taken.
unfoldable pub acquire_lock : Surroundings → String → Option Redis → Option (String × Option Redis)
unfolding take_lock
acquire_lock env project none = some ("", none)
acquire_lock env project (some r) =
    if env.lock_fails then some ("", some r) else elim (take_lock project env.token r.locks) [
      | none ↦ none
      | some locks ↦ some (env.token, some (record r { locks = locks }))
    ]

unfoldable pub release_lock : Surroundings → String → String → Option Redis → Option Redis
unfolding get set non_empty
release_lock env project token none = none
release_lock env project token (some r) =
    if non_empty token && not env.lock_fails
    then elim (get project r.locks) [
      | none ↦ some r
      | some none ↦ some r
      | some (some holder) ↦
          if holder == token then some (record r { locks = set project none r.locks }) else some r
    ]
    else some r

-- The two early returns, before the lock and with it held.
unfoldable pub must_wait : ℕ → ℕ → String → Option RuntimeState → Bool
must_wait cooldown now target none = false
must_wait cooldown now target (some s) = (s.status == target) || ltb (now - s.updated_at) cooldown

abbrev pub request_of : Surroundings → String → String → Option ℕ → Request
request_of env project target answered_at = record {
  project_id = project;
  status = target;
  sent_at = env.later;
  answered_at = answered_at;
}

-- The body of the `try`, with the lock held.
unfoldable pub apply_locked : Surroundings → String → String → Runtime → Runtime
unfolding must_wait get_crisis_runtime_state set_crisis_runtime_state
apply_locked env project target w =
    if must_wait env.cooldown_seconds env.later target (get_crisis_runtime_state env project w)
    then w
    else if env.apply_fails
    then record w { requested = request_of env project target none ∷ w.requested }
    else set_crisis_runtime_state env project (record { status = target; updated_at = env.written })
        (record w { requested = request_of env project target (some env.written) ∷ w.requested })

unfoldable pub with_lock :
    Surroundings → String → String → Runtime → Option (String × Option Redis) → Runtime
unfolding apply_locked release_lock
with_lock env project target w none = w
with_lock env project target w (some (token, redis)) =
    let after = apply_locked env project target (record w { redis = redis }) in
    record after { redis = release_lock env project token after.redis }

unfoldable pub apply_for : Surroundings → String → String → Runtime → Runtime
unfolding with_lock acquire_lock must_wait get_crisis_runtime_state
apply_for env project target w =
    if must_wait env.cooldown_seconds env.now target (get_crisis_runtime_state env project w)
    then w
    else with_lock env project target w (acquire_lock env project w.redis)

unfoldable pub maybe_apply_crisis_runtime : Surroundings → Option Assessment → Runtime → Runtime
unfolding apply_for strip non_empty map_crisis_level_to_status
maybe_apply_crisis_runtime env none w = w
maybe_apply_crisis_runtime env (some a) w =
    if env.apply_enabled && env.has_client && non_empty (strip a.project_id)
    then apply_for env (strip a.project_id) (map_crisis_level_to_status a.crisis_level) w
    else w

unfoldable pub run : List (Surroundings × Option Assessment) → Runtime → Runtime
unfolding maybe_apply_crisis_runtime
run [] w = w
run ((env, a) ∷ rest) w = run rest (maybe_apply_crisis_runtime env a w)
