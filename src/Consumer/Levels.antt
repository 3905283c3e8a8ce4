-- ===== src/Consumer/Levels.antt =====
-- The level tables and the alert gate of ConsumerServer.
use analysis_srv.Prelude.{
  ℕ, String, ◌≡◌, ◌≤◌, refl, Bool, true, false, not, ◌&&◌, arith, ltb, if◌then◌else◌, Bool-cases,
  inl, inr,
}
use analysis_srv.Prelude.Eq.{◌==◌, text_key}
use analysis_srv.Prelude.Float.{Float}
use analysis_srv.Prelude.Json.{Json, JsonDict, null, bool, str, obj, end, get, as_dict}
use analysis_srv.Prelude.Text.{non_empty, lower, strip, or_else}

unfoldable pub env_enabled : String → Bool
unfolding lower strip
env_enabled value =
    let v = lower (strip value) in
    if v == "1" then true else if v == "true" then true else if v == "yes" then true else v == "on"

unfoldable pub map_crisis_level_to_status : String → String
unfolding lower strip
map_crisis_level_to_status level =
    let v = lower (strip level) in
    if v == "critical"
    then "CRITICAL"
    else if v == "warning"
    then "WARNING"
    else if v == "watch"
    then "WATCH"
    else if v == "none"
    then "NONE"
    else "NORMAL"

unfoldable pub level_rank : String → ℕ
unfolding lower strip
level_rank level =
    let v = lower (strip level) in
    if v == "critical"
    then 4
    else if v == "warning"
    then 3
    else if v == "watch"
    then 2
    else if v == "normal"
    then 1
    else 0

-- `str(v)` where `v` is a text, or is missing: Python prints `None`.
abbrev pub str_of : {F : Type 0} → Json F → String
str_of (str s) = s
str_of _ = "None"

-- `v is False`
abbrev pub is_false : {F : Type 0} → Json F → Bool
is_false (bool false) = true
is_false _ = false

-- `notification_policy` of `_maybe_publish_crisis_alert`, from the project's crisis configuration.
policy_in : {F : Type 0} → Json F → Json F
unfolding get
policy_in (obj policy) = get "notification" policy
policy_in _ = obj end

unfoldable pub notification_policy : {F : Type 0} → Json F → Json F
unfolding get policy_in
notification_policy (obj config) = policy_in (get "response_policy" config)
notification_policy _ = policy_in (obj end)

unfoldable pub trigger_level : {F : Type 0} → Json F → String
unfolding get lower
trigger_level (obj policy) = or_else (lower (str_of (get "trigger_level" policy))) "warning"
trigger_level _ = or_else (lower "WARNING") "warning"

-- The guards on the policy, for an assessment of level `level`.
unfoldable pub alert_allowed : {F : Type 0} → Json F → String → Bool
alert_allowed policy level =
    if lower level == "none"
    then false
    else if is_false (get "enabled" (as_dict policy))
    then false
    else not (ltb (level_rank (lower level)) (level_rank (trigger_level policy)))

-- All the guards of `_maybe_publish_crisis_alert`, for an assessment that is there: whether the alert is
-- handed to the producer.
unfoldable pub is_alert_sent : {F : Type 0} → Bool → Json F → String → String → String → Bool
unfolding alert_allowed notification_policy strip non_empty
is_alert_sent producer_running crisis_config owner_user_id project_id level =
    producer_running
    && alert_allowed (notification_policy crisis_config) level
    && non_empty (strip project_id)
    && non_empty owner_user_id

unfoldable pub alert_threshold_for_level : {F : Type 0} → ⦃fl : Float F⦄ → String → F
unfolding lower strip
alert_threshold_for_level ⦃fl⦄ level =
    let v = lower (strip level) in
    if v == "critical" then fl.lit 5 1 else if v == "watch" then fl.lit 8 10 else fl.lit 25 10

trigger_level-missing :
    {F : Type 0} (policy : JsonDict F)
    → get "trigger_level" policy ≡ null
    → trigger_level (obj policy) ≡ "none"
unfolding trigger_level non_empty
trigger_level-missing policy missing = rw missing

rank-not-lt-none : (n : ℕ) → not (ltb n (level_rank "none")) ≡ true
unfolding level_rank
rank-not-lt-none n = ground arith

-- With a policy object that names no trigger level and does not switch alerts off, an alert goes
-- out for every level but `none`.
pub alert_allowed-missing_trigger :
    {F : Type 0} (policy : JsonDict F) (level : String)
    → get "trigger_level" policy ≡ null
    → is_false (get "enabled" policy) ≡ false
    → (lower level == "none") ≡ false
    → alert_allowed (obj policy) level ≡ true
unfolding alert_allowed as_dict
alert_allowed-missing_trigger policy level missing on some_level =
    rw (some_level, on, trigger_level-missing policy missing)
      (rank-not-lt-none (level_rank (lower level)))

-- Under any policy, where an alert of one level goes out, one of a level that is not `none` and not
-- lower goes out too.
pub alert_allowed-monotone :
    {F : Type 0} (policy : Json F) (level other : String)
    → alert_allowed policy level ≡ true
    → (lower other == "none") ≡ false
    → level_rank (lower level) ≤ level_rank (lower other)
    → alert_allowed policy other ≡ true
unfolding alert_allowed
alert_allowed-monotone policy level other allowed some_level higher = ground arith

alert_allowed-none :
    {F : Type 0} (policy : Json F) (level : String)
    → (lower level == "none") ≡ true
    → alert_allowed policy level ≡ false
unfolding alert_allowed
alert_allowed-none policy level e = rw e refl

and-swap : (a b c d : Bool) → (a && b && c && d) ≡ (b && a && c && d)
and-swap a b c d = ground arith

-- A project whose configuration has no response policy gets an alert of every level but `none`, also of
-- `watch`: it is handed to the producer exactly if the level is not `none`, the producer runs, and the
-- assessment has a project and the configuration an owner.
pub alert_by_default :
    {F : Type 0} (config : JsonDict F) (producer_running : Bool) (owner_user_id project_id : String)
    (level : String)
    → get "response_policy" config ≡ null
    → is_alert_sent producer_running (obj config) owner_user_id project_id level ≡ (
        not (lower level == "none")
        && producer_running
        && non_empty (strip project_id)
        && non_empty owner_user_id)
unfolding is_alert_sent notification_policy
alert_by_default config producer_running owner_user_id project_id level missing =
    elim (Bool-cases (lower level == "none")) [
      | inl e ↦
          rw (missing, alert_allowed-none (obj end) level e, e)
            (and-swap producer_running false (non_empty (strip project_id))
              (non_empty owner_user_id))
      | inr e ↦
          rw (missing, alert_allowed-missing_trigger end level refl refl e, e)
            (and-swap producer_running true (non_empty (strip project_id))
              (non_empty owner_user_id))
    ]
