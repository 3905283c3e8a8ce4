-- ===== src/Consumer/Examples.antt =====
-- Runs of the consumer's crisis handling.
use analysis_srv.Prelude.{
  ℕ, String, ◌≡◌, refl, not, ◌&&◌, true, false, Option, some, List, [], ◌∷◌, arith,
}
use analysis_srv.Prelude.Json.{JsonDict, obj, end, get}
use analysis_srv.Prelude.Eq.{◌==◌, text_key}
use analysis_srv.Prelude.Text.{lower, strip, non_empty}
use analysis_srv.Prelude.Int.{ℤ}
use analysis_srv.Prelude.Dict
use analysis_srv.Consumer.Levels.{is_alert_sent, alert_by_default}
use analysis_srv.Consumer.Runtime.{Runtime, Surroundings, Assessment, run}
use analysis_srv.Consumer.Cooldown.{IsTracked, IsSpaced, IsHealthy, run-IsSpaced, seen_in}

abbrev start : Runtime
start = record {
  last_status = [];
  redis = some (record { states = []; locks = [] });
  requested = [];
}

abbrev at : ℕ → Surroundings
at t = record {
  apply_enabled = true;
  has_client = true;
  cooldown_seconds = 300;
  now = t;
  later = t;
  written = t;
  token = "k";
  get_fails = false;
  set_fails = false;
  lock_fails = false;
  apply_fails = false;
}

at-IsHealthy : (t : ℕ) → IsHealthy 300 (at t)
at-IsHealthy t = record { gets = refl; sets = refl; waits = omega arith; some_gap = omega arith }

abbrev failing : ℕ → Surroundings
failing t = record (at t) { apply_fails = true }

failing-IsHealthy : (t : ℕ) → IsHealthy 300 (failing t)
failing-IsHealthy t = record {
  gets = refl;
  sets = refl;
  waits = omega arith;
  some_gap = omega arith;
}

abbrev of_level : String → Assessment
of_level level = record { project_id = "p"; crisis_level = level }

abbrev calls : List (Surroundings × Option Assessment)
calls =
    (at 1000, some (of_level "critical"))
    ∷ (failing 1400, some (of_level "watch"))
    ∷ (at 1410, some (of_level "watch"))
    ∷ (at 1500, some (of_level "warning"))
    ∷ []

start-IsTracked : IsTracked start
unfolding seen_in Dict.get
start-IsTracked project = refl

run-IsSpaced_example : IsTracked (run calls start) × IsSpaced 300 (run calls start).requested
run-IsSpaced_example =
    run-IsSpaced 300 calls start
      (at-IsHealthy 1000, (failing-IsHealthy 1400, (at-IsHealthy 1410, (at-IsHealthy 1500, tt))))
      start-IsTracked tt

abbrev nothing : JsonDict ℤ
nothing = end

alert_by_default_example :
    is_alert_sent true (obj nothing) "user" "p" "watch"
    ≡ (not (lower "watch" == "none") && true && non_empty (strip "p") && non_empty "user")
unfolding get
alert_by_default_example = alert_by_default nothing true "user" "p" "watch" refl
