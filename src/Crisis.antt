-- ===== src/Crisis.antt =====
-- The crisis scorer (internal/crisis): thresholds, the three signals, the composite score and the
-- level. `F` is the type of floats. A report's list stands for the report; `to_float` is Python's
-- `float(value)`, `none` where it raises.
pub mod Constants
pub mod Config
pub mod Order
pub mod Levels
mod Examples
use analysis_srv.Prelude.{
  ℕ, String, Bool, true, false, ◌||◌, Option, some, none as absent, List, [], ◌∷◌, ◌++◌, length,
  count, any, head?, ltb, if◌then◌else◌,
}
use analysis_srv.Prelude.Eq.{◌==◌, text_key}
use analysis_srv.Prelude.Int.{ℤ, pos, ltb_ℤ}
use analysis_srv.Prelude.Float.{Float}
use analysis_srv.Prelude.Json.{Json}
use analysis_srv.Crisis.Constants.{Thresholds}
use analysis_srv.Crisis.Config.{thresholds_from_config}

pub data CrisisLevel : Type 0 where
  none watch warning critical : CrisisLevel

pub data Severity : Type 0 where
  low medium high critical_like_proxy : Severity

pub data SignalType : Type 0 where
  issue_pressure controversy_spike sentiment_collapse : SignalType

pub record CrisisSignal (F : Type 0) : Type 0 where
  pub signal_type : SignalType
  pub severity : Severity
  pub evidence_value : F
  pub threshold_used : F
  pub evidence_references : List String

pub record CrisisAssessment (F : Type 0) : Type 0 where
  pub run_id : String
  pub project_id : String
  pub campaign_id : String
  pub crisis_level : CrisisLevel
  pub signals : List (CrisisSignal F)
  pub top_issue_category : Option String
  pub top_issue_pressure : F
  pub top_controversy_score : F
  pub composite_crisis_score : F

unfoldable pub is_actionable : CrisisLevel → Bool
is_actionable none = false
is_actionable watch = true
is_actionable warning = true
is_actionable critical = true

-- What the scorer reads of the three reports.
pub record Issue (F : Type 0) : Type 0 where
  pub issue_category : String
  pub issue_pressure_proxy : F
  pub evidence_references : List String

pub record Thread (F : Type 0) : Type 0 where
  pub controversy_score_proxy : F
  pub evidence_references : List String

pub record Reports (F : Type 0) : Type 0 where
  pub issues : List (Issue F)
  pub threads : List (Thread F)
  -- delta_mention_count of each entity of the SOV report
  pub entity_deltas : List ℤ

abbrev pub is_critical : Severity → Bool
is_critical critical_like_proxy = true
is_critical _ = false

abbrev pub is_falling : ℤ → Bool
is_falling delta = ltb_ℤ delta (pos 0)

module _ {F : Type 0} ⦃fl : Float F⦄ where
  unfoldable pub pressure_to_severity : F → Thresholds F → Severity
  pressure_to_severity pressure t =
      if fl.le t.issue_critical pressure
      then critical_like_proxy
      else if fl.le t.issue_warning pressure
      then high
      else medium

  unfoldable pub controversy_to_severity : F → Thresholds F → Severity
  controversy_to_severity score t =
      if fl.le t.controversy_critical score
      then critical_like_proxy
      else if fl.le t.controversy_warning score
      then high
      else medium

  unfoldable pub neg_ratio_to_severity : F → Thresholds F → Severity
  neg_ratio_to_severity ratio t =
      if fl.le t.sentiment_critical ratio
      then high
      else if fl.le t.sentiment_warning ratio
      then medium
      else low

  unfoldable pub issue_signals : Thresholds F → Option (Issue F) → List (CrisisSignal F)
  unfolding pressure_to_severity
  issue_signals t absent = []
  issue_signals t (some issue) =
      if fl.le t.issue_watch issue.issue_pressure_proxy
      then record {
        signal_type = issue_pressure;
        severity = pressure_to_severity issue.issue_pressure_proxy t;
        evidence_value = issue.issue_pressure_proxy;
        threshold_used = t.issue_watch;
        evidence_references = issue.evidence_references;
      }
        ∷ []
      else []

  unfoldable pub thread_signals : Thresholds F → Option (Thread F) → List (CrisisSignal F)
  unfolding controversy_to_severity
  thread_signals t absent = []
  thread_signals t (some thread) =
      if fl.le t.controversy_watch thread.controversy_score_proxy
      then record {
        signal_type = controversy_spike;
        severity = controversy_to_severity thread.controversy_score_proxy t;
        evidence_value = thread.controversy_score_proxy;
        threshold_used = t.controversy_watch;
        evidence_references = thread.evidence_references;
      }
        ∷ []
      else []

  abbrev pub negative_ratio : List ℤ → F
  negative_ratio deltas = fl.div (fl.lit (count is_falling deltas) 1) (fl.lit (length deltas) 1)

  unfoldable pub sentiment_signals : Thresholds F → List ℤ → List (CrisisSignal F)
  unfolding neg_ratio_to_severity
  sentiment_signals t deltas =
      if ltb 0 (length deltas)
      then if fl.le t.sentiment_watch (negative_ratio deltas)
        then record {
          signal_type = sentiment_collapse;
          severity = neg_ratio_to_severity (negative_ratio deltas) t;
          evidence_value = fl.round 4 (negative_ratio deltas);
          threshold_used = t.sentiment_watch;
          evidence_references = [];
        }
          ∷ []
        else []
      else []

  unfoldable pub weight_of : Severity → F
  weight_of low = fl.lit 3 10
  weight_of medium = fl.lit 1 1
  weight_of high = fl.lit 18 10
  weight_of critical_like_proxy = fl.lit 25 10

  -- sum(...) adds from the left, from 0
  unfoldable pub add_weights : F → List (CrisisSignal F) → F
  unfolding weight_of
  add_weights acc [] = acc
  add_weights acc (s ∷ signals) = add_weights (fl.add acc (weight_of s.severity)) signals

  unfoldable pub composite_score : List (CrisisSignal F) → F
  unfolding add_weights
  composite_score signals = fl.round 4 (add_weights (fl.lit 0 1) signals)

  unfoldable pub crisis_level : F → List (CrisisSignal F) → CrisisLevel
  crisis_level composite signals =
      if any (λ s. is_critical s.severity) signals || fl.le (fl.lit 5 1) composite
      then critical
      else if fl.le (fl.lit 25 10) composite
      then warning
      else if fl.le (fl.lit 8 10) composite
      then watch
      else none

  unfoldable pub collect_signals : Thresholds F → Reports F → List (CrisisSignal F)
  unfolding issue_signals thread_signals sentiment_signals
  collect_signals t reports =
      issue_signals t (head? reports.issues)
      ++ (thread_signals t (head? reports.threads) ++ sentiment_signals t reports.entity_deltas)

  unfoldable pub assess_crisis :
      (Json F → Option F) → String → String → String → Reports F → Json F → CrisisAssessment F
  unfolding thresholds_from_config collect_signals composite_score crisis_level
  assess_crisis to_float run_id project_id campaign_id reports config =
      let signals = collect_signals (thresholds_from_config to_float config) reports in
      let composite = composite_score signals in
      let top_issue = head? reports.issues in
      record {
        run_id = run_id;
        project_id = project_id;
        campaign_id = campaign_id;
        crisis_level = crisis_level composite signals;
        signals = signals;
        top_issue_category = elim top_issue [ absent ↦ absent | some i ↦ some i.issue_category ];
        top_issue_pressure = elim top_issue [
          | absent ↦ fl.lit 0 1
          | some i ↦ i.issue_pressure_proxy
        ];
        top_controversy_score = elim (head? reports.threads) [
          | absent ↦ fl.lit 0 1
          | some t ↦ t.controversy_score_proxy
        ];
        composite_crisis_score = composite;
      }
