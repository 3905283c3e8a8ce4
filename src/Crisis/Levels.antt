-- ===== src/Crisis/Levels.antt =====
-- How severities, the composite score and the level follow from the evidence.
use analysis_srv.Prelude.{
  ℕ, ◌≡◌, ◌≤◌, true, false, Option, List, [], ◌++◌, arith, length, length-append, head?,
}
use mathlib.Core.Option.{none as absent, some}
use analysis_srv.Prelude.Int.{ℤ}
use analysis_srv.Prelude.Float.{Float, IsOrdered}
use analysis_srv.Crisis.Constants.{Thresholds}
use analysis_srv.Crisis.{
  CrisisSignal, CrisisLevel, none, watch, warning, critical, Severity, low, medium, high,
  critical_like_proxy, Issue, Thread, Reports, pressure_to_severity, controversy_to_severity,
  neg_ratio_to_severity, issue_signals, thread_signals, sentiment_signals, negative_ratio,
  collect_signals, crisis_level,
}

abbrev pub severity_rank : Severity → ℕ
severity_rank low = 0
severity_rank medium = 1
severity_rank high = 2
severity_rank critical_like_proxy = 3

abbrev pub level_number : CrisisLevel → ℕ
level_number none = 0
level_number watch = 1
level_number warning = 2
level_number critical = 3

module _ {F : Type 0} ⦃fl : Float F⦄ (ordered : IsOrdered fl) where
  -- For ordered floats: a higher value never has a lower severity, for each of the three signals.
  pub severity_monotone :
      (t : Thresholds F) (a b : F)
      → fl.le a b ≡ true
      → (severity_rank (pressure_to_severity a t) ≤ severity_rank (pressure_to_severity b t))
        × (severity_rank (controversy_to_severity a t)
            ≤ severity_rank (controversy_to_severity b t))
        × (severity_rank (neg_ratio_to_severity a t) ≤ severity_rank (neg_ratio_to_severity b t))
  unfolding pressure_to_severity controversy_to_severity neg_ratio_to_severity
  severity_monotone t a b h = (
    ground (arith, ordered.le_trans t.issue_critical a b, ordered.le_trans t.issue_warning a b),
    ground (
      arith,
      ordered.le_trans t.controversy_critical a b,
      ordered.le_trans t.controversy_warning a b,
    ),
    ground (
      arith,
      ordered.le_trans t.sentiment_critical a b,
      ordered.le_trans t.sentiment_warning a b,
    ),
  )

  -- For ordered floats: with the same signals a higher composite score never gives a lower level.
  pub crisis_level_monotone :
      (a b : F) (signals : List (CrisisSignal F))
      → fl.le a b ≡ true
      → level_number (crisis_level a signals) ≤ level_number (crisis_level b signals)
  unfolding crisis_level
  crisis_level_monotone a b signals h = ground (
    arith,
    ordered.le_trans (fl.lit 5 1) a b,
    ordered.le_trans (fl.lit 25 10) a b,
    ordered.le_trans (fl.lit 8 10) a b,
  )

module _ {F : Type 0} ⦃fl : Float F⦄ where
  length-issue_signals : (t : Thresholds F) (i : Option (Issue F)) → length (issue_signals t i) ≤ 1
  unfolding issue_signals
  length-issue_signals t absent = omega arith
  length-issue_signals t (some issue) = ground arith

  length-thread_signals :
      (t : Thresholds F) (i : Option (Thread F)) → length (thread_signals t i) ≤ 1
  unfolding thread_signals
  length-thread_signals t absent = omega arith
  length-thread_signals t (some thread) = ground arith

  length-sentiment_signals :
      (t : Thresholds F) (deltas : List ℤ) → length (sentiment_signals t deltas) ≤ 1
  unfolding sentiment_signals
  length-sentiment_signals t deltas = ground arith

  -- There are at most three signals.
  pub length-collect_signals :
      (t : Thresholds F) (reports : Reports F) → length (collect_signals t reports) ≤ 3
  unfolding collect_signals
  length-collect_signals t reports = omega (
    arith,
    length-append (issue_signals t (head? reports.issues))
        (thread_signals t (head? reports.threads) ++ sentiment_signals t reports.entity_deltas),
    length-append (thread_signals t (head? reports.threads))
        (sentiment_signals t reports.entity_deltas),
    length-issue_signals t (head? reports.issues),
    length-thread_signals t (head? reports.threads),
    length-sentiment_signals t reports.entity_deltas,
  )

  -- There is no signal if the top issue, the top thread and the share of falling entities all stay
  -- below their watch thresholds.
  pub collect_signals_quiet :
      (t : Thresholds F) (reports : Reports F) (i : Issue F) (h : Thread F)
      → head? reports.issues ≡ some i
      → head? reports.threads ≡ some h
      → fl.le t.issue_watch i.issue_pressure_proxy ≡ false
      → fl.le t.controversy_watch h.controversy_score_proxy ≡ false
      → fl.le t.sentiment_watch (negative_ratio reports.entity_deltas) ≡ false
      → collect_signals t reports ≡ []
  unfolding collect_signals
  collect_signals_quiet t reports i h ei eh a b c = rw (ei, eh) (ground arith)
