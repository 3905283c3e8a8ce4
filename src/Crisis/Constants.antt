-- ===== src/Crisis/Constants.antt =====
-- The thresholds of crisis/constant.py and the record that holds those of a run.
use analysis_srv.Prelude.Float.{Float}

pub record Thresholds (F : Type 0) : Type 0 where
  pub issue_watch : F
  pub issue_warning : F
  pub issue_critical : F
  pub controversy_watch : F
  pub controversy_warning : F
  pub controversy_critical : F
  pub sentiment_watch : F
  pub sentiment_warning : F
  pub sentiment_critical : F

abbrev pub default_thresholds : {F : Type 0} → ⦃fl : Float F⦄ → Thresholds F
default_thresholds ⦃fl⦄ = record {
  issue_watch = fl.lit 5 1;
  issue_warning = fl.lit 12 1;
  issue_critical = fl.lit 25 1;
  controversy_watch = fl.lit 45 100;
  controversy_warning = fl.lit 65 100;
  controversy_critical = fl.lit 80 100;
  sentiment_watch = fl.lit 40 100;
  sentiment_warning = fl.lit 60 100;
  sentiment_critical = fl.lit 75 100;
}
