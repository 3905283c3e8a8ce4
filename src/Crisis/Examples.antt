-- ===== src/Crisis/Examples.antt =====
-- Runs of the crisis scorer, with floats in millionths.
use analysis_srv.Prelude.{refl, Option}
use mathlib.Core.Option.{none as absent, some}
use analysis_srv.Prelude.Int.{ℤ, pos}
use analysis_srv.Prelude.Float.{scaled, scaled-IsOrdered}
use analysis_srv.Prelude.Json.{Json, obj, float, field, end, arr, cons, nil}
use analysis_srv.Crisis.Config.{thresholds_from_config}
use analysis_srv.Crisis.Order.{
  HasConstants, SentimentInOrder, ControversyInOrder, thresholds_from_config-InOrder,
}

scaled-HasConstants : HasConstants scaled
scaled-HasConstants = record {
  sentiment_cap = refl;
  sentiment_defaults = refl;
  sentiment_defaults' = refl;
  controversy_defaults = refl;
  controversy_defaults' = refl;
}

-- `float(value)`, of a number.
abbrev to_float : Json ℤ → Option ℤ
to_float (float x) = some x
to_float _ = absent

abbrev config : Json ℤ
config = obj (
    field "sentiment_trigger"
      (obj (
        field "rules"
          (arr (cons (obj (field "threshold_percent" (float (pos 99_000_000)) end)) nil)) end))
      end)

thresholds_from_config-InOrder_example :
    SentimentInOrder scaled-IsOrdered scaled-HasConstants to_float
      (thresholds_from_config to_float config)
    × ControversyInOrder scaled-IsOrdered scaled-HasConstants to_float
        (thresholds_from_config to_float config)
thresholds_from_config-InOrder_example =
    thresholds_from_config-InOrder scaled-IsOrdered scaled-HasConstants to_float config

abbrev a : ℤ
a = pos 700_000
