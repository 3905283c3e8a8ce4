-- ===== src/Impact/Examples.antt =====
-- A post of a verified author, with floats in millionths.
use analysis_srv.Prelude.{◌≡◌, refl, true}
use analysis_srv.Prelude.Int.{ℤ, pos}
use analysis_srv.Prelude.Float.{scaled, scaled-IsOrdered}
use analysis_srv.Impact.{
  Python, Config, Input, process, calculate_risk, weigh_negative, weigh_extreme, weigh_keywords,
  amplify,
}
use analysis_srv.Impact.Bounds.{process-bounded, calculate_risk-clear}
use analysis_srv.Prelude.Text.{lower, non_empty}
use analysis_srv.Prelude.Text.Split.{contains, starts_with}

-- A logarithm that is constant, and no digits.
abbrev py : Python ℤ
py = record { log10 = λ x. pos 3_000_000; lower = lower; two_digits = λ x. "" }

abbrev config : Config ℤ
config = record {
  platform_weight_tiktok = pos 1_000_000;
  platform_weight_facebook = pos 1_200_000;
  platform_weight_youtube = pos 1_500_000;
  platform_weight_instagram = pos 1_100_000;
  platform_weight_unknown = pos 1_000_000;
  amp_negative = pos 1_500_000;
  amp_neutral = pos 1_000_000;
  amp_positive = pos 1_100_000;
  viral_threshold = pos 70_000_000;
  kol_follower_threshold = pos 50_000;
  max_raw_score_ceiling = pos 100_000_000_000;
}

abbrev input : Input ℤ
input = record {
  views = pos 500;
  likes = pos 900;
  comments_count = pos 10;
  shares = pos 4;
  followers = pos 999;
  is_verified = true;
  sentiment_label = "POSITIVE";
  sentiment_score = pos 500_000;
  platform = "tiktok";
  text = "fine";
}

process-bounded_example :
    (scaled.le (process py config input).engagement_score (scaled.lit 100 1) ≡ true)
    × (scaled.le (process py config input).impact_score (scaled.lit 100 1) ≡ true)
process-bounded_example = process-bounded scaled-IsOrdered py config input refl

calculate_risk-clear_example :
    ((calculate_risk py (pos 500_000) "fine" (pos 0)).score ≡ scaled.lit 0 1)
    × ((calculate_risk py (pos 500_000) "fine" (pos 0)).level ≡ "LOW")
unfolding calculate_risk weigh_negative weigh_extreme weigh_keywords amplify contains starts_with
    non_empty lower
calculate_risk-clear_example =
    calculate_risk-clear py (pos 500_000) "fine" (pos 0) refl refl refl refl
