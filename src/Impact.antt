-- ===== src/Impact.antt =====
-- internal/impact_calculation: the impact and the risk of a document. Python's logarithm, the lower case
-- of a text and the format of a float with two digits are a parameter; `F` is the type of floats.
pub mod Bounds
mod Examples
use Prim.Native.String.{◌++◌ as ◌+s◌}
use analysis_srv.Prelude.{
  ℕ, ◌+◌, ◌*◌, String, Bool, true, false, ◌&&◌, ◌||◌, List, [], ◌∷◌, ◌++◌, filter, leb,
  if◌then◌else◌,
}
use analysis_srv.Prelude.Eq.{◌==◌, text_key}
use analysis_srv.Prelude.Int.{ℤ, pos, pos_part, leb_ℤ}
use analysis_srv.Prelude.Float.{Float, max_f, min_f}
use analysis_srv.Prelude.Text.{non_empty, strip, upper}
use analysis_srv.Prelude.Text.Split.{join, contains}

pub record Python (F : Type 0) : Type 0 where
  pub log10 : F → F
  pub lower : String → String
  pub two_digits : F → String

pub record Config (F : Type 0) : Type 0 where
  pub platform_weight_tiktok : F
  pub platform_weight_facebook : F
  pub platform_weight_youtube : F
  pub platform_weight_instagram : F
  pub platform_weight_unknown : F
  pub amp_negative : F
  pub amp_neutral : F
  pub amp_positive : F
  pub viral_threshold : F
  pub kol_follower_threshold : ℤ
  pub max_raw_score_ceiling : F

pub record Input (F : Type 0) : Type 0 where
  pub views : ℤ
  pub likes : ℤ
  pub comments_count : ℤ
  pub shares : ℤ
  pub followers : ℤ
  pub is_verified : Bool
  pub sentiment_label : String
  pub sentiment_score : F
  pub platform : String
  pub text : String

pub record RiskFactor : Type 0 where
  pub factor : String
  pub severity : String
  pub description : String

pub record ImpactBreakdown (F : Type 0) : Type 0 where
  pub engagement_score : F
  pub reach_score : F
  pub platform_multiplier : F
  pub sentiment_amplifier : F
  pub raw_impact : F

pub record Output (F : Type 0) : Type 0 where
  pub impact_score : F
  pub risk_level : String
  pub is_viral : Bool
  pub is_kol : Bool
  pub impact_breakdown : ImpactBreakdown F
  pub engagement_score : F
  pub virality_score : F
  pub influence_score : F
  pub risk_factors : List RiskFactor

-- The level, the score and the factors of `calculate_risk`.
pub record Risk (F : Type 0) : Type 0 where
  pub level : String
  pub score : F
  pub factors : List RiskFactor

abbrev crisis_keywords : List String
crisis_keywords =
    "scam" ∷ "lừa đảo" ∷ "lừa" ∷ "gian lận" ∷ "cháy" ∷ "nổ" ∷ "tai nạn" ∷ "chết" ∷ "tẩy chay"
    ∷ "phốt" ∷ "scandal" ∷ "nguy hiểm" ∷ "độc hại" ∷ "kém chất lượng" ∷ []

module _ {F : Type 0} ⦃fl : Float F⦄ where
  unfoldable pub calculate_engagement_score : ℤ → ℤ → ℤ → ℤ → F
  calculate_engagement_score likes comments shares views =
      let weighted_sum =
        fl.lit (pos_part likes * 1 + pos_part comments * 2 + pos_part shares * 3) 1 in
      min_f
        (if leb 100 (pos_part views)
          then fl.mul (fl.div weighted_sum (fl.lit (pos_part views) 1)) (fl.lit 100 1)
          else weighted_sum)
        (fl.lit 100 1)

  unfoldable pub calculate_virality_score : ℤ → ℤ → ℤ → F
  calculate_virality_score likes comments shares =
      fl.div (fl.lit (pos_part shares) 1) (fl.lit (pos_part likes + pos_part comments + 1) 1)

  unfoldable pub calculate_influence_score : ℤ → F → F
  calculate_influence_score followers engagement_score =
      fl.mul (fl.div (fl.lit (pos_part followers) 1) (fl.lit 1_000_000 1)) engagement_score

  unfoldable pub get_platform_multiplier : Config F → String → F
  get_platform_multiplier config platform =
      let normalized = upper (strip platform) in
      if normalized == "TIKTOK"
      then config.platform_weight_tiktok
      else if normalized == "FACEBOOK"
      then config.platform_weight_facebook
      else if normalized == "YOUTUBE"
      then config.platform_weight_youtube
      else if normalized == "INSTAGRAM"
      then config.platform_weight_instagram
      else config.platform_weight_unknown

  unfoldable pub get_sentiment_amplifier : Config F → String → F
  get_sentiment_amplifier config label =
      let normalized = upper (strip label) in
      if normalized == "NEGATIVE"
      then config.amp_negative
      else if normalized == "POSITIVE"
      then config.amp_positive
      else config.amp_neutral

  unfoldable pub normalize_impact : Config F → F → F
  normalize_impact config raw_impact =
      if fl.le raw_impact (fl.lit 0 1)
      then fl.lit 0 1
      else min_f (fl.lit 100 1) (
          fl.mul (fl.div raw_impact (max_f config.max_raw_score_ceiling (fl.lit 1 1)))
            (fl.lit 100 1))

  unfoldable pub risk_level : F → String
  risk_level score =
      if fl.le (fl.lit 8 10) score
      then "CRITICAL"
      else if fl.le (fl.lit 6 10) score
      then "HIGH"
      else if fl.le (fl.lit 3 10) score
      then "MEDIUM"
      else "LOW"

  module _ (py : Python F) where
    unfoldable pub calculate_reach : ℤ → Bool → F
    calculate_reach followers is_verified =
        let base = py.log10 (fl.lit (pos_part followers + 1) 1) in
        if fl.le base (fl.lit 0 1)
        then fl.lit 0 1
        else if is_verified
        then fl.mul base (fl.lit 12 10)
        else base

    -- The steps of `calculate_risk`: each raises the score and adds a factor, or does neither.
    unfoldable pub weigh_negative : F → F × List RiskFactor → F × List RiskFactor
    weigh_negative sentiment_score risk =
        if fl.lt sentiment_score (fl.neg (fl.lit 3 10))
        then (
          fl.add risk.0 (fl.lit 3 10),
          risk.1
              ++ record {
                factor = "NEGATIVE_SENTIMENT";
                severity = "MEDIUM";
                description =
                    ("Negative sentiment detected (score: " +s py.two_digits sentiment_score)
                    +s ")";
              }
                ∷ [],
        )
        else risk

    unfoldable pub weigh_extreme : F → F × List RiskFactor → F × List RiskFactor
    weigh_extreme sentiment_score risk =
        if fl.lt sentiment_score (fl.neg (fl.lit 7 10))
        then (
          fl.add risk.0 (fl.lit 2 10),
          risk.1
              ++ record {
                factor = "EXTREME_NEGATIVE";
                severity = "HIGH";
                description =
                    ("Extreme negative sentiment (score: " +s py.two_digits sentiment_score) +s ")";
              }
                ∷ [],
        )
        else risk

    abbrev matched_keywords : String → List String
    matched_keywords text =
        let text_lower = if non_empty text then py.lower text else "" in
        filter (λ keyword. contains keyword text_lower) crisis_keywords

    unfoldable pub weigh_keywords : List String → F × List RiskFactor → F × List RiskFactor
    weigh_keywords [] risk = risk
    weigh_keywords (keyword ∷ keywords) risk = (
      fl.add risk.0 (fl.lit 4 10),
      risk.1
          ++ record {
            factor = "KEYWORD_MATCH";
            severity = "HIGH";
            description = "Crisis keywords detected: " +s join ", " (keyword ∷ keywords);
          }
            ∷ [],
    )

    unfoldable pub amplify : F → F × List RiskFactor → F × List RiskFactor
    amplify virality_score risk =
        let amplifier = fl.add (fl.lit 1 1) virality_score in
        if fl.le (fl.lit 3 10) risk.0 && fl.lt (fl.lit 1 10) virality_score
        then (
          fl.mul risk.0 amplifier,
          risk.1
              ++ record {
                factor = "VIRAL_SPREAD";
                severity = "CRITICAL";
                description =
                    ((("High virality amplifying risk (virality: " +s py.two_digits virality_score)
                        +s ", amplifier: ")
                      +s py.two_digits amplifier)
                    +s "x)";
              }
                ∷ [],
        )
        else risk

    unfoldable pub calculate_risk : F → String → F → Risk F
    calculate_risk sentiment_score text virality_score =
        let weighed = amplify virality_score (
          weigh_keywords (matched_keywords text)
            (weigh_extreme sentiment_score (weigh_negative sentiment_score (fl.lit 0 1, [])))) in
        record { level = risk_level weighed.0; score = weighed.0; factors = weighed.1 }

    unfoldable pub process : Config F → Input F → Output F
    process config input =
        let engagement_score =
          calculate_engagement_score input.likes input.comments_count input.shares input.views in
        let virality_score =
          calculate_virality_score input.likes input.comments_count input.shares in
        let reach_score = calculate_reach input.followers input.is_verified in
        let platform_multiplier = get_platform_multiplier config input.platform in
        let sentiment_amplifier = get_sentiment_amplifier config input.sentiment_label in
        let raw_impact =
          fl.mul (fl.mul (fl.mul engagement_score reach_score) platform_multiplier)
            sentiment_amplifier in
        let impact_score = normalize_impact config raw_impact in
        let risk = calculate_risk input.sentiment_score input.text virality_score in
        record {
          impact_score = impact_score;
          risk_level = risk.level;
          is_viral = fl.le config.viral_threshold impact_score;
          is_kol = leb_ℤ config.kol_follower_threshold input.followers;
          impact_breakdown = record {
            engagement_score = engagement_score;
            reach_score = reach_score;
            platform_multiplier = platform_multiplier;
            sentiment_amplifier = sentiment_amplifier;
            raw_impact = raw_impact;
          };
          engagement_score = engagement_score;
          virality_score = virality_score;
          influence_score = calculate_influence_score input.followers engagement_score;
          risk_factors = risk.factors;
        }
