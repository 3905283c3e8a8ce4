-- ===== src/Impact/Bounds.antt =====
-- What bounds the scores, and when there is no risk.
use analysis_srv.Prelude.{
  ◌≡◌, refl, String, true, false, ◌&&◌, List, [], ◌∷◌, ◌++◌, Bool-cases, inl, inr,
}
use analysis_srv.Prelude.Float.{Float, IsOrdered}
use analysis_srv.Prelude.Float.Bounds.{min-le_left, min-le_right}
use analysis_srv.Prelude.Int.{ℤ}
use analysis_srv.Impact.{
  Python, Config, Input, RiskFactor, calculate_engagement_score, normalize_impact, risk_level,
  weigh_negative, weigh_extreme, weigh_keywords, amplify, calculate_risk, process, matched_keywords,
}

module _ {F : Type 0} ⦃fl : Float F⦄ (ordered : IsOrdered fl) where
  engagement_bound :
      (likes comments shares views : ℤ)
      → fl.le (calculate_engagement_score likes comments shares views) (fl.lit 100 1) ≡ true
  unfolding calculate_engagement_score
  engagement_bound likes comments shares views = min-le_right ordered _ (fl.lit 100 1)

  impact_bound :
      (config : Config F) (raw_impact : F)
      → fl.le (fl.lit 0 1) (fl.lit 100 1) ≡ true
      → fl.le (normalize_impact config raw_impact) (fl.lit 100 1) ≡ true
  unfolding normalize_impact
  impact_bound config raw_impact small = elim (Bool-cases (fl.le raw_impact (fl.lit 0 1))) [
    | inl e ↦ rw (normalize_impact, e) small
    | inr e ↦ rw (normalize_impact, e) (min-le_left ordered (fl.lit 100 1) _)
  ]

  -- The engagement and the impact are at most 100, when the floats are ordered and 0 is not above 100.
  pub process-bounded :
      (py : Python F) (config : Config F) (input : Input F)
      → fl.le (fl.lit 0 1) (fl.lit 100 1) ≡ true
      → (fl.le (process py config input).engagement_score (fl.lit 100 1) ≡ true)
        × (fl.le (process py config input).impact_score (fl.lit 100 1) ≡ true)
  unfolding process
  process-bounded py config input small = (
    engagement_bound input.likes input.comments_count input.shares input.views,
    impact_bound config (process py config input).impact_breakdown.raw_impact small,
  )

module _ {F : Type 0} ⦃fl : Float F⦄ (py : Python F) where
  -- Each step of the sum leaves the score at 0 while there is no factor.
  abbrev IsClear : F × List RiskFactor → Type 0
  IsClear risk = risk.1 ≡ [] → risk.0 ≡ fl.lit 0 1

  last_is_some : (xs : List RiskFactor) (x : RiskFactor) → xs ++ x ∷ [] ≡ [] → ⊥
  last_is_some [] x h = cc
  last_is_some (y ∷ xs) x h = cc

  weigh_negative-IsClear :
      (s : F) (risk : F × List RiskFactor) → IsClear risk → IsClear (weigh_negative py s risk)
  unfolding weigh_negative
  weigh_negative-IsClear s risk h = elim (Bool-cases (fl.lt s (fl.neg (fl.lit 3 10)))) [
    | inl e ↦ rw (weigh_negative, e) (λ k. absurd (last_is_some risk.1 _ k))
    | inr e ↦ rw (weigh_negative, e) h
  ]

  weigh_extreme-IsClear :
      (s : F) (risk : F × List RiskFactor) → IsClear risk → IsClear (weigh_extreme py s risk)
  unfolding weigh_extreme
  weigh_extreme-IsClear s risk h = elim (Bool-cases (fl.lt s (fl.neg (fl.lit 7 10)))) [
    | inl e ↦ rw (weigh_extreme, e) (λ k. absurd (last_is_some risk.1 _ k))
    | inr e ↦ rw (weigh_extreme, e) h
  ]

  weigh_keywords-IsClear :
      (keywords : List String) (risk : F × List RiskFactor)
      → IsClear risk
      → IsClear (weigh_keywords py keywords risk)
  unfolding weigh_keywords
  weigh_keywords-IsClear [] risk h = h
  weigh_keywords-IsClear (keyword ∷ keywords) risk h = λ k. absurd (last_is_some risk.1 _ k)

  amplify-IsClear :
      (v : F) (risk : F × List RiskFactor) → IsClear risk → IsClear (amplify py v risk)
  unfolding amplify
  amplify-IsClear v risk h =
      elim (Bool-cases (fl.le (fl.lit 3 10) risk.0 && fl.lt (fl.lit 1 10) v)) [
        | inl e ↦ rw (amplify, e) (λ k. absurd (last_is_some risk.1 _ k))
        | inr e ↦ rw (amplify, e) h
      ]

  -- A document without a risk factor has the score 0 and, when 0 is below the three bounds, the level LOW.
  pub calculate_risk-clear :
      (sentiment_score : F) (text : String) (virality_score : F)
      → fl.le (fl.lit 8 10) (fl.lit 0 1) ≡ false
      → fl.le (fl.lit 6 10) (fl.lit 0 1) ≡ false
      → fl.le (fl.lit 3 10) (fl.lit 0 1) ≡ false
      → (calculate_risk py sentiment_score text virality_score).factors ≡ []
      → ((calculate_risk py sentiment_score text virality_score).score ≡ fl.lit 0 1)
        × ((calculate_risk py sentiment_score text virality_score).level ≡ "LOW")
  unfolding calculate_risk risk_level
  calculate_risk-clear s text v critical high medium none =
      let clear =
        amplify-IsClear v _
          (weigh_keywords-IsClear (matched_keywords py text) _
            (weigh_extreme-IsClear s _ (weigh_negative-IsClear s (fl.lit 0 1, []) (λ k. refl))))
          none in
      (clear, rw (clear, critical, high, medium) refl)
