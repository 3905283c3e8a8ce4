-- ===== src/Crisis/Order.antt =====
-- The thresholds of two signals stay in order, whatever the project configures.
use analysis_srv.Prelude.{◌≡◌, inl, inr, refl, true, Option, List, [], ◌∷◌, arith, Bool-cases}
use analysis_srv.Prelude.Eq.{◌==◌, text_key}
use analysis_srv.Prelude.Float.{Float, IsOrdered, max_f, min_f}
use analysis_srv.Prelude.Float.Bounds.{le-max_left, le-max_right, min-le_right, le-min}
use analysis_srv.Prelude.Json.{Json, JsonList, null, obj, nil, cons, get}
use analysis_srv.Crisis.Constants.{Thresholds, default_thresholds}
use analysis_srv.Crisis.Config.{
  apply_issue_rule, apply_issue_rules, with_sentiment_warning, apply_sentiment_rules,
  apply_controversy, thresholds_from_config, viral_comments, rules_of, upper_at, float_or_zero,
}

-- What is used of the constants' order.
pub record HasConstants {F : Type 0} (fl : Float F) : Type 0 where
  pub sentiment_cap : fl.le (fl.lit 95 100) (fl.lit 98 100) ≡ true
  pub sentiment_defaults : fl.le (fl.lit 40 100) (fl.lit 60 100) ≡ true
  pub sentiment_defaults' : fl.le (fl.lit 60 100) (fl.lit 75 100) ≡ true
  pub controversy_defaults : fl.le (fl.lit 45 100) (fl.lit 65 100) ≡ true
  pub controversy_defaults' : fl.le (fl.lit 65 100) (fl.lit 80 100) ≡ true

module _ {F : Type 0} ⦃fl : Float F⦄ (ordered : IsOrdered fl) where
  module _ (constants : HasConstants fl) (to_float : Json F → Option F) where
    abbrev pub SentimentInOrder : Thresholds F → Type 0
    SentimentInOrder t =
        (fl.le t.sentiment_watch t.sentiment_warning ≡ true)
        × (fl.le t.sentiment_warning t.sentiment_critical ≡ true)

    abbrev pub ControversyInOrder : Thresholds F → Type 0
    ControversyInOrder t =
        (fl.le t.controversy_watch t.controversy_warning ≡ true)
        × (fl.le t.controversy_warning t.controversy_critical ≡ true)

    defaults_in_order : SentimentInOrder default_thresholds × ControversyInOrder default_thresholds
    defaults_in_order = (
      (constants.sentiment_defaults, constants.sentiment_defaults'),
      (constants.controversy_defaults, constants.controversy_defaults'),
    )

    with_sentiment_warning-InOrder :
        (warning : F) (t : Thresholds F)
        → SentimentInOrder (with_sentiment_warning to_float warning t)
    unfolding with_sentiment_warning
    with_sentiment_warning-InOrder warning t =
        let w = min_f (max_f warning (fl.lit 5 100)) (fl.lit 95 100) in
        (
          min-le_right ordered (fl.mul w (fl.lit 75 100)) w,
          le-min ordered w (max_f (fl.mul w (fl.lit 15 10)) w) (fl.lit 98 100)
              (le-max_right ordered (fl.mul w (fl.lit 15 10)) w)
              (ordered.le_trans w (fl.lit 95 100) (fl.lit 98 100)
                (min-le_right ordered (max_f warning (fl.lit 5 100)) (fl.lit 95 100))
                constants.sentiment_cap),
        )

    apply_controversy-InOrder :
        (xs : List F) (t : Thresholds F)
        → ControversyInOrder t
        → ControversyInOrder (apply_controversy to_float xs t)
    unfolding apply_controversy
    apply_controversy-InOrder [] t h = h
    apply_controversy-InOrder (x ∷ xs) t h = (le-max_left ordered _ _, le-max_left ordered _ _)

    apply_sentiment_rules-InOrder :
        (rules : JsonList F) (t : Thresholds F)
        → SentimentInOrder t
        → SentimentInOrder (apply_sentiment_rules to_float rules t)
    unfolding apply_sentiment_rules
    apply_sentiment_rules-InOrder nil t h = h
    apply_sentiment_rules-InOrder (cons (obj rule) rest) t h =
        let warning =
          fl.div (float_or_zero to_float (get "threshold_percent" rule)) (fl.lit 100 1) in
        elim (Bool-cases (upper_at to_float "type" rule == "NEGATIVE_SPIKE")) [
          | inl spike ↦ rw spike (elim (Bool-cases (fl.lt (fl.lit 0 1) warning)) [
            | inl some' ↦ simp some' (with_sentiment_warning-InOrder warning t)
            | inr zero' ↦ simp zero' (apply_sentiment_rules-InOrder rest t h)
          ])
          | inr other ↦ rw other (apply_sentiment_rules-InOrder rest t h)
        ]
    apply_sentiment_rules-InOrder (cons _ rest) t h = apply_sentiment_rules-InOrder rest t h

    -- The parts of `t` that the issue rules leave alone.
    abbrev SameOthers : Thresholds F → Thresholds F → Type 0
    SameOthers t u =
        (u.sentiment_watch ≡ t.sentiment_watch)
        × (u.sentiment_warning ≡ t.sentiment_warning)
        × (u.sentiment_critical ≡ t.sentiment_critical)
        × (u.controversy_watch ≡ t.controversy_watch)
        × (u.controversy_warning ≡ t.controversy_warning)
        × (u.controversy_critical ≡ t.controversy_critical)

    apply_issue_rules-SameOthers :
        (rules : JsonList F) (t : Thresholds F) → SameOthers t (apply_issue_rules to_float rules t)
    unfolding apply_issue_rules
    apply_issue_rules-SameOthers nil t = (refl, refl, refl, refl, refl, refl)
    apply_issue_rules-SameOthers (cons (obj rule) rest) t =
        ground (arith, apply_issue_rules-SameOthers rest (apply_issue_rule to_float rule t))
    apply_issue_rules-SameOthers (cons _ rest) t = apply_issue_rules-SameOthers rest t

    sentiment-keeps-controversy :
        (rules : JsonList F) (t : Thresholds F)
        → ControversyInOrder t
        → ControversyInOrder (apply_sentiment_rules to_float rules t)
    unfolding apply_sentiment_rules
    sentiment-keeps-controversy nil t h = h
    sentiment-keeps-controversy (cons (obj rule) rest) t h =
        ground (arith, sentiment-keeps-controversy rest t h)
    sentiment-keeps-controversy (cons _ rest) t h = sentiment-keeps-controversy rest t h

    controversy-keeps-sentiment :
        (xs : List F) (t : Thresholds F)
        → SentimentInOrder t
        → SentimentInOrder (apply_controversy to_float xs t)
    unfolding apply_controversy
    controversy-keeps-sentiment [] t h = h
    controversy-keeps-sentiment (x ∷ xs) t h = h

    -- For ordered floats in which the constants are ordered as written: whatever a project
    -- configures, the watch threshold of the sentiment signal is at most its warning threshold and
    -- that at most the critical one, and so for the controversy signal.
    pub thresholds_from_config-InOrder :
        (config : Json F)
        → SentimentInOrder (thresholds_from_config to_float config)
          × ControversyInOrder (thresholds_from_config to_float config)
    unfolding thresholds_from_config
    thresholds_from_config-InOrder (obj config) =
        let volume = rules_of to_float (get "volume_trigger" config) in
        let sentiment = rules_of to_float (get "sentiment_trigger" config) in
        let comments =
          viral_comments to_float (rules_of to_float (get "influencer_trigger" config)) in
        let t = apply_issue_rules to_float volume default_thresholds in
        let u = apply_sentiment_rules to_float sentiment t in
        let same = apply_issue_rules-SameOthers volume default_thresholds in
        (
          controversy-keeps-sentiment comments u
              (apply_sentiment_rules-InOrder sentiment t (ground (arith, same, defaults_in_order))),
          apply_controversy-InOrder comments u
              (sentiment-keeps-controversy sentiment t (ground (arith, same, defaults_in_order))),
        )
    thresholds_from_config-InOrder null = defaults_in_order
    thresholds_from_config-InOrder _ = defaults_in_order
