-- ===== src/Crisis/Config.antt =====
-- `_thresholds_from_config` (assess_crisis.py): the project's rules change the thresholds.
use analysis_srv.Prelude.{String, true, Option, none, some, List, [], ◌∷◌, if◌then◌else◌}
use analysis_srv.Prelude.Eq.{◌==◌, text_key}
use analysis_srv.Prelude.Float.{Float, max_f, min_f}
use analysis_srv.Prelude.Json.{
  Json, JsonList, JsonDict, bool, str, obj, arr, nil, cons, get, get_or, truthy,
}
use analysis_srv.Prelude.Text.{upper}
use analysis_srv.Crisis.Constants.{Thresholds, default_thresholds}

unfoldable pub upper_of : {F : Type 0} → Json F → String
unfolding upper
upper_of (str s) = upper s
upper_of _ = ""

unfoldable pub list_of : {F : Type 0} → Json F → JsonList F
list_of (arr rules) = rules
list_of _ = nil

module _ {F : Type 0} ⦃fl : Float F⦄ (to_float : Json F → Option F) where
  -- _float(value, 0.0)
  unfoldable pub float_or_zero : Json F → F
  float_or_zero v = elim (to_float v) [ none ↦ fl.lit 0 1 | some x ↦ x ]

  -- str(rule.get(key) or "").upper(), of a key that holds a text or nothing
  unfoldable pub upper_at : String → JsonDict F → String
  unfolding get upper_of
  upper_at key rule = upper_of (get key rule)

  -- The rules of a trigger that is an object and enabled; `rules` that are no list are none.
  unfoldable pub rules_of : Json F → JsonList F
  unfolding get get_or truthy list_of
  rules_of (obj trigger) =
      if truthy (get_or "enabled" (bool true) trigger) then list_of (get "rules" trigger) else nil
  rules_of _ = nil

  -- One rule of the volume trigger.
  unfoldable pub apply_issue_rule : JsonDict F → Thresholds F → Thresholds F
  unfolding float_or_zero upper_at get
  apply_issue_rule rule t =
      let level = upper_at "level" rule in
      let growth = float_or_zero (get "threshold_percent_growth" rule) in
      let pressure = max_f (fl.lit 1 1) (fl.div growth (fl.lit 15 1)) in
      if fl.le growth (fl.lit 0 1)
      then t
      else if level == "WARNING"
      then record t {
        issue_warning = pressure;
        issue_watch = min_f t.issue_watch (fl.mul pressure (fl.lit 45 100));
      }
      else if level == "CRITICAL"
      then record t { issue_critical = pressure }
      else t

  unfoldable pub apply_issue_rules : JsonList F → Thresholds F → Thresholds F
  unfolding apply_issue_rule
  apply_issue_rules nil t = t
  apply_issue_rules (cons (obj rule) rest) t = apply_issue_rules rest (apply_issue_rule rule t)
  apply_issue_rules (cons _ rest) t = apply_issue_rules rest t

  -- The three thresholds that a spike rule with a positive percentage sets.
  unfoldable pub with_sentiment_warning : F → Thresholds F → Thresholds F
  with_sentiment_warning warning t =
      let w = min_f (max_f warning (fl.lit 5 100)) (fl.lit 95 100) in
      record t {
        sentiment_warning = w;
        sentiment_watch = min_f (fl.mul w (fl.lit 75 100)) w;
        sentiment_critical = min_f (max_f (fl.mul w (fl.lit 15 10)) w) (fl.lit 98 100);
      }

  -- The first spike rule with a positive percentage counts, and the loop ends there.
  unfoldable pub apply_sentiment_rules : JsonList F → Thresholds F → Thresholds F
  unfolding float_or_zero upper_at get with_sentiment_warning
  apply_sentiment_rules nil t = t
  apply_sentiment_rules (cons (obj rule) rest) t =
      let later = apply_sentiment_rules rest t in
      let warning = fl.div (float_or_zero (get "threshold_percent" rule)) (fl.lit 100 1) in
      if upper_at "type" rule == "NEGATIVE_SPIKE"
      then if fl.lt (fl.lit 0 1) warning then with_sentiment_warning warning t else later
      else later
  apply_sentiment_rules (cons _ rest) t = apply_sentiment_rules rest t

  unfoldable pub viral_comments : JsonList F → List F
  unfolding float_or_zero upper_at get
  viral_comments nil = []
  viral_comments (cons (obj rule) rest) =
      let others = viral_comments rest in
      if upper_at "type" rule == "VIRAL_NEGATIVE"
      then float_or_zero (get "min_comments" rule) ∷ others
      else others
  viral_comments (cons _ rest) = viral_comments rest

  -- min(xs), of the first item and the others
  unfoldable pub least : F → List F → F
  least x [] = x
  least x (y ∷ ys) = least (min_f x y) ys

  unfoldable pub apply_controversy : List F → Thresholds F → Thresholds F
  unfolding least
  apply_controversy [] t = t
  apply_controversy (x ∷ xs) t =
      let strictness =
        min_f (max_f (fl.div (least x xs) (fl.lit 200 1)) (fl.lit 6 10)) (fl.lit 2 1) in
      let watch = max_f (fl.lit 25 100) (fl.mul (fl.lit 45 100) strictness) in
      let warning = max_f watch (fl.mul (fl.lit 65 100) strictness) in
      record t {
        controversy_watch = watch;
        controversy_warning = warning;
        controversy_critical =
            max_f warning (min_f (fl.lit 98 100) (fl.mul (fl.lit 80 100) strictness));
      }

  unfoldable pub thresholds_from_config : Json F → Thresholds F
  unfolding apply_issue_rules apply_sentiment_rules apply_controversy viral_comments rules_of get
  thresholds_from_config (obj config) =
      apply_controversy (viral_comments (rules_of (get "influencer_trigger" config))) (
        apply_sentiment_rules (rules_of (get "sentiment_trigger" config))
          (apply_issue_rules (rules_of (get "volume_trigger" config)) default_thresholds))
  thresholds_from_config _ = default_thresholds
