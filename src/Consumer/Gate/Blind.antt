-- ===== src/Consumer/Gate/Blind.antt =====
-- The gate decides by the score and the fallback domain alone.
use analysis_srv.Prelude.{
  ◌≡◌, refl, sym, ap, ◌∙◌, String, Bool, true, false, ◌&&◌, ◌||◌, Option, none, some, arith,
  Option-cases, Bool-cases, inl, inr,
}
use analysis_srv.Prelude.Eq.{◌==◌, ==_iff, text_key}
use analysis_srv.Prelude.Dict.{get, set}
use analysis_srv.Prelude.Dict.Laws.{get-set}
use analysis_srv.Prelude.Float.{Float}
use analysis_srv.Prelude.Text.{non_empty}
use analysis_srv.Domain.{DomainRuntimeConfig, DomainRegistry, bare_default, lookup}
use analysis_srv.Domain.Laws.{IsNamed}
use analysis_srv.Consumer.Gate.{
  Regex, InsightInput, Cache, matches, compiled, is_spam, should_skip_insight,
}

module _ {R : Type 0} (regex : Regex R) where
  -- What is cached is what `re.compile` gives.
  abbrev pub IsCoherent : Cache R → Type 0
  IsCoherent cache =
      (text : String) (pattern : Option R)
      → get text cache ≡ some pattern
      → pattern ≡ regex.compile text

  store-IsCoherent :
      (spam_regex : String) (cache : Cache R)
      → IsCoherent cache
      → IsCoherent (set spam_regex (regex.compile spam_regex) cache)
  store-IsCoherent spam_regex cache h text pattern e = elim (Bool-cases (spam_regex == text)) [
    | inl t ↦
        let same : regex.compile spam_regex ≡ pattern =
          ground (arith, get-set spam_regex text (regex.compile spam_regex) cache) in
        sym same ∙ ap regex.compile ((==_iff spam_regex text).0 t)
    | inr t ↦
        h text pattern (ground (arith, get-set spam_regex text (regex.compile spam_regex) cache))
  ]

  -- A coherent cache changes nothing but the time.
  compiled-IsCoherent :
      (spam_regex : String) (cache : Cache R)
      → IsCoherent cache
      → ((compiled regex spam_regex cache).0 ≡ regex.compile spam_regex)
        × IsCoherent (compiled regex spam_regex cache).1
  unfolding compiled
  compiled-IsCoherent spam_regex cache h = elim (Option-cases (get spam_regex cache)) [
    | inl e ↦ rw (compiled, e) (refl, store-IsCoherent spam_regex cache h)
    | inr (none, e) ↦ rw (compiled, e) (refl, store-IsCoherent spam_regex cache h)
    | inr (some pattern, e) ↦ rw (compiled, e) (h spam_regex (some pattern) e, h)
  ]

  is_spam-IsCoherent :
      (spam_regex content : String) (cache : Cache R)
      → IsCoherent cache
      → ((is_spam regex spam_regex content cache).0
          ≡ (non_empty spam_regex && matches regex (regex.compile spam_regex) content))
        × IsCoherent (is_spam regex spam_regex content cache).1
  unfolding is_spam
  is_spam-IsCoherent spam_regex content cache h =
      let (same, kept) = compiled-IsCoherent spam_regex cache h in
      elim (Bool-cases (non_empty spam_regex)) [
        | inl e ↦ rw (is_spam, e) (ap (λ p. matches regex p content) same, kept)
        | inr e ↦ rw (is_spam, e) (refl, h)
      ]

  module _ {F : Type 0} ⦃fl : Float F⦄ where
    -- The fallback domain, or the bare default where there is none.
    abbrev pub fallback_of : DomainRegistry F → DomainRuntimeConfig F
    fallback_of registry = elim (get registry.fallback_code registry.domains) [
      | some cfg ↦ cfg
      | none ↦ bare_default
    ]

    -- Too low a score for the domain, or a spam pattern that the text has.
    abbrev pub judged : DomainRuntimeConfig F → F → String → Bool
    judged cfg score content =
        fl.lt score cfg.min_relevance_score
        || (non_empty cfg.spam_regex && matches regex (regex.compile cfg.spam_regex) content)

    lookup-unnamed :
        (registry : DomainRegistry F) → IsNamed registry → lookup "" registry ≡ fallback_of registry
    unfolding lookup non_empty
    lookup-unnamed registry named = elim (Option-cases (get "" registry.domains)) [
      | inl e ↦ rw (lookup, e) refl
      | inr (cfg, e) ↦ let bad : false ≡ true = (named "" cfg e).1 in cc
    ]

    -- With a registry of named domains and a coherent cache, the gate judges every insight by the fallback
    -- domain, not by its own, and looks for the spam pattern in the empty text, not in its content; the
    -- cache stays coherent.
    pub should_skip_insight-judged :
        (registry : DomainRegistry F) (input : InsightInput F) (cache : Cache R)
        → IsNamed registry
        → IsCoherent cache
        → ((should_skip_insight regex registry input cache).0
            ≡ judged (fallback_of registry) input.business_relevance_score "")
          × IsCoherent (should_skip_insight regex registry input cache).1
    unfolding should_skip_insight
    should_skip_insight-judged registry input cache named h =
        let cfg = fallback_of registry in
        let same = lookup-unnamed registry named in
        elim (Bool-cases (fl.lt input.business_relevance_score cfg.min_relevance_score)) [
          | inl e ↦ rw (should_skip_insight, same, e) (refl, h)
          | inr e ↦ rw (should_skip_insight, same, e) (is_spam-IsCoherent cfg.spam_regex "" cache h)
        ]
