-- ===== src/Spam/Annotate/Laws.antt =====
-- What `annotate` of the spam scoring gives: it never fails on a lookup, and a mention that is
-- suspicious, or whose author is, is marked and enriched in the light way.
use analysis_srv.Prelude.{◌≡◌, String, true, ◌||◌, List, [], ◌∷◌}
use analysis_srv.Prelude.Eq.{text_key}
use analysis_srv.Prelude.Dict.{Dict}
use analysis_srv.Prelude.Dict.Keys.{has_key}
use analysis_srv.Prelude.Float.{Float}
use analysis_srv.Model.Mention.{MentionRecord}
use analysis_srv.Spam.{MentionFeatures}

module _ {F : Type 0} ⦃fl : Float F⦄ where
  abbrev IsFeatured : Dict String (MentionFeatures F) → MentionRecord F → Type 0
  IsFeatured features m = has_key m.mention_id features ≡ true

  -- A mention and what `annotate` makes of it: the same mention, which, when it or its author is
  -- suspicious, is labelled as spam and goes the light way.
  pub record IsMarked (before after : MentionRecord F) : Type 0 where
    pub same_id : after.mention_id ≡ before.mention_id
    pub same_text : after.raw_text ≡ before.raw_text
    pub labelled :
        (after.mention_suspicious || after.author_suspicious) ≡ true
        → after.text_quality_label ≡ "spam_like"
    pub light :
        (after.mention_suspicious || after.author_suspicious) ≡ true
        → after.semantic_route_hint ≡ "semantic_lite"

  abbrev pub AreMarked : List (MentionRecord F) → List (MentionRecord F) → Type 0
  AreMarked [] [] = Unit
  AreMarked [] (y ∷ ys) = ⊥
  AreMarked (x ∷ xs) [] = ⊥
  AreMarked (x ∷ xs) (y ∷ ys) = IsMarked x y × AreMarked xs ys
