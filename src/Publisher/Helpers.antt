-- ===== src/Publisher/Helpers.antt =====
-- internal/contract_publisher/usecase/helpers.py. `now` is the current time as an ISO text.
use Prim.Native.String.{◌++◌ as cat}
use analysis_srv.Prelude.{
  ℕ, String, ◌&&◌, none, some, List, [], ◌∷◌, leb, filter, head?, if◌then◌else◌,
}
use mathlib.Core.List.{reverse}
use analysis_srv.Prelude.Eq.{◌==◌, text_key}
use analysis_srv.Prelude.Float.{Float}
use analysis_srv.Prelude.Dict.{Dict, get}
use analysis_srv.Prelude.Sort.{sort_by}
use analysis_srv.Prelude.Text.{non_empty, lower, len, take_chars, rstrip, not_after}
use analysis_srv.Model.Uap.{UapContent}

-- d.get(key, default)
unfoldable pub get_or : Dict String String → String → String → String
unfolding get
get_or d key default = elim (get key d) [ none ↦ default | some v ↦ v ]

abbrev pub platform_upper_map : Dict String String
platform_upper_map =
    ("tiktok", "TIKTOK")
    ∷ ("facebook", "FACEBOOK")
    ∷ ("instagram", "INSTAGRAM")
    ∷ ("youtube", "YOUTUBE")
    ∷ []

abbrev pub platform_lower_map : Dict String String
platform_lower_map =
    ("tiktok", "tiktok")
    ∷ ("facebook", "facebook")
    ∷ ("instagram", "instagram")
    ∷ ("youtube", "youtube")
    ∷ []

abbrev pub attachment_type_map : Dict String String
attachment_type_map =
    ("video", "video") ∷ ("image", "image") ∷ ("carousel", "carousel") ∷ ("live", "live") ∷ []

unfoldable pub normalize_platform_upper : String → String
unfolding get_or lower
normalize_platform_upper source_type = get_or platform_upper_map (lower source_type) "OTHER"

unfoldable pub normalize_platform_lower : String → String
unfolding get_or lower
normalize_platform_lower source_type = get_or platform_lower_map (lower source_type) "multi"

unfoldable pub detect_media_type : UapContent → String
unfolding get_or lower
detect_media_type content = elim (head? content.attachments) [
  | none ↦ "text"
  | some first ↦ get_or attachment_type_map (lower first.type) "text"
]

abbrev pub summary_max_chars : ℕ
summary_max_chars = 120

unfoldable pub truncate_summary : ℕ → String → String
unfolding non_empty len take_chars rstrip
truncate_summary max_chars text =
    if non_empty text
    then if leb (len text) max_chars then text else cat (rstrip (take_chars max_chars text)) "…"
    else ""

module _ {F : Type 0} ⦃fl : Float F⦄ where
  unfoldable pub normalize_sentiment_score : String → F → F
  normalize_sentiment_score label score =
      if (label == "NEGATIVE") && fl.lt (fl.lit 0 1) score then fl.neg score else score

-- The earliest and the latest of the timestamps that are not empty.
unfoldable pub min_iso_utc : String → List String → String
unfolding non_empty
min_iso_utc now timestamps = elim (head? (sort_by not_after (filter non_empty timestamps))) [
  | none ↦ now
  | some t ↦ t
]

unfoldable pub max_iso_utc : String → List String → String
unfolding non_empty
max_iso_utc now timestamps =
    elim (head? (reverse (sort_by not_after (filter non_empty timestamps)))) [
      | none ↦ now
      | some t ↦ t
    ]
