-- ===== src/Spam/Burst.antt =====
-- `_burstiness_score`: the most mentions of an author within one window, found with two pointers.
-- Times are numbers of microseconds. The pointer `left` comes with the rest of the sorted times from it
-- on, so that `posted[left]` is the head.
pub mod Window
use Prim.Native.Nat.{max}
use analysis_srv.Prelude.{
  ℕ, ◌+◌, ◌-◌, ◌*◌, Option, none, some, List, [], ◌∷◌, length, ltb, leb, if◌then◌else◌,
}
use analysis_srv.Prelude.Float.{Float, min_f}
use analysis_srv.Prelude.Sort.{sort_by}
use analysis_srv.Model.Mention.{MentionRecord}
use analysis_srv.Spam.{SpamConfig}
use analysis_srv.Spam.Features.{or_one, ratio}

-- The `while` loop: it moves `left` on to the first time of the window that ends with `current`.
unfoldable pub catch_up : ℕ → ℕ → ℕ → List ℕ → ℕ × List ℕ
catch_up window current left [] = (left, [])
catch_up window current left (time ∷ times) =
    let moved = catch_up window current (left + 1) times in
    if ltb window (current - time) then moved else (left, time ∷ times)

-- The `for` loop from `right` on.
unfoldable pub scan : ℕ → ℕ → List ℕ → ℕ → ℕ → List ℕ → ℕ
scan window left from_left best right [] = best
scan window left from_left best right (current ∷ later) =
    let caught = catch_up window current left from_left in
    scan window caught.0 caught.1 (max best (right - caught.0 + 1)) (right + 1) later

unfoldable pub best_burst : ℕ → List ℕ → ℕ
best_burst window posted = scan window 0 posted 1 0 posted

unfoldable pub posted_of : {F : Type 0} → List (MentionRecord F) → List ℕ
posted_of [] = []
posted_of (m ∷ mentions) = elim m.posted_at [
  | none ↦ posted_of mentions
  | some time ↦ time ∷ posted_of mentions
]

abbrev pub microseconds_per_minute : ℕ
microseconds_per_minute = 60_000_000

module _ {F : Type 0} ⦃fl : Float F⦄ where
  unfoldable pub burstiness_score : SpamConfig F → List (MentionRecord F) → F
  burstiness_score config mentions =
      let posted = sort_by leb (posted_of mentions) in
      if ltb (length posted) 2
      then fl.lit 0 1
      else fl.round 4 (
          min_f
            (ratio (best_burst (config.burst_window_minutes * microseconds_per_minute) posted)
              (or_one (length posted)))
            (fl.lit 1 1))
