-- ===== src/Kafka.antt =====
-- The loop of the Kafka consumer over batches (pkg/kafka/consumer.py). What the broker and the handler
-- do in each round of the loop is a script; `M` is the type of messages.
pub mod Progress
mod Examples
use analysis_srv.Prelude.{
  ℕ, ◌+◌, Bool, true, false, not, ◌&&◌, Option, none, some, List, [], ◌∷◌, ◌++◌, flatten, length,
  if◌then◌else◌,
}

-- What `getmany` gives: lists of messages by partition, an error, or the task's cancellation.
pub data Poll (M : Type 0) : Type 0 where
  fetched : List (List M) → Poll M
  fetch_failed : Poll M
  poll_cancelled : Poll M

-- How the handler ends. A cancellation is no `Exception`: the loop does not go on after it.
pub data Handling : Type 0 where
  returned raised cancelled : Handling

pub record Round (M : Type 0) : Type 0 where
  pub poll : Poll M
  pub handling : Handling
  pub commit_works : Bool
  -- the client commits by itself while the handler runs
  pub auto_commits : Bool

-- How the loop ends: it was stopped, or it raises the cancellation or a KafkaConsumerError.
pub data Ending : Type 0 where
  stopped was_cancelled consumption_failed : Ending

-- The client's position, which is the number of messages that `getmany` has given, the batches that the
-- handler was called with, and the position that is committed.
pub record Consumer (M : Type 0) : Type 0 where
  pub position : ℕ
  pub delivered : List (List M)
  pub committed : ℕ

module _ {M : Type 0} where
  -- `getmany` moves the position past what it gives.
  unfoldable pub fetch : List M → Consumer M → Consumer M
  fetch batch c = record c { position = c.position + length batch }

  -- A commit without offsets is one of the client's position.
  unfoldable pub commit : Bool → Consumer M → Consumer M
  commit works c = record c { committed = if works then c.position else c.committed }

  -- A batch that is not empty: the call of the handler, during which the client may commit by itself, and
  -- then the commit in its `finally`.
  unfoldable pub deliver : Bool → Round M → List M → Consumer M → Consumer M
  unfolding commit
  deliver enable_auto_commit round batch c = commit (not enable_auto_commit && round.commit_works) (
      commit (enable_auto_commit && round.auto_commits)
        (record c { delivered = c.delivered ++ batch ∷ [] }))

  -- One round with a batch: `none` where the loop goes on.
  unfoldable pub handle : Bool → List M → Round M → Consumer M → Option Ending × Consumer M
  handle enable_auto_commit [] round c = (none, c)
  handle enable_auto_commit (m ∷ ms) round c = (
    elim round.handling [ returned ↦ none | raised ↦ none | cancelled ↦ some Ending.was_cancelled ],
    deliver enable_auto_commit round (m ∷ ms) c,
  )

  unfoldable pub run_round : Bool → Poll M → Round M → Consumer M → Option Ending × Consumer M
  run_round enable_auto_commit (fetched records) round c =
      let batch = flatten records in handle enable_auto_commit batch round (fetch batch c)
  run_round enable_auto_commit fetch_failed round c = (some Ending.consumption_failed, c)
  run_round enable_auto_commit poll_cancelled round c = (some Ending.was_cancelled, c)

  abbrev pub go_on : Option Ending → Consumer M → Ending × Consumer M → Ending × Consumer M
  go_on none c rest = rest
  go_on (some ending) c rest = (ending, c)

  -- The loop over the rounds of the script, after which it is stopped.
  unfoldable pub consume_batch : Bool → List (Round M) → Consumer M → Ending × Consumer M
  consume_batch enable_auto_commit [] c = (Ending.stopped, c)
  consume_batch enable_auto_commit (round ∷ rounds) c =
      let next = run_round enable_auto_commit round.poll round c in
      go_on next.0 next.1 (consume_batch enable_auto_commit rounds next.1)
