-- ===== src/Kafka/Examples.antt =====
-- Three rounds: a batch that is handled, one whose handler raises, and an empty one.
use analysis_srv.Prelude.{◌≡◌, refl, String, true, false, List, [], ◌∷◌, ◌++◌, arith, flatten}
use analysis_srv.Kafka.{
  fetched, fetch_failed, Handling, returned, raised, Round, Ending, Consumer, consume_batch,
}
use analysis_srv.Kafka.Progress.{
  fetched_by, IsCovered, IsCommitted, consume_batch-IsCovered, consume_batch_delivers,
}

abbrev start : Consumer String
start = record { position = 0; delivered = []; committed = 0 }

abbrev round : List (List String) → Handling → Round String
round records handling = record {
  poll = fetched records;
  handling = handling;
  commit_works = true;
  auto_commits = false;
}

abbrev rounds : List (Round String)
rounds =
    round (("a" ∷ "b" ∷ []) ∷ ("c" ∷ []) ∷ []) returned
    ∷ round (("d" ∷ []) ∷ []) raised
    ∷ round [] returned
    ∷ []

consume_batch_delivers_example :
    ((consume_batch false rounds start).0 ≡ Ending.stopped)
    × (flatten (consume_batch false rounds start).1.delivered
        ≡ flatten start.delivered ++ fetched_by rounds)
    × IsCommitted (consume_batch false rounds start).1
unfolding flatten
consume_batch_delivers_example =
    consume_batch_delivers rounds start
      ((refl, refl, refl), ((refl, refl, refl), ((refl, refl, refl), tt))) (refl, refl)

abbrev failing : List (Round String)
failing =
    round (("a" ∷ []) ∷ []) raised
    ∷ record { poll = fetch_failed; handling = returned; commit_works = true; auto_commits = false }
    ∷ []

consume_batch-IsCovered_example : IsCovered (consume_batch false failing start).1
unfolding flatten
consume_batch-IsCovered_example = consume_batch-IsCovered false failing start (refl, omega arith)
