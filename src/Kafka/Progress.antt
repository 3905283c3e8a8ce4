-- ===== src/Kafka/Progress.antt =====
-- What the loop delivers and commits.
use analysis_srv.Prelude.{
  ◌≤◌, ◌≡◌, refl, sym, ap, ◌∙◌, Bool, true, false, Option, none, some, List, [], ◌∷◌, ◌++◌, arith,
  flatten, flatten-append, length, length-append, append-nil, append_assoc, All,
}
use analysis_srv.Kafka.{
  Poll, fetched, fetch_failed, poll_cancelled, Handling, returned, raised, cancelled, Round, Ending,
  Consumer, fetch, commit, deliver, handle, run_round, go_on, consume_batch,
}

abbrev pub goes_on : Handling → Bool
goes_on returned = true
goes_on raised = true
goes_on cancelled = false

none_where_on :
    (handling : Handling)
    → goes_on handling ≡ true
    → (elim handling [ returned ↦ none | raised ↦ none | cancelled ↦ some Ending.was_cancelled ])
      ≡ none
none_where_on returned on = refl
none_where_on raised on = refl
none_where_on cancelled on = cc

module _ {M : Type 0} where
  abbrev pub messages_of : Poll M → List M
  messages_of (fetched records) = flatten records
  messages_of fetch_failed = []
  messages_of poll_cancelled = []

  -- The messages that the rounds fetch, in their order.
  abbrev pub fetched_by : List (Round M) → List M
  fetched_by [] = []
  fetched_by (round ∷ rounds) = messages_of round.poll ++ fetched_by rounds

  -- The handler was called with as many messages as were fetched, and no more are committed.
  abbrev pub IsCovered : Consumer M → Type 0
  IsCovered c = (c.position ≡ length (flatten c.delivered)) × (c.committed ≤ c.position)

  flatten-last : (xss : List (List M)) (xs : List M) → flatten (xss ++ xs ∷ []) ≡ flatten xss ++ xs
  unfolding flatten
  flatten-last xss xs = flatten-append xss (xs ∷ []) ∙ ap (◌++◌ (flatten xss)) (append-nil xs)

  handle-IsCovered :
      (auto : Bool) (batch : List M) (round : Round M) (c : Consumer M)
      → IsCovered c
      → IsCovered (handle auto batch round (fetch batch c)).1
  unfolding handle fetch deliver commit
  handle-IsCovered auto [] round c h = (omega (arith, h.0), omega (arith, h.1))
  handle-IsCovered auto (m ∷ ms) round c h =
      let more = flatten-last c.delivered (m ∷ ms) in
      let grown = length-append (flatten c.delivered) (m ∷ ms) in
      (omega (arith, h.0, ap length more, grown), ground (arith, h.1))

  run_round-IsCovered :
      (auto : Bool) (poll : Poll M) (round : Round M) (c : Consumer M)
      → IsCovered c
      → IsCovered (run_round auto poll round c).1
  unfolding run_round
  run_round-IsCovered auto (fetched records) round c h =
      handle-IsCovered auto (flatten records) round c h
  run_round-IsCovered auto fetch_failed round c h = h
  run_round-IsCovered auto poll_cancelled round c h = h

  go_on-IsCovered :
      (stop : Option Ending) (c : Consumer M) (rest : Ending × Consumer M)
      → IsCovered c
      → IsCovered rest.1
      → IsCovered (go_on stop c rest).1
  go_on-IsCovered none c rest h k = k
  go_on-IsCovered (some ending) c rest h k = h

  -- Whatever the broker and the handler do, and whoever commits: after every round the handler has been
  -- called with as many messages as the client has moved its position past, and no more are committed, if
  -- this is so at the start.
  pub consume_batch-IsCovered :
      (auto : Bool) (rounds : List (Round M)) (c : Consumer M)
      → IsCovered c
      → IsCovered (consume_batch auto rounds c).1
  unfolding consume_batch
  consume_batch-IsCovered auto [] c h = h
  consume_batch-IsCovered auto (round ∷ rounds) c h =
      let next = run_round auto round.poll round c in
      let kept = run_round-IsCovered auto round.poll round c h in
      go_on-IsCovered next.0 next.1 (consume_batch auto rounds next.1) kept
        (consume_batch-IsCovered auto rounds next.1 kept)

  abbrev pub is_fetched : Poll M → Bool
  is_fetched (fetched records) = true
  is_fetched fetch_failed = false
  is_fetched poll_cancelled = false

  -- The broker answers and commits, and the task is not cancelled; the handler may raise.
  abbrev pub IsSteady : Round M → Type 0
  IsSteady round =
      (is_fetched round.poll ≡ true) × (goes_on round.handling ≡ true) × (round.commit_works ≡ true)

  -- All that was delivered is committed.
  abbrev pub IsCommitted : Consumer M → Type 0
  IsCommitted c = (c.position ≡ length (flatten c.delivered)) × (c.committed ≡ c.position)

  abbrev Delivers : List M → Consumer M → Option Ending × Consumer M → Type 0
  Delivers batch c r =
      (r.0 ≡ none) × (flatten r.1.delivered ≡ flatten c.delivered ++ batch) × IsCommitted r.1

  handle-Delivers :
      (batch : List M) (round : Round M) (c : Consumer M)
      → goes_on round.handling ≡ true
      → round.commit_works ≡ true
      → IsCommitted c
      → Delivers batch c (handle false batch round (fetch batch c))
  unfolding handle deliver fetch commit
  handle-Delivers [] round c on works h =
      (refl, sym (append-nil (flatten c.delivered)), (omega (arith, h.0), omega (arith, h.1)))
  handle-Delivers (m ∷ ms) round c on works h =
      let more = flatten-last c.delivered (m ∷ ms) in
      let grown = length-append (flatten c.delivered) (m ∷ ms) in
      (
        none_where_on round.handling on,
        more,
        (omega (arith, h.0, ap length more, grown), ground arith),
      )

  run_round-Delivers :
      (poll : Poll M) (round : Round M) (c : Consumer M)
      → is_fetched poll ≡ true
      → goes_on round.handling ≡ true
      → round.commit_works ≡ true
      → IsCommitted c
      → Delivers (messages_of poll) c (run_round false poll round c)
  unfolding run_round
  run_round-Delivers (fetched records) round c f on works h =
      handle-Delivers (flatten records) round c on works h
  run_round-Delivers fetch_failed round c f on works h = cc
  run_round-Delivers poll_cancelled round c f on works h = cc

  -- With manual commits, a broker that answers and commits, and no cancellation: the loop goes through all
  -- its rounds, the handler gets every fetched message once, in their order, also after it has raised, and
  -- at the end all that was delivered is committed.
  pub consume_batch_delivers :
      (rounds : List (Round M)) (c : Consumer M)
      → All IsSteady rounds
      → IsCommitted c
      → ((consume_batch false rounds c).0 ≡ Ending.stopped)
        × (flatten (consume_batch false rounds c).1.delivered
            ≡ flatten c.delivered ++ fetched_by rounds)
        × IsCommitted (consume_batch false rounds c).1
  unfolding consume_batch
  consume_batch_delivers [] c steady h = (refl, sym (append-nil (flatten c.delivered)), h)
  consume_batch_delivers (round ∷ rounds) c steady h =
      let (stop, more, committed) =
        run_round-Delivers round.poll round c steady.0.0 steady.0.1 steady.0.2 h in
      let next = (run_round false round.poll round c).1 in
      let (over, rest, all) = consume_batch_delivers rounds next steady.1 committed in
      rw (consume_batch, stop)
        (
          over,
          rest
              ∙ ap (λ ms. ms ++ fetched_by rounds) more
              ∙ append_assoc (flatten c.delivered) (messages_of round.poll) (fetched_by rounds),
          all,
        )
