-- ===== src/Intent/Best.antt =====
-- The intent of a text: the first of the highest priority among those with a pattern that the text has.
use analysis_srv.Prelude.{
  ℕ, ◌≤◌, ◌≡◌, refl, sym, ap, ◌∙◌, String, Bool, true, false, ◌&&◌, List, [], ◌∷◌, ◌++◌, ◌⊎◌, arith,
  any, filter, ltb, leb, Bool-cases, inl, inr, All, All-append, append-nil, append_assoc,
}
use analysis_srv.Prelude.Dict.{Dict}
use analysis_srv.Prelude.Float.{Float}
use analysis_srv.Prelude.Text.{non_empty}
use analysis_srv.Intent.{
  Intent, Output, priority, matches_of, best_of, output_of, classified, process, discussion_output,
}

filter-none : (t : String → Bool) (ps : List String) → any t ps ≡ false → filter t ps ≡ []
filter-none t [] h = refl
filter-none t (p ∷ ps) h = ground (arith, filter-none t ps)

filter-some :
    (t : String → Bool) (ps : List String)
    → any t ps ≡ true
    → (q : String) × (qs : List String) × (filter t ps ≡ q ∷ qs)
filter-some t [] h = cc
filter-some t (p ∷ ps) h = elim (Bool-cases (t p)) [
  | inl e ↦ (p, filter t ps, rw e refl)
  | inr e ↦ let (q, qs, f) = filter-some t ps (rw e at h) in (q, qs, rw e f)
]

module _ (search : String → String → Bool) (text : String) where
  -- Some pattern of the entry is found.
  abbrev pub is_found : Intent × List String → Bool
  is_found entry = any (λ p. search p text) entry.1

  -- No entry that is found has a priority of at least `n`, or of more than `n`.
  abbrev pub IsBelow : ℕ → Dict Intent (List String) → Type 0
  IsBelow n = All (λ e. (is_found e && leb n (priority e.0)) ≡ false)

  abbrev pub IsAtMost : ℕ → Dict Intent (List String) → Type 0
  IsAtMost n = All (λ e. (is_found e && ltb n (priority e.0)) ≡ false)

  -- `best` is the first of the entries of the highest priority among those that are found, with its
  -- patterns that are found.
  abbrev pub IsBest : Dict Intent (List String) → Intent × List String → Type 0
  IsBest patterns best =
      (before : Dict Intent (List String)) × (ps : List String) × (after : Dict Intent
        (List String))
      × (patterns ≡ before ++ (best.0, ps) ∷ after)
      × (is_found (best.0, ps) ≡ true)
      × (best.1 ≡ filter (λ p. search p text) ps)
      × IsBelow (priority best.0) before
      × IsAtMost (priority best.0) after

  IsBelow-raise : (n m : ℕ) (es : Dict Intent (List String)) → n ≤ m → IsBelow n es → IsBelow m es
  IsBelow-raise n m [] h b = tt
  IsBelow-raise n m (e ∷ es) h b = (ground (arith, h, b.0), IsBelow-raise n m es h b.1)

  IsBelow-IsAtMost :
      (n m : ℕ) (es : Dict Intent (List String)) → ltb n m ≡ true → IsAtMost n es → IsBelow m es
  IsBelow-IsAtMost n m [] h b = tt
  IsBelow-IsAtMost n m (e ∷ es) h b = (ground (arith, h, b.0), IsBelow-IsAtMost n m es h b.1)

  -- One more entry that does not beat the best.
  IsBest-keep :
      (seen : Dict Intent (List String)) (best entry : Intent × List String)
      → (is_found entry && ltb (priority best.0) (priority entry.0)) ≡ false
      → IsBest seen best
      → IsBest (seen ++ entry ∷ []) best
  IsBest-keep seen best entry low (before, ps, after, e, found, kept, below, most) = (
    before,
    ps,
    after ++ entry ∷ [],
    ap (λ es. es ++ entry ∷ []) e ∙ append_assoc before ((best.0, ps) ∷ after) (entry ∷ []),
    found,
    kept,
    below,
    All-append (λ x. (is_found x && ltb (priority best.0) (priority x.0)) ≡ false) after
        (entry ∷ []) most (low, tt),
  )

  -- One more entry that does.
  IsBest-replace :
      (seen : Dict Intent (List String)) (best : Intent × List String) (intent : Intent)
      (ps : List String)
      → is_found (intent, ps) ≡ true
      → ltb (priority best.0) (priority intent) ≡ true
      → IsBest seen best
      → IsBest (seen ++ (intent, ps) ∷ []) (intent, filter (λ p. search p text) ps)
  IsBest-replace seen best intent ps hit higher (before, qs, after, e, found, kept, below, most) =
      let n = priority best.0 in
      let m = priority intent in
      let low : (is_found (best.0, qs) && leb m n) ≡ false = ground (arith, higher) in
      let all =
        All-append (λ x. (is_found x && leb m (priority x.0)) ≡ false) before ((best.0, qs) ∷ after)
          (IsBelow-raise n m before (ground (arith, higher)) below)
          (low, IsBelow-IsAtMost n m after higher most) in
      (seen, ps, [], refl, hit, refl, rw e all, tt)

  best_of-IsBest :
      (rest seen : Dict Intent (List String)) (best : Intent × List String)
      → IsBest seen best
      → IsBest (seen ++ rest) (best_of best (matches_of search text rest))
  unfolding matches_of best_of
  best_of-IsBest [] seen best h = rw (append-nil seen) h
  best_of-IsBest ((intent, ps) ∷ rest) seen best h =
      rw (sym (append_assoc seen ((intent, ps) ∷ []) rest))
        (elim (Bool-cases (is_found (intent, ps))) [
          | inr e ↦
              let found = filter-none (λ p. search p text) ps e in
              rw (matches_of, found)
                (best_of-IsBest rest (seen ++ (intent, ps) ∷ []) best
                  (IsBest-keep seen best (intent, ps) (ground (arith, e)) h))
          | inl e ↦
              let (q, qs, found) = filter-some (λ p. search p text) ps e in
              rw (matches_of, found)
                (elim (Bool-cases (ltb (priority best.0) (priority intent))) [
                  | inl t ↦
                      rw (best_of, t)
                        (best_of-IsBest rest (seen ++ (intent, ps) ∷ []) (intent, q ∷ qs)
                          (rw (sym found) (IsBest-replace seen best intent ps e t h)))
                  | inr t ↦
                      rw (best_of, t)
                        (best_of-IsBest rest (seen ++ (intent, ps) ∷ []) best
                          (IsBest-keep seen best (intent, ps) (ground (arith, t)) h))
                ])
        ])

  -- No entry is found.
  abbrev pub IsMissed : Dict Intent (List String) → Type 0
  IsMissed = All (λ e. is_found e ≡ false)

  IsMissed-IsBelow : (n : ℕ) (es : Dict Intent (List String)) → IsMissed es → IsBelow n es
  IsMissed-IsBelow n [] h = tt
  IsMissed-IsBelow n (e ∷ es) h = (ground (arith, h.0), IsMissed-IsBelow n es h.1)

  module _ (F : Type 0) ⦃fl : Float F⦄ where
    -- The output is the default one if no entry is found, and else that of the best one.
    abbrev pub Decides : Dict Intent (List String) → Output F → Type 0
    Decides patterns o =
        (IsMissed patterns × (o ≡ discussion_output))
        ⊎ ((best : Intent × List String) × IsBest patterns best × (o ≡ output_of best))

    classified-Decides :
        (rest seen : Dict Intent (List String))
        → IsMissed seen
        → Decides (seen ++ rest) (classified (matches_of search text rest))
    unfolding classified matches_of
    classified-Decides [] seen missed = inl (rw (append-nil seen) missed, refl)
    classified-Decides ((intent, ps) ∷ rest) seen missed =
        rw (sym (append_assoc seen ((intent, ps) ∷ []) rest))
          (elim (Bool-cases (is_found (intent, ps))) [
            | inr e ↦
                let found = filter-none (λ p. search p text) ps e in
                rw (matches_of, found)
                  (classified-Decides rest (seen ++ (intent, ps) ∷ [])
                    (All-append (λ x. is_found x ≡ false) seen ((intent, ps) ∷ []) missed (e, tt)))
            | inl e ↦
                let (q, qs, found) = filter-some (λ p. search p text) ps e in
                let first : IsBest (seen ++ (intent, ps) ∷ []) (intent, q ∷ qs) = (
                  seen,
                  ps,
                  [],
                  refl,
                  e,
                  sym found,
                  IsMissed-IsBelow (priority intent) seen missed,
                  tt,
                ) in
                rw (matches_of, found)
                  (inr (
                    best_of (intent, q ∷ qs) (matches_of search text rest),
                    best_of-IsBest rest (seen ++ (intent, ps) ∷ []) (intent, q ∷ qs) first,
                    refl,
                  ))
          ])

    -- A text that is not empty gets the default output if no pattern is found in it. Otherwise its intent
    -- is that of the first entry of the highest priority among those with a pattern that is found, and
    -- the output is made of this entry's patterns that are found.
    pub process-Decides :
        (patterns : Dict Intent (List String))
        → non_empty text ≡ true
        → Decides patterns (process search patterns text)
    unfolding process
    process-Decides patterns named = rw (process, named) (classified-Decides patterns [] tt)
