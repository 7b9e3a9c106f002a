-- ===== src/Orchestration/AccessCounter/Runs.antt =====
-- The counter after any calls, beside the whole history of the accesses.
use ai_augmented_generation.Prelude.{
  ◌≡◌, refl, ap, ◌∙◌, inl, inr, ℕ, ◌+◌, ◌≤◌, true, List, [], ◌∷◌, ◌++◌, All, arith, Eq, ◌==◌,
  Bool-cases, if◌then◌else◌,
}
use ai_augmented_generation.Prelude.Dict.{Dict, lookup, insert, IsDistinct, insert-IsDistinct}
use ai_augmented_generation.Orchestration.AccessCounter.{
  count_events, events_of, record_event, count,
}
use ai_augmented_generation.Orchestration.AccessCounter.Laws.{
  Call, recorded, counted, time_of, count_events-append, events_of-insert, prune-IsDistinct,
  count_events-prune,
}

count_events-cons :
    (window now at : ℕ) (events : List ℕ)
    → count_events window now (at ∷ events)
      ≡ count_events window now (at ∷ []) + count_events window now events
unfolding count_events
count_events-cons window now at events = omega arith

module _ {K : Type 0} ⦃keys_eq : Eq K⦄ where
  unfoldable pub after_call : ℕ → Dict K (List ℕ) → Call K → Dict K (List ℕ)
  after_call retention d (recorded k at) = record_event retention d k at
  after_call retention d (counted k window now) = (count retention d k window now).0

  unfoldable pub after_calls : ℕ → Dict K (List ℕ) → List (Call K) → Dict K (List ℕ)
  after_calls retention d [] = d
  after_calls retention d (c ∷ calls) = after_calls retention (after_call retention d c) calls

  -- The times at which a key was accessed.
  pub accesses : K → List (Call K) → List ℕ
  accesses k [] = []
  accesses k (recorded j at ∷ calls) =
      let rest = accesses k calls in if j == k then at ∷ rest else rest
  accesses k (counted j window now ∷ calls) = accesses k calls

  after_call-IsDistinct :
      (retention : ℕ) (d : Dict K (List ℕ)) (c : Call K)
      → IsDistinct d
      → IsDistinct (after_call retention d c)
  unfolding after_call record_event count
  after_call-IsDistinct retention d (recorded k at) h =
      prune-IsDistinct retention at (insert k (events_of k d ++ at ∷ []) d) k
        (insert-IsDistinct k (events_of k d ++ at ∷ []) d h)
  after_call-IsDistinct retention d (counted k window now) h = prune-IsDistinct retention now d k h

  after_calls-IsDistinct :
      (retention : ℕ) (d : Dict K (List ℕ)) (calls : List (Call K))
      → IsDistinct d
      → IsDistinct (after_calls retention d calls)
  unfolding after_calls
  after_calls-IsDistinct retention d [] h = h
  after_calls-IsDistinct retention d (c ∷ calls) h =
      after_calls-IsDistinct retention (after_call retention d c) calls
        (after_call-IsDistinct retention d c h)

  module _ (window retention now : ℕ) (fits : window ≤ retention) (k : K) where
    count_events-insert :
        (d : Dict K (List ℕ)) (j : K) (at : ℕ) (calls : List (Call K))
        → count_events window now (events_of k (insert j (events_of j d ++ at ∷ []) d))
            + count_events window now (accesses k calls)
          ≡ count_events window now (events_of k d)
            + count_events window now (accesses k (recorded j at ∷ calls))
    unfolding accesses
    count_events-insert d j at calls = elim (Bool-cases (j == k)) [
      | inr other ↦ rw other (
          ap (λ events. count_events window now events + count_events window now (accesses k calls))
            {y = events_of k d} (events_of-insert d j k (events_of j d ++ at ∷ []) ∙ rw other refl))
      | inl same ↦
          rw same (omega (arith, added same, count_events-cons window now at (accesses k calls)))
    ]
      where
        added :
            (j == k) ≡ true
            → count_events window now (events_of k (insert j (events_of j d ++ at ∷ []) d))
              ≡ count_events window now (events_of k d) + count_events window now (at ∷ [])
        added same =
            ap (count_events window now) {y = events_of j d ++ at ∷ []}
              (events_of-insert d j k (events_of j d ++ at ∷ []) ∙ rw same refl)
            ∙ count_events-append window now at (events_of j d)
            ∙ ap (λ i. count_events window now (events_of i d) + count_events window now (at ∷ []))
                ((keys_eq.eqb_iff j k).0 same)

    count_events-after_call :
        (d : Dict K (List ℕ)) (c : Call K) (calls : List (Call K))
        → IsDistinct d
        → time_of c ≤ now
        → count_events window now (events_of k (after_call retention d c))
            + count_events window now (accesses k calls)
          ≡ count_events window now (events_of k d)
            + count_events window now (accesses k (c ∷ calls))
    unfolding after_call record_event count
    count_events-after_call d (recorded j at) calls h past =
        ap (λ n. n + count_events window now (accesses k calls))
          (count_events-prune window retention now at fits past
            (insert j (events_of j d ++ at ∷ []) d) j k
            (insert-IsDistinct j (events_of j d ++ at ∷ []) d h))
        ∙ count_events-insert d j at calls
    count_events-after_call d (counted j window' before) calls h past =
        unfold accesses in
        ap (λ n. n + count_events window now (accesses k calls))
          (count_events-prune window retention now before fits past d j k h)

    count_events-after_calls :
        (d : Dict K (List ℕ)) (calls : List (Call K))
        → IsDistinct d
        → All (λ c. time_of c ≤ now) calls
        → count_events window now (events_of k (after_calls retention d calls))
          ≡ count_events window now (events_of k d) + count_events window now (accesses k calls)
    unfolding after_calls
    count_events-after_calls d [] h past = unfold accesses count_events in omega arith
    count_events-after_calls d (c ∷ calls) h past =
        count_events-after_calls (after_call retention d c) calls
          (after_call-IsDistinct retention d c h) (past.1)
        ∙ count_events-after_call d c calls h (past.0)

  -- Where the retention covers the window and no call was made at a later time, count gives how
  -- many of all the accesses of the key lie in the window: what was pruned, by any call on any key,
  -- does not matter.
  pub count-after_calls :
      (window retention now : ℕ) (k : K) (calls : List (Call K))
      → window ≤ retention
      → All (λ c. time_of c ≤ now) calls
      → (count retention (after_calls retention [] calls) k window now).1
        ≡ count_events window now (accesses k calls)
  unfolding count
  count-after_calls window retention now k calls fits past =
      count_events-prune window retention now now fits (omega arith)
        (after_calls retention [] calls) k k (after_calls-IsDistinct retention [] calls tt)
      ∙ count_events-after_calls window retention now fits k [] calls tt past
      ∙ unfold events_of lookup count_events in omega arith
