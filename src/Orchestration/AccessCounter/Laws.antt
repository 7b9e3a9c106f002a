-- ===== src/Orchestration/AccessCounter/Laws.antt =====
-- What the counter forgets does not change a count.
use ai_augmented_generation.Prelude.{
  ◌≡◌, refl, ap, sym, ◌∙◌, inl, inr, ℕ, ◌+◌, ◌≤◌, Option, none, some, List, [], ◌∷◌, ◌++◌, arith,
  Eq, ◌==◌, Bool-cases, if◌then◌else◌,
}
use ai_augmented_generation.Prelude.Dict.{
  Dict, lookup, insert, IsDistinct, lookup-insert, lookup-remove, insert-IsDistinct,
  remove-IsDistinct,
}
use ai_augmented_generation.Orchestration.AccessCounter.{
  or_empty, retained, count_events, events_of, keep, prune_found, prune,
}

-- A call of the counter.
pub data Call (K : Type 0) : Type 0 where
  recorded : K → ℕ → Call K
  counted : K → ℕ → ℕ → Call K

abbrev pub time_of : {K : Type 0} → Call K → ℕ
time_of (recorded k at) = at
time_of (counted k window now) = now

pub count_events-append :
    (window now at : ℕ) (events : List ℕ)
    → count_events window now (events ++ at ∷ [])
      ≡ count_events window now events + count_events window now (at ∷ [])
unfolding count_events
count_events-append window now at [] = omega arith
count_events-append window now at (e ∷ events) =
    ground (arith, count_events-append window now at events)

count_events-retained :
    (window retention now before : ℕ) (events : List ℕ)
    → window ≤ retention
    → before ≤ now
    → count_events window now (retained retention before events) ≡ count_events window now events
unfolding count_events retained
count_events-retained window retention now before [] fits past = refl
count_events-retained window retention now before (at ∷ events) fits past =
    ground (arith, count_events-retained window retention now before events fits past)

module _ {K : Type 0} ⦃keys_eq : Eq K⦄ where
  keep-IsDistinct :
      (d : Dict K (List ℕ)) (k : K) (events : List ℕ) → IsDistinct d → IsDistinct (keep d k events)
  unfolding keep
  keep-IsDistinct d k [] h = remove-IsDistinct k d h
  keep-IsDistinct d k (at ∷ events) h = insert-IsDistinct k (at ∷ events) d h

  events_of-keep :
      (d : Dict K (List ℕ)) (k j : K) (events : List ℕ)
      → IsDistinct d
      → events_of j (keep d k events) ≡ (if k == j then events else events_of j d)
  unfolding keep events_of
  events_of-keep d k j [] h = elim (Bool-cases (k == j)) [
    | inl e ↦ rw e (ap or_empty {y = none} (lookup-remove k j d h ∙ rw e refl))
    | inr e ↦ rw e (ap or_empty {y = lookup j d} (lookup-remove k j d h ∙ rw e refl))
  ]
  events_of-keep d k j (at ∷ events) h = elim (Bool-cases (k == j)) [
    | inl e ↦
        rw e (ap or_empty {y = some (at ∷ events)} (lookup-insert k j (at ∷ events) d ∙ rw e refl))
    | inr e ↦ rw e (ap or_empty {y = lookup j d} (lookup-insert k j (at ∷ events) d ∙ rw e refl))
  ]

  pub events_of-insert :
      (d : Dict K (List ℕ)) (k j : K) (events : List ℕ)
      → events_of j (insert k events d) ≡ (if k == j then events else events_of j d)
  unfolding events_of
  events_of-insert d k j events = elim (Bool-cases (k == j)) [
    | inl e ↦ rw e (ap or_empty {y = some events} (lookup-insert k j events d ∙ rw e refl))
    | inr e ↦ rw e (ap or_empty {y = lookup j d} (lookup-insert k j events d ∙ rw e refl))
  ]

  prune_found-IsDistinct :
      (retention now : ℕ) (d : Dict K (List ℕ)) (k : K) (found : Option (List ℕ))
      → IsDistinct d
      → IsDistinct (prune_found retention d k now found)
  unfolding prune_found
  prune_found-IsDistinct retention now d k none h = h
  prune_found-IsDistinct retention now d k (some events) h =
      keep-IsDistinct d k (retained retention now events) h

  pub prune-IsDistinct :
      (retention now : ℕ) (d : Dict K (List ℕ)) (k : K)
      → IsDistinct d
      → IsDistinct (prune retention d k now)
  unfolding prune
  prune-IsDistinct retention now d k h = prune_found-IsDistinct retention now d k (lookup k d) h

  module _ (window retention now before : ℕ) (fits : window ≤ retention) (past : before ≤ now) where
    count_events-prune_found :
        (d : Dict K (List ℕ)) (k j : K) (found : Option (List ℕ))
        → IsDistinct d
        → lookup k d ≡ found
        → count_events window now (events_of j (prune_found retention d k before found))
          ≡ count_events window now (events_of j d)
    unfolding prune_found
    count_events-prune_found d k j none h e = refl
    count_events-prune_found d k j (some events) h e =
        ap (count_events window now) (events_of-keep d k j (retained retention before events) h)
        ∙ elim (Bool-cases (k == j)) [
          | inr other ↦ rw other refl
          | inl same ↦ rw same (
              count_events-retained window retention now before events fits past
              ∙ ap (count_events window now) (held ((keys_eq.eqb_iff k j).0 same)))
        ]
      where
        held : k ≡ j → events ≡ events_of j d
        held same = unfold events_of in (ap or_empty (sym e) ∙ ap (λ i. or_empty (lookup i d)) same)

    -- Pruning changes no count of a window that the retention covers, of a later time.
    pub count_events-prune :
        (d : Dict K (List ℕ)) (k j : K)
        → IsDistinct d
        → count_events window now (events_of j (prune retention d k before))
          ≡ count_events window now (events_of j d)
    unfolding prune
    count_events-prune d k j h = count_events-prune_found d k j (lookup k d) h refl
