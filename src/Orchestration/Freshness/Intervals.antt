-- ===== src/Orchestration/Freshness/Intervals.antt =====
-- The interval that a demotion learns.
use ai_augmented_generation.Prelude.{
  ◌≡◌, refl, ap, sym, ◌∙◌, ℕ, zero, suc, ◌+◌, ◌-◌, ◌*◌, ◌/◌, ◌%◌, ◌≤◌, ◌<◌, max, some, List, [],
  ◌∷◌, All, ltb, length, drop, length-drop, arith,
}
use ai_augmented_generation.Prelude.Sort.{
  IsDescending, place, sorted_desc, sorted_desc-IsDescending, All-sorted_desc,
}
use ai_augmented_generation.Orchestration.Freshness.{
  cag_with_rag_backup, FreshnessPolicy, DataSource, MigrationDecision, divide_timedelta, in_order,
  last_of, mean_gap, observed_change_interval, last_times, until, demotion, demote_recent,
  decide_for, decide_migration, min_interval,
}
use ai_augmented_generation.Orchestration.Freshness.Laws.{
  demote_recent-demotion, last_of-le_now, ltb-IsTotal, until-All,
}

quotient : (a n b : ℕ) → a ≤ b * n → 0 < n → a / n ≤ b
quotient a n b h pos = grind arith

remainder : (a n b : ℕ) → a ≤ b * n → 0 < n → 0 < a % n → a / n < b
remainder a n b h pos some_left = grind arith

-- Rounding stays below a bound that the exact quotient keeps.
divide_timedelta-le : (a n b : ℕ) → a ≤ b * n → 0 < n → divide_timedelta a n ≤ b
unfolding divide_timedelta
divide_timedelta-le a n b h pos = ground (arith, quotient a n b h pos, remainder a n b h pos)

sorted_desc_fixed : (times : List ℕ) → IsDescending ltb times → sorted_desc ltb times ≡ times
unfolding sorted_desc place
sorted_desc_fixed [] h = refl
sorted_desc_fixed (t ∷ []) h = refl
sorted_desc_fixed (t ∷ t' ∷ times) h =
    ap (place ltb t) (sorted_desc_fixed (t' ∷ times) (h.1)) ∙ rw (h.0.0) refl

drop-IsDescending :
    (k : ℕ) (times : List ℕ) → IsDescending ltb times → IsDescending ltb (drop k times)
drop-IsDescending zero times h = h
drop-IsDescending (suc k) [] h = h
drop-IsDescending (suc k) (t ∷ times) h = drop-IsDescending k times (h.1)

drop-All :
    (k now : ℕ) (times : List ℕ) → All (λ t. t ≤ now) times → All (λ t. t ≤ now) (drop k times)
drop-All zero now times h = h
drop-All (suc k) now [] h = h
drop-All (suc k) now (t ∷ times) h = drop-All k now times (h.1)

module _ (changes volatile_below now : ℕ) (some_changes : 1 ≤ changes) where
  mean_gap-le :
      (u u' : ℕ) (us : List ℕ)
      → last_of u (u' ∷ us) ≤ now
      → now < u + volatile_below * changes
      → length (u' ∷ us) ≡ changes
      → divide_timedelta (last_of u (u' ∷ us) - u) (length (u' ∷ us)) ≤ volatile_below
  mean_gap-le u u' us past young counted =
      divide_timedelta-le (last_of u (u' ∷ us) - u) (length (u' ∷ us)) volatile_below
        (rw counted (omega (arith, past, young))) (omega arith)

  demoted_interval :
      (recent : List ℕ) (d : MigrationDecision)
      → IsDescending ltb recent
      → All (λ t. t ≤ now) recent
      → length recent ≤ changes + 1
      → demote_recent (changes + 1) (volatile_below * changes) now recent ≡ some d
      → d.interval ≤ max volatile_below min_interval
  demoted_interval [] d ordered past few e = cc
  demoted_interval (u ∷ []) d ordered past few e =
      let (enough, young, demoted) =
        demote_recent-demotion (changes + 1) (volatile_below * changes) now u [] d e in
      absurd (omega arith)
  demoted_interval (u ∷ u' ∷ us) d ordered past few e =
      let (enough, young, demoted) =
        demote_recent-demotion (changes + 1) (volatile_below * changes) now u (u' ∷ us) d e in
      let observed : ℕ = divide_timedelta (last_of u (u' ∷ us) - u) (length (u' ∷ us)) in
      let small : observed ≤ volatile_below =
        mean_gap-le u u' us (last_of-le_now now u (u' ∷ us) past) young (omega arith) in
      let learned : max observed min_interval ≡ d.interval =
        interval_of observed (ap demotion (sym (observed_is u u' us ordered)) ∙ demoted) in
      omega (arith, small, learned)
    where
      observed_is :
          (u u' : ℕ) (us : List ℕ)
          → IsDescending ltb (u ∷ u' ∷ us)
          → observed_change_interval (u ∷ u' ∷ us)
            ≡ some (divide_timedelta (last_of u (u' ∷ us) - u) (length (u' ∷ us)))
      observed_is u u' us ordered =
          unfold observed_change_interval in ap mean_gap (sorted_desc_fixed (u ∷ u' ∷ us) ordered)

      interval_of :
          (interval : ℕ)
          → demotion (some interval) ≡ some d
          → max interval min_interval ≡ d.interval
      interval_of interval h = cc

module _ {F : Type 0} (policy : FreshnessPolicy F)
    (some_changes : 1 ≤ policy.demote_after_changes) where
  -- Where a demotion takes at least one change, the interval that it learns is at most the
  -- boundary, or the least interval that is stored, a second.
  pub demotion_bounds :
      {Uuid : Type 0} (source : DataSource Uuid) (version_times : List ℕ) (now : ℕ)
      (d : MigrationDecision)
      → source.route ≡ cag_with_rag_backup
      → decide_migration policy source version_times now ≡ some d
      → d.interval ≤ max policy.volatile_below min_interval
  unfolding decide_migration decide_for last_times
  demotion_bounds source version_times now d routed e =
      demoted_interval policy.demote_after_changes policy.volatile_below now some_changes
        (drop k history) d
        (drop-IsDescending k history
          (sorted_desc-IsDescending ltb ltb-IsTotal (until now version_times)))
        (drop-All k now history (
          All-sorted_desc ltb (λ t. t ≤ now) (until now version_times)
            (until-All now version_times)))
        (omega (arith, length-drop k history)) (rw routed at e)
    where
      history : List ℕ
      history = in_order (until now version_times)

      k : ℕ
      k = length history - (policy.demote_after_changes + 1)
