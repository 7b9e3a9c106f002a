-- ===== src/Orchestration/Freshness/Laws.antt =====
-- A migration is stable: what it decides is not undone by the same history.
use ai_augmented_generation.Prelude.{
  ◌≡◌, ◌≢◌, ◌⊎◌, refl, sym, ◌∙◌, inl, inr, ℕ, zero, suc, ◌+◌, ◌-◌, ◌*◌, ◌≤◌, ◌<◌, Option, none,
  some, List, [], ◌∷◌, All, ltb, leb, leb→le, le→leb, Bool-cases, length, drop, arith,
}
use ai_augmented_generation.Prelude.Sort.{
  IsTotal, IsDescending, sorted_desc-IsDescending, All-sorted_desc,
}
use ai_augmented_generation.Orchestration.Freshness.{
  IngestionRoute, rag_only, cag_with_rag_backup, mag, FreshnessPolicy, DataSource,
  MigrationDecision, in_order, last_of, observed_change_interval, last_times, until, demotion,
  demote_recent, promote_quiet, decide_for, decide_migration,
}

pub ltb-IsTotal : IsTotal ltb
ltb-IsTotal = record { asym = λ x y h. ground arith; at_most_trans = λ x y z h h'. ground arith }

-- In order, the first is not after the last.
last_of-le : (t : ℕ) (times : List ℕ) → IsDescending ltb (t ∷ times) → t ≤ last_of t times
unfolding last_of
last_of-le t [] h = omega arith
last_of-le t (t' ∷ times) h = ground (arith, last_of-le t' times (h.1), h.0.0)

pub until-All : (now : ℕ) (times : List ℕ) → All (λ t. t ≤ now) (until now times)
unfolding until
until-All now [] = tt
until-All now (t ∷ times) = elim (Bool-cases (leb t now)) [
  | inl e ↦ rw e (leb→le t now e, until-All now times)
  | inr e ↦ rw e (until-All now times)
]

drop-nil : (k : ℕ) → drop {A = ℕ} k [] ≡ []
drop-nil zero = refl
drop-nil (suc k) = refl

-- What stands first from some place on is not after the last.
first_of_drop :
    (k t : ℕ) (times : List ℕ) (u : ℕ) (us : List ℕ)
    → IsDescending ltb (t ∷ times)
    → drop k (t ∷ times) ≡ u ∷ us
    → u ≤ last_of t times
unfolding last_of
first_of_drop zero t times u us h e = ground (arith, last_of-le t times h)
first_of_drop (suc k) t [] u us h e = ground (arith, drop-nil k)
first_of_drop (suc k) t (t' ∷ times) u us h e = first_of_drop k t' times u us (h.1) e

pub last_of-le_now :
    (now t : ℕ) (times : List ℕ) → All (λ u. u ≤ now) (t ∷ times) → last_of t times ≤ now
unfolding last_of
last_of-le_now now t [] h = h.0
last_of-le_now now t (t' ∷ times) h = last_of-le_now now t' times (h.1)

-- What holds where the recent times lead to a demotion.
pub demote_recent-demotion :
    (needed window now u : ℕ) (us : List ℕ) (d : MigrationDecision)
    → demote_recent needed window now (u ∷ us) ≡ some d
    → (needed ≤ length (u ∷ us))
      × (now < u + window)
      × (demotion (observed_change_interval (u ∷ us)) ≡ some d)
demote_recent-demotion needed window now u us d e =
    elim (Bool-cases (ltb (length (u ∷ us)) needed)) [
      | inl few ↦ absurd (some-ne-none (sym e ∙ rw few refl))
      | inr enough ↦ elim (Bool-cases (leb (u + window) now)) [
        | inl old ↦ absurd (some-ne-none (sym e ∙ rw (enough, old) refl))
        | inr young ↦ (ground arith, ground arith, sym (rw (enough, young) refl) ∙ e)
      ]
    ]
  where
    some-ne-none : some d ≢ none
    some-ne-none h = cc

demote_recent-some :
    (needed window now : ℕ) (recent : List ℕ) (d : MigrationDecision)
    → demote_recent needed window now recent ≡ some d
    → (d.to_route ≡ rag_only) × ((u : ℕ) × (us : List ℕ) × (recent ≡ u ∷ us) × (now < u + window))
demote_recent-some needed window now [] d e = cc
demote_recent-some needed window now (u ∷ us) d e =
    let (enough, young, demoted) = demote_recent-demotion needed window now u us d e in
    (to_rag (observed_change_interval (u ∷ us)) demoted, (u, us, refl, young))
  where
    to_rag : (interval : Option ℕ) → demotion interval ≡ some d → d.to_route ≡ rag_only
    to_rag none h = cc
    to_rag (some interval) h = cc

promote_quiet-some :
    (window now t : ℕ) (times : List ℕ) (d : MigrationDecision)
    → promote_quiet window now (t ∷ times) ≡ some d
    → (d.to_route ≡ cag_with_rag_backup)
      × (d.interval ≡ now - last_of t times)
      × (window ≤ now - last_of t times)
promote_quiet-some window now t times d e = (ground arith, ground arith, ground arith)

promote_quiet-none :
    (window now t : ℕ) (times : List ℕ)
    → last_of t times ≤ now
    → now < last_of t times + window
    → promote_quiet window now (t ∷ times) ≡ none
promote_quiet-none window now t times past young = ground arith

demote_recent-none :
    (needed window now u : ℕ) (us : List ℕ)
    → u + window ≤ now
    → demote_recent needed window now (u ∷ us) ≡ none
demote_recent-none needed window now u us old = elim (Bool-cases (ltb (length (u ∷ us)) needed)) [
  | inl few ↦ rw few refl
  | inr enough ↦ rw (enough, le→leb (u + window) now old) refl
]

-- A positive multiple grows with the factor.
mul_mono : (b k p : ℕ) → k ≤ p → b * k ≤ b * p
mul_mono b k p h = grind arith

module _ {F : Type 0} (policy : FreshnessPolicy F)
    (exceeds : policy.demote_after_changes < policy.promote_after_quiet_multiple) where
  windows :
      policy.volatile_below * policy.demote_after_changes
      ≤ policy.volatile_below * policy.promote_after_quiet_multiple
  windows =
      mul_mono policy.volatile_below policy.demote_after_changes policy.promote_after_quiet_multiple
        (omega arith)

  demoted_stays :
      (history : List ℕ) (now : ℕ) (d : MigrationDecision)
      → IsDescending ltb history
      → All (λ t. t ≤ now) history
      → decide_for policy cag_with_rag_backup history now ≡ some d
      → (d.to_route ≡ rag_only) × (decide_for policy rag_only history now ≡ none)
  unfolding decide_for last_times
  demoted_stays [] now d ordered past e =
      let needed = policy.demote_after_changes + 1 in
      let k : ℕ = length {A = ℕ} [] - needed in
      let (to_rag, (u, us, same, young)) =
        demote_recent-some needed (policy.volatile_below * policy.demote_after_changes) now
          (drop k []) d e in
      cc (drop-nil k, same)
  demoted_stays (t ∷ times) now d ordered past e =
      let needed = policy.demote_after_changes + 1 in
      let window = policy.volatile_below * policy.demote_after_changes in
      let recent = drop (length (t ∷ times) - needed) (t ∷ times) in
      let (to_rag, (u, us, same, young)) = demote_recent-some needed window now recent d e in
      (
        to_rag,
        promote_quiet-none (policy.volatile_below * policy.promote_after_quiet_multiple) now t times
            (last_of-le_now now t times past)
            (omega (
              arith,
              young,
              windows,
              first_of_drop (length (t ∷ times) - needed) t times u us ordered same,
            )),
      )

  promoted_stays :
      (history : List ℕ) (now : ℕ) (d : MigrationDecision)
      → IsDescending ltb history
      → All (λ t. t ≤ now) history
      → decide_for policy rag_only history now ≡ some d
      → (d.to_route ≡ cag_with_rag_backup)
        × (decide_for policy cag_with_rag_backup history now ≡ none)
  unfolding decide_for last_times
  promoted_stays [] now d ordered past e = cc
  promoted_stays (t ∷ times) now d ordered past e =
      let needed = policy.demote_after_changes + 1 in
      let k = length (t ∷ times) - needed in
      let (to_cag, same, quiet) =
        promote_quiet-some (policy.volatile_below * policy.promote_after_quiet_multiple) now t times
          d e in
      (to_cag, by_recent k (drop k (t ∷ times)) refl quiet)
    where
      by_recent :
          (k : ℕ) (recent : List ℕ)
          → drop k (t ∷ times) ≡ recent
          → policy.volatile_below * policy.promote_after_quiet_multiple ≤ now - last_of t times
          → demote_recent
              (policy.demote_after_changes + 1)
              (policy.volatile_below * policy.demote_after_changes)
              now
              (drop k (t ∷ times))
            ≡ none
      by_recent k [] e' quiet = rw e' refl
      by_recent k (u ∷ us) e' quiet = rw e' (
          demote_recent-none (policy.demote_after_changes + 1)
            (policy.volatile_below * policy.demote_after_changes) now u us
            (omega (
              arith,
              windows,
              quiet,
              last_of-le_now now t times past,
              first_of_drop k t times u us ordered e',
            )))

  -- Where the policy is valid, a migration is stable: once it is made, the same history, at the
  -- same time, decides none.
  pub decide_migration_stable :
      {Uuid : Type 0} (source : DataSource Uuid) (version_times : List ℕ) (now : ℕ)
      (d : MigrationDecision)
      → decide_migration policy source version_times now ≡ some d
      → decide_migration policy (record source { route = d.to_route }) version_times now ≡ none
  unfolding decide_migration
  decide_migration_stable source version_times now d e = by_route source.route e
    where
      history : List ℕ
      history = in_order (until now version_times)

      ordered : IsDescending ltb history
      ordered = sorted_desc-IsDescending ltb ltb-IsTotal (until now version_times)

      past : All (λ t. t ≤ now) history
      past =
          All-sorted_desc ltb (λ t. t ≤ now) (until now version_times) (until-All now version_times)

      by_route :
          (route : IngestionRoute)
          → decide_for policy route history now ≡ some d
          → decide_for policy d.to_route history now ≡ none
      by_route mag h = unfold decide_for in cc
      by_route cag_with_rag_backup h =
          let (to_rag, none_then) = demoted_stays history now d ordered past h in
          rw to_rag none_then
      by_route rag_only h =
          let (to_cag, none_then) = promoted_stays history now d ordered past h in
          rw to_cag none_then

promote_quiet-cached :
    (window now : ℕ) (history : List ℕ) (d : MigrationDecision)
    → promote_quiet window now history ≡ some d
    → d.to_route ≡ cag_with_rag_backup
promote_quiet-cached window now [] d e = cc
promote_quiet-cached window now (t ∷ times) d e = (promote_quiet-some window now t times d e).0

-- A migration takes a source from a route that is not MAG to one that is not.
pub decide_for-routes :
    {F : Type 0} (policy : FreshnessPolicy F) (route : IngestionRoute) (history : List ℕ) (now : ℕ)
    (d : MigrationDecision)
    → decide_for policy route history now ≡ some d
    → (route ≢ mag) × ((d.to_route ≡ rag_only) ⊎ (d.to_route ≡ cag_with_rag_backup))
unfolding decide_for
decide_for-routes policy mag history now d e = cc
decide_for-routes policy rag_only history now d e = (
  λ same. cc,
  inr (
      promote_quiet-cached (policy.volatile_below * policy.promote_after_quiet_multiple) now history
        d e),
)
decide_for-routes policy cag_with_rag_backup history now d e = (
  λ same. cc,
  inl (
      (demote_recent-some (policy.demote_after_changes + 1)
        (policy.volatile_below * policy.demote_after_changes) now
        (last_times (policy.demote_after_changes + 1) history) d e).0),
)

pub decide_migration-routes :
    {F Uuid : Type 0} (policy : FreshnessPolicy F) (source : DataSource Uuid) (times : List ℕ)
    (now : ℕ) (d : MigrationDecision)
    → decide_migration policy source times now ≡ some d
    → (source.route ≢ mag) × ((d.to_route ≡ rag_only) ⊎ (d.to_route ≡ cag_with_rag_backup))
unfolding decide_migration
decide_migration-routes policy source times now d e =
    decide_for-routes policy source.route (in_order (until now times)) now d e
