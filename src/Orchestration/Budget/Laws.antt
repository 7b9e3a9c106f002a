-- ===== src/Orchestration/Budget/Laws.antt =====
-- What `allocate` promises of the slices, whatever the rounding of the floats.
use ai_augmented_generation.Prelude.{
  ℕ, ◌≡◌, refl, ◌∙◌, true, false, List, [], ◌∷◌, arith, ok, Bool-cases, inl, inr,
}
use ai_augmented_generation.Prelude.Int.{
  ℤ, pos, negsuc, ◌+ℤ◌, ◌-ℤ◌, ◌≤ℤ◌, int_laws, +ℤ_parts, -ℤ_parts, parts_of_eq, -ℤ_self,
}
use ai_augmented_generation.Prelude.Float.{Floats}
use ai_augmented_generation.Orchestration.Entities.{
  Paradigm, cag, mag, rag, paradigm_order, contains, BudgetShares, share_for, BudgetAllocation,
  total, slice_for,
}
use ai_augmented_generation.Orchestration.Budget.{
  Slices, Ledger, slice, gain, lose, give, donate, recipients, reallocate, reallocate_all,
  base_slices, initial_reserve, portion_of, allocate, weighted, sum_shares, first_active,
  all_active,
}

abbrev sum_slices : Slices → ℤ
sum_slices s = s.cag +ℤ s.mag +ℤ s.rag

abbrev tally : Ledger → ℤ
tally l = sum_slices l.slices +ℤ l.reserve

sum_slices-gain : (s : Slices) (p : Paradigm) (n : ℤ) → sum_slices (gain s p n) ≡ sum_slices s +ℤ n
sum_slices-gain s cag n = omega int_laws
sum_slices-gain s mag n = omega int_laws
sum_slices-gain s rag n = omega int_laws

sum_slices-lose : (s : Slices) (p : Paradigm) (n : ℤ) → sum_slices (lose s p n) +ℤ n ≡ sum_slices s
sum_slices-lose s cag n = omega int_laws
sum_slices-lose s mag n = omega int_laws
sum_slices-lose s rag n = omega int_laws

module _ (fl : Floats) (shares : BudgetShares fl.Float) where
  give_conserves :
      (d : ℤ) (w : fl.Float) (ps : List Paradigm) (s : Slices) (given : ℤ)
      → sum_slices (give fl shares d w ps s given).0 -ℤ (give fl shares d w ps s given).1
        ≡ sum_slices s -ℤ given
  unfolding give
  give_conserves d w [] s given = refl
  give_conserves d w (p ∷ ps) s given =
      let portion = weighted fl d (share_for shares p) w in
      let rest = give_conserves d w ps (gain s p portion) (given +ℤ portion) in
      let gained = sum_slices-gain s p portion in
      omega (int_laws, parts_of_eq rest, parts_of_eq gained)

  donate_conserves :
      (d : ℤ) (ps : List Paradigm) (l : Ledger) → tally (donate fl shares d ps l) ≡ tally l +ℤ d
  unfolding donate
  donate_conserves d [] l = omega int_laws
  donate_conserves d (p ∷ []) l = omega (int_laws, parts_of_eq (sum_slices-gain l.slices p d))
  donate_conserves d (p ∷ q ∷ ps) l =
      elim (Bool-cases
        (fl.le (sum_shares fl shares (fl.of_int (pos 0)) (p ∷ q ∷ ps)) (fl.of_int (pos 0)))) [
          | inl none_weighs ↦ rw none_weighs (omega int_laws)
          | inr weighs ↦ rw weighs (
              omega (
                int_laws,
                parts_of_eq (
                    give_conserves d (sum_shares fl shares (fl.of_int (pos 0)) (p ∷ q ∷ ps))
                      (p ∷ q ∷ ps) l.slices (pos 0)),
              ))
        ]

  reallocate_conserves :
      (base : Slices) (active : List Paradigm) (l : Ledger) (idle : Paradigm)
      → tally (reallocate fl shares base active l idle) ≡ tally l
  unfolding reallocate
  reallocate_conserves base active l idle = elim (Bool-cases (contains active idle)) [
    | inl busy ↦ rw busy
    | inr free ↦
        let d = slice base idle in
        let rs = recipients idle active in
        rw free (
          omega (
            int_laws,
            parts_of_eq (donate_conserves d rs (record l { slices = lose l.slices idle d })),
            parts_of_eq (sum_slices-lose l.slices idle d),
          ))
  ]

  reallocate_all_conserves :
      (base : Slices) (active ps : List Paradigm) (l : Ledger)
      → tally (reallocate_all fl shares base active ps l) ≡ tally l
  unfolding reallocate_all
  reallocate_all_conserves base active [] l = refl
  reallocate_all_conserves base active (p ∷ ps) l =
      reallocate_all_conserves base active ps (reallocate fl shares base active l p)
      ∙ reallocate_conserves base active l p

  -- Whatever the shares, the contributing paradigms and the rounding of the floats, the slices of
  -- an allocation, the query's and the reserve with them, sum to the tokens of the context window.
  pub total-allocate :
      (total_tokens : ℤ) (contributing : List Paradigm) {a : BudgetAllocation}
      → allocate fl total_tokens contributing shares ≡ ok a
      → total a ≡ total_tokens
  unfolding allocate total initial_reserve
  total-allocate (negsuc n) contributing h = ground arith
  total-allocate (pos n) contributing {a} h = rw (← made) (
      omega
        (int_laws, parts_of_eq (reallocate_all_conserves base contributing paradigm_order start)))
    where
      base : Slices
      base = base_slices fl (pos n) shares

      start : Ledger
      start = record { slices = base; reserve = initial_reserve fl (pos n) shares }

      end : Ledger
      end = reallocate_all fl shares base contributing paradigm_order start

      made :
          record {
            cag = end.slices.cag;
            mag = end.slices.mag;
            rag = end.slices.rag;
            query = portion_of fl (pos n) shares.query;
            reserve = end.reserve;
          }
          ≡ a
      made = cc h

  -- A paradigm that does not contribute to the turn gets no tokens: it donates its slice once, and
  -- nothing is donated to it.
  pub idle_slice :
      (total_tokens : ℤ) (contributing : List Paradigm) (p : Paradigm) {a : BudgetAllocation}
      → contains contributing p ≡ false
      → allocate fl total_tokens contributing shares ≡ ok a
      → slice_for a p ≡ pos 0
  unfolding allocate reallocate_all reallocate recipients donate give first_active all_active
  idle_slice (negsuc n) contributing p {a} idle h = ground arith
  idle_slice (pos n) contributing cag {a} idle h =
      ground (arith, -ℤ_self (base_slices fl (pos n) shares).cag)
  idle_slice (pos n) contributing mag {a} idle h =
      ground (arith, -ℤ_self (base_slices fl (pos n) shares).mag)
  idle_slice (pos n) contributing rag {a} idle h =
      ground (arith, -ℤ_self (base_slices fl (pos n) shares).rag)

-- What the code relies on of the rounding at `n` tokens: the floors are not negative, those of the
-- four shares fit in the window, and those of the two parts of MAG's donation fit in the donation.
pub record RoundsDown (fl : Floats) (shares : BudgetShares fl.Float) (n : ℕ) : Type 0 where
  pub share_nonneg : (p : Paradigm) → pos 0 ≤ℤ portion_of fl (pos n) (share_for shares p)
  pub shares_fit :
      portion_of fl (pos n) shares.cag
        +ℤ portion_of fl (pos n) shares.mag
        +ℤ portion_of fl (pos n) shares.rag
        +ℤ portion_of fl (pos n) shares.query
      ≤ℤ pos n
  pub part_nonneg :
      (p : Paradigm)
      → pos 0
        ≤ℤ weighted fl
            (portion_of fl (pos n) shares.mag)
            (share_for shares p)
            (sum_shares fl shares (fl.of_int (pos 0)) (cag ∷ rag ∷ []))
  pub parts_fit :
      (let part = λ (p : Paradigm).
          weighted fl
            (portion_of fl (pos n) shares.mag)
            (share_for shares p)
            (sum_shares fl shares (fl.of_int (pos 0)) (cag ∷ rag ∷ [])) in
        part cag +ℤ part rag)
      ≤ℤ portion_of fl (pos n) shares.mag

module _ (fl : Floats) (shares : BudgetShares fl.Float) (n : ℕ)
    (rounds : RoundsDown fl shares n) where
  -- Where the floats round down, a contributing paradigm keeps at least its base slice.
  pub active_slice :
      (contributing : List Paradigm) (p : Paradigm) {a : BudgetAllocation}
      → contains contributing p ≡ true
      → allocate fl (pos n) contributing shares ≡ ok a
      → portion_of fl (pos n) (share_for shares p) ≤ℤ slice_for a p
  unfolding allocate reallocate_all reallocate recipients donate give first_active all_active
      base_slices
  active_slice contributing cag {a} active h =
      let base = base_slices fl (pos n) shares in
      let part =
        weighted fl base.mag shares.cag
          (sum_shares fl shares (fl.of_int (pos 0)) (cag ∷ rag ∷ [])) in
      ground (
        arith,
        +ℤ_parts base.cag base.mag,
        +ℤ_parts base.cag base.rag,
        +ℤ_parts base.cag part,
        +ℤ_parts (base.cag +ℤ base.mag) base.rag,
        rounds.share_nonneg cag,
        rounds.share_nonneg mag,
        rounds.share_nonneg rag,
        rounds.part_nonneg cag,
      )
  active_slice contributing mag {a} active h =
      let base = base_slices fl (pos n) shares in
      ground (
        arith,
        +ℤ_parts base.mag base.cag,
        +ℤ_parts base.mag base.rag,
        +ℤ_parts (base.mag +ℤ base.cag) base.rag,
        rounds.share_nonneg cag,
        rounds.share_nonneg mag,
        rounds.share_nonneg rag,
      )
  active_slice contributing rag {a} active h =
      let base = base_slices fl (pos n) shares in
      let part =
        weighted fl base.mag shares.rag
          (sum_shares fl shares (fl.of_int (pos 0)) (cag ∷ rag ∷ [])) in
      ground (
        arith,
        +ℤ_parts base.rag base.cag,
        +ℤ_parts base.rag base.mag,
        +ℤ_parts base.rag part,
        +ℤ_parts (base.rag +ℤ base.cag) base.mag,
        rounds.share_nonneg cag,
        rounds.share_nonneg mag,
        rounds.share_nonneg rag,
        rounds.part_nonneg rag,
      )

  initial_reserve_nonneg : pos 0 ≤ℤ initial_reserve fl (pos n) shares
  unfolding initial_reserve base_slices
  initial_reserve_nonneg = omega (int_laws, rounds.shares_fit)

  -- Where the floats round down, the reserve is never overdrawn.
  pub reserve_nonneg :
      (contributing : List Paradigm) {a : BudgetAllocation}
      → allocate fl (pos n) contributing shares ≡ ok a
      → pos 0 ≤ℤ a.reserve
  unfolding allocate reallocate_all reallocate recipients donate give first_active all_active
      base_slices
  reserve_nonneg contributing {a} h =
      let base = base_slices fl (pos n) shares in
      let kept = initial_reserve fl (pos n) shares in
      let w = sum_shares fl shares (fl.of_int (pos 0)) (cag ∷ rag ∷ []) in
      let c = weighted fl base.mag shares.cag w in
      let r = weighted fl base.mag shares.rag w in
      ground (
        arith,
        initial_reserve_nonneg,
        +ℤ_parts kept base.cag,
        +ℤ_parts kept base.mag,
        +ℤ_parts (kept +ℤ base.cag) base.mag,
        +ℤ_parts (kept +ℤ base.cag +ℤ base.mag) base.rag,
        +ℤ_parts (pos 0) c,
        +ℤ_parts (pos 0 +ℤ c) r,
        +ℤ_parts c r,
        -ℤ_parts base.mag (pos 0 +ℤ c +ℤ r),
        +ℤ_parts kept (base.mag -ℤ (pos 0 +ℤ c +ℤ r)),
        rounds.share_nonneg cag,
        rounds.share_nonneg mag,
        rounds.share_nonneg rag,
        rounds.parts_fit,
      )
