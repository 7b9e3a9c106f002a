-- ===== src/Cag/Eviction/Laws.antt =====
-- What the evictors keep.
use ai_augmented_generation.Prelude.{
  ℕ, ◌+◌, ◌-◌, ◌≤◌, ◌<◌, ◌≡◌, refl, ap, sym, subst, min, true, false, Option, none, some, List,
  ◌++◌, length, length-append, get_elem?, take, drop, length-take, take-append-drop, count,
  count-append, count-take-le, All, ok, ltb, if◌then◌else◌, arith,
}
use native.Mathlib.Decide.{dec_lt}
use ai_augmented_generation.Prelude.Float.{Floats}
use ai_augmented_generation.Prelude.Sort.{
  sorted_desc, IsTotal, sorted_desc-IsDescending, length-sorted_desc, take-above-drop,
}
use ai_augmented_generation.Cag.Eviction.{
  EvictionDecision, range_from, sorted, without, decision, greater, heavier, keep_windowed,
  h2o_select,
}
use ai_augmented_generation.Cag.Eviction.Indices.{
  IsAscending, count-range_from, length-range_from, count-sorted_desc, count-without, at_count,
  union_disjoint, sorted-IsAscending, count-sorted, length-sorted, range_from-IsAscending,
  length-without,
}

-- The decision keeps positions below `seq_len`, in order and none twice, as many as the budget
-- allows, and counts the others as evicted.
pub record Selects (seq_len budget : ℕ) (d : EvictionDecision) : Type 0 where
  pub ascending : IsAscending d.keep_indices
  pub inside : (i : ℕ) → count i d.keep_indices ≤ (if ltb i seq_len then 1 else 0)
  pub size : length d.keep_indices ≡ min budget seq_len
  pub evicted : d.evicted_count + length d.keep_indices ≡ seq_len

module _ (fl : Floats) (total : IsTotal (λ (a b : fl.Float). fl.lt b a)) where
  greater-IsTotal : IsTotal (greater fl)
  greater-IsTotal = record { asym = asym; at_most_trans = trans }
    where
      asym : (a b : Option fl.Float) → greater fl a b ≡ true → greater fl b a ≡ false
      asym none b h = cc h
      asym (some a) none h = refl
      asym (some a) (some b) h = total.asym a b h

      trans :
          (a b c : Option fl.Float)
          → greater fl b a ≡ false
          → greater fl c b ≡ false
          → greater fl c a ≡ false
      trans a b none h g = refl
      trans a none (some c) h g = cc g
      trans none (some b) (some c) h g = cc h
      trans (some a) (some b) (some c) h g = total.at_most_trans a b c h g

  heavier-IsTotal : (scores : List fl.Float) → IsTotal (heavier fl scores)
  heavier-IsTotal scores = record {
    asym = λ i j. greater-IsTotal.asym (get_elem? scores i) (get_elem? scores j);
    at_most_trans = λ i j k.
        greater-IsTotal.at_most_trans (get_elem? scores i) (get_elem? scores j)
          (get_elem? scores k);
  }

pub sorted-Selects :
    (seq_len budget : ℕ) (xs : List ℕ)
    → ((i : ℕ) → count i xs ≤ (if ltb i seq_len then 1 else 0))
    → length xs ≡ min budget seq_len
    → Selects seq_len budget (decision seq_len (sorted xs))
unfolding decision
sorted-Selects seq_len budget xs h k = record {
  ascending = sorted-IsAscending xs (λ i. ground (arith, h i));
  inside = λ i. ground (arith, h i, count-sorted i xs);
  size = omega (arith, length-sorted xs);
  evicted = omega (arith, length-sorted xs);
}

pub all-Selects :
    (seq_len budget : ℕ)
    → seq_len ≤ budget
    → Selects seq_len budget (decision seq_len (range_from 0 seq_len))
unfolding decision
all-Selects seq_len budget h = record {
  ascending = range_from-IsAscending 0 seq_len;
  inside = λ i. ground (arith, count-range_from i 0 seq_len);
  size = omega (arith, length-range_from 0 seq_len);
  evicted = omega (arith, length-range_from 0 seq_len);
}

module _ (fl : Floats) (scores : List fl.Float) (recent_window budget : ℕ) where
  abbrev seq_len : ℕ
  seq_len = length scores

  abbrev recent_start : ℕ
  recent_start = seq_len - recent_window

  abbrev recent : List ℕ
  recent = range_from recent_start (seq_len - recent_start)

  abbrev ranked : List ℕ
  ranked = sorted_desc (heavier fl scores) (without recent (range_from 0 seq_len))

  abbrev heavy : List ℕ
  heavy = take (budget - length recent) ranked

  count-ranked : (i : ℕ) → count i ranked ≡ (if ltb i recent_start then 1 else 0)
  count-ranked i = ground (
    arith,
    count-sorted_desc (heavier fl scores) i (without recent (range_from 0 seq_len)),
    count-without i recent (range_from 0 seq_len),
    count-range_from i recent_start (seq_len - recent_start),
    count-range_from i 0 seq_len,
  )

  length-ranked : length ranked ≡ recent_start
  length-ranked = omega (
    arith,
    length-sorted_desc (heavier fl scores) (without recent (range_from 0 seq_len)),
    length-without recent_start (seq_len - recent_start) 0 seq_len (omega arith),
  )

  count-both : (i : ℕ) → count i (recent ++ heavy) ≤ (if ltb i seq_len then 1 else 0)
  count-both i = ground (
    arith,
    count-append i recent heavy,
    count-take-le i (budget - length recent) ranked,
    count-ranked i,
    count-range_from i recent_start (seq_len - recent_start),
  )

  abbrev keep : List ℕ
  keep = keep_windowed fl scores recent_window budget

  keep_all : seq_len ≤ budget → keep ≡ range_from 0 seq_len
  unfolding keep_windowed
  keep_all h = ground arith

  keep_latest :
      budget < seq_len
      → budget ≤ length recent
      → keep ≡ sorted (range_from (seq_len - budget) budget)
  unfolding keep_windowed
  keep_latest h k = ground arith

  keep_both : budget < seq_len → length recent < budget → keep ≡ sorted (recent ++ heavy)
  unfolding keep_windowed
  keep_both h k =
      ground (arith, ap sorted (union_disjoint recent heavy (λ i. ground (arith, count-both i))))

  pub keep_windowed-Selects : Selects seq_len budget (decision seq_len keep)
  keep_windowed-Selects = elim (dec_lt budget seq_len) [
    | no h ↦
        subst (λ k. Selects seq_len budget (decision seq_len k)) (sym (keep_all (omega arith)))
          (all-Selects seq_len budget (omega arith))
    | yes h ↦ (elim (dec_lt (length recent) budget) [
      | no k ↦
          subst (λ k. Selects seq_len budget (decision seq_len k))
            (sym (keep_latest h (omega arith)))
            (sorted-Selects seq_len budget (range_from (seq_len - budget) budget)
              (λ i. ground (arith, count-range_from i (seq_len - budget) budget))
              (omega (arith, length-range_from (seq_len - budget) budget)))
      | yes k ↦
          subst (λ k. Selects seq_len budget (decision seq_len k)) (sym (keep_both h k))
            (sorted-Selects seq_len budget (recent ++ heavy) count-both (
              omega (
                arith,
                length-append recent heavy,
                length-ranked,
                length-take (budget - length recent) ranked,
                length-range_from recent_start (seq_len - recent_start),
              )))
    ])
  ]

  -- On a cache and a budget that are not empty, `h2o_select` keeps as many positions as the budget
  -- allows, in order and none twice, and counts the others as evicted.
  pub h2o_select-Selects :
      0 < length scores
      → 0 < budget
      → (d : EvictionDecision) × (h2o_select fl recent_window scores budget ≡ ok d)
        × Selects (length scores) budget d
  unfolding h2o_select
  h2o_select-Selects h k = (decision seq_len keep, ground arith, keep_windowed-Selects)

  -- The latest positions are kept, as many as the window holds and the budget allows.
  pub keep_windowed_recent :
      (i : ℕ)
      → i < length scores
      → length scores ≤ i + min recent_window budget
      → count i (keep_windowed fl scores recent_window budget) ≡ 1
  keep_windowed_recent i h k = elim (dec_lt budget seq_len) [
    | no all ↦ rw (keep_all (omega arith)) (ground (arith, count-range_from i 0 seq_len))
    | yes few ↦ (elim (dec_lt (length recent) budget) [
      | no tight ↦ rw (keep_latest few (omega arith)) (
          ground (
            arith,
            count-sorted i (range_from (seq_len - budget) budget),
            count-range_from i (seq_len - budget) budget,
          ))
      | yes room ↦ rw (keep_both few room) (
          ground (
            arith,
            count-sorted i (recent ++ heavy),
            count-append i recent heavy,
            count-both i,
            count-range_from i recent_start (seq_len - recent_start),
          ))
    ])
  ]

  heavy_first :
      IsTotal (λ (a b : fl.Float). fl.lt b a)
      → (i j : ℕ) → i + recent_window < seq_len
      → j < seq_len
      → 0 < count i heavy
      → count j recent + count j heavy ≡ 0
      → heavier fl scores j i ≡ false
  heavy_first total i j old inside chosen lost =
      at_count (λ y. heavier fl scores y i ≡ false) j (drop (budget - length recent) ranked)
        (at_count
          (λ x. All (λ y. heavier fl scores y x ≡ false) (drop (budget - length recent) ranked)) i
          heavy
          (take-above-drop (heavier fl scores) (budget - length recent) ranked (
            sorted_desc-IsDescending (heavier fl scores) (heavier-IsTotal fl total scores)
              (without recent (range_from 0 seq_len))))
          chosen)
        (ground (
          arith,
          count-range_from j recent_start (seq_len - recent_start),
          count-ranked j,
          ap (count j) (take-append-drop (budget - length recent) ranked),
          count-append j heavy (drop (budget - length recent) ranked),
        ))

  -- Where the scores are totally ordered, no evicted position has a greater score than a position
  -- kept from before the window.
  pub keep_windowed_heaviest :
      IsTotal (λ (a b : fl.Float). fl.lt b a)
      → (i j : ℕ) → i + recent_window < length scores
      → j < length scores
      → count i (keep_windowed fl scores recent_window budget) ≡ 1
      → count j (keep_windowed fl scores recent_window budget) ≡ 0
      → heavier fl scores j i ≡ false
  keep_windowed_heaviest total i j old inside kept evicted = elim (dec_lt budget seq_len) [
    | no all ↦
        absurd (ground (arith, ap (count j) (keep_all (omega arith)), count-range_from j 0 seq_len))
    | yes few ↦ (elim (dec_lt (length recent) budget) [
      | no tight ↦ absurd (
          ground (
            arith,
            ap (count i) (keep_latest few (omega arith)),
            count-sorted i (range_from (seq_len - budget) budget),
            length-range_from recent_start (seq_len - recent_start),
            count-range_from i (seq_len - budget) budget,
          ))
      | yes room ↦
          heavy_first total i j old inside
            (ground (
              arith,
              ap (count i) (keep_both few room),
              count-sorted i (recent ++ heavy),
              count-append i recent heavy,
              count-range_from i recent_start (seq_len - recent_start),
            ))
            (omega (
              arith,
              ap (count j) (keep_both few room),
              count-sorted j (recent ++ heavy),
              count-append j recent heavy,
            ))
    ])
  ]
