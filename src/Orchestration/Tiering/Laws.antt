-- ===== src/Orchestration/Tiering/Laws.antt =====
-- What the policies do with the fast store, after any history of accesses.
use ai_augmented_generation.Prelude.{
  ◌≡◌, refl, ap, sym, ◌∙◌, subst, inl, inr, ℕ, ◌≤◌, String, Bool, true, false, Option, none, some,
  List, ltb, leb, ltb-false, Eq, ◌==◌, ==_refl, pair_eq, nat_eq, Bool-cases, if◌then◌else◌, arith,
  length, length-take,
}
use ai_augmented_generation.Prelude.Dict.{Dict}
use ai_augmented_generation.Orchestration.AccessCounter.{keys}
use ai_augmented_generation.Prelude.Sort.{sorted_desc}
use ai_augmented_generation.Orchestration.Stores.{Store, IsStore, is_some}
use ai_augmented_generation.Orchestration.Tiering.{
  TierDecision, promoted, demoted, unchanged, SharedKey, counts_of, more_accessed, accessed,
  most_accessed, decide, decide_found,
}

-- What the store should hold of a key that was accessed `n` times.
abbrev pub target : {H : Type 0} → ℕ → ℕ → ℕ → H → Option H → Option H
target promote_threshold demote_threshold n hit before =
    if leb promote_threshold n
    then (if is_some before then before else some hit)
    else if ltb n demote_threshold
    then none
    else before

abbrev pub moved : Bool → Bool → TierDecision
moved false true = promoted
moved true false = demoted
moved _ _ = unchanged

still : (b : Bool) → moved b b ≡ unchanged
still true = refl
still false = refl

module _ {K S H : Type 0} ⦃keys_eq : Eq K⦄ (store : Store K S H) (hit_of : String → H)
    (IsSound : S → Type 0) (view : S → K → Option H)
    (laws : IsStore store hit_of IsSound view) where
  -- Of the key the store holds what it should, of all others what it held; and the decision names
  -- the change.
  pub record Settles (promote_threshold demote_threshold n : ℕ) (k : K) (content : String) (s : S)
      (after : S × TierDecision) : Type 0 where
    pub sound : IsSound (after.0)
    pub held :
        (j : K)
        → view (after.0) j ≡ (
            if k == j
            then target promote_threshold demote_threshold n (hit_of content) (view s k)
            else view s j)
    pub named :
        after.1
        ≡ moved
            (is_some (view s k))
            (is_some (target promote_threshold demote_threshold n (hit_of content) (view s k)))

  keeps :
      (s : S) (k : K) (found : Option H)
      → found ≡ view s k
      → (j : K) → (if k == j then found else view s j) ≡ view s j
  keeps s k found e j = elim (Bool-cases (k == j)) [
    | inl same ↦ rw same (e ∙ ap (view s) ((keys_eq.eqb_iff k j).0 same))
    | inr other ↦ rw other refl
  ]

  module _ (promote_threshold demote_threshold n : ℕ) (k : K) (content : String) (s s' : S)
      (band : demote_threshold ≤ promote_threshold) (sound : IsSound s')
      (same : (j : K) → view s' j ≡ view s j) where
    promoted-Settles :
        leb promote_threshold n ≡ true
        → is_some (view s k) ≡ false
        → Settles promote_threshold demote_threshold n k content s
            (store.preload s' k content, promoted)
    promoted-Settles often absent = record {
      sound = laws.preload-IsSound s' k content sound;
      held = λ j. laws.view-preload s' k j content sound ∙ rw (often, absent, same j) refl;
      named = rw (often, absent) refl;
    }

    demoted-Settles :
        leb promote_threshold n ≡ false
        → ltb n demote_threshold ≡ true
        → is_some (view s k) ≡ true
        → Settles promote_threshold demote_threshold n k content s (store.evict s' k, demoted)
    demoted-Settles few seldom there = record {
      sound = laws.evict-IsSound s' k sound;
      held = λ j. laws.view-evict s' k j sound ∙ rw (few, seldom, same j) refl;
      named = rw (few, seldom, there) refl;
    }

    unchanged-Settles :
        target promote_threshold demote_threshold n (hit_of content) (view s k) ≡ view s k
        → Settles promote_threshold demote_threshold n k content s (s', unchanged)
    unchanged-Settles right = record {
      sound = sound;
      held = λ j.
          same j
          ∙ sym (
              keeps s k (target promote_threshold demote_threshold n (hit_of content) (view s k))
                right j);
      named = rw right (sym (still (is_some (view s k))));
    }

    decide-Settles :
        (is_there : Bool)
        → is_some (view s k) ≡ is_there
        → Settles promote_threshold demote_threshold n k content s
            (decide store s' k content promote_threshold demote_threshold n is_there)
    unfolding decide
    decide-Settles true there = elim (Bool-cases (leb promote_threshold n)) [
      | inl often ↦
          rw (often, ltb-false n demote_threshold (ground arith))
            (unchanged-Settles (rw (often, there) refl))
      | inr few ↦ elim (Bool-cases (ltb n demote_threshold)) [
        | inl seldom ↦ rw (few, seldom) (demoted-Settles few seldom there)
        | inr between ↦ rw (few, between) (unchanged-Settles (rw (few, between) refl))
      ]
    ]
    decide-Settles false absent = elim (Bool-cases (leb promote_threshold n)) [
      | inl often ↦ rw often (promoted-Settles often absent)
      | inr few ↦ elim (Bool-cases (ltb n demote_threshold)) [
        | inl seldom ↦
            rw (few, seldom) (unchanged-Settles (rw (few, seldom) (gone (view s k) absent)))
        | inr between ↦ rw (few, between) (unchanged-Settles (rw (few, between) refl))
      ]
    ]
      where
        gone : (found : Option H) → is_some found ≡ false → none ≡ found
        gone none e = refl
        gone (some a) e = cc

  -- The two calls of the store that a policy makes, with the count that the tracker gives.
  pub found-Settles :
      (promote_threshold demote_threshold counted n : ℕ) (k : K) (content : String) (s : S)
      → demote_threshold ≤ promote_threshold
      → IsSound s
      → counted ≡ n
      → Settles promote_threshold demote_threshold n k content s (
          decide_found store k content promote_threshold demote_threshold counted
            (store.contains s k))
  found-Settles p q counted n k content s band sound e =
      subst
        (λ m.
          Settles p q m k content s (decide_found store k content p q counted (store.contains s k)))
        e
        (decide-Settles p q counted k content s ((store.contains s k).0) band
          (laws.contains-IsSound s k sound) (λ j. laws.view-contains s k j sound)
          ((store.contains s k).1) (sym (laws.contains_found s k sound)))

  settled :
      (p q n : ℕ) (hit : H) (before : Option H)
      → target p q n hit (target p q n hit before) ≡ target p q n hit before
  settled p q n hit none = ground arith
  settled p q n hit (some there) = ground arith

  Settles-again :
      (p q n : ℕ) (k : K) (content : String) (s s' s'' : S) (first second : TierDecision)
      → Settles p q n k content s (s', first)
      → Settles p q n k content s' (s'', second)
      → (second ≡ unchanged) × ((j : K) → view s'' j ≡ view s' j)
  Settles-again p q n k content s s' s'' first second done again = (
    again.named ∙ rw fixed (still (is_some (view s' k))),
    λ j. again.held j ∙ keeps s' k (target p q n (hit_of content) (view s' k)) fixed j,
  )
    where
      at_key : view s' k ≡ target p q n (hit_of content) (view s k)
      at_key = done.held k ∙ rw (==_refl k) refl

      fixed : target p q n (hit_of content) (view s' k) ≡ view s' k
      fixed = rw at_key (settled p q n (hit_of content) (view s k))

  -- A policy that is evaluated again with the same count, thresholds and content leaves the store
  -- as it is: content does not flap between the tiers.
  pub decide_found_again :
      (promote_threshold demote_threshold n : ℕ) (k : K) (content : String) (s : S)
      → demote_threshold ≤ promote_threshold
      → IsSound s
      → let (s', first) =
          decide_found store k content promote_threshold demote_threshold n (store.contains s k) in
        let (s'', second) =
          decide_found store k content promote_threshold demote_threshold n (store.contains s' k) in
        (second ≡ unchanged) × ((j : K) → view s'' j ≡ view s' j)
  decide_found_again p q n k content s band sound =
      let first = decide_found store k content p q n (store.contains s k) in
      let done : Settles p q n k content s first =
        found-Settles p q n n k content s band sound refl in
      let second = decide_found store k content p q n (store.contains (first.0) k) in
      Settles-again p q n k content s (first.0) (second.0) (first.1) (second.1) done
        (found-Settles p q n n k content (first.0) band done.sound refl)

pub length-most_accessed :
    (retention : ℕ) (d : Dict SharedKey (List ℕ)) (tenant_id n window now : ℕ)
    → length ((most_accessed retention d tenant_id n window now).1) ≤ n
unfolding most_accessed
length-most_accessed retention d tenant_id n window now =
    let (d', counts) = counts_of retention d tenant_id window now (keys d) in
    omega (arith, length-take n (accessed (sorted_desc more_accessed counts)))
