-- ===== src/Orchestration/Cascade/Laws.antt =====
-- What the cascade tries, and what its result says of it.
use ai_augmented_generation.Prelude.{
  ◌≡◌, refl, ap, sym, ◌∙◌, subst, ◌⊎◌, inl, inr, Bool, true, false, not, ◌&&◌, ◌||◌, Option, none,
  some, List, [], ◌∷◌, ◌++◌, map, All, All-append, arith, Bool-cases, append-nil, append_assoc,
  map-append,
}
use ai_augmented_generation.Orchestration.Entities.{
  Paradigm, rag, paradigm_order, same, contains, RoutingMode, cascade, parallel, TierOutcome, hit,
  partial, miss, timeout, error,
}
use ai_augmented_generation.Orchestration.Cascade.{
  TierResult, TierAttempt, Reply, answered, timed_out, raised, RoutingDecision, Collector, is_hit,
  nothing, attempt, add, try_tier, is_hit_reply, run_unrouted, all_in, run_routed, run_parallel,
  eligible, run_mode, run,
}

abbrev pub is_failure : TierOutcome → Bool
is_failure timeout = true
is_failure error = true
is_failure hit = false
is_failure partial = false
is_failure miss = false

abbrev pub any_failure : List TierAttempt → Bool
any_failure [] = false
any_failure (a ∷ attempts) = is_failure a.outcome || any_failure attempts

abbrev pub any_hit : Paradigm → List TierAttempt → Bool
any_hit p [] = false
any_hit p (a ∷ attempts) = (is_hit a.outcome && same a.paradigm p) || any_hit p attempts

any_failure-append :
    (xs : List TierAttempt) (a : TierAttempt)
    → any_failure (xs ++ a ∷ []) ≡ (is_failure a.outcome || any_failure xs)
any_failure-append [] a = refl
any_failure-append (x ∷ xs) a = ground (arith, any_failure-append xs a)

any_hit-append :
    (p : Paradigm) (xs : List TierAttempt) (a : TierAttempt)
    → any_hit p (xs ++ a ∷ []) ≡ ((is_hit a.outcome && same a.paradigm p) || any_hit p xs)
any_hit-append p [] a = refl
any_hit-append p (x ∷ xs) a = ground (arith, any_hit-append p xs a)

module _ {F : Type 0} (replies : Paradigm → Reply F) where
  module _ (P : Collector F → Type 0) (Q : Paradigm → Type 0)
      (keeps : (c : Collector F) (p : Paradigm) → Q p → P c → P (try_tier replies c p)) where
    run_unrouted_keeps :
        (tiers ps : List Paradigm) (c : Collector F)
        → ((p : Paradigm) → contains tiers p ≡ true → Q p)
        → P c
        → P (run_unrouted replies tiers ps c)
    unfolding run_unrouted
    run_unrouted_keeps tiers [] c q h = h
    run_unrouted_keeps tiers (p ∷ ps) c q h = elim (Bool-cases (contains tiers p)) [
      | inr absent ↦ rw absent (run_unrouted_keeps tiers ps c q h)
      | inl there ↦ rw there (elim (Bool-cases (is_hit_reply (replies p))) [
        | inl won ↦ rw won (keeps c p (q p there) h)
        | inr lost ↦
            rw lost (run_unrouted_keeps tiers ps (try_tier replies c p) q (keeps c p (q p there) h))
      ])
    ]

    run_routed_keeps :
        (routed ps : List Paradigm) (c : Collector F)
        → All Q ps
        → P c
        → P (run_routed replies routed ps c)
    unfolding run_routed
    run_routed_keeps routed [] c q h = h
    run_routed_keeps routed (p ∷ ps) c q h = elim (Bool-cases (all_in routed c.satisfied)) [
      | inl done ↦ rw done h
      | inr unsettled ↦
          rw unsettled (run_routed_keeps routed ps (try_tier replies c p) (q.1) (keeps c p (q.0) h))
    ]

    run_parallel_keeps :
        (ps : List Paradigm) (c : Collector F) → All Q ps → P c → P (run_parallel replies ps c)
    unfolding run_parallel
    run_parallel_keeps [] c q h = h
    run_parallel_keeps (p ∷ ps) c q h =
        run_parallel_keeps ps (try_tier replies c p) (q.1) (keeps c p (q.0) h)

    run_mode_keeps :
        (routed : List Paradigm) (m : RoutingMode) (ps : List Paradigm)
        → All Q ps
        → P nothing
        → P (run_mode replies routed m ps)
    unfolding run_mode
    run_mode_keeps routed parallel ps q h = run_parallel_keeps ps nothing q h
    run_mode_keeps routed cascade ps q h = run_routed_keeps routed ps nothing q h

  -- What the result says of the attempts.
  pub record IsTold (c : Collector F) : Type 0 where
    pub degraded_told : c.degraded ≡ any_failure c.attempts
    pub satisfied_told : (p : Paradigm) → contains c.satisfied p ≡ any_hit p c.attempts

  -- The tiers report no failure of their own, as `TierResult` makes sure.
  abbrev pub is_reportable : Reply F → Bool
  is_reportable (answered result) = not (is_failure result.outcome)
  is_reportable timed_out = true
  is_reportable raised = true

  add-IsTold :
      (c : Collector F) (p : Paradigm) (r : Reply F)
      → is_reportable r ≡ true
      → IsTold c
      → IsTold (let (a, result) = attempt p r in add c a result)
  unfolding add attempt
  add-IsTold c p timed_out q told = record {
    degraded_told =
        sym (any_failure-append c.attempts (record { paradigm = p; outcome = timeout }));
    satisfied_told = λ other.
        told.satisfied_told other
        ∙ sym (any_hit-append other c.attempts (record { paradigm = p; outcome = timeout }));
  }
  add-IsTold c p raised q told = record {
    degraded_told = sym (any_failure-append c.attempts (record { paradigm = p; outcome = error }));
    satisfied_told = λ other.
        told.satisfied_told other
        ∙ sym (any_hit-append other c.attempts (record { paradigm = p; outcome = error }));
  }
  add-IsTold c p (answered result) q told = record {
    degraded_told = ground (
      arith,
      told.degraded_told,
      any_failure-append c.attempts (record { paradigm = p; outcome = result.outcome }),
    );
    satisfied_told = λ other. ground (
      arith,
      told.satisfied_told other,
      any_hit-append other c.attempts (record { paradigm = p; outcome = result.outcome }),
    );
  }

  nothing-IsTold : IsTold nothing
  nothing-IsTold = record { degraded_told = refl; satisfied_told = λ p. refl }

  try_tier-IsTold :
      ((p : Paradigm) → is_reportable (replies p) ≡ true)
      → (c : Collector F) (p : Paradigm) → Unit {0}
      → IsTold c
      → IsTold (try_tier replies c p)
  unfolding try_tier
  try_tier-IsTold reportable c p q told = add-IsTold c p (replies p) (reportable p) told

  anything : (ps : List Paradigm) → All (λ p. Unit {0}) ps
  anything [] = tt
  anything (p ∷ ps) = (tt, anything ps)

  -- Where the tiers report no failure of their own, a result is degraded exactly if an attempt
  -- timed out or raised, and a paradigm is satisfied exactly if an attempt of it was a hit,
  -- whatever the route.
  pub run-IsTold :
      ((p : Paradigm) → is_reportable (replies p) ≡ true)
      → (tiers : List Paradigm) (decision : Option RoutingDecision)
      → IsTold (run replies tiers decision)
  unfolding run
  run-IsTold reportable tiers none =
      run_unrouted_keeps IsTold (λ p. Unit {0}) (try_tier-IsTold reportable) tiers paradigm_order
        nothing (λ p there. tt) nothing-IsTold
  run-IsTold reportable tiers (some decision) =
      run_mode_keeps IsTold (λ p. Unit {0}) (try_tier-IsTold reportable) decision.paradigms
        decision.mode (eligible tiers decision.paradigms paradigm_order)
        (anything (eligible tiers decision.paradigms paradigm_order)) nothing-IsTold

module _ (tiers routed : List Paradigm) where
  -- The paradigm has a tier, and the decision routes it or it is RAG.
  abbrev pub IsEligible : Paradigm → Type 0
  IsEligible p = (contains tiers p ≡ true) × ((contains routed p || same p rag) ≡ true)

  eligible-IsEligible : (ps : List Paradigm) → All IsEligible (eligible tiers routed ps)
  unfolding eligible
  eligible-IsEligible [] = tt
  eligible-IsEligible (p ∷ ps) =
      elim (Bool-cases (contains tiers p && (contains routed p || same p rag))) [
        | inl e ↦ rw e ((ground (arith, e), ground (arith, e)), eligible-IsEligible ps)
        | inr e ↦ rw e (eligible-IsEligible ps)
      ]

-- The paradigm of an attempt.
abbrev pub paradigm_of : TierAttempt → Paradigm
paradigm_of a = a.paradigm

module _ {F : Type 0} where
  add_attempts :
      (c : Collector F) (a : TierAttempt) (result : Option (TierResult F))
      → (add c a result).attempts ≡ c.attempts ++ a ∷ []
  unfolding add
  add_attempts c a none = refl
  add_attempts c a (some result) = refl

  attempt_paradigm : (p : Paradigm) (r : Reply F) → paradigm_of ((attempt p r).0) ≡ p
  unfolding attempt
  attempt_paradigm p (answered result) = refl
  attempt_paradigm p timed_out = refl
  attempt_paradigm p raised = refl

module _ {F : Type 0} (replies : Paradigm → Reply F) where
  try_tier_attempts :
      (c : Collector F) (p : Paradigm)
      → (a : TierAttempt) × ((try_tier replies c p).attempts ≡ c.attempts ++ a ∷ [])
        × (a.paradigm ≡ p)
  unfolding try_tier
  try_tier_attempts c p =
      let reply = attempt p (replies p) in
      (reply.0, add_attempts c (reply.0) (reply.1), attempt_paradigm p (replies p))

  -- A routed query tries no paradigm but those that the decision routes, and RAG, and of them only
  -- those that have a tier.
  pub run_scope :
      (tiers : List Paradigm) (decision : RoutingDecision)
      → All
          (λ a. IsEligible tiers decision.paradigms a.paradigm)
          (run replies tiers (some decision)).attempts
  unfolding run
  run_scope tiers decision =
      run_mode_keeps replies
        (λ c. All (λ a. IsEligible tiers decision.paradigms a.paradigm) c.attempts)
        (IsEligible tiers decision.paradigms)
        (λ c p q h.
          let (a, e, same_p) = try_tier_attempts c p in
          subst (All (λ a'. IsEligible tiers decision.paradigms a'.paradigm)) (sym e) (
            All-append (λ a'. IsEligible tiers decision.paradigms a'.paradigm) c.attempts (a ∷ []) h
              (subst (IsEligible tiers decision.paradigms) (sym same_p) q, tt)))
        decision.paradigms decision.mode (eligible tiers decision.paradigms paradigm_order)
        (eligible-IsEligible tiers decision.paradigms paradigm_order) tt

  -- The paradigms that were tried, in order.
  abbrev pub tried : Collector F → List Paradigm
  tried c = map paradigm_of c.attempts

  tried-try_tier :
      (c : Collector F) (p : Paradigm) → tried (try_tier replies c p) ≡ tried c ++ p ∷ []
  tried-try_tier c p =
      let (a, e, same_p) = try_tier_attempts c p in
      ap (map paradigm_of) e
      ∙ map-append paradigm_of c.attempts (a ∷ [])
      ∙ ap (λ q. tried c ++ q ∷ []) same_p

  regroup :
      (c : Collector F) (p : Paradigm) (ps : List Paradigm)
      → tried (try_tier replies c p) ++ ps ≡ tried c ++ p ∷ ps
  regroup c p ps = ap (λ qs. qs ++ ps) (tried-try_tier c p) ∙ append_assoc (tried c) (p ∷ []) ps

  tried-run_parallel :
      (ps : List Paradigm) (c : Collector F) → tried (run_parallel replies ps c) ≡ tried c ++ ps
  unfolding run_parallel
  tried-run_parallel [] c = sym (append-nil (tried c))
  tried-run_parallel (p ∷ ps) c = tried-run_parallel ps (try_tier replies c p) ∙ regroup c p ps

  run_routed_settles :
      (routed ps : List Paradigm) (c : Collector F)
      → (all_in routed (run_routed replies routed ps c).satisfied ≡ true)
        ⊎ (tried (run_routed replies routed ps c) ≡ tried c ++ ps)
  unfolding run_routed
  run_routed_settles routed [] c = inr (sym (append-nil (tried c)))
  run_routed_settles routed (p ∷ ps) c = elim (Bool-cases (all_in routed c.satisfied)) [
    | inl done ↦ rw done (inl done)
    | inr unsettled ↦ rw unsettled (elim (run_routed_settles routed ps (try_tier replies c p)) [
      | inl done ↦ inl done
      | inr all ↦ inr (all ∙ regroup c p ps)
    ])
  ]

  -- A routed query stops early only when every paradigm of the route had a hit: else it tried every
  -- eligible paradigm, in the order of their cost.
  pub run_settles :
      (tiers : List Paradigm) (decision : RoutingDecision)
      → (all_in decision.paradigms (run replies tiers (some decision)).satisfied ≡ true)
        ⊎ (tried (run replies tiers (some decision))
            ≡ eligible tiers decision.paradigms paradigm_order)
  unfolding run
  run_settles tiers decision =
      by_mode decision.mode (eligible tiers decision.paradigms paradigm_order)
    where
      by_mode :
          (m : RoutingMode) (ps : List Paradigm)
          → (all_in decision.paradigms (run_mode replies decision.paradigms m ps).satisfied ≡ true)
            ⊎ (tried (run_mode replies decision.paradigms m ps) ≡ ps)
      by_mode parallel ps = unfold run_mode in inr (tried-run_parallel ps nothing)
      by_mode cascade ps = unfold run_mode in run_routed_settles decision.paradigms ps nothing
