-- ===== src/Cag/Batching/Laws.antt =====
-- Cutting a list of requests into batches, which is all that `FIFOBatchScheduler` does.
use ai_augmented_generation.Prelude.{
  ℕ, zero, suc, ◌≤◌, ◌<◌, ◌≡◌, refl, ap, sym, ◌∙◌, List, [], ◌∷◌, ◌++◌, length, take, drop,
  length-take, length-drop, take-append-drop, All, ok, list_eq, nat_eq, arith, append_assoc,
}
use ai_augmented_generation.Cag.Batching.{BatchRequest, chunks, fifo_batches}

-- All the requests of the batches, in order.
abbrev pub flatten : List (List BatchRequest) → List BatchRequest
flatten [] = []
flatten (batch ∷ batches) = batch ++ flatten batches

pub flatten-append :
    (xs ys : List (List BatchRequest)) → flatten (xs ++ ys) ≡ flatten xs ++ flatten ys
flatten-append [] ys = refl
flatten-append (x ∷ xs) ys =
    ap (λ zs. x ++ zs) (flatten-append xs ys) ∙ sym (append_assoc x (flatten xs) (flatten ys))

-- A batch holds a request, and no more than the size.
abbrev pub IsSized : ℕ → List BatchRequest → Type 0
IsSized size batch = (0 < length batch) × (length batch ≤ size)

module _ (size : ℕ) (some_size : 0 < size) where
  pub flatten-chunks :
      (fuel : ℕ) (xs : List BatchRequest) → length xs ≤ fuel → flatten (chunks fuel size xs) ≡ xs
  unfolding chunks
  flatten-chunks zero [] h = refl
  flatten-chunks zero (x ∷ xs) h = absurd (omega arith)
  flatten-chunks (suc fuel) [] h = refl
  flatten-chunks (suc fuel) (x ∷ xs) h =
      ap (λ zs. take size (x ∷ xs) ++ zs)
        (flatten-chunks fuel (drop size (x ∷ xs)) (omega (arith, length-drop size (x ∷ xs))))
      ∙ take-append-drop size (x ∷ xs)

  pub chunks-IsSized :
      (fuel : ℕ) (xs : List BatchRequest) → All (IsSized size) (chunks fuel size xs)
  unfolding chunks
  chunks-IsSized zero xs = tt
  chunks-IsSized (suc fuel) [] = tt
  chunks-IsSized (suc fuel) (x ∷ xs) =
      (omega (arith, length-take size (x ∷ xs)), chunks-IsSized fuel (drop size (x ∷ xs)))

  -- `fifo_batches` splits the pending requests, in order, into batches of 1 to `size` requests.
  pub fifo_batches_lem :
      (pending : List BatchRequest)
      → (batches : List (List BatchRequest)) × (fifo_batches pending size ≡ ok batches)
        × (flatten batches ≡ pending)
        × All (IsSized size) batches
  unfolding fifo_batches
  fifo_batches_lem pending = (
    chunks (length pending) size pending,
    ground arith,
    flatten-chunks (length pending) pending (omega arith),
    chunks-IsSized (length pending) pending,
  )
