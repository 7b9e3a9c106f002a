-- ===== src/Cag/PagedAllocator/Tables.antt =====
-- The block tables of `PagedKVAllocator`: how many places in them hold a block, and how many blocks
-- a sequence needs.
use ai_augmented_generation.Prelude.{
  ℕ, ◌+◌, ◌-◌, ◌*◌, ◌≤◌, ◌++◌, get_elem?, ◌≡◌, refl, String, Option, none, some, List, [], ◌∷◌,
  arith, string_eq, length, count,
}
use ai_augmented_generation.Prelude.Dict.{Dict, lookup, insert, remove}
use ai_augmented_generation.Cag.PagedAllocator.{blocks_needed, last?, set_last}
use ai_augmented_generation.Cag.PagedAllocator.Pool.{one_at}

unfoldable pub refs : ℕ → Dict String (List ℕ) → ℕ
refs b [] = 0
refs b ((k, table) ∷ tables) = count b table + refs b tables

abbrev pub or_empty : Option (List ℕ) → List ℕ
or_empty none = []
or_empty (some table) = table

pub refs-insert :
    (b : ℕ) (k : String) (table : List ℕ) (tables : Dict String (List ℕ))
    → refs b (insert k table tables) + count b (or_empty (lookup k tables))
      ≡ refs b tables + count b table
unfolding refs lookup insert
refs-insert b k table [] = omega arith
refs-insert b k table ((j, t) ∷ tables) = ground (arith, refs-insert b k table tables)

pub refs-remove :
    (b : ℕ) (k : String) (tables : Dict String (List ℕ))
    → refs b (remove k tables) + count b (or_empty (lookup k tables)) ≡ refs b tables
unfolding refs lookup remove
refs-remove b k [] = omega arith
refs-remove b k ((j, t) ∷ tables) = ground (arith, refs-remove b k tables)

pub count-le-refs :
    (b : ℕ) (k : String) (tables : Dict String (List ℕ))
    → count b (or_empty (lookup k tables)) ≤ refs b tables
count-le-refs b k tables = omega (arith, refs-remove b k tables)

pub count-set_last :
    (b block last : ℕ) (table : List ℕ)
    → last? table ≡ some last
    → count b (set_last block table) + one_at last b ≡ count b table + one_at block b
unfolding last? set_last
count-set_last b block last [] h = ground arith
count-set_last b block last (x ∷ []) h = ground arith
count-set_last b block last (x ∷ y ∷ table) h =
    omega (arith, count-set_last b block last (y ∷ table) h)

pub length-set_last : (block : ℕ) (table : List ℕ) → length (set_last block table) ≡ length table
unfolding set_last
length-set_last block [] = refl
length-set_last block (x ∷ []) = refl
length-set_last block (x ∷ y ∷ table) = omega (arith, length-set_last block (y ∷ table))

pub last?-set_last :
    (block last : ℕ) (table : List ℕ)
    → last? table ≡ some last
    → last? (set_last block table) ≡ some block
unfolding last? set_last
last?-set_last block last [] h = ground arith
last?-set_last block last (x ∷ []) h = refl
last?-set_last block last (x ∷ y ∷ []) h = refl
last?-set_last block last (x ∷ y ∷ z ∷ table) h = last?-set_last block last (y ∷ z ∷ table) h

pub blocks_needed_mono :
    (size m n : ℕ) → 1 ≤ size → m ≤ n → blocks_needed size m ≤ blocks_needed size n
unfolding blocks_needed
blocks_needed_mono size m n h k = grind arith

-- The blocks have room for the tokens, and one block fewer would not have.
pub blocks_needed_bounds :
    (size n : ℕ)
    → 1 ≤ size
    → (n ≤ blocks_needed size n * size) × (blocks_needed size n * size + 1 ≤ n + size)
unfolding blocks_needed
blocks_needed_bounds size n h = grind arith

pub count-last? : (last : ℕ) (table : List ℕ) → last? table ≡ some last → 1 ≤ count last table
unfolding last?
count-last? last [] h = ground arith
count-last? last (x ∷ []) h = ground arith
count-last? last (x ∷ y ∷ table) h = omega (arith, count-last? last (y ∷ table) h)

-- Where the last block of a table stands once the table has grown.
pub get_elem?-last :
    (last : ℕ) (table taken : List ℕ)
    → last? table ≡ some last
    → get_elem? (table ++ taken) (length table - 1) ≡ some last
unfolding last?
get_elem?-last last [] taken h = ground arith
get_elem?-last last (x ∷ []) taken h = ground arith
get_elem?-last last (x ∷ y ∷ table) taken h =
    ground (arith, get_elem?-last last (y ∷ table) taken h)

pub last?-some : (table : List ℕ) → 1 ≤ length table → (last : ℕ) × (last? table ≡ some last)
unfolding last?
last?-some [] h = absurd (omega arith)
last?-some (x ∷ []) h = (x, refl)
last?-some (x ∷ y ∷ table) h = last?-some (y ∷ table) (omega arith)

pub blocks_needed_pos : (size n : ℕ) → 1 ≤ size → 1 ≤ n → 1 ≤ blocks_needed size n
blocks_needed_pos size n h k = grind (arith, blocks_needed_bounds size n h)
