-- ===== src/Prelude/Float.antt =====
-- Python's floats, as far as the program uses them: a parameter of the model. A theorem says which
-- laws of the arithmetic it needs.
use Prim.Native.Nat.{ℕ, ◌+◌, ◌-◌, ◌*◌, ◌/◌}
use mathlib.Core.Bool.{Bool}
use ai_augmented_generation.Prelude.Tests.{ltb, leb}
use ai_augmented_generation.Prelude.Int.{ℤ, pos, pos_part}

pub record Floats : Type 1 where
  pub Float : Type 0
  -- an integer as a float
  pub of_int : ℤ → Float
  pub add : Float → Float → Float
  pub sub : Float → Float → Float
  pub mul : Float → Float → Float
  pub div : Float → Float → Float
  -- `math.floor`
  pub floor : Float → ℤ
  -- `<` and `<=`
  pub lt : Float → Float → Bool
  pub le : Float → Float → Bool

-- Exact fractions, which are never negative: a numerator and a denominator.
pub record Fraction : Type 0 where
  pub num : ℕ
  pub den : ℕ

abbrev pub fraction : ℕ → ℕ → Fraction
fraction n d = record { num = n; den = d }

abbrev pub fractions : Floats
fractions = record {
  Float = Fraction;
  of_int = λ z. fraction (pos_part z) 1;
  add = λ a b. fraction (a.num * b.den + b.num * a.den) (a.den * b.den);
  sub = λ a b. fraction (a.num * b.den - b.num * a.den) (a.den * b.den);
  mul = λ a b. fraction (a.num * b.num) (a.den * b.den);
  div = λ a b. fraction (a.num * b.den) (a.den * b.num);
  floor = λ a. pos (a.num / a.den);
  lt = λ a b. ltb (a.num * b.den) (b.num * a.den);
  le = λ a b. leb (a.num * b.den) (b.num * a.den);
}

-- Whole numbers, for scores that are compared and not computed with.
abbrev pub wholes : Floats
wholes = record {
  Float = ℕ;
  of_int = pos_part;
  add = λ a b. a + b;
  sub = λ a b. a - b;
  mul = λ a b. a * b;
  div = λ a b. a / b;
  floor = pos;
  lt = ltb;
  le = leb;
}
