-- ===== src/Common/Floats.antt =====
-- What the code uses of `double`, of `float` and of the steady clock, and vectors of doubles as lists.
pub mod Whole
use rmp_proximity_sensor.Common.Bools.{if◌then◌else◌}
use rmp_proximity_sensor.Common.Lists.{zip_with}
use Prim.Native.Nat.{ℕ}
use mathlib.Core.Bool.{Bool}
use mathlib.Core.List.{List, [], ◌∷◌, map}

-- `of_float` reads the bit pattern of a `float`; `truncated` and `rounded` are conversions to `int` of
-- a number that is not negative.
pub record Floats (Double Time : Type 0) : Type 0 where
  pub of_float : ℕ → Double
  pub degrees_to_radians : Double → Double
  pub radians_to_degrees : Double → Double
  pub zero_value : Double
  pub one : Double
  pub tenth : Double
  pub half : Double
  pub epsilon : Double
  pub nano : Double
  pub of_int : ℕ → Double
  pub round : Double → Double
  pub truncated : Double → ℕ
  pub rounded : Double → ℕ
  pub add : Double → Double → Double
  pub sub : Double → Double → Double
  pub mul : Double → Double → Double
  pub div : Double → Double → Double
  pub neg : Double → Double
  pub fabs : Double → Double
  pub lt : Double → Double → Bool
  pub le : Double → Double → Bool
  pub seconds : Time → Time → Double
  pub at_or_after : Time → Time → Bool

module _ {Double Time : Type 0} (floats : Floats Double Time) where
  -- `std::max`, `std::min` and `std::clamp`.
  abbrev pub max_of : Double → Double → Double
  max_of a b = if floats.lt a b then b else a

  abbrev pub min_of : Double → Double → Double
  min_of a b = if floats.lt b a then b else a

  abbrev pub clamp : Double → Double → Double → Double
  clamp v lo hi = if floats.lt v lo then lo else (if floats.lt hi v then hi else v)

  abbrev pub zeros : List Double → List Double
  zeros values = map (λ v. floats.zero_value) values

  abbrev pub plus : List Double → List Double → List Double
  plus a b = zip_with floats.add a b

  abbrev pub minus : List Double → List Double → List Double
  minus a b = zip_with floats.sub a b

  abbrev pub scaled : Double → List Double → List Double
  scaled k a = map (floats.mul k) a

  abbrev pub divided : List Double → Double → List Double
  divided a k = map (λ x. floats.div x k) a

  -- `k * a + (1 - k) * b`
  abbrev pub blended : Double → List Double → List Double → List Double
  blended k a b = plus (scaled k a) (scaled (floats.sub floats.one k) b)
