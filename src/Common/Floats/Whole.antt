-- ===== src/Common/Floats/Whole.antt =====
-- Whole numbers in place of doubles and of times, for runs of the model at concrete values.
use rmp_proximity_sensor.Common.Bools.{ltb, leb}
use rmp_proximity_sensor.Common.Floats.{Floats}
use Prim.Native.Nat.{ℕ, ◌+◌, ◌-◌, ◌*◌, ◌/◌}

abbrev pub floats : Floats ℕ ℕ
floats = record {
  of_float = λ w. w;
  degrees_to_radians = λ d. d;
  radians_to_degrees = λ r. r;
  zero_value = 0;
  one = 1;
  tenth = 1;
  half = 1;
  epsilon = 0;
  nano = 0;
  of_int = λ n. n;
  round = λ d. d;
  truncated = λ d. d;
  rounded = λ d. d;
  add = ◌+◌;
  sub = ◌-◌;
  mul = ◌*◌;
  div = ◌/◌;
  neg = λ d. 0;
  fabs = λ d. d;
  lt = ltb;
  le = leb;
  seconds = λ now before. now - before;
  at_or_after = λ now deadline. leb deadline now;
}
