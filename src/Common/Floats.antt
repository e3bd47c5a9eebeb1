-- ===== src/Common/Floats.antt =====
-- The floating-point operations that the code calls. The standard library implements them, so a
-- component that uses them takes them as a parameter.
use mathlib.Core.Bool.{Bool}

pub record FloatOps : Type 1 where
  pub Float : Type 0
  -- `0.0F`
  pub zero_float : Float
  -- `std::isfinite`
  pub is_finite : Float → Bool
