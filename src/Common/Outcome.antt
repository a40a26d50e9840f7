-- ===== src/Common/Outcome.antt =====
-- What a call gives that may fail.
use Prim.Native.String.{String}

-- A value, or an error's text.
pub data Outcome {ℓ} (A : Type ℓ) : Type ℓ where
  done : A → Outcome A
  failed : String → Outcome A
