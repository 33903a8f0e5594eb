-- ===== src/Prelude/Errors.antt =====
-- A Go function that returns a value and an error. An error is its text, since the source tells
-- errors apart by their text.
use Prim.Native.String.{String}

pub data Result {ℓ} (A : Type ℓ) : Type ℓ where
  ok : A → Result A
  err : String → Result A
