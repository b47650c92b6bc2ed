-- ===== src/Prelude/Result.antt =====
-- Results of code that may throw `spoe::Error`: one constructor for each message.
use Prim.Native.Nat.{ℕ}

pub data Error : Type 0 where
  -- "buffer too small" and "truncated or overflowing varint"
  buffer_too_small bad_varint : Error
  -- "unknown typed value type N"
  unknown_type : ℕ → Error
  -- "frame exceeds the SPOE length limit", "buffer too small for message arguments"
  frame_too_long too_many_arguments : Error
  -- "unexpected frame type N" and "unknown frame type N"
  unexpected_frame unknown_frame : ℕ → Error
  -- No exception of the program: a loop of the model ran out of fuel.
  stuck : Error

-- What a call returns, or the exception that leaves it.
pub data Result {ℓ} (A : Type ℓ) : Type ℓ where
  err : Error → Result A
  ok : A → Result A

module _ {ℓ κ} {A : Type ℓ} {B : Type κ} where
  infixl 5 ◌>>=◌
  -- A call, and what goes on with its value; an exception passes by.
  abbrev pub ◌>>=◌ : Result A → (A → Result B) → Result B
  ◌>>=◌ call next = elim call [ err thrown ↦ err thrown | ok value ↦ next value ]
