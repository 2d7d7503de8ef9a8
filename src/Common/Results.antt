-- ===== src/Common/Results.antt =====
-- The outcome of a call that may raise.
pub data Error : Type 0 where
  attribute_error key_error type_error : Error

pub data Result {ℓ} (A : Type ℓ) : Type ℓ where
  ok : A → Result A
  raise : Error → Result A

-- What a driver gives: a value, or an exception.
pub data Answer {ℓ} (A : Type ℓ) : Type ℓ where
  gives : A → Answer A
  raises : Answer A
