-- ===== src/Base/Outcome.antt =====
-- What a call of kernel code comes to: a result, `stop()` (the CPU is halted for good), a read
-- through a pointer that holds no object, or a loop that is cut off when its fuel is used up.

pub data Run {ℓ} (A : Type ℓ) : Type ℓ where
  ok : A → Run A
  stopped : Run A
  fault : Run A
  out_of_fuel : Run A

infixl 5 ◌>>=◌
abbrev pub ◌>>=◌ {ℓ κ} : {A : Type ℓ} {B : Type κ} → Run A → (A → Run B) → Run B
ok a >>= f = f a
stopped >>= f = stopped
fault >>= f = fault
out_of_fuel >>= f = out_of_fuel
