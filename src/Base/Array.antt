-- ===== src/Base/Array.antt =====
-- An array as a function from indices to cells. The function has a value at every index, also past the
-- size of the array: nothing here keeps an operation from using one.
use Prim.Native.Nat.{ℕ}
use cpp_concurrency_toolbox.Base.Tests.{◌==◌, if◌then◌else◌}

abbrev pub update {ℓ} : {A : Type ℓ} → (ℕ → A) → ℕ → A → ℕ → A
update f i a j = if i == j then a else f j
