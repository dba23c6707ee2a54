-- ===== src/Base/Modulo.antt =====
-- Positions that count up without end, and the slots of a ring that they fall on.
use Prim.Native.Nat.{ℕ, suc, ◌+◌, ◌-◌, ◌*◌, ◌/◌, ◌%◌, ◌≤◌, ◌<◌}
use mathlib.Core.Path.{◌≡◌, ap, ◌∙◌}
use native.Mathlib.Nat.{
  add-mod-mod, mul-add-mod_self_right, mod-eq_of_lt, mod-lt, div-add-mod', mod-add-mod,
  add-mod_right,
}
use native.Mathlib.Omega.{arith}

-- Two positions less than a lap apart that fall on one slot are the same position.
pub mod_injective : (c a b : ℕ) → a ≤ b → b < a + c → a % c ≡ b % c → a ≡ b
mod_injective c a b le near same = grind arith

pub mod_lap : (c a : ℕ) → (a + c) % c ≡ a % c
mod_lap c a = add-mod_right a c

pub mod_next : (c a : ℕ) → (a % c + 1) % c ≡ (a + 1) % c
mod_next c a = mod-add-mod a c 1

-- A place counted from the next position, or from this one.
pub mod_shift : (c h i : ℕ) → ((h + 1) % c + i) % c ≡ (h + suc i) % c
mod_shift c h i = mod-add-mod (h + 1) c i ∙ ap (λ t. t % c) (omega arith)

-- Every slot is less than a lap after any position.
pub mod_covers : (c pos i : ℕ) → i < c → (pos + (i + c - pos % c) % c) % c ≡ i
mod_covers c pos i below =
    add-mod-mod pos (i + c - pos % c) c
    ∙ ap (λ t. t % c) whole_laps
    ∙ mul-add-mod_self_right (pos / c + 1) c i
    ∙ mod-eq_of_lt below
  where
    whole_laps : pos + (i + c - pos % c) ≡ (pos / c + 1) * c + i
    whole_laps = omega (arith, div-add-mod' pos c, mod-lt pos {m = c} (omega arith))

-- The latest position up to `n` that falls on the slot of `pos`.
pub mod_latest :
    (c pos n : ℕ)
    → 1 ≤ c
    → pos ≤ n
    → (p : ℕ) × (pos ≤ p) × (p ≤ n) × (n < p + c) × (p % c ≡ pos % c)
mod_latest c pos n some_slot le = (
  pos + (n - pos) / c * c,
  omega arith,
  omega (arith, div-add-mod' (n - pos) c),
  omega (arith, div-add-mod' (n - pos) c, mod-lt (n - pos) {m = c} some_slot),
  ap (λ t. t % c) (omega arith) ∙ mul-add-mod_self_right ((n - pos) / c) c pos,
)
