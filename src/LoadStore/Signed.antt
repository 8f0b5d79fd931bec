-- ===== src/LoadStore/Signed.antt =====
-- LDRSB and LDRSH against the unsigned loads.
use projet_s5_prog.Common.{Option, Outcome, arith, none, refl, some, true, ℕ, ◌<◌, ◌^◌, ◌≡◌}
use projet_s5_prog.Common.Bits.{bit_and-below, bit_or-above}
use projet_s5_prog.LoadStore.Misc.{
  extend_byte, extend_half, load_extended, load_store_half_double_byte,
}
use projet_s5_prog.Core.{ArmCore, arm_read_byte, arm_read_cpsr, arm_read_half}
use projet_s5_prog.Core.Keeps.{IsWords}
use projet_s5_prog.Decode.{condition}
use projet_s5_prog.Common.Ensures.{Ensures, Ensures-Holds, asserts, exits, faults, returns}
use projet_s5_prog.Memory.{load_cell, memory_read_byte, memory_read_half}

extend_byte_lem : (v : ℕ) → v < 256 → extend_byte v ≡ v
extend_byte_lem v h = ground (arith, bit_or-above 8 0xFFFFFF v, bit_and-below 8 0xF00 v)

extend_half_lem : (v : ℕ) → v < 2 ^ 16 → extend_half v ≡ v
extend_half_lem v h = ground (arith, bit_or-above 16 0xFFFF v, bit_and-below 16 0xF v)

abbrev Below : ℕ → Option ℕ → Type 0
Below bound none = Unit
Below bound (some v) = v < bound

-- Two extensions that agree on what the read gives.
same_extension :
    (p : ArmCore) (read : Outcome (Option ℕ)) (rd : ℕ) (extend : ℕ → ℕ) {bound : ℕ}
    → Ensures (Below bound) read
    → ((v : ℕ) → v < bound → extend v ≡ v)
    → load_extended p read rd extend ≡ load_extended p read rd (λ v. v)
unfolding load_extended
same_extension p _ rd extend (returns {a = none} h) same = refl
same_extension p _ rd extend (returns {a = some v} h) same = rw (same v h) refl
same_extension p _ rd extend faults same = refl
same_extension p _ rd extend asserts same = refl
same_extension p _ rd extend exits same = refl

-- LDRSB and LDRSH whose condition holds do what an unsigned load of the byte and LDRH do: no sign
-- is extended. The registers are words and the cells bytes.
pub load_store_half_double_byte-signed :
    (p : ArmCore) (rd address cond : ℕ)
    → IsWords p
    → condition (arm_read_cpsr p) cond ≡ true
    → (load_store_half_double_byte p rd address 1 1 0 cond
        ≡ load_extended p (arm_read_byte p address) rd (λ v. v))
      × (load_store_half_double_byte p rd address 1 1 1 cond
          ≡ load_store_half_double_byte p rd address 1 0 1 cond)
unfolding load_store_half_double_byte
load_store_half_double_byte-signed p rd address cond w passed = (
  rw passed (
      same_extension p (arm_read_byte p address) rd extend_byte
        (Ensures-Holds (Below 256) (arm_read_byte p address)
          (unfold arm_read_byte memory_read_byte load_cell in ground (arith, w.cells_fit address)))
        extend_byte_lem),
  rw passed (
      same_extension p (arm_read_half p address) rd extend_half
        (Ensures-Holds (Below (2 ^ 16)) (arm_read_half p address)
          (unfold arm_read_half memory_read_half load_cell in ground arith))
        extend_half_lem),
)
