-- ===== src/LoadStore/MiscKept.antt =====
-- What the loads and stores of half words, double words and signed bytes keep.
use projet_s5_prog.Common.{
  Bool, Option, Outcome, add32, arith, false, if◌then◌else◌, none, ok, some, true, u8, ℕ, ◌!=◌, ◌%◌,
  ◌&&◌, ◌*◌, ◌+◌, ◌<◌, ◌==◌, ◌^◌,
}
use projet_s5_prog.Common.Bits.{bit_and-lt}
use projet_s5_prog.Common.Ensures.{Ensures, bind-Ensures, if-Ensures, returns}
use projet_s5_prog.Core.{ArmCore, arm_read_cpsr}
use projet_s5_prog.Core.Keeps.{IsWords, Keeps-refl, arm_write_register-Keeps}
use projet_s5_prog.Core.Access.{
  KeepsRun, WordRead, arm_read_byte-WordRead, arm_read_half-WordRead, arm_read_word-WordRead,
  arm_write_half-Keeps, arm_write_word-Keeps,
}
use projet_s5_prog.LoadStore.Misc.{
  extend_byte, extend_half, load_double, load_extended, load_second, load_store_half_double_byte,
  miscellaneous_load_store, miscellaneous_post, miscellaneous_pre, store_double,
}
use projet_s5_prog.LoadStore.Kept.{
  after-Keeps, handling_offset-lt, load-Keeps, moved_base-Keeps, word_byte_load_store-Keeps,
}
use projet_s5_prog.Decode.{condition}
use projet_s5_prog.LoadStore.Decoding.{Fields}
use projet_s5_prog.LoadStore.{arm_load_store}
use projet_s5_prog.Constants.{r14}
use projet_s5_prog.Util.{get_bit, get_bits}

extend_byte-lt : (v : ℕ) → v < 2 ^ 32 → extend_byte v < 2 ^ 32
extend_byte-lt v h = ground (arith, bit_and-lt 32 v 0xF00FF h)

extend_half-lt : (v : ℕ) → v < 2 ^ 32 → extend_half v < 2 ^ 32
extend_half-lt v h = ground (arith, bit_and-lt 32 v 0xFFFFF h)

module _ {p : ArmCore} (w : IsWords p) where
  load_extended-Keeps :
      {o : Outcome (Option ℕ)} (rd : ℕ) (extend : ℕ → ℕ)
      → Ensures WordRead o
      → ((v : ℕ) → v < 2 ^ 32 → extend v < 2 ^ 32)
      → KeepsRun p (load_extended p o rd extend)
  unfolding load_extended
  load_extended-Keeps rd extend h k =
      load-Keeps w h λ v hv. arm_write_register-Keeps w rd (extend v) (k v hv)

  store_double-Keeps : (rd address : ℕ) → KeepsRun p (store_double p rd address)
  unfolding store_double
  store_double-Keeps rd address = bind-Ensures (arm_write_word-Keeps w address _) λ r h.
      if-Ensures _ _ _ (after-Keeps h (arm_write_word-Keeps h.words (add32 address 4) _))
        (returns h)

module _ {p : ArmCore} (w : IsWords p) where
  load_second-Keeps :
      (rd address : ℕ) (r : Option ℕ) → WordRead r → KeepsRun p (load_second p rd address r)
  unfolding load_second
  load_second-Keeps rd address none h = returns (Keeps-refl w)
  load_second-Keeps rd address (some v) h =
      let first = arm_write_register-Keeps w rd v h in
      after-Keeps first (
        load_extended-Keeps first.words (u8 (rd + 1)) (λ v. v)
          (arm_read_word-WordRead first.words (add32 address 4)) (λ v h. h))

  load_double-Keeps : (rd address : ℕ) → KeepsRun p (load_double p rd address)
  unfolding load_double
  load_double-Keeps rd address =
      bind-Ensures (arm_read_word-WordRead w address) λ r h. load_second-Keeps rd address r h

  -- A run behind a test, which otherwise leaves the processor as it is.
  guarded-Keeps :
      {o : Outcome (ℕ × ArmCore)} (b : Bool) (code : ℕ)
      → KeepsRun p o
      → KeepsRun p (if b then o else ok (code, p))
  guarded-Keeps true code h = h
  guarded-Keeps false code h = returns (Keeps-refl w)

  pub load_store_half_double_byte-Keeps :
      (rd address l s h cond : ℕ) → KeepsRun p (load_store_half_double_byte p rd address l s h cond)
  unfolding load_store_half_double_byte
  load_store_half_double_byte-Keeps rd address l s h cond =
      let half = arm_read_half-WordRead w address in
      let byte = arm_read_byte-WordRead w address in
      let passed = condition (arm_read_cpsr p) cond in
      let kind = l * 2 ^ 2 + s * 2 + h in
      if-Ensures (kind == 1) _ _ (guarded-Keeps passed _ (arm_write_half-Keeps w address _)) (
        if-Ensures (kind == 2) _ _
          (guarded-Keeps passed _ (
            guarded-Keeps (rd != r14 && rd % 2 == 0 && get_bits address 1 0 != 0) _
              (load_double-Keeps rd address)))
          (if-Ensures (kind == 3) _ _
            (guarded-Keeps
              (rd % 2 == 0 && rd != r14 && get_bits address 1 0 != 0 && get_bit address 2 == 0) _
              (store_double-Keeps w rd address))
            (if-Ensures (kind == 5) _ _ (load_extended-Keeps w rd (λ v. v) half (λ v h. h)) (
              if-Ensures (kind == 6) _ _
                (guarded-Keeps passed _ (load_extended-Keeps w rd extend_byte byte extend_byte-lt))
                (guarded-Keeps (kind == 7) _ (
                  guarded-Keeps passed _
                    (load_extended-Keeps w rd extend_half half extend_half-lt)))))))

module _ {p : ArmCore} (w : IsWords p) where
  miscellaneous_post-Keeps :
      (f : Fields) (base moved s h : ℕ)
      → moved < 2 ^ 32
      → KeepsRun p (miscellaneous_post p f base moved s h)
  unfolding miscellaneous_post
  miscellaneous_post-Keeps f base moved s h fits =
      let first = moved_base-Keeps w (condition (arm_read_cpsr p) f.cond) f.rn moved fits in
      guarded-Keeps w _ _ (
        after-Keeps first
          (load_store_half_double_byte-Keeps first.words f.rd base f.bit_20 s h f.cond))

  miscellaneous_pre-Keeps :
      (f : Fields) (moved s h : ℕ) → moved < 2 ^ 32 → KeepsRun p (miscellaneous_pre p f moved s h)
  unfolding miscellaneous_pre
  miscellaneous_pre-Keeps f moved s h fits =
      let first =
        moved_base-Keeps w (f.bit_21 == 1 && condition (arm_read_cpsr p) f.cond) f.rn moved fits in
      bind-Ensures
        (after-Keeps first
          (load_store_half_double_byte-Keeps first.words f.rd moved f.bit_20 s h f.cond))
        λ r e. returns e

  miscellaneous_load_store-Keeps : (ins : ℕ) → KeepsRun p (miscellaneous_load_store p ins)
  unfolding miscellaneous_load_store
  miscellaneous_load_store-Keeps ins =
      if-Ensures _ _ _ (miscellaneous_post-Keeps _ _ _ _ _ (handling_offset-lt _ _ _))
        (miscellaneous_pre-Keeps _ _ _ _ (handling_offset-lt _ _ _))

  -- A load or store of one or two words, a half word or a byte that returns leaves the CPSR below
  -- the flags, the cycle counter, the size and the byte order of the memory, and keeps registers
  -- words and cells bytes.
  pub arm_load_store-Keeps : (ins : ℕ) → KeepsRun p (arm_load_store p ins)
  unfolding arm_load_store
  arm_load_store-Keeps ins =
      if-Ensures _ _ _ (bind-Ensures (word_byte_load_store-Keeps w ins) λ r e. returns e) (
        if-Ensures _ _ _ (bind-Ensures (miscellaneous_load_store-Keeps ins) λ r e. returns e)
          (returns (Keeps-refl w)))
