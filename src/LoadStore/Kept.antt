-- ===== src/LoadStore/Kept.antt =====
-- What the loads and stores of one register keep.
use projet_s5_prog.Common.{
  Bool, Option, Outcome, arith, false, if◌then◌else◌, none, ok, some, true, ℕ, ◌&&◌, ◌<◌, ◌==◌,
  ◌>>=◌, ◌^◌,
}
use projet_s5_prog.Common.Ensures.{Ensures, bind-Ensures, if-Ensures, returns, weaken-Ensures}
use projet_s5_prog.Core.{ArmCore, arm_read_cpsr, arm_write_register, arm_write_usr_register}
use projet_s5_prog.Core.Keeps.{
  IsWords, Keeps, Keeps-refl, Keeps-trans, arm_read_register-lt, arm_read_usr_register-lt,
  arm_write_register-Keeps, arm_write_usr_register-Keeps,
}
use projet_s5_prog.Core.Access.{
  KeepsRun, WordRead, arm_read_byte-WordRead, arm_read_word-WordRead, arm_write_byte-Keeps,
  arm_write_word-Keeps,
}
use projet_s5_prog.Decode.{condition}
use projet_s5_prog.Decode.Shift.{shift-Fits}
use projet_s5_prog.LoadStore.Decoding.{Fields}
use projet_s5_prog.LoadStore.Single.{
  handling_offset, loaded, offset_of, post_indexed, pre_indexed, read_register_mode, transfer,
  word_byte_load_store, write_register_mode,
}

module _ {p : ArmCore} (w : IsWords p) where
  pub read_register_mode-lt : (reg mode : ℕ) → read_register_mode p reg mode < 2 ^ 32
  unfolding read_register_mode
  read_register_mode-lt reg mode =
      ground (arith, arm_read_register-lt w reg, arm_read_usr_register-lt w reg)

  write_register_mode-Keeps :
      (reg value mode : ℕ) → value < 2 ^ 32 → Keeps p (write_register_mode p reg value mode)
  unfolding write_register_mode
  write_register_mode-Keeps reg value mode h = either (mode == 0)
    where
      either :
          (b : Bool)
          → Keeps p
              (if b then arm_write_register p reg value else arm_write_usr_register p reg value)
      either true = arm_write_register-Keeps w reg value h
      either false = arm_write_usr_register-Keeps w reg value h

  pub loaded-Keeps :
      (r : Option ℕ) (store : ℕ → ArmCore)
      → WordRead r
      → ((v : ℕ) → v < 2 ^ 32 → Keeps p (store v))
      → Keeps p (loaded p r store).1
  loaded-Keeps none store h k = Keeps-refl w
  loaded-Keeps (some v) store h k = k v h

  -- A read, and then the write of what it gave.
  pub load-Keeps :
      {o : Outcome (Option ℕ)} {store : ℕ → ArmCore}
      → Ensures WordRead o
      → ((v : ℕ) → v < 2 ^ 32 → Keeps p (store v))
      → KeepsRun p (o >>= λ r. ok (loaded p r store))
  load-Keeps h k = bind-Ensures h λ r hr. returns (loaded-Keeps r _ hr k)

  pub transfer-Keeps : (address rd b l mode : ℕ) → KeepsRun p (transfer p address rd b l mode)
  unfolding transfer
  transfer-Keeps address rd b l mode =
      if-Ensures _ _ _
        (if-Ensures _ _ _ (arm_write_word-Keeps w address _) (arm_write_byte-Keeps w address _))
        (if-Ensures _ _ _
          (load-Keeps (arm_read_word-WordRead w address)
            λ v h. write_register_mode-Keeps rd v mode h)
          (load-Keeps (arm_read_byte-WordRead w address)
            λ v h. write_register_mode-Keeps rd v mode h))

  pub moved_base-Keeps :
      (b : Bool) (reg address : ℕ)
      → address < 2 ^ 32
      → Keeps p (if b then arm_write_register p reg address else p)
  moved_base-Keeps true reg address h = arm_write_register-Keeps w reg address h
  moved_base-Keeps false reg address h = Keeps-refl w

-- A change that keeps, and then a run that keeps.
pub after-Keeps {ℓ} :
    {A : Type ℓ} {p q : ArmCore} {o : Outcome (A × ArmCore)}
    → Keeps p q
    → KeepsRun q o
    → KeepsRun p o
after-Keeps h k = weaken-Ensures k λ r e. Keeps-trans h e

pub handling_offset-lt : (address offset u : ℕ) → handling_offset address offset u < 2 ^ 32
unfolding handling_offset
handling_offset-lt address offset u = ground arith

module _ {p : ArmCore} (w : IsWords p) where
  post_indexed-Keeps :
      (f : Fields) (base moved : ℕ) → moved < 2 ^ 32 → KeepsRun p (post_indexed p f base moved)
  unfolding post_indexed
  post_indexed-Keeps f base moved h =
      let first = moved_base-Keeps w (condition (arm_read_cpsr p) f.cond) f.rn moved h in
      after-Keeps first (transfer-Keeps first.words base f.rd f.bit_22 f.bit_20 f.bit_21)

  pre_indexed-Keeps : (f : Fields) (moved : ℕ) → moved < 2 ^ 32 → KeepsRun p (pre_indexed p f moved)
  unfolding pre_indexed
  pre_indexed-Keeps f moved h =
      let first =
        moved_base-Keeps w (f.bit_21 == 1 && condition (arm_read_cpsr p) f.cond) f.rn moved h in
      after-Keeps first (transfer-Keeps first.words moved f.rd f.bit_22 f.bit_20 0)

  offset_of-any : (ins : ℕ) (f : Fields) → Ensures (λ _. Unit {0}) (offset_of p ins f)
  unfolding offset_of
  offset_of-any ins f =
      if-Ensures _ _ _
        (if-Ensures _ _ _ (bind-Ensures (shift-Fits ins none w) λ r h. returns tt) (returns tt))
        (returns tt)

  pub word_byte_load_store-Keeps : (ins : ℕ) → KeepsRun p (word_byte_load_store p ins)
  unfolding word_byte_load_store
  word_byte_load_store-Keeps ins = bind-Ensures (offset_of-any ins _) λ offset _.
      let h = handling_offset-lt _ offset _ in
      if-Ensures _ _ _ (post_indexed-Keeps _ _ _ h) (pre_indexed-Keeps _ _ h)
