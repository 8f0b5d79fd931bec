-- ===== src/Gdb/Access/General.antt =====
-- The commands on all registers, `G` and `g`.
use mathlib.Core.List.{append_assoc}
use native.Mathlib.Decide.{ℕ_discrete}
use projet_s5_prog.Common.{
  Bool, List, ap, arith, false, if◌then◌else◌, ltb, ok, refl, sub32, suc, sym, true, zero, ℕ, ◌%◌,
  ◌*◌, ◌++◌, ◌+◌, ◌<◌, ◌==◌, ◌^◌, ◌∙◌, ◌≡◌, ◌≤◌,
}
use projet_s5_prog.Common.Ensures.{bind-ok}
use projet_s5_prog.Text.{bytes, drop, length}
use projet_s5_prog.Core.{
  ArmCore, arm_read_cpsr, arm_read_register, arm_write_cpsr, arm_write_register,
}
use projet_s5_prog.Registers.{Registers, get_mode, read_cpsr, read_register, write_cpsr}
use projet_s5_prog.Registers.Bank.{is_mode, read_register-slot, slot}
use projet_s5_prog.Registers.Laws.{get_mode-write_register, read_register-write_register, slot-lt}
use projet_s5_prog.Gdb.Hex.{write_uint32}
use projet_s5_prog.Gdb.Hex.RoundTrip.{read_uint32-write_uint32}
use projet_s5_prog.Gdb.Access.{
  no_registers, read_general_registers, registers_text, skip_words, write_general_registers,
  write_registers,
}
use projet_s5_prog.Core.Fetch.{fetch_address}
use projet_s5_prog.Gdb.Sent.{gdb_send_buffer-fits, sent}
use projet_s5_prog.Gdb.{Gdb, gdb_send_buffer, gdb_send_data}
use projet_s5_prog.Util.{get_bits}

-- What the registers hold as the mode of the processor sees them, from `i` on.
abbrev pub HeldFrom : ℕ → (ℕ → ℕ) → ArmCore → ArmCore → Type 0
HeldFrom i v p p' =
    (get_mode p'.reg ≡ get_mode p.reg)
    × ((j : ℕ) → j ≤ 15 → read_register p'.reg j ≡ (if ltb j i then read_register p.reg j else v j))

one_more :
    (i j : ℕ) (v : ℕ → ℕ) (after before : ℕ)
    → after ≡ (if i == j then v i else before)
    → (if ltb j (i + 1) then after else v j) ≡ (if ltb j i then before else v j)
one_more i j v after before e = elim (ℕ_discrete i j) [
  | yes same ↦ rw same (ground arith)
  | no other ↦ ground arith
]

module _ (host target : Bool) where
  -- `left` words in hexadecimal from the `i`-th on, and what follows them.
  unfoldable pub words_text : ℕ → ℕ → (ℕ → ℕ) → List ℕ → List ℕ
  words_text zero i v t = t
  words_text (suc left) i v t = write_uint32 host target (v i) ++ words_text left (i + 1) v t

  drop-word : (x : ℕ) (t : List ℕ) → drop 8 (write_uint32 host target x ++ t) ≡ t
  unfolding drop write_uint32
  drop-word x t = refl

  write_registers-words :
      (left i : ℕ) (v : ℕ → ℕ) (t : List ℕ) (p : ArmCore)
      → i + left ≡ 16
      → ((j : ℕ) → v j < 2 ^ 32)
      → is_mode (get_mode p.reg) ≡ true
      → (p' : ArmCore) × (write_registers host target left i (words_text left i v t) p ≡ ok p')
        × HeldFrom i v p p'
  unfolding write_registers words_text
  write_registers-words zero i v t p whole fits mode = (p, refl, (refl, λ j h. ground arith))
  write_registers-words (suc left) i v t p whole fits mode =
      let p1 = arm_write_register p i (v i) in
      let same : get_mode p1.reg ≡ get_mode p.reg =
        unfold arm_write_register in get_mode-write_register p.reg i (v i) in
      let next = write_registers-words left (i + 1) v t p1 (omega arith) fits (rw same mode) in
      (
        next.0,
        bind-ok _
              (read_uint32-write_uint32 host target (v i) (words_text left (i + 1) v t) (fits i))
            ∙ rw drop-word next.1,
        (
          next.2.0 ∙ same,
          λ j h.
              next.2.1 j h
              ∙ one_more i j v (read_register p1.reg j) (read_register p.reg j) (
                  unfold arm_write_register in
                  read_register-write_register p.reg i j (v i) (omega arith) h mode),
        ),
      )

  registers_text-words :
      (left i : ℕ) (v : ℕ → ℕ) (t : List ℕ) (p : ArmCore)
      → i + left ≤ 15
      → ((j : ℕ) → j < 15 → arm_read_register p j ≡ v j)
      → registers_text host target left i p ++ t ≡ words_text left i v t
  unfolding registers_text words_text
  registers_text-words zero i v t p inside held = refl
  registers_text-words (suc left) i v t p inside held =
      append_assoc (write_uint32 host target (arm_read_register p i))
        (registers_text host target left (i + 1) p) t
      ∙ ap (λ x. write_uint32 host target x ++ (registers_text host target left (i + 1) p ++ t))
          (held i (omega arith))
      ∙ ap (λ s. write_uint32 host target (v i) ++ s)
          (registers_text-words left (i + 1) v t p (omega arith) held)

  -- The text of sixteen registers and a status, as `g` sends it.
  abbrev pub general_text : (ℕ → ℕ) → ℕ → List ℕ
  general_text v status = words_text 16 0 v (
      no_registers host target (8 * 3)
      ++ (no_registers host target 1 ++ write_uint32 host target status))

  length-general_text : (v : ℕ → ℕ) (status : ℕ) → length (general_text v status) ≡ 336
  unfolding words_text write_uint32
  length-general_text v status = refl

  -- The reads of the processor, once its registers and its status are known.
  pub read_general_registers-text :
      (v : ℕ → ℕ) (status : ℕ) (g : Gdb)
      → ((j : ℕ) → j ≤ 15 → read_register g.arm.reg j ≡ v j)
      → read_cpsr g.arm.reg ≡ status
      → v 15 % 4 ≡ 0
      → v 15 + 4 < 2 ^ 32
      → read_general_registers host target g ≡ ok (sent (general_text v status) g)
  unfolding read_general_registers arm_read_cpsr
  read_general_registers-text v status g held cpsr_held aligned room =
      let end =
        no_registers host target (8 * 3)
        ++ (no_registers host target 1 ++ write_uint32 host target status) in
      let here : sub32 (arm_read_register g.arm 15) 4 ≡ v 15 =
        unfold arm_read_register in
        rw (held 15 (omega arith)) (fetch_address (v 15) aligned room) in
      let low : (j : ℕ) → j < 15 → arm_read_register g.arm j ≡ v j = λ j h.
        unfold arm_read_register in
        let not_pc : (j == 15) ≡ false = ground arith in rw not_pc (held j (omega arith)) in
      let text : registers_text host target 15 0 g.arm ++ (write_uint32 host target (v 15) ++ end)
          ≡ general_text v status =
        registers_text-words 15 0 v (write_uint32 host target (v 15) ++ end) g.arm (omega arith) low
        ∙ (unfold words_text in refl) in
      rw (here, cpsr_held)
        (ap (λ t. gdb_send_buffer t g) text
          ∙ gdb_send_buffer-fits (general_text v status) g
              (omega (arith, length-general_text v status)))

  -- A write of the CPSR that keeps the mode keeps what the registers hold.
  read_register-write_cpsr :
      (r : Registers) (status j : ℕ)
      → j ≤ 15
      → is_mode (get_mode r) ≡ true
      → get_bits status 4 0 ≡ get_mode r
      → read_register (write_cpsr r status) j ≡ read_register r j
  read_register-write_cpsr r status j h mode kept =
      let same : get_mode (write_cpsr r status) ≡ get_mode r = unfold get_mode write_cpsr in kept in
      read_register-slot (write_cpsr r status) j h (rw same mode)
      ∙ (let away : (write_cpsr r status).regs (slot (get_mode r) j)
              ≡ r.regs (slot (get_mode r) j) =
            unfold write_cpsr in ground (arith, (slot-lt (get_mode r) j h).1) in
          rw same (away ∙ sym (read_register-slot r j h mode)))

  skip_words-words :
      (left i : ℕ) (v : ℕ → ℕ) (t : List ℕ)
      → ((j : ℕ) → v j < 2 ^ 32)
      → skip_words host target left (words_text left i v t) ≡ ok t
  unfolding skip_words words_text
  skip_words-words zero i v t fits = refl
  skip_words-words (suc left) i v t fits =
      bind-ok _ (read_uint32-write_uint32 host target (v i) (words_text left (i + 1) v t) (fits i))
      ∙ rw drop-word (skip_words-words left (i + 1) v t fits)

  -- What `G` is sent with: sixteen registers, the floating-point registers, and the CPSR.
  abbrev pub sent_text : (v floats : ℕ → ℕ) (status : ℕ) → List ℕ → List ℕ
  sent_text v floats status s =
      words_text 16 0 v (words_text (8 * 3 + 1) 0 floats (write_uint32 host target status ++ s))

  pub write_general_registers-words :
      (v floats : ℕ → ℕ) (status : ℕ) (s : List ℕ) (g : Gdb)
      → ((j : ℕ) → v j < 2 ^ 32)
      → ((j : ℕ) → floats j < 2 ^ 32)
      → status < 2 ^ 32
      → is_mode (get_mode g.arm.reg) ≡ true
      → (p : ArmCore) × (write_general_registers host target (sent_text v floats status s) g
          ≡ ok (sent (bytes "OK") (record g { arm = arm_write_cpsr p status })))
        × HeldFrom 0 v g.arm p
  unfolding write_general_registers
  write_general_registers-words v floats status s g fits floats_fit status_fits mode =
      let end = write_uint32 host target status ++ s in
      let t = words_text (8 * 3 + 1) 0 floats end in
      let w = write_registers-words 16 0 v t g.arm (omega arith) fits mode in
      let behind : drop (8 * 16) (words_text 16 0 v t) ≡ t =
        unfold words_text write_uint32 drop in refl in
      (
        w.0,
        bind-ok _ w.1
            ∙ bind-ok _ (
                ap (skip_words host target (8 * 3 + 1)) behind
                ∙ skip_words-words (8 * 3 + 1) 0 floats end floats_fit)
            ∙ bind-ok _ (read_uint32-write_uint32 host target status s status_fits)
            ∙ (unfold gdb_send_data in
                gdb_send_buffer-fits (bytes "OK") (record g { arm = arm_write_cpsr w.0 status })
                  (omega arith)),
        w.2,
      )

  -- The processor that the write leaves holds the words and the status.
  pub written-held :
      (v : ℕ → ℕ) (status : ℕ) (before p : ArmCore)
      → HeldFrom 0 v before p
      → is_mode (get_mode before.reg) ≡ true
      → get_bits status 4 0 ≡ get_mode before.reg
      → ((j : ℕ) → j ≤ 15 → read_register (arm_write_cpsr p status).reg j ≡ v j)
        × (read_cpsr (arm_write_cpsr p status).reg ≡ status)
  unfolding arm_write_cpsr
  written-held v status before p (same, holds) mode kept = (
    λ j h.
        let value : read_register p.reg j ≡ v j = ground (arith, holds j h) in
        read_register-write_cpsr p.reg status j h (rw same mode) (kept ∙ sym same) ∙ value,
    (unfold read_cpsr write_cpsr in ground arith),
  )
