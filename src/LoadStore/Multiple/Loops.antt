-- ===== src/LoadStore/Multiple/Loops.antt =====
-- The loops of LDM and STM: what they keep and how far the address moves.
use projet_s5_prog.Common.{
  Bool, Option, Outcome, arith, false, fault, if◌then◌else◌, none, ok, some, suc, true, u32, zero,
  ℕ, ◌*◌, ◌+◌, ◌<◌, ◌==◌, ◌^◌, ◌≡◌,
}
use projet_s5_prog.Common.Ensures.{Safe, bind-Safe, breaks, finishes}
use projet_s5_prog.Util.{get_bit}
use projet_s5_prog.Core.{
  ArmCore, arm_read_register, arm_read_usr_register, arm_write_register, arm_write_usr_register,
}
use projet_s5_prog.Core.Keeps.{
  IsWords, Keeps, Keeps-trans, arm_read_register-lt, arm_read_usr_register-lt,
  arm_write_register-Keeps, arm_write_usr_register-Keeps,
}
use projet_s5_prog.Core.Access.{WordRead, arm_read_word-Safe, arm_write_word-Safe}
use projet_s5_prog.LoadStore.Multiple.{
  Transfer, advance, fetch_value, load_loop, load_one, store_loop, store_one, use_value,
}
use projet_s5_prog.LoadStore.Multiple.Count.{ones}

-- The state of a loop begun in `p`, with the address moved to `a`.
pub record Progress (p : ArmCore) (a : ℕ) (t : Transfer) : Type 0 where
  pub kept : Keeps p t.core
  pub word : WordRead t.value
  pub reached : t.address ≡ u32 a

regroup : (a b c : ℕ) → a + 4 * (b + c) ≡ a + 4 * b + 4 * c
regroup a b c = omega arith

module _ {p : ArmCore} where
  pub fetch_value-Progress :
      {a : ℕ} {t : Transfer} → Progress p a t → Safe (Progress p a) (fetch_value t)
  unfolding fetch_value
  fetch_value-Progress {a} {t} h =
      bind-Safe (arm_read_word-Safe h.kept.words t.address) λ r e. after r e
    where
      after :
          (r : Option ℕ)
          → WordRead r
          → Safe
              (Progress p a)
              (ok (record t { value = elim r [ none ↦ t.value | some v ↦ some v ] }))
      after none e = finishes (record { kept = h.kept; word = h.word; reached = h.reached })
      after (some v) e = finishes (record { kept = h.kept; word = e; reached = h.reached })

  pub use_value-lt : {a : ℕ} {t : Transfer} → Progress p a t → Safe (λ v. v < 2 ^ 32) (use_value t)
  unfolding use_value
  use_value-lt {t} h = value_of t.value h.word
    where
      value_of :
          (r : Option ℕ)
          → WordRead r
          → Safe (λ v. v < 2 ^ 32) (elim r [ none ↦ fault | some v ↦ ok v ])
      value_of none e = breaks
      value_of (some v) e = finishes e

  pub advance-Progress :
      {a : ℕ} {t : Transfer} {q : ArmCore}
      → Progress p a t
      → Keeps t.core q
      → Progress p (a + 4) (advance t q)
  advance-Progress h k = record {
    kept = Keeps-trans h.kept k;
    word = h.word;
    reached = omega (arith, h.reached);
  }

  load_one-Progress :
      (user : Bool) (i : ℕ) {a : ℕ} {t : Transfer}
      → Progress p a t
      → Safe (Progress p (a + 4)) (load_one user i t)
  unfolding load_one
  load_one-Progress user i h = bind-Safe (fetch_value-Progress h) λ t1 h1.
      bind-Safe (use_value-lt h1)
        λ v hv. finishes (advance-Progress h1 (write_user user h1.kept.words i v hv))
    where
      write_user :
          {q : ArmCore} (b : Bool)
          → IsWords q
          → (i v : ℕ) → v < 2 ^ 32
          → Keeps q (if b then arm_write_usr_register q i v else arm_write_register q i v)
      write_user true w i v hv = arm_write_usr_register-Keeps w i v hv
      write_user false w i v hv = arm_write_register-Keeps w i v hv

  store_one-Progress :
      (user : Bool) (i : ℕ) {a : ℕ} {t : Transfer}
      → Progress p a t
      → Safe (Progress p (a + 4)) (store_one user i t)
  unfolding store_one
  store_one-Progress user i {t} h = bind-Safe (arm_write_word-Safe h.kept.words t.address _) λ r k.
      finishes (record {
        kept = Keeps-trans h.kept k;
        word = read_user user h.kept.words i;
        reached = omega (arith, h.reached);
      })
    where
      read_user :
          {q : ArmCore} (b : Bool)
          → IsWords q
          → (i : ℕ) → (if b then arm_read_usr_register q i else arm_read_register q i) < 2 ^ 32
      read_user true w i = arm_read_usr_register-lt w i
      read_user false w i = arm_read_register-lt w i

  -- A round that moves the address only for a register of the list.
  round-Progress :
      {o : Outcome Transfer} {t : Transfer} (b : ℕ) {a : ℕ}
      → b < 2
      → Progress p a t
      → Safe (Progress p (a + 4)) o
      → Safe (Progress p (a + 4 * b)) (if b == 1 then o else ok t)
  round-Progress zero lt h k =
      finishes (record { kept = h.kept; word = h.word; reached = omega (arith, h.reached) })
  round-Progress (suc zero) lt h k = k
  round-Progress (suc (suc b)) lt h k = absurd (omega arith)

  pub load_loop-Progress :
      (left i : ℕ) (user : Bool) (list : ℕ) {a : ℕ} {t : Transfer}
      → Progress p a t
      → Safe (Progress p (a + 4 * ones left i list)) (load_loop left i user list t)
  unfolding load_loop
  load_loop-Progress zero i user list h =
      finishes (record { kept = h.kept; word = h.word; reached = omega (arith, h.reached) })
  load_loop-Progress (suc left) i user list {a} h =
      rw (regroup a (get_bit list i) (ones left (i + 1) list)) (
        bind-Safe (round-Progress (get_bit list i) (omega arith) h (load_one-Progress user i h))
          λ t1 h1. load_loop-Progress left (i + 1) user list h1)

  pub store_loop-Progress :
      (left i : ℕ) (user : Bool) (list : ℕ) {a : ℕ} {t : Transfer}
      → Progress p a t
      → Safe (Progress p (a + 4 * ones left i list)) (store_loop left i user list t)
  unfolding store_loop
  store_loop-Progress zero i user list h =
      finishes (record { kept = h.kept; word = h.word; reached = omega (arith, h.reached) })
  store_loop-Progress (suc left) i user list {a} h =
      rw (regroup a (get_bit list i) (ones left (i + 1) list)) (
        bind-Safe (round-Progress (get_bit list i) (omega arith) h (store_one-Progress user i h))
          λ t1 h1. store_loop-Progress left (i + 1) user list h1)
