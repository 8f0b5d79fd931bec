-- ===== src/Gdb/Sent.antt =====
-- What a packet that is sent leaves: the processor.
use projet_s5_prog.Common.{List, arith, ltb, ok, refl, true, ℕ, ◌+◌, ◌<◌, ◌≡◌}
use projet_s5_prog.Common.Ensures.{Ensures, faults, if-Ensures, returns}
use projet_s5_prog.Gdb.{
  Gdb, checksum, framed, gdb_send_buffer, gdb_send_data, gdb_transmit_packet, max_packet_size,
}
use projet_s5_prog.Text.{length}

pub arm-gdb_send_buffer :
    (text : List ℕ) (g : Gdb) → Ensures (λ (g' : Gdb). g'.arm ≡ g.arm) (gdb_send_buffer text g)
unfolding gdb_send_buffer gdb_transmit_packet
arm-gdb_send_buffer text g = if-Ensures _ _ _ (returns refl) faults

pub arm-gdb_send_data :
    (data_ : List ℕ) (g : Gdb) → Ensures (λ (g' : Gdb). g'.arm ≡ g.arm) (gdb_send_data data_ g)
unfolding gdb_send_data
arm-gdb_send_data data_ g = arm-gdb_send_buffer data_ g

-- The state after a packet with `text` was sent.
abbrev pub sent : List ℕ → Gdb → Gdb
sent text g = gdb_transmit_packet (record g { packet = framed text (checksum text 0) })

pub gdb_send_buffer-fits :
    (text : List ℕ) (g : Gdb) → length text < 1020 → gdb_send_buffer text g ≡ ok (sent text g)
unfolding gdb_send_buffer
gdb_send_buffer-fits text g h =
    let room : ltb (length text + 4) max_packet_size ≡ true = ground arith in rw room refl
