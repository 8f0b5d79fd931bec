-- ===== src/Gdb/Packet/Framing.antt =====
-- The checksum of a packet: what is sent is accepted, and another checksum is refused.
use projet_s5_prog.Common.{
  Bool, List, [], ap, arith, if◌then◌else◌, ok, some, suc, ℕ, ◌++◌, ◌+◌, ◌-◌, ◌<◌, ◌==◌, ◌∙◌, ◌∷◌,
  ◌≡◌,
}
use projet_s5_prog.Text.{c_string, drop, found, length, print_02x, scan_x, take}
use projet_s5_prog.Gdb.{Gdb, checksum, framed, gdb_require_retransmission, gdb_send_ack}
use projet_s5_prog.Gdb.Packet.{
  check_digits, checked, gdb_packet_analysis, gdb_packet_command, payload,
}
use projet_s5_prog.Text.Scanned.{scan_x-print_02x}
use projet_s5_prog.Text.Lists.{drop-append_suc, length-append, take-append}

module _ (text : List ℕ) (check : ℕ) where
  payload-framed : payload (framed text check) ≡ text
  unfolding framed drop
  payload-framed =
      let whole : length (framed text check) - 4 ≡ length text =
        omega (arith, length-append text (b'#' ∷ print_02x check)) in
      ap (λ n. take n (text ++ b'#' ∷ print_02x check)) whole
      ∙ take-append text (b'#' ∷ print_02x check)

  check_digits-framed : check_digits (framed text check) ≡ print_02x check
  unfolding framed drop
  check_digits-framed =
      let places : length (payload (framed text check)) + 2 ≡ suc (suc (length text)) =
        rw payload-framed (omega arith) in
      ap (λ n. drop n (framed text check)) places ∙ drop-append_suc text (print_02x check) b'#'

  c_string-print_02x : check < 256 → c_string (print_02x check) ≡ print_02x check
  unfolding c_string
  c_string-print_02x h = ground arith

  scan_x-framed :
      check < 256
      → (let s = check_digits (framed text check) in scan_x (length s) (c_string s))
        ≡ found check []
  scan_x-framed h =
      ap (λ s. scan_x (length s) (c_string s)) check_digits-framed
      ∙ ap (scan_x 2) (c_string-print_02x h)
      ∙ scan_x-print_02x check [] h

-- A packet with `text` that carries the checksum `check` is handled after an acknowledgement if
-- it is the one that `gdb_send_buffer` computes for `text`, and is asked for again otherwise.
-- The checksum is given as a byte.
pub gdb_packet_analysis-framed :
    (host target : Bool) (fuel check : ℕ) (text : List ℕ) (g : Gdb)
    → check < 256
    → gdb_packet_analysis host target fuel (framed text check) g ≡ (
        if checksum text 0 == check
        then gdb_packet_command host target fuel
            (text ++ 0 ∷ print_02x check ++ 0 ∷ [])
            (gdb_send_ack g)
        else ok (some (gdb_require_retransmission g)))
unfolding gdb_packet_analysis checked
gdb_packet_analysis-framed host target fuel check text g h =
    let packet = framed text check in
    ap (checked host target fuel (payload packet) (check_digits packet) g)
      (scan_x-framed text check h)
    ∙ ap (λ body. checked host target fuel body (check_digits packet) g (found check []))
        (payload-framed text check)
    ∙ ap (λ digits. checked host target fuel text digits g (found check []))
        (check_digits-framed text check)
