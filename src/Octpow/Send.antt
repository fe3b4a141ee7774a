-- ===== src/Octpow/Send.antt =====
-- What every command of com_octpow_sendpacket.c shares: the sequence number, the call of `sendto`
-- and the value that is returned.
use chunxiao_code.Prelude.{ℕ, ◌-◌, ◌^◌, List, [], ◌∷◌, ◌++◌, Bool, ltb, if◌then◌else◌}
use chunxiao_code.Prelude.Int.{ℤ, pos, negsuc, ltb_ℤ}
use chunxiao_code.Octpow.Wire.{Cell, EacpHdr}

-- The machine: the clock that seeds `rand`, the first number that `rand` then gives, whether
-- `sendto` fails on a packet, and what the stack holds where `octpow_cmd_send_recv` has `recvlen`.
pub record System : Type 0 where
  pub time : ℕ
  pub rand : ℕ → ℕ
  pub sendto_fails : List Cell → Bool
  pub stale : ℤ

-- The packets handed to `sendto` so far, the latest last.
abbrev pub Sent : Type 0
Sent = List (List Cell)

-- An `int32_t` given by its 32 bits.
abbrev pub int32 : ℕ → ℤ
int32 n = if ltb n (2 ^ 31) then pos n else negsuc (2 ^ 32 - 1 - n)

unfoldable pub sequence_gene : System → ℕ
sequence_gene sys = sys.rand sys.time

-- The receiving half is commented out in the source, so that `recvlen` is returned as it was found.
-- The dump of the packet on the terminal is left out.
unfoldable pub octpow_cmd_send_recv : System → List Cell → Sent → Sent × ℤ
octpow_cmd_send_recv sys send sent =
    (sent ++ (send ∷ []), if sys.sendto_fails send then negsuc 0 else sys.stale)

-- `if (octpow_cmd_send_recv(..) < 0) return -1; return 0xffffffff;`, the end of every command.
unfoldable pub command : System → List Cell → Sent → Sent × ℤ
unfolding octpow_cmd_send_recv
command sys send sent =
    let (sent', recvlen) = octpow_cmd_send_recv sys send sent in
    (sent', if ltb_ℤ recvlen (pos 0) then negsuc 0 else int32 0xffffffff)

-- The four assignments with which every command but those of the ACL begins.
unfoldable pub eacp_hdr : System → ℕ → ℕ → EacpHdr
unfolding sequence_gene
eacp_hdr sys msg_type msg_len = record {
  preamble = 0x50434145;
  sequence = sequence_gene sys;
  msg_type = msg_type;
  msg_len = msg_len;
}
