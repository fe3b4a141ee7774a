-- ===== src/Octpow/Header.antt =====
-- What the data plane reads from the packets of com_octpow_sendpacket.c.
use chunxiao_code.Prelude.{
  ℕ, zero, suc, ◌+◌, ◌*◌, ◌≡◌, refl, List, [], ◌∷◌, ◌++◌, Option, none, some, true,
}
use chunxiao_code.Prelude.Fault.{◌>>=◌}
use chunxiao_code.Octpow.Wire.{Cell, byte, unknown, EacpHdr}
use chunxiao_code.Octpow.Codes.{eacp_preamble, is_eacp_msg}
use chunxiao_code.Octpow.Send.{System, Sent}
use chunxiao_code.Octpow.Dispatch.{
  Request, perform, request_code, data_plan_reset, ac_add, ac_del, ac_del2, ac_request, port_set,
  port_request, mini_jumbo_set, wtp_add, wtp_del, wtp_del_all, wtp_request_all, wtp_request_serial,
  wtp_request, sta_add, sta_del_all, sta_del, sta_request_all, sta_request_serial, sta_request,
  cpu_set, data_plan_run_time_response, data_plan_cpu, data_plan_packet, cpu_high_alert,
  cpu_high_clear,
}

-- A number of `w` bytes in network order, most significant byte first, and what stands behind it.
abbrev pub take_be : ℕ → ℕ → List Cell → Option (ℕ × List Cell)
take_be zero acc cells = some (acc, cells)
take_be (suc w) acc [] = none
take_be (suc w) acc (unknown ∷ cells) = none
take_be (suc w) acc (byte b ∷ cells) = take_be w (acc * 256 + b) cells

-- The header as com_octpow_sendpacket.h draws it: preamble, sequence, type, length.
abbrev pub read_header : List Cell → Option (EacpHdr × List Cell)
read_header cells = do
  (preamble, cells) ← take_be 4 0 cells
  (sequence, cells) ← take_be 4 0 cells
  (msg_type, cells) ← take_be 2 0 cells
  (msg_len, cells) ← take_be 2 0 cells
  some (
    record { preamble = preamble; sequence = sequence; msg_type = msg_type; msg_len = msg_len },
    cells,
  )

-- One request has put one packet on the socket, and the data plane reads this header from it.
pub record Announces (r : Request) (before after : Sent) : Type 0 where
  pub packet : List Cell
  pub one_more : after ≡ before ++ (packet ∷ [])
  pub header : EacpHdr
  pub rest : List Cell
  pub reads : read_header packet ≡ some (header, rest)
  pub preamble : header.preamble ≡ eacp_preamble
  pub accepted : is_eacp_msg header.preamble ≡ true
  pub msg_type : header.msg_type ≡ request_code r

announce :
    {r : Request} {before after : Sent} (packet : List Cell) (h : EacpHdr) (rest : List Cell)
    → after ≡ before ++ (packet ∷ [])
    → read_header packet ≡ some (h, rest)
    → h.preamble ≡ eacp_preamble
    → is_eacp_msg h.preamble ≡ true
    → h.msg_type ≡ request_code r
    → Announces r before after
announce packet h rest a b c d e = record {
  packet = packet;
  one_more = a;
  header = h;
  rest = rest;
  reads = b;
  preamble = c;
  accepted = d;
  msg_type = e;
}

-- Each of the 26 request functions of `Request` (all that fill in a header, without ac_add2 and
-- the twelve functions about access lists) sends exactly one packet, after those sent before;
-- read in network order it has the preamble that IS_EACP_MSG accepts and the code that the header
-- file documents for the request, whatever the arguments, the clock and the socket do.
pub perform-Announces :
    (r : Request) (sys : System) (sent : Sent) → Announces r sent (perform r sys sent).0
unfolding perform request_code is_eacp_msg
perform-Announces data_plan_reset sys sent = announce _ _ _ refl refl refl refl refl
perform-Announces (ac_add count ip mac) sys sent = announce _ _ _ refl refl refl refl refl
perform-Announces ac_del sys sent = announce _ _ _ refl refl refl refl refl
perform-Announces (ac_del2 fin) sys sent = announce _ _ _ refl refl refl refl refl
perform-Announces ac_request sys sent = announce _ _ _ refl refl refl refl refl
perform-Announces (port_set ctr_port data_port) sys sent = announce _ _ _ refl refl refl refl refl
perform-Announces port_request sys sent = announce _ _ _ refl refl refl refl refl
perform-Announces (mini_jumbo_set flag) sys sent = announce _ _ _ refl refl refl refl refl
perform-Announces wtp_add sys sent = announce _ _ _ refl refl refl refl refl
perform-Announces wtp_del sys sent = announce _ _ _ refl refl refl refl refl
perform-Announces wtp_del_all sys sent = announce _ _ _ refl refl refl refl refl
perform-Announces wtp_request_all sys sent = announce _ _ _ refl refl refl refl refl
perform-Announces wtp_request_serial sys sent = announce _ _ _ refl refl refl refl refl
perform-Announces wtp_request sys sent = announce _ _ _ refl refl refl refl refl
perform-Announces sta_add sys sent = announce _ _ _ refl refl refl refl refl
perform-Announces sta_del_all sys sent = announce _ _ _ refl refl refl refl refl
perform-Announces sta_del sys sent = announce _ _ _ refl refl refl refl refl
perform-Announces sta_request_all sys sent = announce _ _ _ refl refl refl refl refl
perform-Announces sta_request_serial sys sent = announce _ _ _ refl refl refl refl refl
perform-Announces sta_request sys sent = announce _ _ _ refl refl refl refl refl
perform-Announces (cpu_set cpu) sys sent = announce _ _ _ refl refl refl refl refl
perform-Announces data_plan_run_time_response sys sent = announce _ _ _ refl refl refl refl refl
perform-Announces data_plan_cpu sys sent = announce _ _ _ refl refl refl refl refl
perform-Announces data_plan_packet sys sent = announce _ _ _ refl refl refl refl refl
perform-Announces (cpu_high_alert cpu) sys sent = announce _ _ _ refl refl refl refl refl
perform-Announces (cpu_high_clear cpu) sys sent = announce _ _ _ refl refl refl refl refl
