-- ===== src/Octpow/Payload.antt =====
-- What the packets of com_octpow_sendpacket.c say of their payload: the declared length, and the
-- arguments that the data plane can read back.
use chunxiao_code.Prelude.{
  ℕ, zero, suc, ◌+◌, ◌*◌, ◌/◌, ◌%◌, ◌≤◌, ◌<◌, ◌≡◌, refl, List, [], ◌∷◌, ◌++◌, Option, none, some,
  length, arith,
}
use mathlib.Core.Path.{ap₂}
use chunxiao_code.Prelude.Fault.{◌>>=◌}
use chunxiao_code.Octpow.Wire.{Cell, byte, unknown, EacpHdr}
use chunxiao_code.Octpow.Send.{System, Sent}
use chunxiao_code.Octpow.Basic
use chunxiao_code.Octpow.Dispatch.{
  Request, perform, data_plan_reset, ac_add, ac_del, ac_del2, ac_request, port_set, port_request,
  mini_jumbo_set, wtp_add, wtp_del, wtp_del_all, wtp_request_all, wtp_request_serial, wtp_request,
  sta_add, sta_del_all, sta_del, sta_request_all, sta_request_serial, sta_request, cpu_set,
  data_plan_run_time_response, data_plan_cpu, data_plan_packet, cpu_high_alert, cpu_high_clear,
}
use chunxiao_code.Octpow.Header.{read_header}

-- What com_octpow_sendpacket.h describes as the payload of a request, and what the function makes of it.
pub data Documented : Type 0 where
  fixed : (n : ℕ) → Documented  -- n bytes
  undeclared : (n : ℕ) → Documented  -- n bytes at least that are sent behind a declared length of 0
  reversed : (n : ℕ) → Documented  -- n bytes, declared with the two bytes of the length exchanged

abbrev pub documented_len : Request → Documented
documented_len data_plan_reset = fixed 0
documented_len (ac_add count _ _) = reversed (count * 12 + 1)
documented_len ac_del = undeclared 1
documented_len (ac_del2 _) = undeclared 1
documented_len ac_request = fixed 0
documented_len (port_set _ _) = fixed 4
documented_len port_request = fixed 0
documented_len (mini_jumbo_set _) = fixed 1
documented_len wtp_add = undeclared 2
documented_len wtp_del = undeclared 2
documented_len wtp_del_all = fixed 0
documented_len wtp_request_all = fixed 0
documented_len wtp_request_serial = undeclared 4
documented_len wtp_request = undeclared 2
documented_len sta_add = undeclared 2
documented_len sta_del_all = fixed 0
documented_len sta_del = undeclared 2
documented_len sta_request_all = fixed 0
documented_len sta_request_serial = undeclared 4
documented_len sta_request = undeclared 2
documented_len (cpu_set _) = fixed 4
documented_len data_plan_run_time_response = fixed 0
documented_len data_plan_cpu = fixed 0
documented_len data_plan_packet = fixed 0
documented_len (cpu_high_alert _) = fixed 4
documented_len (cpu_high_clear _) = fixed 4

abbrev pub Fits : Documented → ℕ → List Cell → Type 0
Fits (fixed n) len rest = (len ≡ n) × (n ≤ length rest)
Fits (undeclared n) len rest = (len ≡ 0) × (n ≤ length rest)
Fits (reversed n) len rest = len ≡ 256 * (n % 256) + n / 256 % 256

pub record Declares (r : Request) (before after : Sent) : Type 0 where
  pub packet : List Cell
  pub one_more : after ≡ before ++ (packet ∷ [])
  pub header : EacpHdr
  pub rest : List Cell
  pub reads : read_header packet ≡ some (header, rest)
  pub fits : Fits (documented_len r) header.msg_len rest

declare :
    {r : Request} {before after : Sent} (packet : List Cell) (h : EacpHdr) (rest : List Cell)
    → after ≡ before ++ (packet ∷ [])
    → read_header packet ≡ some (h, rest)
    → Fits (documented_len r) h.msg_len rest
    → Declares r before after
declare packet h rest a b c = record {
  packet = packet;
  one_more = a;
  header = h;
  rest = rest;
  reads = b;
  fits = c;
}

-- Each of the 26 request functions of `Request` (without ac_add2 and the twelve functions about
-- access lists) sends one packet with a header that can be read in network order. The fifteen
-- whose documented payload has a fixed length that the function sets declare that length, and
-- have so many bytes behind the header. The ten whose documented payload is a start and an end,
-- or begins with a count, declare the length 0, although the packet has at least the start and
-- the end (4 bytes), or the count (1 or 2 bytes), behind the header. ac_add declares count *
-- sizeof(addrIpMacStru) + 1, cut to 16 bits, with its two bytes exchanged.
pub perform-Declares :
    (r : Request) (sys : System) (sent : Sent) → Declares r sent (perform r sys sent).0
unfolding perform
perform-Declares data_plan_reset sys sent = declare _ _ _ refl refl (refl, omega arith)
perform-Declares (ac_add count ip mac) sys sent = declare _ _ _ refl refl (omega arith)
perform-Declares ac_del sys sent = declare _ _ _ refl refl (refl, omega arith)
perform-Declares (ac_del2 fin) sys sent = declare _ _ _ refl refl (refl, omega arith)
perform-Declares ac_request sys sent = declare _ _ _ refl refl (refl, omega arith)
perform-Declares (port_set ctr_port data_port) sys sent =
    declare _ _ _ refl refl (refl, omega arith)
perform-Declares port_request sys sent = declare _ _ _ refl refl (refl, omega arith)
perform-Declares (mini_jumbo_set flag) sys sent = declare _ _ _ refl refl (refl, omega arith)
perform-Declares wtp_add sys sent = declare _ _ _ refl refl (refl, omega arith)
perform-Declares wtp_del sys sent = declare _ _ _ refl refl (refl, omega arith)
perform-Declares wtp_del_all sys sent = declare _ _ _ refl refl (refl, omega arith)
perform-Declares wtp_request_all sys sent = declare _ _ _ refl refl (refl, omega arith)
perform-Declares wtp_request_serial sys sent = declare _ _ _ refl refl (refl, omega arith)
perform-Declares wtp_request sys sent = declare _ _ _ refl refl (refl, omega arith)
perform-Declares sta_add sys sent = declare _ _ _ refl refl (refl, omega arith)
perform-Declares sta_del_all sys sent = declare _ _ _ refl refl (refl, omega arith)
perform-Declares sta_del sys sent = declare _ _ _ refl refl (refl, omega arith)
perform-Declares sta_request_all sys sent = declare _ _ _ refl refl (refl, omega arith)
perform-Declares sta_request_serial sys sent = declare _ _ _ refl refl (refl, omega arith)
perform-Declares sta_request sys sent = declare _ _ _ refl refl (refl, omega arith)
perform-Declares (cpu_set cpu) sys sent = declare _ _ _ refl refl (refl, omega arith)
perform-Declares data_plan_run_time_response sys sent = declare _ _ _ refl refl (refl, omega arith)
perform-Declares data_plan_cpu sys sent = declare _ _ _ refl refl (refl, omega arith)
perform-Declares data_plan_packet sys sent = declare _ _ _ refl refl (refl, omega arith)
perform-Declares (cpu_high_alert cpu) sys sent = declare _ _ _ refl refl (refl, omega arith)
perform-Declares (cpu_high_clear cpu) sys sent = declare _ _ _ refl refl (refl, omega arith)

-- A number of `w` bytes in the sender's order, least byte first, and what stands behind it.
abbrev pub take_le : ℕ → List Cell → Option (ℕ × List Cell)
take_le zero cells = some (0, cells)
take_le (suc w) [] = none
take_le (suc w) (unknown ∷ cells) = none
take_le (suc w) (byte b ∷ cells) = do (high, rest) ← take_le w cells; some (b + 256 * high, rest)

-- The two ports behind the header of a `port_set` packet, in the sender's order.
abbrev pub read_ports : List Cell → Option (ℕ × ℕ)
read_ports packet = do
  (header, cells) ← read_header packet
  (control_port, cells) ← take_le 2 cells
  (data_port, cells) ← take_le 2 cells
  some (control_port, data_port)

le16-back : (v : ℕ) → v < 65536 → v % 256 + 256 * (v / 256 % 256 + 256 * 0) ≡ v
le16-back v h = omega arith

-- Two port numbers of 16 bits come back from the one packet that `port_set` sends, if the receiver
-- reads them in the sender's byte order.
pub port_set-read_ports :
    (control data_port : ℕ) (sys : System) (sent : Sent)
    → control < 65536
    → data_port < 65536
    → (packet : List Cell) × ((Basic.port_set control data_port sys sent).0 ≡ sent ++ (packet ∷ []))
      × (read_ports packet ≡ some (control, data_port))
unfolding Basic.port_set
port_set-read_ports control data_port sys sent hc hd =
    (_, refl, ap₂ (λ c d. some (c, d)) (le16-back control hc) (le16-back data_port hd))

-- The packet of `ac_add` does not depend on the address and the MAC that it is given: calls that
-- differ in these alone have the same effect.
pub ac_add-forgets :
    (count ip ip' : ℕ) (mac mac' : List ℕ) (sys : System) (sent : Sent)
    → Basic.ac_add count ip mac sys sent ≡ Basic.ac_add count ip' mac' sys sent
unfolding Basic.ac_add
ac_add-forgets count ip ip' mac mac' sys sent = refl

-- For one to twenty addresses the length that `ac_add` declares, read in network order, is larger
-- than the whole packet.
pub ac_add_declares_too_much :
    (count ip : ℕ) (mac : List ℕ) (sys : System) (sent : Sent)
    → count ≤ 20
    → (packet : List Cell) × ((Basic.ac_add count ip mac sys sent).0 ≡ sent ++ (packet ∷ []))
      × (header : EacpHdr) × (rest : List Cell) × (read_header packet ≡ some (header, rest))
      × (length packet < header.msg_len)
unfolding Basic.ac_add
ac_add_declares_too_much count ip mac sys sent h = (_, refl, _, _, refl, omega arith)
