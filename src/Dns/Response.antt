-- ===== src/Dns/Response.antt =====
-- What becomes of a response with a question in dns.c.
use chunxiao_code.Prelude.{ℕ, ◌+◌, ◌≤◌, ◌≡◌, List, some, false, ◌==◌, get_elem?}
use chunxiao_code.Pcap.State.{Endian}
use chunxiao_code.Dns.{load16}
use chunxiao_code.Dns.Process.{is_dns_response, qr}

-- A response that is not empty, as the machine reads it: its header stands at `ptr`, its first question
-- begins with a label of c bytes that is inside the packet.
pub record Asks (order : Endian) (mem : List ℕ) (length ptr c : ℕ) : Type 0 where
  pub flags : ℕ
  pub answer_rrs : ℕ
  pub found : is_dns_response mem ≡ some (some ptr)
  pub flags_at : get_elem? mem (ptr + 2) ≡ some flags
  pub response : (qr order flags == 0) ≡ false
  pub answers_at : load16 order mem (ptr + 6) ≡ some answer_rrs
  pub answered : (answer_rrs == 0) ≡ false
  pub label_at : get_elem? mem (ptr + 12) ≡ some c
  pub inside : ptr + 12 ≤ length
