-- ===== src/Octpow/Replies.antt =====
-- What the functions of com_octpow_sendpacket.c return, and the acknowledgement bit of the codes.
use Prim.Native.Nat.{bit_or}
use chunxiao_code.Prelude.{
  ℕ, ◌+◌, ◌<◌, ◌≡◌, refl, List, true, false, ◌==◌, ==_iff, tested_upto, tested_upto-apply, arith,
}
use chunxiao_code.Prelude.Int.{negsuc}
use chunxiao_code.Octpow.Wire.{Cell}
use chunxiao_code.Octpow.Codes.{
  eacp_preamble, eacp_ver, is_eacp_msg, eacp_ack_msg, is_eacp_ack_msg, get_eacp_ori_msg,
}
use chunxiao_code.Octpow.Send.{System, Sent, command}
use chunxiao_code.Octpow.Dispatch.{
  Request, perform, perform_acl, AclRequest, request_code, data_plan_reset, ac_add, ac_del, ac_del2,
  ac_request, port_set, port_request, mini_jumbo_set, wtp_add, wtp_del, wtp_del_all,
  wtp_request_all, wtp_request_serial, wtp_request, sta_add, sta_del_all, sta_del, sta_request_all,
  sta_request_serial, sta_request, cpu_set, data_plan_run_time_response, data_plan_cpu,
  data_plan_packet, cpu_high_alert, cpu_high_clear, wtp_acl_add, wtp_acl_del_all, wtp_acl_del,
  wtp_acl_request_all, wtp_acl_request_serial, cal_request_wtp, sta_acl_add, sta_acl_del_all,
  sta_acl_del, sta_acl_request_all, sta_acl_request_serial, cal_request_sta,
}

command-returns :
    (sys : System) (send : List Cell) (sent : Sent) → (command sys send sent).1 ≡ negsuc 0
unfolding command
command-returns sys send sent = ground arith

-- Every request returns -1, whether the socket took the packet or failed, and whatever value the
-- received length was left with: a caller cannot tell success from failure by it.
pub perform-returns : (r : Request) (sys : System) (sent : Sent) → (perform r sys sent).1 ≡ negsuc 0
unfolding perform
perform-returns data_plan_reset sys sent = command-returns sys _ sent
perform-returns (ac_add count ip mac) sys sent = command-returns sys _ sent
perform-returns ac_del sys sent = command-returns sys _ sent
perform-returns (ac_del2 fin) sys sent = command-returns sys _ sent
perform-returns ac_request sys sent = command-returns sys _ sent
perform-returns (port_set ctr_port data_port) sys sent = command-returns sys _ sent
perform-returns port_request sys sent = command-returns sys _ sent
perform-returns (mini_jumbo_set flag) sys sent = command-returns sys _ sent
perform-returns wtp_add sys sent = command-returns sys _ sent
perform-returns wtp_del sys sent = command-returns sys _ sent
perform-returns wtp_del_all sys sent = command-returns sys _ sent
perform-returns wtp_request_all sys sent = command-returns sys _ sent
perform-returns wtp_request_serial sys sent = command-returns sys _ sent
perform-returns wtp_request sys sent = command-returns sys _ sent
perform-returns sta_add sys sent = command-returns sys _ sent
perform-returns sta_del_all sys sent = command-returns sys _ sent
perform-returns sta_del sys sent = command-returns sys _ sent
perform-returns sta_request_all sys sent = command-returns sys _ sent
perform-returns sta_request_serial sys sent = command-returns sys _ sent
perform-returns sta_request sys sent = command-returns sys _ sent
perform-returns (cpu_set cpu) sys sent = command-returns sys _ sent
perform-returns data_plan_run_time_response sys sent = command-returns sys _ sent
perform-returns data_plan_cpu sys sent = command-returns sys _ sent
perform-returns data_plan_packet sys sent = command-returns sys _ sent
perform-returns (cpu_high_alert cpu) sys sent = command-returns sys _ sent
perform-returns (cpu_high_clear cpu) sys sent = command-returns sys _ sent

-- The same holds of the requests about access lists.
pub perform_acl-returns :
    (r : AclRequest) (send : List Cell) (sys : System) (sent : Sent)
    → (perform_acl r send sys sent).1 ≡ negsuc 0
unfolding perform_acl
perform_acl-returns wtp_acl_add send sys sent = command-returns sys _ sent
perform_acl-returns wtp_acl_del_all send sys sent = command-returns sys _ sent
perform_acl-returns wtp_acl_del send sys sent = command-returns sys _ sent
perform_acl-returns wtp_acl_request_all send sys sent = command-returns sys _ sent
perform_acl-returns wtp_acl_request_serial send sys sent = command-returns sys _ sent
perform_acl-returns cal_request_wtp send sys sent = command-returns sys _ sent
perform_acl-returns sta_acl_add send sys sent = command-returns sys _ sent
perform_acl-returns sta_acl_del_all send sys sent = command-returns sys _ sent
perform_acl-returns sta_acl_del send sys sent = command-returns sys _ sent
perform_acl-returns sta_acl_request_all send sys sent = command-returns sys _ sent
perform_acl-returns sta_acl_request_serial send sys sent = command-returns sys _ sent
perform_acl-returns cal_request_sta send sys sent = command-returns sys _ sent

-- The acknowledgement of a request is marked as one, the request itself is not, and the macro that
-- takes the mark off gives the code of the request back.
pub ack-roundtrip :
    (r : Request)
    → (is_eacp_ack_msg (bit_or (request_code r) eacp_ack_msg) ≡ true)
      × (is_eacp_ack_msg (request_code r) ≡ false)
      × (get_eacp_ori_msg (bit_or (request_code r) eacp_ack_msg) ≡ request_code r)
unfolding request_code is_eacp_ack_msg get_eacp_ori_msg
ack-roundtrip data_plan_reset = (refl, refl, refl)
ack-roundtrip (ac_add count ip mac) = (refl, refl, refl)
ack-roundtrip ac_del = (refl, refl, refl)
ack-roundtrip (ac_del2 fin) = (refl, refl, refl)
ack-roundtrip ac_request = (refl, refl, refl)
ack-roundtrip (port_set ctr_port data_port) = (refl, refl, refl)
ack-roundtrip port_request = (refl, refl, refl)
ack-roundtrip (mini_jumbo_set flag) = (refl, refl, refl)
ack-roundtrip wtp_add = (refl, refl, refl)
ack-roundtrip wtp_del = (refl, refl, refl)
ack-roundtrip wtp_del_all = (refl, refl, refl)
ack-roundtrip wtp_request_all = (refl, refl, refl)
ack-roundtrip wtp_request_serial = (refl, refl, refl)
ack-roundtrip wtp_request = (refl, refl, refl)
ack-roundtrip sta_add = (refl, refl, refl)
ack-roundtrip sta_del_all = (refl, refl, refl)
ack-roundtrip sta_del = (refl, refl, refl)
ack-roundtrip sta_request_all = (refl, refl, refl)
ack-roundtrip sta_request_serial = (refl, refl, refl)
ack-roundtrip sta_request = (refl, refl, refl)
ack-roundtrip (cpu_set cpu) = (refl, refl, refl)
ack-roundtrip data_plan_run_time_response = (refl, refl, refl)
ack-roundtrip data_plan_cpu = (refl, refl, refl)
ack-roundtrip data_plan_packet = (refl, refl, refl)
ack-roundtrip (cpu_high_alert cpu) = (refl, refl, refl)
ack-roundtrip (cpu_high_clear cpu) = (refl, refl, refl)

-- A preamble that carries a version number of four bits is accepted, and the version is read back.
pub eacp_ver-roundtrip :
    (v : ℕ) → v < 16 → (is_eacp_msg (eacp_preamble + v) ≡ true) × (eacp_ver (eacp_preamble + v) ≡ v)
unfolding is_eacp_msg eacp_ver tested_upto
eacp_ver-roundtrip v h = (
  tested_upto-apply (λ x. is_eacp_msg (eacp_preamble + x)) 16 v h refl,
  (==_iff _ v).0 (tested_upto-apply (λ x. eacp_ver (eacp_preamble + x) == x) 16 v h refl),
)
