-- ===== src/Octpow/Codes.antt =====
-- The message codes and the macros of com_octpow_sendpacket.h, as the protocol numbers them (most
-- significant byte first on the wire).
use Prim.Native.Nat.{bit_and, bit_or, bit_xor}
use chunxiao_code.Prelude.{ℕ, ◌-◌, Bool, not, ◌==◌}

abbrev pub basic_cmd_cls : ℕ
basic_cmd_cls = 0x0000

abbrev pub alarm_set_cmd_cls : ℕ
alarm_set_cmd_cls = 0x0400

abbrev pub stat_cmd_cls : ℕ
stat_cmd_cls = 0x2000

abbrev pub alarm_msg_cls : ℕ
alarm_msg_cls = 0x4000

abbrev pub reset_dataplane_cmd : ℕ
reset_dataplane_cmd = bit_or basic_cmd_cls 0x1

abbrev pub add_ac_ip_mac_cmd : ℕ
add_ac_ip_mac_cmd = bit_or basic_cmd_cls 0x2

abbrev pub del_ac_ip_mac_cmd : ℕ
del_ac_ip_mac_cmd = bit_or basic_cmd_cls 0x3

abbrev pub query_ac_ip_mac_cmd : ℕ
query_ac_ip_mac_cmd = bit_or basic_cmd_cls 0x4

abbrev pub set_capwap_port_cmd : ℕ
set_capwap_port_cmd = bit_or basic_cmd_cls 0x5

abbrev pub query_capwap_port_cmd : ℕ
query_capwap_port_cmd = bit_or basic_cmd_cls 0x6

abbrev pub set_jumbo_cmd : ℕ
set_jumbo_cmd = bit_or basic_cmd_cls 0x7

abbrev pub add_wtp_cmd : ℕ
add_wtp_cmd = bit_or basic_cmd_cls 0x8

abbrev pub del_specified_wtp_cmd : ℕ
del_specified_wtp_cmd = bit_or basic_cmd_cls 0x9

abbrev pub del_all_wtp_cmd : ℕ
del_all_wtp_cmd = bit_or basic_cmd_cls 0xa

abbrev pub query_all_wtp_cmd : ℕ
query_all_wtp_cmd = bit_or basic_cmd_cls 0xb

abbrev pub query_section_wtp_cmd : ℕ
query_section_wtp_cmd = bit_or basic_cmd_cls 0xc

abbrev pub query_specified_wtp_cmd : ℕ
query_specified_wtp_cmd = bit_or basic_cmd_cls 0xd

abbrev pub add_sta_cmd : ℕ
add_sta_cmd = bit_or basic_cmd_cls 0xe

abbrev pub del_all_sta_cmd : ℕ
del_all_sta_cmd = bit_or basic_cmd_cls 0xf

abbrev pub del_specified_sta_cmd : ℕ
del_specified_sta_cmd = bit_or basic_cmd_cls 0x10

abbrev pub query_all_sta_cmd : ℕ
query_all_sta_cmd = bit_or basic_cmd_cls 0x11

abbrev pub query_section_sta_cmd : ℕ
query_section_sta_cmd = bit_or basic_cmd_cls 0x12

abbrev pub query_specified_sta_cmd : ℕ
query_specified_sta_cmd = bit_or basic_cmd_cls 0x13

abbrev pub set_cpu_alarm_level_cmd : ℕ
set_cpu_alarm_level_cmd = bit_or alarm_set_cmd_cls 0x1

abbrev pub get_dataplane_run_time_cmd : ℕ
get_dataplane_run_time_cmd = bit_or stat_cmd_cls 0x1

abbrev pub get_dataplane_cpu_usage_cmd : ℕ
get_dataplane_cpu_usage_cmd = bit_or stat_cmd_cls 0x2

abbrev pub get_dataplane_packets_stat_cmd : ℕ
get_dataplane_packets_stat_cmd = bit_or stat_cmd_cls 0x3

abbrev pub dataplane_cpu_usage_alarm : ℕ
dataplane_cpu_usage_alarm = bit_or alarm_msg_cls 0x1

abbrev pub dataplane_cpu_usage_alarm_clear : ℕ
dataplane_cpu_usage_alarm_clear = bit_or alarm_msg_cls 0x2

abbrev pub eacp_preamble : ℕ
eacp_preamble = 0x45414350

-- `EACP_VER(p)`
unfoldable pub eacp_ver : ℕ → ℕ
eacp_ver p = bit_and p 0xf

-- `IS_EACP_MSG(m)`: all but the low four bits are those of the preamble.
unfoldable pub is_eacp_msg : ℕ → Bool
is_eacp_msg m = bit_xor (bit_and m 0xfffffff0) eacp_preamble == 0

abbrev pub eacp_ack_msg : ℕ
eacp_ack_msg = 0x0080

-- `IS_EACP_ACK_MSG(m)`, as a test.
unfoldable pub is_eacp_ack_msg : ℕ → Bool
is_eacp_ack_msg m = not (bit_and m eacp_ack_msg == 0)

-- `GET_EACP_ORI_MSG(m)`: `~` is taken in 32 bits.
unfoldable pub get_eacp_ori_msg : ℕ → ℕ
get_eacp_ori_msg m = bit_and m (0xffffffff - eacp_ack_msg)
