-- ===== src/Octpow/Dispatch.antt =====
-- The calls that a user of com_octpow_sendpacket.c can make, one constructor for each function that
-- it declares. `Request` has those that fill in a header, `AclRequest` those that do not.
use chunxiao_code.Prelude.{ℕ, List}
use chunxiao_code.Prelude.Int.{ℤ}
use chunxiao_code.Octpow.Codes
use chunxiao_code.Octpow.Wire.{Cell}
use chunxiao_code.Octpow.Send.{System, Sent}
use chunxiao_code.Octpow.Basic
use chunxiao_code.Octpow.Wtp
use chunxiao_code.Octpow.Sta
use chunxiao_code.Octpow.Acl
use chunxiao_code.Octpow.Alarm

pub data Request : Type 0 where
  data_plan_reset : Request
  ac_add : ℕ → ℕ → List ℕ → Request
  ac_del : Request
  ac_del2 : List ℕ → Request
  ac_request : Request
  port_set : ℕ → ℕ → Request
  port_request : Request
  mini_jumbo_set : ℕ → Request
  wtp_add : Request
  wtp_del : Request
  wtp_del_all : Request
  wtp_request_all : Request
  wtp_request_serial : Request
  wtp_request : Request
  sta_add : Request
  sta_del_all : Request
  sta_del : Request
  sta_request_all : Request
  sta_request_serial : Request
  sta_request : Request
  cpu_set : ℕ → Request
  data_plan_run_time_response : Request
  data_plan_cpu : Request
  data_plan_packet : Request
  cpu_high_alert : ℕ → Request
  cpu_high_clear : ℕ → Request

pub data AclRequest : Type 0 where
  wtp_acl_add : AclRequest
  wtp_acl_del_all : AclRequest
  wtp_acl_del : AclRequest
  wtp_acl_request_all : AclRequest
  wtp_acl_request_serial : AclRequest
  cal_request_wtp : AclRequest
  sta_acl_add : AclRequest
  sta_acl_del_all : AclRequest
  sta_acl_del : AclRequest
  sta_acl_request_all : AclRequest
  sta_acl_request_serial : AclRequest
  cal_request_sta : AclRequest

unfoldable pub perform : Request → System → Sent → Sent × ℤ
unfolding Basic.data_plan_reset Basic.ac_add Basic.ac_del Basic.ac_del2 Basic.ac_request
    Basic.port_set Basic.port_request Basic.mini_jumbo_set Wtp.wtp_add Wtp.wtp_del Wtp.wtp_del_all
    Wtp.wtp_request_all Wtp.wtp_request_serial Wtp.wtp_request Sta.sta_add Sta.sta_del_all
    Sta.sta_del Sta.sta_request_all Sta.sta_request_serial Sta.sta_request Alarm.cpu_set
    Alarm.data_plan_run_time_response Alarm.data_plan_cpu Alarm.data_plan_packet
    Alarm.cpu_high_alert Alarm.cpu_high_clear
perform data_plan_reset = Basic.data_plan_reset
perform (ac_add count ip mac) = Basic.ac_add count ip mac
perform ac_del = Basic.ac_del
perform (ac_del2 fin) = Basic.ac_del2 fin
perform ac_request = Basic.ac_request
perform (port_set ctr_port data_port) = Basic.port_set ctr_port data_port
perform port_request = Basic.port_request
perform (mini_jumbo_set flag) = Basic.mini_jumbo_set flag
perform wtp_add = Wtp.wtp_add
perform wtp_del = Wtp.wtp_del
perform wtp_del_all = Wtp.wtp_del_all
perform wtp_request_all = Wtp.wtp_request_all
perform wtp_request_serial = Wtp.wtp_request_serial
perform wtp_request = Wtp.wtp_request
perform sta_add = Sta.sta_add
perform sta_del_all = Sta.sta_del_all
perform sta_del = Sta.sta_del
perform sta_request_all = Sta.sta_request_all
perform sta_request_serial = Sta.sta_request_serial
perform sta_request = Sta.sta_request
perform (cpu_set cpu) = Alarm.cpu_set cpu
perform data_plan_run_time_response = Alarm.data_plan_run_time_response
perform data_plan_cpu = Alarm.data_plan_cpu
perform data_plan_packet = Alarm.data_plan_packet
perform (cpu_high_alert cpu) = Alarm.cpu_high_alert cpu
perform (cpu_high_clear cpu) = Alarm.cpu_high_clear cpu

unfoldable pub perform_acl : AclRequest → List Cell → System → Sent → Sent × ℤ
unfolding Acl.wtp_acl_add Acl.wtp_acl_del_all Acl.wtp_acl_del Acl.wtp_acl_request_all
    Acl.wtp_acl_request_serial Acl.cal_request_wtp Acl.sta_acl_add Acl.sta_acl_del_all
    Acl.sta_acl_del Acl.sta_acl_request_all Acl.sta_acl_request_serial Acl.cal_request_sta
perform_acl wtp_acl_add = Acl.wtp_acl_add
perform_acl wtp_acl_del_all = Acl.wtp_acl_del_all
perform_acl wtp_acl_del = Acl.wtp_acl_del
perform_acl wtp_acl_request_all = Acl.wtp_acl_request_all
perform_acl wtp_acl_request_serial = Acl.wtp_acl_request_serial
perform_acl cal_request_wtp = Acl.cal_request_wtp
perform_acl sta_acl_add = Acl.sta_acl_add
perform_acl sta_acl_del_all = Acl.sta_acl_del_all
perform_acl sta_acl_del = Acl.sta_acl_del
perform_acl sta_acl_request_all = Acl.sta_acl_request_all
perform_acl sta_acl_request_serial = Acl.sta_acl_request_serial
perform_acl cal_request_sta = Acl.cal_request_sta

-- The code that com_octpow_sendpacket.h gives each request.
unfoldable pub request_code : Request → ℕ
request_code data_plan_reset = Codes.reset_dataplane_cmd
request_code (ac_add _ _ _) = Codes.add_ac_ip_mac_cmd
request_code ac_del = Codes.del_ac_ip_mac_cmd
request_code (ac_del2 _) = Codes.del_ac_ip_mac_cmd
request_code ac_request = Codes.query_ac_ip_mac_cmd
request_code (port_set _ _) = Codes.set_capwap_port_cmd
request_code port_request = Codes.query_capwap_port_cmd
request_code (mini_jumbo_set _) = Codes.set_jumbo_cmd
request_code wtp_add = Codes.add_wtp_cmd
request_code wtp_del = Codes.del_specified_wtp_cmd
request_code wtp_del_all = Codes.del_all_wtp_cmd
request_code wtp_request_all = Codes.query_all_wtp_cmd
request_code wtp_request_serial = Codes.query_section_wtp_cmd
request_code wtp_request = Codes.query_specified_wtp_cmd
request_code sta_add = Codes.add_sta_cmd
request_code sta_del_all = Codes.del_all_sta_cmd
request_code sta_del = Codes.del_specified_sta_cmd
request_code sta_request_all = Codes.query_all_sta_cmd
request_code sta_request_serial = Codes.query_section_sta_cmd
request_code sta_request = Codes.query_specified_sta_cmd
request_code (cpu_set _) = Codes.set_cpu_alarm_level_cmd
request_code data_plan_run_time_response = Codes.get_dataplane_run_time_cmd
request_code data_plan_cpu = Codes.get_dataplane_cpu_usage_cmd
request_code data_plan_packet = Codes.get_dataplane_packets_stat_cmd
request_code (cpu_high_alert _) = Codes.dataplane_cpu_usage_alarm
request_code (cpu_high_clear _) = Codes.dataplane_cpu_usage_alarm_clear
