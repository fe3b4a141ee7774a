-- ===== src/Octpow/Acl.antt =====
-- The commands of com_octpow_sendpacket.c about access lists. Each declares a header, writes none of
-- its fields, and sends it: the 12 bytes that the stack holds at `send`, which are a parameter.
use chunxiao_code.Prelude.{List, take}
use chunxiao_code.Prelude.Int.{ℤ}
use chunxiao_code.Octpow.Wire.{Cell}
use chunxiao_code.Octpow.Send.{System, Sent, command}

unfoldable pub wtp_acl_add : List Cell → System → Sent → Sent × ℤ
unfolding command
wtp_acl_add send sys = command sys (take 12 send)

unfoldable pub wtp_acl_del_all : List Cell → System → Sent → Sent × ℤ
unfolding command
wtp_acl_del_all send sys = command sys (take 12 send)

unfoldable pub wtp_acl_del : List Cell → System → Sent → Sent × ℤ
unfolding command
wtp_acl_del send sys = command sys (take 12 send)

unfoldable pub wtp_acl_request_all : List Cell → System → Sent → Sent × ℤ
unfolding command
wtp_acl_request_all send sys = command sys (take 12 send)

unfoldable pub wtp_acl_request_serial : List Cell → System → Sent → Sent × ℤ
unfolding command
wtp_acl_request_serial send sys = command sys (take 12 send)

unfoldable pub cal_request_wtp : List Cell → System → Sent → Sent × ℤ
unfolding command
cal_request_wtp send sys = command sys (take 12 send)

unfoldable pub sta_acl_add : List Cell → System → Sent → Sent × ℤ
unfolding command
sta_acl_add send sys = command sys (take 12 send)

unfoldable pub sta_acl_del_all : List Cell → System → Sent → Sent × ℤ
unfolding command
sta_acl_del_all send sys = command sys (take 12 send)

unfoldable pub sta_acl_del : List Cell → System → Sent → Sent × ℤ
unfolding command
sta_acl_del send sys = command sys (take 12 send)

unfoldable pub sta_acl_request_all : List Cell → System → Sent → Sent × ℤ
unfolding command
sta_acl_request_all send sys = command sys (take 12 send)

unfoldable pub sta_acl_request_serial : List Cell → System → Sent → Sent × ℤ
unfolding command
sta_acl_request_serial send sys = command sys (take 12 send)

unfoldable pub cal_request_sta : List Cell → System → Sent → Sent × ℤ
unfolding command
cal_request_sta send sys = command sys (take 12 send)
