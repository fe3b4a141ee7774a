-- ===== src/Octpow/Sta.antt =====
-- The commands of com_octpow_sendpacket.c about the stations (STA).
use chunxiao_code.Prelude.Int.{ℤ}
use chunxiao_code.Octpow.Wire.{eacp_hdr_cells, null, counted_cells, start_end_cells}
use chunxiao_code.Octpow.Send.{System, Sent, command, eacp_hdr}

-- 0x000e
unfoldable pub sta_add : System → Sent → Sent × ℤ
unfolding command eacp_hdr
sta_add sys =
    command sys
      (counted_cells record { eacp_hdr = eacp_hdr sys 0x0e00 0x0; count = 0x0; entries = null })

-- 0x000f
unfoldable pub sta_del_all : System → Sent → Sent × ℤ
unfolding command eacp_hdr
sta_del_all sys = command sys (eacp_hdr_cells (eacp_hdr sys 0x0f00 0x0000))

-- 0x0010
unfoldable pub sta_del : System → Sent → Sent × ℤ
unfolding command eacp_hdr
sta_del sys =
    command sys
      (counted_cells record { eacp_hdr = eacp_hdr sys 0x1000 0x0; count = 0x0; entries = null })

-- 0x0011
unfoldable pub sta_request_all : System → Sent → Sent × ℤ
unfolding command eacp_hdr
sta_request_all sys = command sys (eacp_hdr_cells (eacp_hdr sys 0x1100 0x0000))

-- 0x0012
unfoldable pub sta_request_serial : System → Sent → Sent × ℤ
unfolding command eacp_hdr
sta_request_serial sys =
    command sys
      (start_end_cells record { eacp_hdr = eacp_hdr sys 0x1200 0x0; start = 0x0; last = 0x0 })

-- 0x0013
unfoldable pub sta_request : System → Sent → Sent × ℤ
unfolding command eacp_hdr
sta_request sys =
    command sys
      (counted_cells record { eacp_hdr = eacp_hdr sys 0x1300 0x0; count = 0x0; entries = null })
