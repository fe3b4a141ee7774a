-- ===== src/Octpow/Wtp.antt =====
-- The commands of com_octpow_sendpacket.c about the access points (WTP).
use chunxiao_code.Prelude.Int.{ℤ}
use chunxiao_code.Octpow.Wire.{eacp_hdr_cells, null, counted_cells, start_end_cells}
use chunxiao_code.Octpow.Send.{System, Sent, command, eacp_hdr}

-- 0x0008
unfoldable pub wtp_add : System → Sent → Sent × ℤ
unfolding command eacp_hdr
wtp_add sys =
    command sys
      (counted_cells record { eacp_hdr = eacp_hdr sys 0x0800 0x0; count = 0x0; entries = null })

-- 0x0009
unfoldable pub wtp_del : System → Sent → Sent × ℤ
unfolding command eacp_hdr
wtp_del sys =
    command sys
      (counted_cells record { eacp_hdr = eacp_hdr sys 0x0900 0x0; count = 0x0; entries = null })

-- 0x000a
unfoldable pub wtp_del_all : System → Sent → Sent × ℤ
unfolding command eacp_hdr
wtp_del_all sys = command sys (eacp_hdr_cells (eacp_hdr sys 0x0a00 0x0000))

-- 0x000b
unfoldable pub wtp_request_all : System → Sent → Sent × ℤ
unfolding command eacp_hdr
wtp_request_all sys = command sys (eacp_hdr_cells (eacp_hdr sys 0x0b00 0x0000))

-- 0x000c
unfoldable pub wtp_request_serial : System → Sent → Sent × ℤ
unfolding command eacp_hdr
wtp_request_serial sys =
    command sys
      (start_end_cells record { eacp_hdr = eacp_hdr sys 0x0c00 0x0; start = 0x0; last = 0x0 })

-- 0x000d
unfoldable pub wtp_request : System → Sent → Sent × ℤ
unfolding command eacp_hdr
wtp_request sys =
    command sys
      (counted_cells record { eacp_hdr = eacp_hdr sys 0x0d00 0x0; count = 0x0; entries = null })
