-- ===== src/Octpow/Alarm.antt =====
-- The commands of com_octpow_sendpacket.c about the load of the data plane: the alarm level, statistics
-- and alarms. A number argument is given by its bits.
use chunxiao_code.Prelude.{ℕ}
use chunxiao_code.Prelude.Int.{ℤ}
use chunxiao_code.Octpow.Wire.{eacp_hdr_cells, cpu_cells}
use chunxiao_code.Octpow.Send.{System, Sent, command, eacp_hdr}

-- 0x0401
unfoldable pub cpu_set : ℕ → System → Sent → Sent × ℤ
unfolding command eacp_hdr
cpu_set cpu sys =
    command sys (cpu_cells record { eacp_hdr = eacp_hdr sys 0x0104 0x0400; cpu = cpu })

-- 0x2001
unfoldable pub data_plan_run_time_response : System → Sent → Sent × ℤ
unfolding command eacp_hdr
data_plan_run_time_response sys = command sys (eacp_hdr_cells (eacp_hdr sys 0x0120 0x0000))

-- 0x2002
unfoldable pub data_plan_cpu : System → Sent → Sent × ℤ
unfolding command eacp_hdr
data_plan_cpu sys = command sys (eacp_hdr_cells (eacp_hdr sys 0x0220 0x0000))

-- 0x2003
unfoldable pub data_plan_packet : System → Sent → Sent × ℤ
unfolding command eacp_hdr
data_plan_packet sys = command sys (eacp_hdr_cells (eacp_hdr sys 0x0320 0x0000))

-- 0x4001
unfoldable pub cpu_high_alert : ℕ → System → Sent → Sent × ℤ
unfolding command eacp_hdr
cpu_high_alert cpu sys =
    command sys (cpu_cells record { eacp_hdr = eacp_hdr sys 0x0140 0x0400; cpu = cpu })

-- 0x4002
unfoldable pub cpu_high_clear : ℕ → System → Sent → Sent × ℤ
unfolding command eacp_hdr
cpu_high_clear cpu sys =
    command sys (cpu_cells record { eacp_hdr = eacp_hdr sys 0x0240 0x0400; cpu = cpu })
