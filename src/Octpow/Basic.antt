-- ===== src/Octpow/Basic.antt =====
-- The basic commands of com_octpow_sendpacket.c: reset, the address of the AC, the CAPWAP ports, jumbo
-- frames. An `int` argument is given by its bits.
use chunxiao_code.Prelude.{ℕ, ◌+◌, ◌*◌, List, [], ◌∷◌, take}
use chunxiao_code.Prelude.Int.{ℤ}
use chunxiao_code.Octpow.Wire.{
  eacp_hdr_cells, AddrIpMac, address, ac_ip_mac_cells, port_cells, mini_jumbo_cells,
}
use chunxiao_code.Octpow.Send.{System, Sent, command, eacp_hdr}

-- 0x0001
unfoldable pub data_plan_reset : System → Sent → Sent × ℤ
unfolding command eacp_hdr
data_plan_reset sys = command sys (eacp_hdr_cells (eacp_hdr sys 0x0100 0x0000))

-- 0x0002. `sizeof(addrIpMacStru)` is 12. The address and the MAC go into a local struct, of which the
-- message holds the address.
unfoldable pub ac_add : ℕ → ℕ → List ℕ → System → Sent → Sent × ℤ
unfolding command eacp_hdr
ac_add count ip mac sys =
    let ip_mac : AddrIpMac = record { ip_addr = ip; mac_addr = take 6 mac } in
    command sys (
      ac_ip_mac_cells record {
        eacp_hdr = eacp_hdr sys 0x0200 (count * 12 + 1);
        count = count;
        ip_mac = address (ip_mac ∷ []);
      })

-- 0x0003. `malloc(sizeof(addrIpMacStru) * 0)`
unfoldable pub ac_del : System → Sent → Sent × ℤ
unfolding command eacp_hdr
ac_del sys = command sys (
    ac_ip_mac_cells record { eacp_hdr = eacp_hdr sys 0x0300 0x0; count = 0x0; ip_mac = address [] })

-- 0x0003, with a file name that is not read.
unfoldable pub ac_del2 : List ℕ → System → Sent → Sent × ℤ
unfolding command eacp_hdr
ac_del2 fin sys = command sys (
    ac_ip_mac_cells record { eacp_hdr = eacp_hdr sys 0x0300 0x0; count = 0x0; ip_mac = address [] })

-- 0x0004
unfoldable pub ac_request : System → Sent → Sent × ℤ
unfolding command eacp_hdr
ac_request sys = command sys (eacp_hdr_cells (eacp_hdr sys 0x0400 0x0000))

-- 0x0005
unfoldable pub port_set : ℕ → ℕ → System → Sent → Sent × ℤ
unfolding command eacp_hdr
port_set ctr_port data_port sys = command sys (
    port_cells record {
      eacp_hdr = eacp_hdr sys 0x0500 0x0400;
      control_port = ctr_port;
      data_port = data_port;
    })

-- 0x0006
unfoldable pub port_request : System → Sent → Sent × ℤ
unfolding command eacp_hdr
port_request sys = command sys (eacp_hdr_cells (eacp_hdr sys 0x0600 0x0000))

-- 0x0007
unfoldable pub mini_jumbo_set : ℕ → System → Sent → Sent × ℤ
unfolding command eacp_hdr
mini_jumbo_set flag sys =
    command sys
      (mini_jumbo_cells record { eacp_hdr = eacp_hdr sys 0x0700 0x0100; mini_jumbo = flag })
