-- ===== src/Octpow/Wire.antt =====
-- The structs of com_octpow_sendpacket.h as the bytes that the socket is given: a little-endian
-- machine with 8-byte pointers and natural alignment, for which the constants of the source are
-- written (they are the protocol's numbers with their bytes swapped).
use chunxiao_code.Prelude.{ℕ, zero, suc, ◌/◌, ◌%◌, List, [], ◌∷◌, ◌++◌}

-- A byte on the wire. `unknown` is one that the code does not determine: padding, a field that was
-- never written, a byte of an address.
pub data Cell : Type 0 where
  byte : ℕ → Cell
  unknown : Cell

-- An unsigned field of `w` bytes, least byte first. What does not fit is cut off.
abbrev pub le : ℕ → ℕ → List Cell
le zero v = []
le (suc w) v = byte (v % 256) ∷ le w (v / 256)

abbrev pub unknowns : ℕ → List Cell
unknowns zero = []
unknowns (suc n) = unknown ∷ unknowns n

-- `EACP_HDR` with its `struct msgHdr`.
pub record EacpHdr : Type 0 where
  pub preamble : ℕ
  pub sequence : ℕ
  pub msg_type : ℕ
  pub msg_len : ℕ

abbrev pub eacp_hdr_cells : EacpHdr → List Cell
eacp_hdr_cells h = le 4 h.preamble ++ (le 4 h.sequence ++ (le 2 h.msg_type ++ le 2 h.msg_len))

-- `addrIpMacStru`
pub record AddrIpMac : Type 0 where
  pub ip_addr : ℕ
  pub mac_addr : List ℕ

-- A pointer field: null, or the address of some entries.
pub data Pointer : Type 0 where
  null : Pointer
  address : List AddrIpMac → Pointer

-- The struct holds the address and not what stands there.
abbrev pub pointer_cells : Pointer → List Cell
pointer_cells null = le 8 0
pointer_cells (address entries) = unknowns 8

-- `eacp_ac_ip_mac_t`
pub record EacpAcIpMac : Type 0 where
  pub eacp_hdr : EacpHdr
  pub count : ℕ
  pub ip_mac : Pointer

abbrev pub ac_ip_mac_cells : EacpAcIpMac → List Cell
ac_ip_mac_cells m =
    eacp_hdr_cells m.eacp_hdr ++ (le 1 m.count ++ (unknowns 3 ++ pointer_cells m.ip_mac))

-- `eacp_port_t`
pub record EacpPort : Type 0 where
  pub eacp_hdr : EacpHdr
  pub control_port : ℕ
  pub data_port : ℕ

abbrev pub port_cells : EacpPort → List Cell
port_cells m = eacp_hdr_cells m.eacp_hdr ++ (le 2 m.control_port ++ le 2 m.data_port)

-- `eacp_mini_jumbo_t`
pub record EacpMiniJumbo : Type 0 where
  pub eacp_hdr : EacpHdr
  pub mini_jumbo : ℕ

abbrev pub mini_jumbo_cells : EacpMiniJumbo → List Cell
mini_jumbo_cells m = eacp_hdr_cells m.eacp_hdr ++ (le 1 m.mini_jumbo ++ unknowns 3)

-- `eacp_wtp_info_t`, `eacp_count_mac_t` and `eacp_sta_info_t` have one layout: a count of two bytes
-- and a pointer.
pub record EacpCounted : Type 0 where
  pub eacp_hdr : EacpHdr
  pub count : ℕ
  pub entries : Pointer

abbrev pub counted_cells : EacpCounted → List Cell
counted_cells m =
    eacp_hdr_cells m.eacp_hdr ++ (le 2 m.count ++ (unknowns 2 ++ pointer_cells m.entries))

-- `eacp_start_end_t`
pub record EacpStartEnd : Type 0 where
  pub eacp_hdr : EacpHdr
  pub start : ℕ
  pub last : ℕ

abbrev pub start_end_cells : EacpStartEnd → List Cell
start_end_cells m = eacp_hdr_cells m.eacp_hdr ++ (le 2 m.start ++ le 2 m.last)

-- `eacp_cpu_t`
pub record EacpCpu : Type 0 where
  pub eacp_hdr : EacpHdr
  pub cpu : ℕ

abbrev pub cpu_cells : EacpCpu → List Cell
cpu_cells m = eacp_hdr_cells m.eacp_hdr ++ le 4 m.cpu
