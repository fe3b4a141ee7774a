-- ===== src/Pcap/State.antt =====
-- The structs of ewx_pcap.h, and what the reader asks of the operating system.
use chunxiao_code.Prelude.{
  ℕ, ◌+◌, ◌^◌, List, Option, none, some, Bool, leb, take, drop, if◌then◌else◌,
}

-- `ewx_pcap_hdr_t`, the header of a file; `thiszone` by its 32 bits.
pub record PcapHdr : Type 0 where
  pub magic_number : ℕ
  pub version_major : ℕ
  pub version_minor : ℕ
  pub thiszone : ℕ
  pub sigfigs : ℕ
  pub snaplen : ℕ
  pub network : ℕ

-- `ewx_pcaprec_hdr_t`, the header of a packet.
pub record RecHdr : Type 0 where
  pub ts_sec : ℕ
  pub ts_usec : ℕ
  pub incl_len : ℕ
  pub orig_len : ℕ

abbrev pub sizeof_hdr : ℕ
sizeof_hdr = 24

abbrev pub sizeof_rec : ℕ
sizeof_rec = 16

pub data Endian : Type 0 where
  little big : Endian

abbrev pub map_size : ℕ
map_size = 2 ^ 30

-- `ewx_pcap_info_t`, as far as the reader uses it. `c_pos` is `c_ptr - ptr`. The file's bytes stand
-- for `fd2`: the window `[ptr, ptr + length)` shows those from `offset` on.
pub record Pcap : Type 0 where
  pub endian : Endian
  pub c_pos : ℕ
  pub offset : ℕ
  pub length : ℕ
  pub file_len : ℕ
  pub file : List ℕ
  pub info : PcapHdr

-- `sysconf(_SC_PAGE_SIZE)`, and which calls fail. `mmap64` is given the length and the offset.
pub record Os : Type 0 where
  pub page_size : ℕ
  pub mmap_fails : ℕ → ℕ → Bool
  pub stat_fails : Bool
  pub malloc_fails : Bool
  pub fopen_fails : Bool
  pub open_fails : Bool

-- The next `n` bytes at `c_ptr`, for `memcpy`; `none` is an access outside the window.
abbrev pub copy : Pcap → ℕ → Option (List ℕ)
copy p n =
    if leb (p.c_pos + n) p.length then some (take n (drop (p.offset + p.c_pos) p.file)) else none
