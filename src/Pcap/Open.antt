-- ===== src/Pcap/Open.antt =====
-- ewx_pcap.c: opening a capture.
use chunxiao_code.Prelude.{
  ℕ, List, Option, none, some, ltb, ◌==◌, ◌||◌, length, take, if◌then◌else◌,
}
use chunxiao_code.Prelude.Int.{ℤ, pos, negsuc}
use chunxiao_code.Pcap.Words.{load16, load32, ntohs, ntohl}
use chunxiao_code.Pcap.State.{Pcap, Os, PcapHdr, Endian, little, big, map_size, sizeof_hdr}
use chunxiao_code.Pcap.Window.{ewx_preread_file}

abbrev pub ewx_magic_number : ℕ
ewx_magic_number = 0xa1b2c3d4

-- The bytes that `fread` puts into `pcap->info`.
abbrev pub as_hdr : List ℕ → PcapHdr
as_hdr bytes = record {
  magic_number = load32 bytes 0;
  version_major = load16 bytes 4;
  version_minor = load16 bytes 6;
  thiszone = load32 bytes 8;
  sigfigs = load32 bytes 12;
  snaplen = load32 bytes 16;
  network = load32 bytes 20;
}

-- The conversion of a file of the other byte order.
unfoldable pub convert_hdr : PcapHdr → PcapHdr
convert_hdr h = record {
  magic_number = ntohl h.magic_number;
  version_major = ntohs h.version_major;
  version_minor = ntohs h.version_minor;
  thiszone = ntohl h.thiszone;
  sigfigs = ntohl h.sigfigs;
  snaplen = ntohl h.snaplen;
  network = ntohl h.network;
}

-- `if (ret < 0ll) goto leave; pcap->c_ptr = pcap->ptr + sizeof(ewx_pcap_hdr_t);`
abbrev pub started : Pcap × ℤ → Option Pcap
started (p, pos n) = some (record p { c_pos = sizeof_hdr })
started (p, negsuc n) = none

-- The last part of `ewx_pcap_open`, from the opening of `fd2` on.
unfoldable pub open_window : Os → List ℕ → Endian → PcapHdr → Option Pcap
unfolding ewx_preread_file
open_window os file endian info =
    if os.open_fails
    then none
    else started (
        ewx_preread_file os record {
          endian = endian;
          c_pos = 0;
          offset = 0;
          length = 0;
          file_len = length file;
          file = file;
          info = info;
        })

-- `ewx_pcap_open`: `none` is the NULL of `leave`. The file name is not NULL; the port is only printed.
unfoldable pub ewx_pcap_open : Os → List ℕ → Option Pcap
unfolding open_window convert_hdr
ewx_pcap_open os file =
    let info = as_hdr (take sizeof_hdr file) in
    if ltb map_size os.page_size || os.stat_fails || os.malloc_fails || os.fopen_fails
    then none
    else if ltb (length file) sizeof_hdr
    then none
    else if info.magic_number == ewx_magic_number
    then open_window os file little info
    else if info.magic_number == ntohl ewx_magic_number
    then open_window os file big (convert_hdr info)
    else none
