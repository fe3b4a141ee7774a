-- ===== src/Pcap/Tests.antt =====
-- A capture with one packet of two bytes, and each theorem at an input.
use chunxiao_code.Prelude.{
  ℕ, suc, ◌≤◌, ◌≡◌, refl, ◌⊎◌, inr, List, [], ◌∷◌, ◌++◌, some, none, false, arith,
}
use chunxiao_code.Prelude.Int.{pos, negsuc}
use chunxiao_code.Pcap.State.{Pcap, Os, PcapHdr, RecHdr, big, copy}
use chunxiao_code.Pcap.Window.{ewx_preread_file, ewx_pcap_read_prepare}
use chunxiao_code.Pcap.Read.{Outcome, ewx_pcap_read, ewx_pcap_read2}
use chunxiao_code.Pcap.Open.{ewx_pcap_open}
use chunxiao_code.Pcap.Invariant.{Works, IsValid, Ready, prepare-Ready}
use chunxiao_code.Pcap.Invariant.Start.{Opens, OpensAs}
use chunxiao_code.Pcap.Opened.{FitsHdr, Content, open-OpensAs}
use chunxiao_code.Pcap.Flat.{Reads, Stands, ewx_pcap_read-Reads, ewx_pcap_read2-Reads}
use chunxiao_code.Pcap.Endian.{store32, store_rec, Fits32}

abbrev system : Os
system = record {
  page_size = 4096;
  mmap_fails = λ len offset. false;
  stat_fails = false;
  malloc_fails = false;
  fopen_fails = false;
  open_fails = false;
}

abbrev packet : RecHdr
packet = record { ts_sec = 1000; ts_usec = 7; incl_len = 2; orig_len = 60 }

-- A capture from a machine of the other byte order.
abbrev capture : List ℕ
capture =
    store32 big 0xa1b2c3d4
    ++ ((0 ∷ 2 ∷ 0 ∷ 4 ∷ [])
        ++ (store32 big 0
            ++ (store32 big 0
                ++ (store32 big 65535
                    ++ (store32 big 1 ++ (store_rec big packet ++ (0xaa ∷ 0xbb ∷ [])))))))

abbrev header : PcapHdr
header = record {
  magic_number = 0xa1b2c3d4;
  version_major = 2;
  version_minor = 4;
  thiszone = 0;
  sigfigs = 0;
  snaplen = 65535;
  network = 1;
}

abbrev reader : Pcap
reader = record {
  endian = big;
  c_pos = 24;
  offset = 0;
  length = 42;
  file_len = 42;
  file = capture;
  info = header;
}

abbrev no_header : RecHdr
no_header = record { ts_sec = 0; ts_usec = 0; incl_len = 0; orig_len = 0 }

opens : ewx_pcap_open system capture ≡ some reader
unfolding ewx_pcap_open ewx_preread_file
opens = refl

reads :
    ewx_pcap_read system reader 100 no_header []
    ≡ some (record {
      ret = 2;
      pcap = record reader { c_pos = 42 };
      hdr = packet;
      buff = 0xaa ∷ 0xbb ∷ [];
    })
unfolding ewx_pcap_read ewx_preread_file
reads = refl

works : Works system
works = record { page_pos = omega arith; page_le = omega arith; maps = λ len offset. refl }

reader-IsValid : IsValid reader
reader-IsValid = record {
  small = omega arith;
  size = refl;
  inside = omega arith;
  here = omega arith;
  start = λ h. refl;
  whole = λ h. refl;
}

opened : Opens system
opened = record { works = works; stat = refl; malloc = refl; fopen = refl; open_ok = refl }

header-FitsHdr : FitsHdr header
header-FitsHdr = record {
  magic = refl;
  version_major = omega arith;
  version_minor = omega arith;
  thiszone = omega arith;
  sigfigs = omega arith;
  snaplen = omega arith;
  network = omega arith;
}

open-OpensAs_example : OpensAs capture (some (big, header)) (ewx_pcap_open system capture)
open-OpensAs_example =
    open-OpensAs system capture (some (big, header)) opened (omega arith)
      (Content.capture big header (store_rec big packet ++ (0xaa ∷ 0xbb ∷ [])) header-FitsHdr)

-- A file that is not a capture is refused.
not_opened : ewx_pcap_open system (0x7f ∷ b'E' ∷ b'L' ∷ b'F' ∷ []) ≡ none
unfolding ewx_pcap_open
not_opened = refl

prepare-Ready_example :
    ((ewx_pcap_read_prepare system reader 16 ≡ (reader, negsuc 0)) × (42 ≤ 40) × (suc 42 ≤ 40))
    ⊎ ((p' : Pcap) × (ewx_pcap_read_prepare system reader 16 ≡ (p', pos 0)) × Ready reader 16 p')
prepare-Ready_example = prepare-Ready system reader 16 works reader-IsValid (omega arith)

packet-Stands : Stands system reader packet
packet-Stands = record {
  numbers = record {
    ts_sec = omega arith;
    ts_usec = omega arith;
    incl_len = omega arith;
    orig_len = omega arith;
  };
  header = refl;
  room = omega arith;
  there = inr (omega arith);
}

ewx_pcap_read-Reads_example :
    (o : Outcome (List ℕ)) × (ewx_pcap_read system reader 100 no_header [] ≡ some o)
    × Reads reader packet o
    × (o.buff ≡ 0xaa ∷ 0xbb ∷ [])
ewx_pcap_read-Reads_example =
    ewx_pcap_read-Reads system reader 100 no_header packet [] works reader-IsValid packet-Stands

ewx_pcap_read2-Reads_example :
    (o : Outcome ℕ) × (ewx_pcap_read2 system reader 100 no_header 0 ≡ some o)
    × Reads reader packet o
    × (2 ≤ 100 → copy (record o.pcap { c_pos = o.buff }) 2 ≡ some (0xaa ∷ 0xbb ∷ []))
ewx_pcap_read2-Reads_example =
    ewx_pcap_read2-Reads system reader 100 no_header packet 0 works reader-IsValid packet-Stands

-- behind the only packet
abbrev at_end : Pcap
at_end = record reader { c_pos = 42 }

at_end-IsValid : IsValid at_end
at_end-IsValid = record {
  small = omega arith;
  size = refl;
  inside = omega arith;
  here = omega arith;
  start = λ h. refl;
  whole = λ h. refl;
}

packet-Fits32 : Fits32 packet
packet-Fits32 = record {
  ts_sec = omega arith;
  ts_usec = omega arith;
  incl_len = omega arith;
  orig_len = omega arith;
}
