-- ===== src/Pcap/Counting/Tests.antt =====
-- Files in memory, and the count of the packets in one.
use chunxiao_code.Prelude.{
  ℕ, ◌+◌, ◌≡◌, refl, ap, ◌∙◌, List, [], ◌∷◌, ◌++◌, some, take, drop, length, length-replicate,
  replicate, arith,
}
use chunxiao_code.Prelude.Int.{pos}
use chunxiao_code.Pcap.State.{PcapHdr}
use chunxiao_code.Pcap.Simple.{
  Io, hdr_bytes, ewx_pcap_write_file_header, read_packet, ewx_pcap_read_simple, count_packets,
  counter_is, pcap_modify,
}
use chunxiao_code.Pcap.Counting.{Regular, Packet, AllSound, text_of, pcap_modify-counts}

-- A file and the place in it.
abbrev File : Type 0
File = List ℕ × ℕ

abbrev io : Io File
io = record {
  read = λ (c, at) n. (
    pos (length (take n (drop at c))),
    take n (drop at c),
    (c, at + length (take n (drop at c))),
  );
  lseek = λ (c, at) n. (c, at + n);
  write = λ (c, at) bytes.
      (pos (length bytes), (take at c ++ (bytes ++ drop (at + length bytes) c), at + length bytes));
}

drop-append : (xs ys : List ℕ) → drop (length xs) (xs ++ ys) ≡ ys
drop-append [] ys = refl
drop-append (x ∷ xs) ys = drop-append xs ys

io-Regular : Regular io
io-Regular = record {
  content = λ fd. fd.0;
  place = λ fd. fd.1;
  read_law = λ fd n before rest c p.
      (let e : drop (fd.1) (fd.0) ≡ rest =
          ap (λ at. drop at (fd.0)) p ∙ ap (drop (length before)) c ∙ drop-append before rest in
        (
          (fd.0, fd.1 + length (take n (drop (fd.1) (fd.0)))),
          ap
              (λ xs. (
                pos (length (take n xs)),
                take n xs,
                (fd.0, fd.1 + length (take n (drop (fd.1) (fd.0)))),
              ))
              e,
          refl,
          ap (λ xs. fd.1 + length (take n xs)) e ∙ ap (λ at. at + length (take n rest)) p,
        ));
  lseek_law = λ fd n. (refl, refl);
}

abbrev file_header : PcapHdr
file_header = record {
  magic_number = 0xa1b2c3d4;
  version_major = 2;
  version_minor = 4;
  thiszone = 0;
  sigfigs = 0;
  snaplen = 65535;
  network = 1;
}

-- Two packets, the first of which does not fit the buffer.
abbrev packets : List Packet
packets =
    record {
      hdr = record { ts_sec = 1; ts_usec = 2; incl_len = 9000; orig_len = 9000 };
      bytes = replicate 9000 7;
    }
    ∷ record {
      hdr = record { ts_sec = 3; ts_usec = 4; incl_len = 2; orig_len = 2 };
      bytes = 8 ∷ 9 ∷ [];
    }
    ∷ []

packets-AllSound : AllSound packets
packets-AllSound = (
  record {
    fits = record {
      ts_sec = omega arith;
      ts_usec = omega arith;
      incl_len = omega arith;
      orig_len = omega arith;
    };
    all_there = length-replicate {A = ℕ} 9000 7;
    some_there = omega arith;
    is_int = omega arith;
  },
  (
    record {
      fits = record {
        ts_sec = omega arith;
        ts_usec = omega arith;
        incl_len = omega arith;
        orig_len = omega arith;
      };
      all_there = refl;
      some_there = omega arith;
      is_int = omega arith;
    },
    tt,
  ),
)

pcap_modify-counts_example :
    pcap_modify io 3 (hdr_bytes file_header ++ text_of packets, 0) [] ≡ counter_is (some 1)
unfolding io-Regular
pcap_modify-counts_example =
    pcap_modify-counts io-Regular (hdr_bytes file_header ++ text_of packets, 0)
      (hdr_bytes file_header) [] packets refl packets-AllSound (omega arith) refl refl

-- A packet without bytes ends the count, although one with bytes follows.
empty_packet :
    count_packets io 5
      (record {
        fd = (
          text_of (
              record {
                hdr = record { ts_sec = 0; ts_usec = 0; incl_len = 0; orig_len = 0 };
                bytes = [];
              }
              ∷ record {
                hdr = record { ts_sec = 0; ts_usec = 0; incl_len = 1; orig_len = 1 };
                bytes = 5 ∷ [];
              }
              ∷ []),
          0,
        );
        hdr = [];
        buff = [];
      })
      0
    ≡ some 0
unfolding count_packets ewx_pcap_read_simple read_packet
empty_packet = refl

-- The header is written over the first bytes of a file.
header_written :
    ewx_pcap_write_file_header io ([], 0) file_header ≡ (pos 0, (hdr_bytes file_header, 24))
unfolding ewx_pcap_write_file_header
header_written = refl
