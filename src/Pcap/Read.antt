-- ===== src/Pcap/Read.antt =====
-- ewx_pcap.c: reading one packet.
use chunxiao_code.Prelude.{ℕ, zero, suc, ◌+◌, List, Option, some, ltb, if◌then◌else◌}
use chunxiao_code.Prelude.Fault.{◌>>=◌}
use chunxiao_code.Prelude.Int.{ℤ, pos, negsuc}
use chunxiao_code.Pcap.Words.{load32, ntohl}
use chunxiao_code.Pcap.State.{Pcap, Os, RecHdr, Endian, little, big, sizeof_rec, copy}
use chunxiao_code.Pcap.Window.{ewx_pcap_read_prepare}

-- What a call leaves: its result, the reader, `*pHdr` and `pktBuff`, which is the bytes of a packet
-- for `ewx_pcap_read` and a pointer to them, as an index of the window, for `ewx_pcap_read2`.
pub record Outcome (B : Type 0) : Type 0 where
  pub ret : ℕ
  pub pcap : Pcap
  pub hdr : RecHdr
  pub buff : B

-- The bytes that `memcpy` puts into a struct.
abbrev pub as_rec : List ℕ → RecHdr
as_rec bytes = record {
  ts_sec = load32 bytes 0;
  ts_usec = load32 bytes 4;
  incl_len = load32 bytes 8;
  orig_len = load32 bytes 12;
}

unfoldable pub ewx_pcap_convert : Endian → RecHdr → RecHdr
ewx_pcap_convert little h = h
ewx_pcap_convert big h = record {
  ts_sec = ntohl h.ts_sec;
  ts_usec = ntohl h.ts_usec;
  incl_len = ntohl h.incl_len;
  orig_len = ntohl h.orig_len;
}

-- `if (ewx_pcap_read_prepare(pcap, len)) return 0; else { .. }`
abbrev pub prepared :
    {B : Type 0} → Pcap × ℤ → RecHdr → B → (Pcap → Option (Outcome B)) → Option (Outcome B)
prepared (p, pos zero) hdr buff go = go p
prepared (p, pos (suc n)) hdr buff go = some record { ret = 0; pcap = p; hdr = hdr; buff = buff }
prepared (p, negsuc n) hdr buff go = some record { ret = 0; pcap = p; hdr = hdr; buff = buff }

-- `pcap->c_ptr += len`
abbrev pub skip : Pcap → ℕ → Pcap
skip p len = record p { c_pos = p.c_pos + len }

-- The body of the two readers, which differ in what they do with the bytes of the packet: `fetch`
-- is given the reader in front of them and their number.
unfoldable pub read_with :
    {B : Type 0} → (Pcap → ℕ → Option B) → Os → Pcap → ℕ → RecHdr → B → Option (Outcome B)
unfolding ewx_pcap_read_prepare ewx_pcap_convert
read_with fetch os p buf_len hdr buff =
    prepared (ewx_pcap_read_prepare os p sizeof_rec) hdr buff λ p1. do
      bytes ← copy p1 sizeof_rec
      let h = ewx_pcap_convert p1.endian (as_rec bytes)
      let p2 = skip p1 sizeof_rec
      let skipped = λ (p3 : Pcap).
          some record { ret = h.incl_len; pcap = skip p3 h.incl_len; hdr = h; buff = buff }
      let taken = λ (p3 : Pcap). fetch p3 h.incl_len >>= λ b.
          some record { ret = h.incl_len; pcap = skip p3 h.incl_len; hdr = h; buff = b }
      prepared (ewx_pcap_read_prepare os p2 h.incl_len) h buff
          (if ltb buf_len h.incl_len then skipped else taken)

-- `ewx_pcap_read` copies the packet.
unfoldable pub ewx_pcap_read : Os → Pcap → ℕ → RecHdr → List ℕ → Option (Outcome (List ℕ))
unfolding read_with
ewx_pcap_read = read_with copy

-- `ewx_pcap_read2` points into the window.
unfoldable pub ewx_pcap_read2 : Os → Pcap → ℕ → RecHdr → ℕ → Option (Outcome ℕ)
unfolding read_with
ewx_pcap_read2 = read_with (λ p len. some p.c_pos)
