-- ===== src/Pcap/Flat.antt =====
-- The reader of ewx_pcap.c against the bytes of the file: the window does not show.
use mathlib.Core.Path.{ap₂, subst}
use chunxiao_code.Prelude.{
  ℕ, ◌+◌, ◌≤◌, ◌<◌, ◌≡◌, refl, ap, sym, ◌∙◌, List, Option, some, Bool-cases, inl, inr, ltb, ltb→lt,
  take, drop, if◌then◌else◌, arith,
}
use chunxiao_code.Pcap.State.{Pcap, Os, RecHdr, map_size, sizeof_rec, copy}
use chunxiao_code.Pcap.Endian.{store_rec, Fits32, convert-store_rec}
use chunxiao_code.Pcap.Read.{
  Outcome, as_rec, ewx_pcap_convert, skip, read_with, ewx_pcap_read, ewx_pcap_read2,
}
use chunxiao_code.Pcap.Invariant.{position, Works, IsValid, Moved, InFile, prepare-Ready}
use chunxiao_code.Pcap.Front.{
  bytes_at, record_at, copy-bytes_at, skip-IsValid, InFront, read_with-InFront,
}

-- What a successful call leaves for a packet with the header `h`: this header, the length of the packet
-- as the result, and a valid reader of the same file just behind the packet.
pub record Reads (p : Pcap) (h : RecHdr) {B : Type 0} (o : Outcome B) : Type 0 where
  pub ret : o.ret ≡ h.incl_len
  pub hdr : o.hdr ≡ h
  pub valid : IsValid o.pcap
  pub moved : Moved p o.pcap
  pub behind : position o.pcap ≡ position p + sizeof_rec + h.incl_len

Reads-InFront :
    {B : Type 0} (p p' : Pcap) (b : B)
    → InFront p (record_at p).incl_len p'
    → Reads p (record_at p) {B = B} (record {
      ret = (record_at p).incl_len;
      pcap = skip p' (record_at p).incl_len;
      hdr = record_at p;
      buff = b;
    })
Reads-InFront p p' b f = record {
  ret = refl;
  hdr = refl;
  valid = skip-IsValid p' (record_at p).incl_len f.valid f.room;
  moved = record {
    file_len = f.moved.file_len;
    file = f.moved.file;
    endian = f.moved.endian;
    info = f.moved.info;
  };
  behind = omega (arith, f.there);
}

InFront-copy :
    (p p' : Pcap) (len : ℕ)
    → InFront p len p'
    → copy p' len ≡ some (bytes_at p (position p + sizeof_rec) len)
InFront-copy p p' len f =
    copy-bytes_at p' len f.room ∙ ap₂ (λ at l. some (take len (drop at l))) f.there f.moved.file

-- A packet with the header `h` stands at the place of the reader: the header's four numbers, each of
-- 32 bits, in the byte order of the file, and then (with a byte behind it, if the file is larger than a
-- window) its bytes, which fit a window beside a page.
pub record Stands (os : Os) (p : Pcap) (h : RecHdr) : Type 0 where
  pub numbers : Fits32 h
  pub header : bytes_at p (position p) sizeof_rec ≡ store_rec p.endian h
  pub room : h.incl_len + os.page_size ≤ map_size
  pub there : InFile p (sizeof_rec + h.incl_len)

record_at-Stands : (os : Os) (p : Pcap) (h : RecHdr) → Stands os p h → record_at p ≡ h
record_at-Stands os p h s =
    ap (λ bytes. ewx_pcap_convert p.endian (as_rec bytes)) s.header
    ∙ convert-store_rec p.endian h s.numbers

-- What is to be shown of the two readers.
abbrev CopiesPacket : Os → Pcap → ℕ → RecHdr → List ℕ → RecHdr → Type 0
CopiesPacket os p buf_len hdr buff h =
    (o : Outcome (List ℕ)) × (ewx_pcap_read os p buf_len hdr buff ≡ some o)
    × Reads p h o
    × (o.buff ≡ (
        if ltb buf_len h.incl_len then buff else bytes_at p (position p + sizeof_rec) h.incl_len))

abbrev PointsAt : Os → Pcap → ℕ → RecHdr → ℕ → RecHdr → Type 0
PointsAt os p buf_len hdr at h =
    (o : Outcome ℕ) × (ewx_pcap_read2 os p buf_len hdr at ≡ some o)
    × Reads p h o
    × (h.incl_len ≤ buf_len
        → copy (record o.pcap { c_pos = o.buff }) h.incl_len
          ≡ some (bytes_at p (position p + sizeof_rec) h.incl_len))

read-record_at :
    (os : Os) (p : Pcap) (buf_len : ℕ) (hdr : RecHdr) (buff : List ℕ)
    → Works os
    → IsValid p
    → (record_at p).incl_len + os.page_size ≤ map_size
    → InFile p (sizeof_rec + (record_at p).incl_len)
    → CopiesPacket os p buf_len hdr buff (record_at p)
unfolding ewx_pcap_read
read-record_at os p buf_len hdr buff w v room i =
    let (p', front, eq) = read_with-InFront copy os p buf_len hdr buff w v room i in
    let len = (record_at p).incl_len in
    elim (Bool-cases (ltb buf_len len)) [
      | inl large ↦ (
        record { ret = len; pcap = skip p' len; hdr = record_at p; buff = buff },
        rw large at eq,
        Reads-InFront p p' buff front,
        rw large,
      )
      | inr fits ↦
          let bytes = bytes_at p (position p + sizeof_rec) len in
          (
            record { ret = len; pcap = skip p' len; hdr = record_at p; buff = bytes },
            rw (fits, InFront-copy p p' len front) at eq,
            Reads-InFront p p' bytes front,
            rw fits,
          )
    ]

-- Where mmap and mmap64 succeed and a page is not larger than the window (Works), on a valid
-- reader, for a packet that stands at its place: a header of four numbers of 32 bits in the byte
-- order of the file, then (with a byte behind it, if the file is larger than a window) its bytes,
-- which fit a window beside a page. Then ewx_pcap_read stays inside its window, whatever that
-- shows, and gives this header and the length of the packet; the buffer gets the bytes of the
-- packet, or stays if they are more than it holds; and the reader is valid and just behind the
-- packet.
pub ewx_pcap_read-Reads :
    (os : Os) (p : Pcap) (buf_len : ℕ) (hdr h : RecHdr) (buff : List ℕ)
    → Works os
    → IsValid p
    → Stands os p h
    → (o : Outcome (List ℕ)) × (ewx_pcap_read os p buf_len hdr buff ≡ some o)
      × Reads p h o
      × (o.buff ≡ (
          if ltb buf_len h.incl_len then buff else bytes_at p (position p + sizeof_rec) h.incl_len))
ewx_pcap_read-Reads os p buf_len hdr h buff w v s =
    let is = record_at-Stands os p h s in
    subst (CopiesPacket os p buf_len hdr buff) is (
      read-record_at os p buf_len hdr buff w v
        (subst (λ g. g.incl_len + os.page_size ≤ map_size) (sym is) s.room)
        (subst (λ g. InFile p (sizeof_rec + g.incl_len)) (sym is) s.there))

read2-record_at :
    (os : Os) (p : Pcap) (buf_len : ℕ) (hdr : RecHdr) (at : ℕ)
    → Works os
    → IsValid p
    → (record_at p).incl_len + os.page_size ≤ map_size
    → InFile p (sizeof_rec + (record_at p).incl_len)
    → PointsAt os p buf_len hdr at (record_at p)
unfolding ewx_pcap_read2
read2-record_at os p buf_len hdr at w v room i =
    let (p', front, eq) =
      read_with-InFront (λ q len. some q.c_pos) os p buf_len hdr at w v room i in
    let len = (record_at p).incl_len in
    elim (Bool-cases (ltb buf_len len)) [
      | inl large ↦ (
        record { ret = len; pcap = skip p' len; hdr = record_at p; buff = at },
        rw large at eq,
        Reads-InFront p p' at front,
        λ h. absurd (omega (arith, ltb→lt buf_len len large)),
      )
      | inr fits ↦ (
        record { ret = len; pcap = skip p' len; hdr = record_at p; buff = p'.c_pos },
        rw fits at eq,
        Reads-InFront p p' p'.c_pos front,
        λ h. InFront-copy p p' len front,
      )
    ]

-- Where mmap and mmap64 succeed and a page is not larger than the window (Works), on a valid
-- reader and for a packet that stands at its place as for ewx_pcap_read: ewx_pcap_read2 gives its
-- header and its length and leaves a valid reader just behind it; for a packet that the buffer
-- length admits, the pointer it gives points at the bytes of the packet in the window that the
-- reader then has.
pub ewx_pcap_read2-Reads :
    (os : Os) (p : Pcap) (buf_len : ℕ) (hdr h : RecHdr) (at : ℕ)
    → Works os
    → IsValid p
    → Stands os p h
    → (o : Outcome ℕ) × (ewx_pcap_read2 os p buf_len hdr at ≡ some o)
      × Reads p h o
      × (h.incl_len ≤ buf_len
          → copy (record o.pcap { c_pos = o.buff }) h.incl_len
            ≡ some (bytes_at p (position p + sizeof_rec) h.incl_len))
ewx_pcap_read2-Reads os p buf_len hdr h at w v s =
    let is = record_at-Stands os p h s in
    subst (PointsAt os p buf_len hdr at) is (
      read2-record_at os p buf_len hdr at w v
        (subst (λ g. g.incl_len + os.page_size ≤ map_size) (sym is) s.room)
        (subst (λ g. InFile p (sizeof_rec + g.incl_len)) (sym is) s.there))

-- At the end of the file, or where fewer bytes than a packet's header are left, both readers return 0
-- and leave the reader, the header and the buffer as they were.
pub read_with-end :
    {B : Type 0} (fetch : Pcap → ℕ → Option B) (os : Os) (p : Pcap) (buf_len : ℕ) (hdr : RecHdr)
    (buff : B)
    → Works os
    → IsValid p
    → p.file_len < position p + sizeof_rec
    → read_with fetch os p buf_len hdr buff
      ≡ some (record { ret = 0; pcap = p; hdr = hdr; buff = buff })
unfolding read_with
read_with-end fetch os p buf_len hdr buff w v short =
    elim (prepare-Ready os p sizeof_rec w v (omega (arith, w.page_le))) [
      | inl (eq, _, _) ↦ rw eq
      | inr (p', _, ready) ↦
          absurd (omega (arith, ready.room, ready.there, ready.valid.inside, ready.moved.file_len))
    ]
