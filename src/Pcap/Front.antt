-- ===== src/Pcap/Front.antt =====
-- The reader of ewx_pcap.c in front of the bytes of a packet.
use mathlib.Core.Path.{ap₂}
use chunxiao_code.Prelude.{
  ℕ, ◌+◌, ◌≤◌, ◌≡◌, ap, ◌∙◌, List, Option, some, Bool-cases, inl, inr, ltb, take, drop,
  if◌then◌else◌, arith,
}
use chunxiao_code.Prelude.Fault.{◌>>=◌}
use chunxiao_code.Prelude.Int.{pos}
use chunxiao_code.Pcap.State.{Pcap, Os, RecHdr, map_size, sizeof_rec, copy}
use chunxiao_code.Pcap.Window.{ewx_pcap_read_prepare}
use chunxiao_code.Pcap.Read.{Outcome, as_rec, ewx_pcap_convert, skip, read_with}
use chunxiao_code.Pcap.Invariant.{position, Works, IsValid, Moved, Ready, InFile, prepare-InFile}

-- The `n` bytes of the file from a place on.
abbrev pub bytes_at : Pcap → ℕ → ℕ → List ℕ
bytes_at p at n = take n (drop at p.file)

-- What the code makes of the header at `c_ptr`.
abbrev pub record_at : Pcap → RecHdr
record_at p = ewx_pcap_convert p.endian (as_rec (bytes_at p (position p) sizeof_rec))

pub copy-bytes_at :
    (p : Pcap) (n : ℕ) → p.c_pos + n ≤ p.length → copy p n ≡ some (bytes_at p (position p) n)
copy-bytes_at p n h = ground arith

pub skip-IsValid : (p : Pcap) (n : ℕ) → IsValid p → p.c_pos + n ≤ p.length → IsValid (skip p n)
skip-IsValid p n v h = record {
  small = v.small;
  size = v.size;
  inside = v.inside;
  here = h;
  start = v.start;
  whole = v.whole;
}

InFile-skip :
    (p p1 : Pcap) (len : ℕ)
    → Ready p sizeof_rec p1
    → InFile p (sizeof_rec + len)
    → InFile (skip p1 sizeof_rec) len
InFile-skip p p1 len r i = omega (arith, i, r.there, r.moved.file_len)

-- Where the reader stands in front of the bytes of the packet.
pub record InFront (p : Pcap) (len : ℕ) (p' : Pcap) : Type 0 where
  pub valid : IsValid p'
  pub moved : Moved p p'
  pub there : position p' ≡ position p + sizeof_rec
  pub room : p'.c_pos + len ≤ p'.length

InFront-Ready :
    (p p1 p3 : Pcap) (len : ℕ)
    → Ready p sizeof_rec p1
    → Ready (skip p1 sizeof_rec) len p3
    → InFront p len p3
InFront-Ready p p1 p3 len r1 r3 = record {
  valid = r3.valid;
  moved = record {
    file_len = r3.moved.file_len ∙ r1.moved.file_len;
    file = r3.moved.file ∙ r1.moved.file;
    endian = r3.moved.endian ∙ r1.moved.endian;
    info = r3.moved.info ∙ r1.moved.info;
  };
  there = omega (arith, r1.there, r3.there);
  room = r3.room;
}

module _ {B : Type 0} (fetch : Pcap → ℕ → Option B) (os : Os) (p : Pcap) (buf_len : ℕ)
    (hdr : RecHdr) (buff : B) where
  -- What a reader in front of the bytes of a packet goes on to do.
  abbrev pub finish : RecHdr → Pcap → Option (Outcome B)
  finish h p' =
      if ltb buf_len h.incl_len
      then some (record { ret = h.incl_len; pcap = skip p' h.incl_len; hdr = h; buff = buff })
      else (fetch p' h.incl_len >>= λ b.
          some (record { ret = h.incl_len; pcap = skip p' h.incl_len; hdr = h; buff = b }))

  read_with-finish :
      (p1 p3 : Pcap)
      → ewx_pcap_read_prepare os p sizeof_rec ≡ (p1, pos 0)
      → Ready p sizeof_rec p1
      → ewx_pcap_read_prepare os (skip p1 sizeof_rec) (record_at p).incl_len ≡ (p3, pos 0)
      → read_with fetch os p buf_len hdr buff ≡ finish (record_at p) p3
  unfolding read_with
  read_with-finish p1 p3 e1 r1 e3 =
      let got : copy p1 sizeof_rec ≡ some (bytes_at p (position p) sizeof_rec) =
        copy-bytes_at p1 sizeof_rec r1.room
        ∙ ap₂ (λ at f. some (take sizeof_rec (drop at f))) r1.there r1.moved.file in
      let same : ewx_pcap_convert p1.endian (as_rec (bytes_at p (position p) sizeof_rec))
          ≡ record_at p =
        ap (λ e. ewx_pcap_convert e (as_rec (bytes_at p (position p) sizeof_rec)))
          r1.moved.endian in
      rw (e1, got, same, e3)
        (elim (Bool-cases (ltb buf_len (record_at p).incl_len)) [
          | inl large ↦ rw large
          | inr fits ↦ rw fits
        ])

  -- A packet that is in the file leaves the reader in front of its bytes, whatever the window shows.
  pub read_with-InFront :
      Works os
      → IsValid p
      → (record_at p).incl_len + os.page_size ≤ map_size
      → InFile p (sizeof_rec + (record_at p).incl_len)
      → (p' : Pcap) × InFront p (record_at p).incl_len p'
        × (read_with fetch os p buf_len hdr buff ≡ finish (record_at p) p')
  read_with-InFront w v room i =
      second (prepare-InFile os p sizeof_rec w v (omega (arith, w.page_le)) (omega (arith, i)))
    where
      third :
          (p1 : Pcap)
          → ewx_pcap_read_prepare os p sizeof_rec ≡ (p1, pos 0)
          → Ready p sizeof_rec p1
          → (p3 : Pcap) × (ewx_pcap_read_prepare os (skip p1 sizeof_rec) (record_at p).incl_len
              ≡ (p3, pos 0))
            × Ready (skip p1 sizeof_rec) (record_at p).incl_len p3
          → (p' : Pcap) × InFront p (record_at p).incl_len p'
            × (read_with fetch os p buf_len hdr buff ≡ finish (record_at p) p')
      third p1 e1 r1 (p3, e3, r3) =
          (p3, InFront-Ready p p1 p3 (record_at p).incl_len r1 r3, read_with-finish p1 p3 e1 r1 e3)

      second :
          (p1 : Pcap) × (ewx_pcap_read_prepare os p sizeof_rec ≡ (p1, pos 0))
            × Ready p sizeof_rec p1
          → (p' : Pcap) × InFront p (record_at p).incl_len p'
            × (read_with fetch os p buf_len hdr buff ≡ finish (record_at p) p')
      second (p1, e1, r1) = third p1 e1 r1 (
          prepare-InFile os (skip p1 sizeof_rec) (record_at p).incl_len w
            (skip-IsValid p1 sizeof_rec r1.valid r1.room) room
            (InFile-skip p p1 (record_at p).incl_len r1 i))
