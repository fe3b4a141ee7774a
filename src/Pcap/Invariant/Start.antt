-- ===== src/Pcap/Invariant/Start.antt =====
-- Opening and rewinding a capture: both put the reader in front of the first packet.
use chunxiao_code.Prelude.{
  ℕ, ◌^◌, ◌≤◌, ◌<◌, ◌≡◌, refl, inl, inr, List, Option, none, some, false, ◌==◌, ==_iff, length,
  take, ltb, leb, if◌then◌else◌, Bool-cases, leb→le, arith,
}
use chunxiao_code.Pcap.Words.{ntohl}
use chunxiao_code.Pcap.State.{Pcap, Os, PcapHdr, Endian, little, big, map_size, sizeof_hdr}
use chunxiao_code.Pcap.Window.{ewx_pcap_rewind}
use chunxiao_code.Pcap.Open.{ewx_magic_number, as_hdr, convert_hdr, open_window, ewx_pcap_open}
use chunxiao_code.Pcap.Invariant.{
  position, Works, IsValid, Moved, Mapped, window, preread-window, window-Mapped,
}

-- In front of the first packet of a file.
pub record AtStart (p : Pcap) : Type 0 where
  pub valid : IsValid p
  pub first : position p ≡ sizeof_hdr

-- A mapping from the start of a file that has at least its header.
Mapped-AtStart :
    (os : Os) (p p' : Pcap)
    → Works os
    → p.file_len < 2 ^ 63
    → p.file_len ≡ length p.file
    → sizeof_hdr ≤ p.file_len
    → Mapped os p 0 p'
    → AtStart (record p' { c_pos = sizeof_hdr })
Mapped-AtStart os p p' w small size hdr m = record {
  valid = record {
    small = rw m.moved.file_len small;
    size = rw (m.moved.file_len, m.moved.file) size;
    inside = m.inside;
    here = omega (arith, m.ahead sizeof_hdr hdr (omega (arith, w.page_le)));
    start = λ le. omega (arith, m.there);
    whole = λ le. rw m.moved.file_len (m.whole (rw m.moved.file_len at le) refl);
  };
  first = omega (arith, m.there);
}

-- From every valid reader of a file that has its header, rewinding leads to a valid reader of the same
-- file in front of the first packet.
pub rewind-AtStart :
    (os : Os) (p : Pcap)
    → Works os
    → IsValid p
    → sizeof_hdr ≤ p.file_len
    → AtStart (ewx_pcap_rewind os p) × Moved p (ewx_pcap_rewind os p)
unfolding ewx_pcap_rewind
rewind-AtStart os p w v hdr = elim (Bool-cases (leb p.file_len map_size)) [
  | inl small ↦ rw small (
    record {
      valid = record {
        small = v.small;
        size = v.size;
        inside = omega (arith, v.inside);
        here = rw (v.whole (leb→le p.file_len map_size small)) hdr;
        start = λ le. refl;
        whole = v.whole;
      };
      first = refl;
    },
    record { file_len = refl; file = refl; endian = refl; info = refl },
  )
  | inr large ↦
      let fresh = record p { offset = 0; length = 0; c_pos = 0 } in
      let m = window-Mapped os fresh w v.small (omega arith) in
      rw (large, preread-window os fresh w)
        (
          Mapped-AtStart os fresh (window os fresh) w v.small v.size hdr m,
          record {
            file_len = m.moved.file_len;
            file = m.moved.file;
            endian = m.moved.endian;
            info = m.moved.info;
          },
        )
]

-- No call that `ewx_pcap_open` makes fails.
pub record Opens (os : Os) : Type 0 where
  pub works : Works os
  pub stat : os.stat_fails ≡ false
  pub malloc : os.malloc_fails ≡ false
  pub fopen : os.fopen_fails ≡ false
  pub open_ok : os.open_fails ≡ false

-- What the code makes of the header of a file: the byte order and the header, or a refusal.
abbrev pub recognise : List ℕ → Option (Endian × PcapHdr)
recognise file =
    let info = as_hdr (take sizeof_hdr file) in
    if ltb (length file) sizeof_hdr
    then none
    else if info.magic_number == ewx_magic_number
    then some (little, info)
    else if info.magic_number == ntohl ewx_magic_number
    then some (big, convert_hdr info)
    else none

abbrev pub OpensAs : List ℕ → Option (Endian × PcapHdr) → Option Pcap → Type 0
OpensAs file none r = r ≡ none
OpensAs file (some (e, info)) r =
    (p : Pcap) × (r ≡ some p)
    × AtStart p
    × (p.file ≡ file)
    × (p.endian ≡ e)
    × (p.info ≡ info)
    × (info.magic_number ≡ ewx_magic_number)

open_window-OpensAs :
    (os : Os) (file : List ℕ) (e : Endian) (info : PcapHdr)
    → Opens os
    → length file < 2 ^ 63
    → sizeof_hdr ≤ length file
    → info.magic_number ≡ ewx_magic_number
    → OpensAs file (some (e, info)) (open_window os file e info)
unfolding open_window
open_window-OpensAs os file e info o small hdr magic =
    let fresh : Pcap = record {
      endian = e;
      c_pos = 0;
      offset = 0;
      length = 0;
      file_len = length file;
      file = file;
      info = info;
    } in
    let m = window-Mapped os fresh o.works small (omega arith) in
    rw (o.open_ok, preread-window os fresh o.works)
      (
        record (window os fresh) { c_pos = sizeof_hdr },
        refl,
        Mapped-AtStart os fresh (window os fresh) o.works small refl hdr m,
        m.moved.file,
        m.moved.endian,
        m.moved.info,
        magic,
      )

page-le : (os : Os) → Works os → ltb map_size os.page_size ≡ false
page-le os w = ground (arith, w.page_le)

not_short : (file : List ℕ) → ltb (length file) sizeof_hdr ≡ false → sizeof_hdr ≤ length file
not_short file h = ground arith

convert-magic :
    (h : PcapHdr)
    → h.magic_number ≡ ntohl ewx_magic_number
    → (convert_hdr h).magic_number ≡ ewx_magic_number
unfolding convert_hdr
convert-magic h e = rw e

-- `ewx_pcap_open` where nothing fails, by the code's own reading of the header.
pub open-recognise :
    (os : Os) (file : List ℕ)
    → Opens os
    → length file < 2 ^ 63
    → OpensAs file (recognise file) (ewx_pcap_open os file)
unfolding ewx_pcap_open
open-recognise os file o small =
    let info = as_hdr (take sizeof_hdr file) in
    let page : ltb map_size os.page_size ≡ false = page-le os o.works in
    rw (page, o.stat, o.malloc, o.fopen)
      (elim (Bool-cases (ltb (length file) sizeof_hdr)) [
        | inl short ↦ rw short
        | inr hdr ↦ rw hdr (elim (Bool-cases (info.magic_number == ewx_magic_number)) [
          | inl native ↦ rw native (
              open_window-OpensAs os file little info o small (not_short file hdr)
                ((==_iff info.magic_number ewx_magic_number).0 native))
          | inr foreign ↦
              rw foreign (elim (Bool-cases (info.magic_number == ntohl ewx_magic_number)) [
                | inr other ↦ rw other
                | inl swapped ↦ rw swapped (
                    open_window-OpensAs os file big (convert_hdr info) o small (not_short file hdr)
                      (convert-magic info
                        ((==_iff info.magic_number (ntohl ewx_magic_number)).0 swapped)))
              ])
        ])
      ])
