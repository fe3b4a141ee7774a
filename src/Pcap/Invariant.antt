-- ===== src/Pcap/Invariant.antt =====
-- The invariant of the window, and that every operation of ewx_pcap.c keeps it.
pub mod Start
use chunxiao_code.Prelude.{
  ℕ, ◌+◌, ◌-◌, ◌%◌, ◌^◌, ◌≤◌, ◌<◌, ◌≡◌, refl, ◌⊎◌, inl, inr, dec_lt, List, Option, some, Bool,
  false, length, arith, leb, if◌then◌else◌,
}
use native.Mathlib.Nat.{mod-lt}
use chunxiao_code.Pcap.Words.{add64, sub64, extend64}
use chunxiao_code.Prelude.Int.{ℤ, pos, negsuc}
use chunxiao_code.Pcap.State.{Pcap, Os, map_size, sizeof_hdr}
use chunxiao_code.Pcap.Window.{ewx_preread_file, ewx_pcap_read_prepare, ewx_pcap_rewind}

-- The place in the file of the byte at `c_ptr`.
abbrev pub position : Pcap → ℕ
position p = p.offset + p.c_pos

-- A page and the header of a file fit a window, and `mmap64` does not fail.
pub record Works (os : Os) : Type 0 where
  pub page_pos : 0 < os.page_size
  pub page_le : sizeof_hdr + os.page_size ≤ map_size
  pub maps : (len offset : ℕ) → os.mmap_fails len offset ≡ false

-- The window lies in the file and `c_ptr` in the window; a small file is in the window whole.
pub record IsValid (p : Pcap) : Type 0 where
  pub small : p.file_len < 2 ^ 63
  pub size : p.file_len ≡ length p.file
  pub inside : p.offset + p.length ≤ p.file_len
  pub here : p.c_pos ≤ p.length
  pub start : p.file_len ≤ map_size → p.offset ≡ 0
  pub whole : p.file_len ≤ map_size → p.length ≡ p.file_len

-- What moves with the window and what does not.
pub record Moved (p p' : Pcap) : Type 0 where
  pub file_len : p'.file_len ≡ p.file_len
  pub file : p'.file ≡ p.file
  pub endian : p'.endian ≡ p.endian
  pub info : p'.info ≡ p.info

-- A mapping from a place in the file on: the window lies in the file, `c_ptr` stands at that place,
-- and behind it is the rest of the file or all but a page of a full window.
pub record Mapped (os : Os) (p : Pcap) (at : ℕ) (p' : Pcap) : Type 0 where
  pub moved : Moved p p'
  pub inside : p'.offset + p'.length ≤ p'.file_len
  pub here : p'.c_pos ≤ p'.length
  pub there : position p' ≡ at
  pub ahead :
      (len : ℕ) → at + len ≤ p.file_len → len + os.page_size ≤ map_size → p'.c_pos + len ≤ p'.length
  pub whole : p.file_len ≤ map_size → at ≡ 0 → p'.length ≡ p.file_len

-- The window that a mapping gives, if the call does not fail.
window : Os → Pcap → Pcap
window os p =
    let delta = p.offset % os.page_size in
    let offset = sub64 p.offset delta in
    record p {
      offset = offset;
      length = if leb (add64 map_size offset) p.file_len then map_size else sub64 p.file_len offset;
      c_pos = delta;
    }

preread-window : (os : Os) (p : Pcap) → Works os → ewx_preread_file os p ≡ (window os p, pos 0)
unfolding ewx_preread_file window
preread-window os p w = rw w.maps

window-Mapped :
    (os : Os) (p : Pcap)
    → Works os
    → p.file_len < 2 ^ 63
    → p.offset ≤ p.file_len
    → Mapped os p p.offset (window os p)
unfolding window
window-Mapped os p w small at = record {
  moved = record { file_len = refl; file = refl; endian = refl; info = refl };
  inside = ground (arith, below);
  here = ground (arith, below);
  there = ground (arith, below);
  ahead = λ len fits room. ground (arith, below);
  whole = λ le zero. ground (arith, below);
}
  where
    below : p.offset % os.page_size < os.page_size
    below = mod-lt p.offset w.page_pos

-- `len` bytes stand at `c_ptr`, and it is the place in the file that it was.
pub record Ready (p : Pcap) (len : ℕ) (p' : Pcap) : Type 0 where
  pub valid : IsValid p'
  pub moved : Moved p p'
  pub there : position p' ≡ position p
  pub room : p'.c_pos + len ≤ p'.length

Ready-window :
    (os : Os) (p : Pcap) (len : ℕ)
    → Works os
    → IsValid p
    → len + os.page_size ≤ map_size
    → p.length < p.c_pos + len
    → position p + len < p.file_len
    → Ready p len (window os (record p { offset = position p }))
Ready-window os p len w v room short ahead =
    let moved = window-Mapped os (record p { offset = position p }) w v.small (omega arith) in
    record {
      valid = record {
        small = rw moved.moved.file_len v.small;
        size = rw (moved.moved.file_len, moved.moved.file) v.size;
        inside = moved.inside;
        here = moved.here;
        start = λ le. absurd (not_small (rw moved.moved.file_len at le));
        whole = λ le. absurd (not_small (rw moved.moved.file_len at le));
      };
      moved = record {
        file_len = moved.moved.file_len;
        file = moved.moved.file;
        endian = moved.moved.endian;
        info = moved.moved.info;
      };
      there = moved.there;
      room = moved.ahead len (omega arith) room;
    }
  where
    not_small : p.file_len ≤ map_size → ⊥
    not_small le = omega (arith, v.start le, v.whole le)

-- Where mmap and mmap64 succeed and a page is not larger than the window (Works), on a valid
-- reader and for a length that fits the window beside a page (len + page_size <= MAP_SIZE):
-- ewx_pcap_read_prepare either refuses, changes nothing, and no byte of the file stands behind
-- those asked for, which are not all in the window; or it succeeds, and then the bytes asked for
-- stand in the window, the reader is valid and at the same place of the file.
pub prepare-Ready :
    (os : Os) (p : Pcap) (len : ℕ)
    → Works os
    → IsValid p
    → len + os.page_size ≤ map_size
    → ((ewx_pcap_read_prepare os p len ≡ (p, negsuc 0))
        × (p.file_len ≤ position p + len)
        × (p.length < p.c_pos + len))
      ⊎ ((p' : Pcap) × (ewx_pcap_read_prepare os p len ≡ (p', pos 0)) × Ready p len p')
unfolding ewx_pcap_read_prepare
prepare-Ready os p len w v room = elim (dec_lt p.length (p.c_pos + len)) [
  | no enough ↦ inr (
    p,
    ground arith,
    record {
      valid = v;
      moved = record { file_len = refl; file = refl; endian = refl; info = refl };
      there = refl;
      room = omega arith;
    },
  )
  | yes short ↦ elim (dec_lt (position p + len) p.file_len) [
    | no last ↦ inl (ground arith, omega arith, short)
    | yes ahead ↦ inr (
      window os (record p { offset = position p }),
      ground (arith, preread-window os (record p { offset = position p }) w),
      Ready-window os p len w v room short ahead,
    )
  ]
]

-- The next `n` bytes are in the file, with a byte behind them if the file is larger than a window.
abbrev pub InFile : Pcap → ℕ → Type 0
InFile p n =
    (position p + n < p.file_len) ⊎ ((p.file_len ≤ map_size) × (position p + n ≤ p.file_len))

pub prepare-InFile :
    (os : Os) (p : Pcap) (len : ℕ)
    → Works os
    → IsValid p
    → len + os.page_size ≤ map_size
    → InFile p len
    → (p' : Pcap) × (ewx_pcap_read_prepare os p len ≡ (p', pos 0)) × Ready p len p'
prepare-InFile os p len w v room i = elim (prepare-Ready os p len w v room) [
  | inr ready ↦ ready
  | inl (_, last, short) ↦ absurd (out last short)
]
  where
    out : p.file_len ≤ position p + len → p.length < p.c_pos + len → ⊥
    out last short = omega (arith, i, v.start, v.whole)
