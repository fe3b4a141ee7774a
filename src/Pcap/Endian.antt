-- ===== src/Pcap/Endian.antt =====
-- The two byte orders of a capture.
use chunxiao_code.Prelude.{ℕ, ◌/◌, ◌%◌, ◌^◌, ◌<◌, ◌≡◌, List, [], ◌∷◌, ◌++◌, arith}
use chunxiao_code.Pcap.Words.{load32, ntohl}
use chunxiao_code.Pcap.State.{RecHdr, Endian, little, big}
use chunxiao_code.Pcap.Read.{as_rec, ewx_pcap_convert}

-- The four bytes of a number in a file of either byte order.
abbrev pub store32 : Endian → ℕ → List ℕ
store32 little v = v % 256 ∷ v / 256 % 256 ∷ v / 65536 % 256 ∷ v / 16777216 % 256 ∷ []
store32 big v = v / 16777216 % 256 ∷ v / 65536 % 256 ∷ v / 256 % 256 ∷ v % 256 ∷ []

-- The header of a packet in a file of either byte order.
abbrev pub store_rec : Endian → RecHdr → List ℕ
store_rec e h =
    store32 e h.ts_sec ++ (store32 e h.ts_usec ++ (store32 e h.incl_len ++ store32 e h.orig_len))

pub record Fits32 (h : RecHdr) : Type 0 where
  pub ts_sec : h.ts_sec < 2 ^ 32
  pub ts_usec : h.ts_usec < 2 ^ 32
  pub incl_len : h.incl_len < 2 ^ 32
  pub orig_len : h.orig_len < 2 ^ 32

pub little-back : (v : ℕ) → v < 2 ^ 32 → load32 (store32 little v) 0 ≡ v
little-back v h = omega arith

pub big-back : (v : ℕ) → v < 2 ^ 32 → ntohl (load32 (store32 big v) 0) ≡ v
big-back v h = omega arith

-- The header of a packet, written to a file in either byte order, is read and converted back to
-- itself.
pub convert-store_rec :
    (e : Endian) (h : RecHdr) → Fits32 h → ewx_pcap_convert e (as_rec (store_rec e h)) ≡ h
unfolding ewx_pcap_convert
convert-store_rec little h f = λ i. record {
  ts_sec = little-back h.ts_sec f.ts_sec i;
  ts_usec = little-back h.ts_usec f.ts_usec i;
  incl_len = little-back h.incl_len f.incl_len i;
  orig_len = little-back h.orig_len f.orig_len i;
}
convert-store_rec big h f = λ i. record {
  ts_sec = big-back h.ts_sec f.ts_sec i;
  ts_usec = big-back h.ts_usec f.ts_usec i;
  incl_len = big-back h.incl_len f.incl_len i;
  orig_len = big-back h.orig_len f.orig_len i;
}
