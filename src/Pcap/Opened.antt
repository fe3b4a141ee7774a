-- ===== src/Pcap/Opened.antt =====
-- The files that ewx_pcap.c opens, told from their bytes.
use mathlib.Core.Path.{subst, ap₂}
use chunxiao_code.Prelude.{
  ℕ, ◌+◌, ◌*◌, ◌/◌, ◌%◌, ◌^◌, ◌<◌, ◌≡◌, ◌≢◌, refl, ap, ◌∙◌, List, [], ◌∷◌, ◌++◌, Option, none, some,
  Bool, Bool-cases, inl, inr, true, false, ◌==◌, ==_iff, length, take, ltb, if◌then◌else◌, arith,
}
use chunxiao_code.Pcap.Words.{load16, load32, ntohs, ntohl}
use chunxiao_code.Pcap.State.{Os, PcapHdr, Endian, little, big, sizeof_hdr}
use chunxiao_code.Pcap.Endian.{store32, little-back, big-back}
use chunxiao_code.Pcap.Open.{ewx_magic_number, as_hdr, convert_hdr, ewx_pcap_open}
use chunxiao_code.Pcap.Invariant.Start.{Opens, OpensAs, recognise, open-recognise}

abbrev pub store16 : Endian → ℕ → List ℕ
store16 little v = v % 256 ∷ v / 256 % 256 ∷ []
store16 big v = v / 256 % 256 ∷ v % 256 ∷ []

-- The header of a file of either byte order.
abbrev pub store_hdr : Endian → PcapHdr → List ℕ
store_hdr e h =
    store32 e h.magic_number
    ++ (store16 e h.version_major
        ++ (store16 e h.version_minor
            ++ (store32 e h.thiszone
                ++ (store32 e h.sigfigs ++ (store32 e h.snaplen ++ store32 e h.network)))))

pub record FitsHdr (h : PcapHdr) : Type 0 where
  pub magic : h.magic_number ≡ 0xa1b2c3d4
  pub version_major : h.version_major < 2 ^ 16
  pub version_minor : h.version_minor < 2 ^ 16
  pub thiszone : h.thiszone < 2 ^ 32
  pub sigfigs : h.sigfigs < 2 ^ 32
  pub snaplen : h.snaplen < 2 ^ 32
  pub network : h.network < 2 ^ 32

-- What a file is: a capture of either byte order with its header, or none, since it is too short for a
-- header, or its first four bytes are not those of the magic number in either order.
pub data Content : List ℕ → Option (Endian × PcapHdr) → Type 0 where
  capture :
      (e : Endian) (h : PcapHdr) (rest : List ℕ)
      → FitsHdr h
      → Content (store_hdr e h ++ rest) (some (e, h))
  too_short : (file : List ℕ) → length file < sizeof_hdr → Content file none
  other :
      (a b c d : ℕ) (rest : List ℕ)
      → a < 256
      → b < 256
      → c < 256
      → d < 256
      → (a ∷ b ∷ c ∷ d ∷ []) ≢ (0xd4 ∷ 0xc3 ∷ 0xb2 ∷ 0xa1 ∷ [])
      → (a ∷ b ∷ c ∷ d ∷ []) ≢ (0xa1 ∷ 0xb2 ∷ 0xc3 ∷ 0xd4 ∷ [])
      → Content (a ∷ b ∷ c ∷ d ∷ rest) none

-- `recognise` by what it reads.
abbrev judged : Bool → PcapHdr → Option (Endian × PcapHdr)
judged short info =
    if short
    then none
    else if info.magic_number == ewx_magic_number
    then some (little, info)
    else if info.magic_number == ntohl ewx_magic_number
    then some (big, convert_hdr info)
    else none

judged-short : (info : PcapHdr) → judged true info ≡ none
judged-short info = refl

judged-little :
    (info : PcapHdr)
    → info.magic_number ≡ ewx_magic_number
    → judged false info ≡ some (little, info)
judged-little info e = rw e refl

judged-big :
    (info : PcapHdr)
    → info.magic_number ≡ ntohl ewx_magic_number
    → judged false info ≡ some (big, convert_hdr info)
judged-big info e = rw e refl

judged-other :
    (short : Bool) (info : PcapHdr)
    → (info.magic_number == ewx_magic_number) ≡ false
    → (info.magic_number == ntohl ewx_magic_number) ≡ false
    → judged short info ≡ none
judged-other true info e e' = refl
judged-other false info e e' = rw (e, e') refl

little16-back : (v : ℕ) → v < 2 ^ 16 → load16 (store16 little v) 0 ≡ v
little16-back v h = omega arith

big16-back : (v : ℕ) → v < 2 ^ 16 → ntohs (load16 (store16 big v) 0) ≡ v
big16-back v h = omega arith

little_hdr :
    (h : PcapHdr) (rest : List ℕ)
    → FitsHdr h
    → as_hdr (take sizeof_hdr (store_hdr little h ++ rest)) ≡ h
little_hdr h rest f = λ i. record {
  magic_number = little-back h.magic_number (omega (arith, f.magic)) i;
  version_major = little16-back h.version_major f.version_major i;
  version_minor = little16-back h.version_minor f.version_minor i;
  thiszone = little-back h.thiszone f.thiszone i;
  sigfigs = little-back h.sigfigs f.sigfigs i;
  snaplen = little-back h.snaplen f.snaplen i;
  network = little-back h.network f.network i;
}

big_hdr :
    (h : PcapHdr) (rest : List ℕ)
    → FitsHdr h
    → convert_hdr (as_hdr (take sizeof_hdr (store_hdr big h ++ rest))) ≡ h
unfolding convert_hdr
big_hdr h rest f = λ i. record {
  magic_number = big-back h.magic_number (omega (arith, f.magic)) i;
  version_major = big16-back h.version_major f.version_major i;
  version_minor = big16-back h.version_minor f.version_minor i;
  thiszone = big-back h.thiszone f.thiszone i;
  sigfigs = big-back h.sigfigs f.sigfigs i;
  snaplen = big-back h.snaplen f.snaplen i;
  network = big-back h.network f.network i;
}

big_magic :
    (h : PcapHdr) (rest : List ℕ)
    → FitsHdr h
    → (as_hdr (take sizeof_hdr (store_hdr big h ++ rest))).magic_number ≡ ntohl ewx_magic_number
big_magic h rest f = ap (λ m. load32 (store32 big m) 0) f.magic

long_enough :
    (e : Endian) (h : PcapHdr) (rest : List ℕ)
    → ltb (length (store_hdr e h ++ rest)) sizeof_hdr ≡ false
long_enough little h rest = ground arith
long_enough big h rest = ground arith

cons4 :
    {a b c d a' b' c' d' : ℕ}
    → a ≡ a'
    → b ≡ b'
    → c ≡ c'
    → d ≡ d'
    → (a ∷ b ∷ c ∷ d ∷ []) ≡ (a' ∷ b' ∷ c' ∷ d' ∷ [])
cons4 p q r s = ap₂ ◌∷◌ p (ap₂ ◌∷◌ q (ap₂ ◌∷◌ r (ap (λ k. k ∷ []) s)))

not_little :
    (a b c d : ℕ) (rest : List ℕ)
    → a < 256
    → b < 256
    → c < 256
    → d < 256
    → (a ∷ b ∷ c ∷ d ∷ []) ≢ (0xd4 ∷ 0xc3 ∷ 0xb2 ∷ 0xa1 ∷ [])
    → ((a + 256 * b + 65536 * (c + 256 * d)) == 0xa1b2c3d4) ≡ false
not_little a b c d rest ha hb hc hd ne =
    elim (Bool-cases ((a + 256 * b + 65536 * (c + 256 * d)) == 0xa1b2c3d4)) [
      | inl is ↦
          let e = (==_iff (a + 256 * b + 65536 * (c + 256 * d)) 0xa1b2c3d4).0 is in
          absurd
            (ne (cons4 (omega (arith, e)) (omega (arith, e)) (omega (arith, e)) (omega (arith, e))))
      | inr not ↦ not
    ]

not_big :
    (a b c d : ℕ) (rest : List ℕ)
    → a < 256
    → b < 256
    → c < 256
    → d < 256
    → (a ∷ b ∷ c ∷ d ∷ []) ≢ (0xa1 ∷ 0xb2 ∷ 0xc3 ∷ 0xd4 ∷ [])
    → ((a + 256 * b + 65536 * (c + 256 * d)) == 0xd4c3b2a1) ≡ false
not_big a b c d rest ha hb hc hd ne =
    elim (Bool-cases ((a + 256 * b + 65536 * (c + 256 * d)) == 0xd4c3b2a1)) [
      | inl is ↦
          let e = (==_iff (a + 256 * b + 65536 * (c + 256 * d)) 0xd4c3b2a1).0 is in
          absurd
            (ne (cons4 (omega (arith, e)) (omega (arith, e)) (omega (arith, e)) (omega (arith, e))))
      | inr not ↦ not
    ]

Content-recognise :
    (file : List ℕ) (r : Option (Endian × PcapHdr)) → Content file r → recognise file ≡ r
Content-recognise _ _ (capture little h rest f) =
    ap₂ judged (long_enough little h rest) (little_hdr h rest f) ∙ judged-little h f.magic
Content-recognise _ _ (capture big h rest f) =
    ap (λ s. judged s (as_hdr (take sizeof_hdr (store_hdr big h ++ rest)))) (long_enough big h rest)
    ∙ judged-big _ (big_magic h rest f)
    ∙ ap (λ k. some (big, k)) (big_hdr h rest f)
Content-recognise file _ (too_short _ h) =
    let short : ltb (length file) sizeof_hdr ≡ true = ground arith in
    ap (λ s. judged s (as_hdr (take sizeof_hdr file))) short
Content-recognise _ _ (other a b c d rest ha hb hc hd no_little no_big) =
    judged-other _ _ (not_little a b c d rest ha hb hc hd no_little)
      (not_big a b c d rest ha hb hc hd no_big)

-- Where no call that ewx_pcap_open makes fails (Opens): a file that begins with a capture header
-- of the right magic number, its seven numbers in either byte order, gives a valid reader of the
-- file in front of the first packet, with that byte order and this header; a file too short for a
-- header, or whose first four bytes are those of the magic number in neither order, gives NULL.
pub open-OpensAs :
    (os : Os) (file : List ℕ) (r : Option (Endian × PcapHdr))
    → Opens os
    → length file < 2 ^ 63
    → Content file r
    → OpensAs file r (ewx_pcap_open os file)
open-OpensAs os file r o small c =
    subst (λ s. OpensAs file s (ewx_pcap_open os file)) (Content-recognise file r c)
      (open-recognise os file o small)
