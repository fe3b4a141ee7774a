-- ===== src/Pcap/Counting.antt =====
-- pcap_modify.c on a capture file.
mod Tests
use mathlib.Core.List.{append_assoc}
use mathlib.Core.Path.{subst}
use chunxiao_code.Prelude.{
  ℕ, zero, suc, ◌+◌, ◌-◌, ◌/◌, ◌%◌, ◌^◌, ◌≤◌, ◌<◌, ◌≡◌, ◌≢◌, refl, ap, sym, ◌∙◌, List, [], ◌∷◌,
  ◌++◌, Option, none, some, Bool, Bool-cases, inl, inr, true, false, ◌==◌, ltb, take, drop, length,
  length-append, replicate, arith, if◌then◌else◌,
}
use chunxiao_code.Prelude.Int.{ℤ, pos, negsuc}
use chunxiao_code.Pcap.Words.{load32}
use chunxiao_code.Pcap.State.{RecHdr, little, sizeof_hdr, sizeof_rec}
use chunxiao_code.Pcap.Endian.{store_rec, Fits32, convert-store_rec}
use chunxiao_code.Pcap.Simple.{
  Io, over, to_size, to_int, Reading, read_packet, ewx_pcap_read_simple, max_len, Verdict,
  too_large, at_end, counted, verdict, count_packets, Counted, counter_is, pcap_modify,
}

-- What the manuals say of `read` and `lseek` on the descriptor of a regular file: `read` stores the bytes
-- from the current place on, as many as are asked for and there, and both move the place.
pub record Regular {F : Type 0} (io : Io F) : Type 0 where
  pub content : F → List ℕ
  pub place : F → ℕ
  pub read_law :
      (fd : F) (n : ℕ) (before rest : List ℕ)
      → content fd ≡ before ++ rest
      → place fd ≡ length before
      → (fd' : F) × (io.read fd n ≡ (pos (length (take n rest)), take n rest, fd'))
        × (content fd' ≡ content fd)
        × (place fd' ≡ length before + length (take n rest))
  pub lseek_law :
      (fd : F) (n : ℕ)
      → (content (io.lseek fd n) ≡ content fd) × (place (io.lseek fd n) ≡ place fd + n)

-- A packet in the file: its header and its bytes.
pub record Packet : Type 0 where
  pub hdr : RecHdr
  pub bytes : List ℕ

pub record Sound (p : Packet) : Type 0 where
  pub fits : Fits32 (p.hdr)
  pub all_there : length (p.bytes) ≡ p.hdr.incl_len
  pub some_there : 0 < p.hdr.incl_len
  pub is_int : p.hdr.incl_len < 2 ^ 31

abbrev pub AllSound : List Packet → Type 0
AllSound [] = Unit
AllSound (p ∷ ps) = Sound p × AllSound ps

abbrev pub text_of : List Packet → List ℕ
text_of [] = []
text_of (p ∷ ps) = store_rec little (p.hdr) ++ (p.bytes ++ text_of ps)

-- The packets that fit the buffer.
abbrev pub number_of : List Packet → ℕ
number_of [] = 0
number_of (p ∷ ps) = if ltb max_len (p.hdr.incl_len) then number_of ps else number_of ps + 1

take-append : {A : Type 0} (xs ys : List A) → take (length xs) (xs ++ ys) ≡ xs
take-append [] ys = refl
take-append (x ∷ xs) ys = ap (◌∷◌ x) (take-append xs ys)

load32-store_rec :
    (h : RecHdr) (rest : List ℕ) → Fits32 h → load32 (store_rec little h ++ rest) 8 ≡ h.incl_len
load32-store_rec h rest fits = omega (arith, fits.incl_len)

to_int-small : (n : ℕ) → n < 2 ^ 31 → to_int n ≡ pos n
to_int-small n h = ground arith

-- The decision of the loop on the length of a packet.
verdict-large : (n : ℕ) → ltb max_len n ≡ true → verdict (pos n) ≡ too_large
verdict-large zero large = absurd cc
verdict-large (suc n) large = rw large refl

verdict-fits : (n : ℕ) → 0 < n → ltb max_len n ≡ false → verdict (pos n) ≡ counted
verdict-fits zero h fits = absurd (omega arith)
verdict-fits (suc n) h fits = rw fits refl

module _ {F : Type 0} {io : Io F} (laws : Regular io) where
  -- A descriptor in front of the bytes that are left of a file.
  pub record Ahead (fd : F) (rest : List ℕ) : Type 0 where
    pub before : List ℕ
    pub content : laws.content fd ≡ before ++ rest
    pub place : laws.place fd ≡ length before

  read-Ahead :
      (fd : F) (xs rest : List ℕ)
      → Ahead fd (xs ++ rest)
      → (fd' : F) × (io.read fd (length xs) ≡ (pos (length xs), xs, fd')) × Ahead fd' rest
  read-Ahead fd xs rest a =
      let (fd', e, c, p) =
        laws.read_law fd (length xs) (a.before) (xs ++ rest) (a.content) (a.place) in
      let got : take (length xs) (xs ++ rest) ≡ xs = take-append xs rest in
      (
        fd',
        e ∙ ap (λ ys. (pos (length ys), ys, fd')) got,
        record {
          before = a.before ++ xs;
          content = c ∙ a.content ∙ sym (append_assoc (a.before) xs rest);
          place =
              p ∙ ap (λ ys. length (a.before) + length ys) got ∙ sym (length-append (a.before) xs);
        },
      )

  read_at_end : (fd : F) (n : ℕ) → Ahead fd [] → (fd' : F) × (io.read fd (suc n) ≡ (pos 0, [], fd'))
  read_at_end fd n a =
      let (fd', e, c, p) = laws.read_law fd (suc n) (a.before) [] (a.content) (a.place) in (fd', e)

  lseek-Ahead :
      (fd : F) (xs rest : List ℕ) → Ahead fd (xs ++ rest) → Ahead (io.lseek fd (length xs)) rest
  lseek-Ahead fd xs rest a =
      let (c, p) = laws.lseek_law fd (length xs) in
      record {
        before = a.before ++ xs;
        content = c ∙ a.content ∙ sym (append_assoc (a.before) xs rest);
        place = p ∙ ap (λ n. n + length xs) (a.place) ∙ sym (length-append (a.before) xs);
      }

  -- What a call that comes to a packet leaves.
  pub record Past (rest : List ℕ) (len : ℕ) (o : ℕ × Reading F) : Type 0 where
    pub ret : o.0 ≡ len
    pub ahead : Ahead (o.1.fd) rest

  read_packet-Past :
      (buf_len : ℕ) (fd : F) (hdr buff xs rest : List ℕ)
      → Ahead fd (xs ++ rest)
      → Past rest (length xs) (read_packet io buf_len fd hdr buff (length xs))
  unfolding read_packet
  read_packet-Past buf_len fd hdr buff xs rest a = elim (Bool-cases (ltb buf_len (length xs))) [
    | inl large ↦ rw large (record { ret = refl; ahead = lseek-Ahead fd xs rest a })
    | inr fits ↦
        let (fd', e, a') = read-Ahead fd xs rest a in
        rw fits (rw e (record { ret = refl; ahead = a' }))
  ]

  read_simple-Past :
      (r : Reading F) (p : Packet) (ps : List Packet)
      → Sound p
      → Ahead (r.fd) (text_of (p ∷ ps))
      → Past (text_of ps) (p.hdr.incl_len) (ewx_pcap_read_simple io r max_len)
  unfolding ewx_pcap_read_simple
  read_simple-Past r p ps sound a =
      let (fd, e, a') = read-Ahead (r.fd) (store_rec little (p.hdr)) (p.bytes ++ text_of ps) a in
      let is : load32 (store_rec little (p.hdr) ++ drop 16 (r.hdr)) 8 ≡ length (p.bytes) =
        load32-store_rec (p.hdr) (drop 16 (r.hdr)) (sound.fits) ∙ sym (sound.all_there) in
      let got =
        read_packet-Past max_len fd (store_rec little (p.hdr) ++ drop 16 (r.hdr)) (r.buff) (p.bytes)
          (text_of ps) a' in
      rw e (
        subst
          (λ n.
            Past (text_of ps) (p.hdr.incl_len)
              (read_packet io max_len fd (store_rec little (p.hdr) ++ drop 16 (r.hdr)) (r.buff) n))
          (sym is) (record { ret = got.ret ∙ sound.all_there; ahead = got.ahead }))

  read_simple-end : (r : Reading F) → Ahead (r.fd) [] → (ewx_pcap_read_simple io r max_len).0 ≡ 0
  unfolding ewx_pcap_read_simple
  read_simple-end r a = let (fd, e) = read_at_end (r.fd) 15 a in rw e refl

  count_packets-step :
      (f counter : ℕ) (r : Reading F) (v : Verdict)
      → verdict (to_int ((ewx_pcap_read_simple io r max_len).0)) ≡ v
      → count_packets io (suc f) r counter ≡ elim v [
        | too_large ↦ count_packets io f ((ewx_pcap_read_simple io r max_len).1) counter
        | at_end ↦ some counter
        | counted ↦ elim (ltb (counter + 1) (2 ^ 31)) [
          | true ↦ count_packets io f ((ewx_pcap_read_simple io r max_len).1) (counter + 1)
          | false ↦ none
        ]
      ]
  unfolding count_packets
  count_packets-step f counter r v e =
      ap
        (λ v'. elim v' [
          | too_large ↦ count_packets io f ((ewx_pcap_read_simple io r max_len).1) counter
          | at_end ↦ some counter
          | counted ↦ elim (ltb (counter + 1) (2 ^ 31)) [
            | true ↦ count_packets io f ((ewx_pcap_read_simple io r max_len).1) (counter + 1)
            | false ↦ none
          ]
        ])
        e

  counted_on :
      (n : ℕ) (o : Option ℕ) → n < 2 ^ 31 → elim (ltb n (2 ^ 31)) [ true ↦ o | false ↦ none ] ≡ o
  counted_on n o h = let below : ltb n (2 ^ 31) ≡ true = ground arith in rw below refl

  count_packets-number_of :
      (ps : List Packet) (f counter : ℕ) (r : Reading F)
      → AllSound ps
      → length ps < f
      → counter + length ps < 2 ^ 31
      → Ahead (r.fd) (text_of ps)
      → count_packets io f r counter ≡ some (counter + number_of ps)
  unfolding count_packets
  count_packets-number_of ps zero counter r sound fuel is_int a = absurd (omega arith)
  count_packets-number_of [] (suc f) counter r sound fuel is_int a =
      count_packets-step f counter r at_end (ap (λ n. verdict (to_int n)) (read_simple-end r a))
      ∙ ap some (omega arith)
  count_packets-number_of (p ∷ ps) (suc f) counter r (sound, sounds) fuel is_int a =
      let got = read_simple-Past r p ps sound a in
      let is : verdict (to_int ((ewx_pcap_read_simple io r max_len).0))
          ≡ verdict (pos (p.hdr.incl_len)) =
        ap (λ n. verdict (to_int n)) (got.ret)
        ∙ ap verdict (to_int-small (p.hdr.incl_len) (sound.is_int)) in
      elim (Bool-cases (ltb max_len (p.hdr.incl_len))) [
        | inl large ↦
            count_packets-step f counter r too_large (is ∙ verdict-large (p.hdr.incl_len) large)
            ∙ count_packets-number_of ps f counter _ sounds (omega arith) (omega arith) (got.ahead)
            ∙ ap some (rw large refl)
        | inr fits ↦
            count_packets-step f counter r counted
              (is ∙ verdict-fits (p.hdr.incl_len) (sound.some_there) fits)
            ∙ counted_on (counter + 1) _ (omega arith)
            ∙ count_packets-number_of ps f (counter + 1) _ sounds (omega arith) (omega arith)
                (got.ahead)
            ∙ ap some (rw fits (omega arith))
      ]

  -- With read and lseek that keep the documented laws on a regular file, on a little-endian
  -- capture file opened at its start (a header, then fewer than 2 ^ 31 packets with their
  -- headers, each with as many bytes as its header says, at least one and fewer than 2 ^ 31): the
  -- loop of pcap_modify.c ends within one round more than there are packets, the int counter does
  -- not overflow, and it is the number of packets that fit the buffer.
  pub pcap_modify-counts :
      (fd : F) (file_hdr hdr : List ℕ) (ps : List Packet)
      → length file_hdr ≡ sizeof_hdr
      → AllSound ps
      → length ps < 2 ^ 31
      → laws.content fd ≡ file_hdr ++ text_of ps
      → laws.place fd ≡ 0
      → pcap_modify io (suc (length ps)) fd hdr ≡ counter_is (some (number_of ps))
  unfolding pcap_modify
  pcap_modify-counts fd file_hdr hdr ps size sounds is_int is start =
      let (fd', e, a) =
        read-Ahead fd file_hdr (text_of ps) (record { before = []; content = is; place = start }) in
      let e' : io.read fd sizeof_hdr ≡ (pos sizeof_hdr, file_hdr, fd') =
        ap (io.read fd) (sym size) ∙ e ∙ ap (λ n. (pos n, file_hdr, fd')) size in
      rw e' (
        ap counter_is (
          count_packets-number_of ps (suc (length ps)) 0 _ sounds (omega arith) (omega arith) a
          ∙ ap some (omega arith)))
