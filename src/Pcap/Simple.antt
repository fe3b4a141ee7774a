-- ===== src/Pcap/Simple.antt =====
-- ewx_pcap.c on a file descriptor: the simple reader and the writers; and pcap_modify.c, which counts the
-- packets of a capture. The bytes of a struct are those of a little-endian machine.
use chunxiao_code.Prelude.{
  ◌==◌, ℕ, zero, suc, ◌+◌, ◌-◌, ◌/◌, ◌%◌, ◌^◌, List, [], ◌∷◌, ◌++◌, Option, none, some, Bool, true,
  false, ltb, drop, length, replicate, if◌then◌else◌,
}
use chunxiao_code.Prelude.Int.{ℤ, pos, negsuc}
use chunxiao_code.Pcap.Words.{load32}
use chunxiao_code.Pcap.State.{PcapHdr, RecHdr, sizeof_hdr, sizeof_rec}

-- `read`, `lseek` from the current place, and `write`, on descriptors of some type: the result, the bytes
-- that are stored, the descriptor behind the call.
pub record Io (F : Type 0) : Type 0 where
  pub read : F → ℕ → ℤ × List ℕ × F
  pub lseek : F → ℕ → F
  pub write : F → List ℕ → ℤ × F

-- A number in `n` bytes of memory.
abbrev pub bytes_of : ℕ → ℕ → List ℕ
bytes_of zero v = []
bytes_of (suc n) v = v % 256 ∷ bytes_of n (v / 256)

abbrev pub hdr_bytes : PcapHdr → List ℕ
hdr_bytes h =
    bytes_of 4 (h.magic_number)
    ++ (bytes_of 2 (h.version_major)
        ++ (bytes_of 2 (h.version_minor)
            ++ (bytes_of 4 (h.thiszone)
                ++ (bytes_of 4 (h.sigfigs) ++ (bytes_of 4 (h.snaplen) ++ bytes_of 4 (h.network))))))

unfoldable pub ewx_pcap_write_file_header : {F : Type 0} → Io F → F → PcapHdr → ℤ × F
ewx_pcap_write_file_header io fd hdr =
    let (n, fd') = io.write fd (hdr_bytes hdr) in
    (elim n [ pos k ↦ pos 0 | negsuc k ↦ negsuc 0 ], fd')

-- `ewx_pcap_set_header` at a time; the fields have 32 bits.
unfoldable pub ewx_pcap_set_header : ℕ × ℕ → ℕ → RecHdr
ewx_pcap_set_header (tv_sec, tv_usec) len = record {
  ts_sec = tv_sec % 2 ^ 32;
  ts_usec = tv_usec % 2 ^ 32;
  incl_len = len % 2 ^ 32;
  orig_len = len % 2 ^ 32;
}

-- Bytes that are stored over the first ones of a buffer.
abbrev pub over : List ℕ → List ℕ → List ℕ
over bytes buff = bytes ++ drop (length bytes) buff

-- The conversion of a result to `size_t`, and of that to `int`.
abbrev pub to_size : ℤ → ℕ
to_size (pos n) = n
to_size (negsuc n) = 2 ^ 64 - 1 - n

abbrev pub to_int : ℕ → ℤ
to_int n = let low = n % 2 ^ 32 in if ltb low (2 ^ 31) then pos low else negsuc (2 ^ 32 - 1 - low)

-- The descriptor with the bytes of `hdr` and of the buffer.
pub record Reading (F : Type 0) : Type 0 where
  pub fd : F
  pub hdr : List ℕ
  pub buff : List ℕ

abbrev is_size : ℤ → ℕ → Bool
is_size (pos n) m = n == m
is_size (negsuc n) m = false

-- What `ewx_pcap_read_simple` does behind the header of a packet.
unfoldable pub read_packet : {F : Type 0} → Io F → ℕ → F → List ℕ → List ℕ → ℕ → ℕ × Reading F
read_packet io buf_len fd hdr buff incl_len =
    let (n, bytes, fd') = io.read fd incl_len in
    if ltb buf_len incl_len
    then (incl_len, record { fd = io.lseek fd incl_len; hdr = hdr; buff = buff })
    else (to_size n, record { fd = fd'; hdr = hdr; buff = over bytes buff })

unfoldable pub ewx_pcap_read_simple : {F : Type 0} → Io F → Reading F → ℕ → ℕ × Reading F
unfolding read_packet
ewx_pcap_read_simple io r buf_len =
    let (n, bytes, fd) = io.read (r.fd) sizeof_rec in
    let hdr = over bytes (r.hdr) in
    if is_size n sizeof_rec
    then read_packet io buf_len fd hdr (r.buff) (load32 hdr 8)
    else (0, record { fd = fd; hdr = hdr; buff = r.buff })

-- `MAX_LEN` of pcap_modify.c
abbrev pub max_len : ℕ
max_len = 8192

-- What the loop of pcap_modify.c does with `len`.
pub data Verdict : Type 0 where
  too_large at_end counted : Verdict

abbrev pub verdict : ℤ → Verdict
verdict (pos zero) = at_end
verdict (pos (suc n)) = if ltb max_len (suc n) then too_large else counted
verdict (negsuc n) = at_end

-- The loop of `main` in pcap_modify.c with its counter, an int; `none` is the loop out of fuel, and
-- the counter beyond the largest int, which has no meaning.
unfoldable pub count_packets : {F : Type 0} → Io F → ℕ → Reading F → ℕ → Option ℕ
unfolding ewx_pcap_read_simple
count_packets io zero r counter = none
count_packets io (suc f) r counter =
    let (len, r') = ewx_pcap_read_simple io r max_len in
    elim (verdict (to_int len)) [
      | too_large ↦ count_packets io f r' counter
      | at_end ↦ some counter
      | counted ↦ elim (ltb (counter + 1) (2 ^ 31)) [
        | true ↦ count_packets io f r' (counter + 1)
        | false ↦ none
      ]
    ]

-- What `main` comes to: the file header cannot be read, or the counter.
pub data Counted : Type 0 where
  no_header : Counted
  counter_is : Option ℕ → Counted

-- `main` of pcap_modify.c on a file that is open; `hdr` holds what stands there at the start.
unfoldable pub pcap_modify : {F : Type 0} → Io F → ℕ → F → List ℕ → Counted
unfolding count_packets
pcap_modify io fuel fd hdr =
    let (n, bytes, fd') = io.read fd sizeof_hdr in
    if is_size n sizeof_hdr
    then counter_is
        (count_packets io fuel (record { fd = fd'; hdr = hdr; buff = replicate max_len 0 }) 0)
    else no_header
