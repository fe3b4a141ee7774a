-- ===== src/Dns/Process.antt =====
-- `is_dns_response` and `process_dns` of c-study/packet-process/dns.c. A comparison with htons is one of
-- the bytes in network order.
use chunxiao_code.Prelude.{
  ℕ, zero, suc, ◌+◌, ◌/◌, ◌%◌, List, [], ◌∷◌, Option, none, some, Bool, ◌||◌, ◌&&◌, ◌==◌, drop,
  get_elem?, if◌then◌else◌,
}
use chunxiao_code.Prelude.Int.{ℤ, pos, negsuc}
use chunxiao_code.Prelude.Fault.{◌>>=◌}
use chunxiao_code.Pcap.State.{Endian, little, big}
use chunxiao_code.Dns.{Converted, converted, failed, stuck, load16, url_convert}

-- The loop over tags, on the bytes from `offset` on.
unfoldable pub skip_tags : List ℕ → ℕ → Option ℕ
skip_tags [] offset = none
skip_tags (a ∷ []) offset = none
skip_tags (a ∷ b ∷ []) offset = if (a == 0x81) && (b == 0) then none else some offset
skip_tags (a ∷ b ∷ c ∷ []) offset = if (a == 0x81) && (b == 0) then none else some offset
skip_tags (a ∷ b ∷ c ∷ d ∷ behind) offset =
    if (a == 0x81) && (b == 0) then skip_tags behind (offset + 4) else some offset

-- `some none` for NULL.
unfoldable pub is_dns_response : List ℕ → Option (Option ℕ)
unfolding skip_tags
is_dns_response mem = do
  offset ← skip_tags (drop 12 mem) 12
  kind ← load16 big mem offset
  if kind == 0x0800
      then (do
        protocol ← get_elem? mem (offset + 11)
        if protocol == 0x11
            then (do
              port ← load16 big mem (offset + 22)
              if port == 0x35 then some (some (offset + 30)) else some none)
            else some none)
      else some none

-- `dns_hdr->QR`, the first bit of its bit field: where it stands goes by the byte order.
abbrev pub qr : Endian → ℕ → ℕ
qr little flags = flags % 2
qr big flags = flags / 128 % 2

-- What `process_dns` returns, or no more fuel in `url_convert`.
pub data Processed : Type 0 where
  returned : ℤ → Processed
  endless : Processed

abbrev pub on_name : Option Converted → (ℕ → Option Processed) → Option Processed
on_name none go = none
on_name (some (converted len query_name)) go = go len
on_name (some failed) go = some (returned (negsuc 0))
on_name (some stuck) go = some endless

module _ (mallocs : ℕ → Bool) (order : Endian) (mem : List ℕ) (packet_tail ptr : ℕ) where
  -- The loop over the answers on how many are left; `mallocs` says for each of them whether malloc
  -- succeeds.
  unfoldable pub answers : ℕ → ℕ → Option Processed
  answers zero offset = some (returned (pos 0))
  answers (suc n) offset = do
    answer_type ← load16 order mem (ptr + offset + 2)
    if answer_type == 5
        then on_name (url_convert (mallocs n) order mem ptr (offset + 12) packet_tail)
            (λ len. answers n (offset + 12 + len))
        else if answer_type == 15
        then on_name (url_convert (mallocs n) order mem ptr (offset + 14) packet_tail)
            (λ len. answers n (offset + 14 + len))
        else if answer_type == 1
        then (do
          ip ← load16 order mem (ptr + offset + 12)
          ip' ← load16 order mem (ptr + offset + 14)
          answers n (offset + 16))
        else answers n (offset + 2)

-- `process_dns` of a packet of `length` bytes.
unfoldable pub process_dns : (ℕ → Bool) → Endian → List ℕ → ℕ → Option Processed
unfolding answers
process_dns mallocs order mem length = do
  response ← is_dns_response mem
  elim response [
    | none ↦ some (returned (pos 1))
    | some ptr ↦ do
      flags ← get_elem? mem (ptr + 2)
      answer_rrs ← load16 order mem (ptr + 6)
      if (qr order flags == 0) || (answer_rrs == 0)
          then some (returned (pos 1))
          else on_name (url_convert (mallocs answer_rrs) order mem ptr 12 length)
              (λ len. answers mallocs order mem length ptr answer_rrs (12 + (len + 4)))
  ]
