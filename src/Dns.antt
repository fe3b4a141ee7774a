-- ===== src/Dns.antt =====
-- c-study/packet-process/dns.c: the names in a DNS response. The memory is the list of the bytes from the
-- start of the packet on, and a pointer an index in it; a read outside it, a write outside the
-- allocated buffer, or a free of another pointer than malloc gave is a fault, `none`. What is printed
-- is left out.
pub mod Process
pub mod Moved
pub mod Response
mod Tests
use chunxiao_code.Prelude.{
  ℕ, zero, suc, ◌+◌, ◌-◌, ◌*◌, ◌/◌, ◌%◌, List, [], ◌∷◌, ◌++◌, Option, none, some, Bool, true, false,
  ◌||◌, ◌&&◌, ◌==◌, ltb, leb, get_elem?, set, replicate, length, if◌then◌else◌,
}
use chunxiao_code.Prelude.Int.{ℤ, pos, negsuc}
use chunxiao_code.Prelude.Fault.{◌>>=◌}
use chunxiao_code.Pcap.State.{Endian, little, big}

-- `PA_FPE_L7_DNS_URL_MAX_LENGTH`
abbrev pub url_max_length : ℕ
url_max_length = 260

-- `*(uint16_t *)p` by the byte order of the machine.
unfoldable pub load16 : Endian → List ℕ → ℕ → Option ℕ
load16 little mem at = do a ← get_elem? mem at; b ← get_elem? mem (at + 1); some (a + 256 * b)
load16 big mem at = do a ← get_elem? mem at; b ← get_elem? mem (at + 1); some (256 * a + b)

-- The locals of `url_convert`: `result` by its distance from what malloc gave, in the buffer there.
pub record Url : Type 0 where
  pub ptr_ : ℕ
  pub counter : ℕ
  pub len : ℕ
  pub not_compress : Bool
  pub result : ℕ
  pub buffer : List (Option ℕ)

-- What `url_convert` comes to: 0 with `*len` and the name, -1 with `*len` zero, or no more fuel.
pub data Converted : Type 0 where
  converted : (len : ℕ) (query_name : List (Option ℕ)) → Converted
  failed : Converted
  stuck : Converted

-- After a round: `goto error`, or the next one.
pub data Next : Type 0 where
  error : (result : ℕ) → Next
  next : Url → Next

-- `*p = v` in the buffer.
abbrev pub store : List (Option ℕ) → ℕ → ℕ → Option (List (Option ℕ))
store buffer at v = if ltb at (length buffer) then some (set buffer at (some v)) else none

-- `memcpy` of n bytes of the packet to the buffer.
unfoldable pub memcpy : List ℕ → List (Option ℕ) → ℕ → ℕ → ℕ → Option (List (Option ℕ))
memcpy mem buffer to at zero = some buffer
memcpy mem buffer to at (suc n) = do
  v ← get_elem? mem at
  buffer' ← store buffer to v
  memcpy mem buffer' (to + 1) (at + 1) n

-- `*len += (notCompress ? n : 0)`
abbrev pub count : Url → ℕ → ℕ
count s n = if s.not_compress then (s.len + n) % 65536 else s.len

-- The test of `counter` at the end of a round.
unfoldable pub limit : Url → Option Next
limit s =
    if leb 100 (s.counter)
    then (store (s.buffer) (s.result) 0 >>= λ buffer. some (error (s.result)))
    else some (next s)

-- A round on a label of c bytes.
unfoldable pub label : List ℕ → ℕ → Url → Option Next
unfolding memcpy limit
label mem c s = if ltb url_max_length (c + 1) then some (error (s.result)) else (do
  buffer ← memcpy mem (s.buffer) (s.result) (s.ptr_ + 1) c
  d ← get_elem? mem (s.ptr_ + (c + 1))
  buffer' ← store buffer (s.result + c) (if d == 0 then 0 else b'.')
  limit (record s {
    ptr_ = s.ptr_ + (c + 1);
    len = if d == 0 then count (record s { len = count s (c + 1) }) 1 else count s (c + 1);
    result = if d == 0 then s.result + c else s.result + c + 1;
    buffer = buffer';
  }))

-- A round on a compressed name.
unfoldable pub pointer : Endian → List ℕ → ℕ → Url → Option Next
unfolding load16 limit
pointer order mem ptr s = do
  v ← load16 order mem (s.ptr_)
  if (s.ptr_ + 0xc000 == ptr + v) || leb v 0xc012
      then some (error (s.result))
      else limit (record s { ptr_ = ptr + (v - 0xc000); len = count s 2; not_compress = false })

-- `free(result)`
abbrev pub free : ℕ → Converted → Option Converted
free result o = if result == 0 then some o else none

-- Behind the loop.
unfoldable pub finish : ℕ → Url → Option Converted
finish packet_tail s =
    if ltb packet_tail (s.ptr_)
    then free (s.result) failed
    else if ltb (length (s.buffer)) (s.result + url_max_length)
    then none
    else free (s.result) (converted (s.len) (s.buffer))

-- The loop of `url_convert` on fuel for its rounds.
unfoldable pub convert_loop : ℕ → Endian → List ℕ → ℕ → ℕ → Url → Option Converted
unfolding label pointer finish
convert_loop zero order mem ptr packet_tail s = some stuck
convert_loop (suc f) order mem ptr packet_tail s = do
  c ← get_elem? mem (s.ptr_)
  if (c == 0) || ltb packet_tail (s.ptr_) then finish packet_tail s else (do
    let s' = record s { counter = s.counter + 1 }
    after ← (if ltb c 0xc0 then label mem c s' else pointer order mem ptr s')
    elim after [
      | error result ↦ free result failed
      | next s₁ ↦ convert_loop f order mem ptr packet_tail s₁
    ])

abbrev pub start_at : ℕ → Url
start_at at = record {
  ptr_ = at;
  counter = 0;
  len = 0;
  not_compress = true;
  result = 0;
  buffer = replicate url_max_length none;
}

-- `url_convert`, where `mallocs` says whether malloc succeeds.
unfoldable pub url_convert : Bool → Endian → List ℕ → ℕ → ℕ → ℕ → Option Converted
unfolding convert_loop
url_convert mallocs order mem ptr offset packet_tail =
    if mallocs
    then convert_loop 100 order mem ptr packet_tail (start_at (ptr + offset))
    else some failed
