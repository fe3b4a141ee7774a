-- ===== src/Pcap/Words.antt =====
-- The integers of ewx_pcap.c, and the byte order of the fields in a file.
use chunxiao_code.Prelude.{ℕ, ◌+◌, ◌-◌, ◌*◌, ◌/◌, ◌%◌, ◌^◌, List, get_or, ltb, if◌then◌else◌}

-- `uint64_t` addition and subtraction.
abbrev pub add64 : ℕ → ℕ → ℕ
add64 a b = (a + b) % 2 ^ 64

abbrev pub sub64 : ℕ → ℕ → ℕ
sub64 a b = (a + 2 ^ 64 - b) % 2 ^ 64

-- `(uint64_t)len` for an `int len` that was given the 32 bits `n`: the sign is extended.
abbrev pub extend64 : ℕ → ℕ
extend64 n = if ltb n (2 ^ 31) then n else n + (2 ^ 64 - 2 ^ 32)

-- A field in memory, on a little-endian machine: at index `i` of some bytes.
abbrev pub load16 : List ℕ → ℕ → ℕ
load16 bytes i = get_or bytes i 0 + 256 * get_or bytes (i + 1) 0

abbrev pub load32 : List ℕ → ℕ → ℕ
load32 bytes i = load16 bytes i + 65536 * load16 bytes (i + 2)

-- `ntohs` and `ntohl` there: the bytes the other way round.
abbrev pub ntohs : ℕ → ℕ
ntohs x = 256 * (x % 256) + x / 256 % 256

abbrev pub ntohl : ℕ → ℕ
ntohl x = 65536 * ntohs (x % 65536) + ntohs (x / 65536)
