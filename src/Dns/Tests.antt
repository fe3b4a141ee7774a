-- ===== src/Dns/Tests.antt =====
-- Packets, and the theorem at one of them.
use chunxiao_code.Prelude.{ℕ, ◌≡◌, refl, List, [], ◌∷◌, ◌++◌, Option, none, some, true, replicate}
use chunxiao_code.Pcap.State.{Endian, little, big}
use chunxiao_code.Dns.{Converted, converted, failed, load16, url_convert}
use chunxiao_code.Dns.Process.{is_dns_response}

-- The bytes up to the header of DNS, with what stands in front of the type of the packet.
abbrev to_dns : List ℕ → List ℕ
to_dns tags =
    replicate 12 2
    ++ (tags ++ (8 ∷ 0 ∷ (replicate 9 69 ++ (17 ∷ (replicate 10 7 ++ (0 ∷ 53 ∷ replicate 6 0))))))

-- One question and one answer.
abbrev header : List ℕ
header = 18 ∷ 52 ∷ 129 ∷ 128 ∷ 0 ∷ 1 ∷ 0 ∷ 1 ∷ 0 ∷ 0 ∷ 0 ∷ 0 ∷ []

abbrev packet : List ℕ
packet = to_dns [] ++ (header ++ (2 ∷ b'o' ∷ b'k' ∷ 0 ∷ 0 ∷ 1 ∷ 0 ∷ 1 ∷ []))

-- The header stands behind two tags as well.
header_at : is_dns_response (to_dns []) ≡ some (some 42)
unfolding is_dns_response load16
header_at = refl

header_behind_tags :
    is_dns_response (to_dns (129 ∷ 0 ∷ 0 ∷ 1 ∷ 129 ∷ 0 ∷ 0 ∷ 2 ∷ [])) ≡ some (some 50)
unfolding is_dns_response load16
header_behind_tags = refl

-- A compressed name is refused by a machine of the other byte order: `c0 2a` is read as `2ac0`.
outcome : Endian → Option Converted
outcome order = url_convert true order (192 ∷ 42 ∷ (replicate 40 1 ++ (0 ∷ []))) 0 0 43

refused_little : outcome little ≡ some failed
unfolding outcome url_convert load16
refused_little = refl

accepted_big : outcome big ≡ some (converted 2 (replicate 260 none))
unfolding outcome url_convert load16
accepted_big = refl
