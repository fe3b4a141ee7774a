-- ===== src/Pcap/Window.antt =====
-- ewx_pcap.c: moving the window. The source is compiled with EWX_MMAP and without EWX_COMMON.
use chunxiao_code.Prelude.{ℕ, ◌%◌, leb, if◌then◌else◌}
use chunxiao_code.Prelude.Int.{ℤ, pos, negsuc}
use chunxiao_code.Pcap.Words.{add64, sub64, extend64}
use chunxiao_code.Pcap.State.{Pcap, Os, map_size, sizeof_hdr}

-- `ewx_preread_file`: the window from `offset` on, which is first moved back to a page; `c_ptr` then
-- stands where `offset` was. A failure leaves the rounded offset.
unfoldable pub ewx_preread_file : Os → Pcap → Pcap × ℤ
ewx_preread_file os p =
    let delta = p.offset % os.page_size in
    let offset = sub64 p.offset delta in
    let len =
      if leb (add64 map_size offset) p.file_len then map_size else sub64 p.file_len offset in
    if os.mmap_fails len offset
    then (record p { offset = offset }, negsuc 0)
    else (record p { offset = offset; length = len; c_pos = delta }, pos 0)

-- The result of `ewx_pcap_read_prepare` after a move: `ret < 0ll` is `-1`.
abbrev pub after_move : Pcap × ℤ → Pcap × ℤ
after_move (p, pos n) = (p, pos 0)
after_move (p, negsuc n) = (p, negsuc 0)

-- `ewx_pcap_read_prepare`: see that `len` bytes stand at `c_ptr`, moving the window ahead if needed.
-- `munmap` of the old window changes nothing that is modelled.
unfoldable pub ewx_pcap_read_prepare : Os → Pcap → ℕ → Pcap × ℤ
ewx_pcap_read_prepare os p len =
    if leb (extend64 len) (sub64 p.length p.c_pos)
    then (p, pos 0)
    else if leb p.file_len (add64 (add64 p.offset p.c_pos) (extend64 len))
    then (p, negsuc 0)
    else after_move (ewx_preread_file os (record p { offset = add64 p.offset p.c_pos }))

-- `ewx_pcap_rewind`: back to the first packet. The result of the mapping is not looked at.
unfoldable pub ewx_pcap_rewind : Os → Pcap → Pcap
ewx_pcap_rewind os p =
    if leb p.file_len map_size
    then record p { offset = 0; c_pos = sizeof_hdr }
    else let (p', _) = ewx_preread_file os (record p { offset = 0; length = 0; c_pos = 0 }) in
      record p' { c_pos = sizeof_hdr }
