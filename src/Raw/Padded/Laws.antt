-- ===== src/Raw/Padded/Laws.antt =====
-- What a receiver finds in the packet of the ACK scan, and the layout that the XMAS scan shares.
use Prim.Native.String.{String}
use c_network_tools.Base.{
  ℕ, ◌*◌, ◌^◌, ◌<◌, ◌≡◌, ◌↔◌, ◌⊎◌, refl, ◌∙◌, ap, List, ◌++◌, Option, some, arith, ByteOrder,
  little, big, length, get_elem?, Bytes, Bytes-append, length-append, u8, u16,
}
use c_network_tools.Checksum
use c_network_tools.Checksum.Laws.{checksum_returns, around, length-around, Bytes-around}
use c_network_tools.Raw.{pseudo_bytes, ip_filled, pseudo_filled}
use c_network_tools.Raw.Segments.{
  with_sum, with_sum_fits, ip_sum_computed, pseudo_checksum_computed,
}
use c_network_tools.Raw.Padded.{
  Stale, tcphd_head, tcphd_tail, tcphd_bytes, tcphd_filled, padded_packet,
}

module _ (stale : Stale) (flags port : ℕ) (lt : flags < 2 ^ 8) where
  head_fits :
      (o : ByteOrder)
      → (length (tcphd_head o stale (tcphd_filled o stale flags port)) ≡ 2 * 9)
        × Bytes (tcphd_head o stale (tcphd_filled o stale flags port))
  unfolding tcphd_filled
  head_fits little = (refl, omega arith)
  head_fits big = (refl, omega arith)

  tail_fits :
      (o : ByteOrder)
      → (length (tcphd_tail o stale (tcphd_filled o stale flags port)) ≡ 4)
        × Bytes (tcphd_tail o stale (tcphd_filled o stale flags port))
  unfolding tcphd_filled
  tail_fits little = (refl, omega arith)
  tail_fits big = (refl, omega arith)

module _ (o : ByteOrder) (stale : Stale) (flags port : ℕ) where
  start : List ℕ
  start = tcphd_head o stale (tcphd_filled o stale flags port)

  end : List ℕ
  end = tcphd_tail o stale (tcphd_filled o stale flags port)

  -- The TCP header with `c` in its checksum.
  abbrev pub with_padding : ℕ → List ℕ
  with_padding c = tcphd_bytes o stale (record (tcphd_filled o stale flags port) { sum = c })

  tcphd_around : (c : ℕ) → with_padding c ≡ around o start c end
  unfolding tcphd_filled start end
  tcphd_around c = refl

  pub with_padding_fits :
      flags < 2 ^ 8 → (c : ℕ) → (length (with_padding c) ≡ 24) × Bytes (with_padding c)
  unfolding start end
  with_padding_fits lt c =
      let head = head_fits stale flags port lt o in
      let tail = tail_fits stale flags port lt o in
      rw (tcphd_around c) (
        omega (arith, length-around o start end c, head.0, tail.0),
        Bytes-around o start end c head.1 tail.1,
      )

  padded_checksum_computed :
      (inet_addr : String → ℕ) (s_addr : ℕ)
      → flags < 2 ^ 8
      → (c : ℕ) × (Checksum.checksum o
            (pseudo_bytes o (pseudo_filled o inet_addr 24 s_addr) ++ with_padding 0)
            36
          ≡ some c)
        × (Checksum.checksum o
              (pseudo_bytes o (pseudo_filled o inet_addr 24 s_addr) ++ with_padding c)
              36
            ≡ some 0)
  unfolding start end
  padded_checksum_computed inet_addr s_addr lt =
      let head = head_fits stale flags port lt o in
      let tail = tail_fits stale flags port lt o in
      let (c, computed, verified) =
        pseudo_checksum_computed o inet_addr 24 s_addr start end 9 36 head.0
          (omega (arith, head.0, tail.0)) head.1 tail.1 (omega arith) in
      (c, ap over (tcphd_around 0) ∙ computed, ap over (tcphd_around c) ∙ verified)
    where
      over : List ℕ → Option ℕ
      over b = Checksum.checksum o (pseudo_bytes o (pseudo_filled o inet_addr 24 s_addr) ++ b) 36

-- The octet at place 13 of a TCP header has the flags; here `rsrv` stands there, and the flags
-- behind it, in the window.
pub octets :
    (o : ByteOrder) (inet_addr : String → ℕ) (stale : Stale) (flags s_addr garbage port c d : ℕ)
    → (get_elem? (with_sum o inet_addr 24 s_addr garbage c ++ with_padding o stale flags port d) 33
        ≡ some (u8 stale.rsrv))
      × (get_elem?
            (with_sum o inet_addr 24 s_addr garbage c ++ with_padding o stale flags port d)
            34
          ≡ some flags)
unfolding ip_filled tcphd_filled
octets little inet_addr stale flags s_addr garbage port c d = (refl, refl)
octets big inet_addr stale flags s_addr garbage port c d = (refl, refl)

-- An IP header, which has the checksum 0 exactly if `ip_sum` held 0 or 65535 before, and a TCP
-- header of 24 bytes that has the checksum 0 together with the pseudo header, and in which the
-- octet of the flags is what `rsrv` held.
pub record IsPaddedPacket (o : ByteOrder) (inet_addr : String → ℕ) (stale : Stale)
    (flags s_addr garbage port : ℕ) (packet : List ℕ) : Type 0 where
  pub ip_sum : ℕ
  pub sum : ℕ
  pub layout :
      packet ≡ with_sum o inet_addr 24 s_addr garbage ip_sum ++ with_padding o stale flags port sum
  pub size : length packet ≡ 44
  pub ip_verifies :
      (Checksum.checksum o (with_sum o inet_addr 24 s_addr garbage ip_sum) 20 ≡ some 0)
      ↔ ((u16 garbage ≡ 0) ⊎ (u16 garbage ≡ 65535))
  pub tcp_verifies :
      Checksum.checksum o
        (pseudo_bytes o (pseudo_filled o inet_addr 24 s_addr)
          ++ with_padding o stale flags port sum)
        36
      ≡ some 0
  pub flags_octet : get_elem? packet 33 ≡ some (u8 stale.rsrv)
  pub next_octet : get_elem? packet 34 ≡ some flags

module _ (o : ByteOrder) (inet_addr : String → ℕ) (checksum : List ℕ → ℕ → Option ℕ)
    (agrees : (b : List ℕ) (n : ℕ) → checksum b (2 * n) ≡ Checksum.checksum o b (2 * n)) where
  pub padded_packet-IsPaddedPacket :
      (stale : Stale) (flags s_addr garbage port : ℕ)
      → flags < 2 ^ 8
      → (packet : List ℕ) × (padded_packet o inet_addr checksum stale flags s_addr garbage port
          ≡ some packet)
        × IsPaddedPacket o inet_addr stale flags s_addr garbage port packet
  unfolding padded_packet ip_filled tcphd_filled
  padded_packet-IsPaddedPacket stale flags s_addr garbage port lt =
      let (c, computed, right) = ip_sum_computed o inet_addr 24 s_addr garbage in
      let (d, over_pseudo, verified) =
        padded_checksum_computed o stale flags port inet_addr s_addr lt in
      let ip = with_sum_fits o inet_addr 24 s_addr garbage c in
      let tcp = with_padding_fits o stale flags port lt d in
      let header = with_sum o inet_addr 24 s_addr garbage c in
      let packet = header ++ with_padding o stale flags port d in
      let size : length packet ≡ 44 =
        omega (arith, length-append header (with_padding o stale flags port d), ip.0, tcp.0) in
      let (e, again) =
        checksum_returns o packet 44 (Bytes-append header _ ip.1 tcp.1) (omega (arith, size))
          (omega arith) in
      let seen = octets o inet_addr stale flags s_addr garbage port c d in
      (
        packet,
        rw (agrees _ 10 ∙ computed, agrees _ 18 ∙ over_pseudo, agrees _ 22 ∙ again) refl,
        record {
          ip_sum = c;
          sum = d;
          layout = refl;
          size = size;
          ip_verifies = right;
          tcp_verifies = verified;
          flags_octet = seen.0;
          next_octet = seen.1;
        },
      )
