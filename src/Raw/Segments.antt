-- ===== src/Raw/Segments.antt =====
-- The headers of the raw TCP scans as bytes, and the checksums over them.
use Prim.Native.String.{String}
use c_network_tools.Base.{
  ℕ, ◌+◌, ◌*◌, ◌^◌, ◌<◌, ◌≡◌, ◌↔◌, ◌⊎◌, refl, sym, ◌∙◌, ap, List, [], ◌∷◌, ◌++◌, Option, some,
  arith, ByteOrder, little, big, bytes16, length, Bytes, Bytes-append, append_assoc, length-append,
  u16,
}
use c_network_tools.Checksum
use c_network_tools.Checksum.Total.{total}
use c_network_tools.Checksum.Laws.{
  checksum_returns, around, checksum_verifies, length-around, Bytes-around,
}
use c_network_tools.Checksum.Stale.{checksum_stale}
use c_network_tools.Raw.{
  ip_head, ip_tail, ip_bytes, tcp_head, tcp_bytes, pseudo_bytes, ip_filled, tcp_filled,
  pseudo_filled,
}

pub tcp_head_fits :
    (o : ByteOrder) (flags port : ℕ)
    → flags < 2 ^ 8
    → (length (tcp_head o (tcp_filled o flags port)) ≡ 2 * 8)
      × Bytes (tcp_head o (tcp_filled o flags port))
unfolding tcp_filled
tcp_head_fits little flags port lt = (refl, omega arith)
tcp_head_fits big flags port lt = (refl, omega arith)

module _ (inet_addr : String → ℕ) (segment : ℕ) where
  pub ip_head_fits :
      (o : ByteOrder) (s_addr garbage : ℕ)
      → (length (ip_head o (ip_filled o inet_addr segment s_addr garbage)) ≡ 2 * 5)
        × Bytes (ip_head o (ip_filled o inet_addr segment s_addr garbage))
        × (0 < total o (ip_head o (ip_filled o inet_addr segment s_addr garbage)))
  unfolding ip_filled total
  ip_head_fits little s_addr garbage = (refl, omega arith, omega arith)
  ip_head_fits big s_addr garbage = (refl, omega arith, omega arith)

  pub ip_tail_fits :
      (o : ByteOrder) (s_addr garbage : ℕ)
      → (length (ip_tail o (ip_filled o inet_addr segment s_addr garbage)) ≡ 8)
        × Bytes (ip_tail o (ip_filled o inet_addr segment s_addr garbage))
  unfolding ip_filled
  ip_tail_fits little s_addr garbage = (refl, omega arith)
  ip_tail_fits big s_addr garbage = (refl, omega arith)

  pub pseudo_fits :
      (o : ByteOrder) (s_addr : ℕ)
      → (length (pseudo_bytes o (pseudo_filled o inet_addr segment s_addr)) ≡ 12)
        × Bytes (pseudo_bytes o (pseudo_filled o inet_addr segment s_addr))
  unfolding pseudo_filled
  pseudo_fits little s_addr = (refl, omega arith)
  pseudo_fits big s_addr = (refl, omega arith)

module _ (o : ByteOrder) (inet_addr : String → ℕ) (segment s_addr garbage : ℕ) where
  -- The IP header with `c` in its checksum.
  abbrev pub with_sum : ℕ → List ℕ
  with_sum c = ip_bytes o (record (ip_filled o inet_addr segment s_addr garbage) { ip_sum = c })

  sum_around :
      (c : ℕ)
      → with_sum c
        ≡ around o
            (ip_head o (ip_filled o inet_addr segment s_addr garbage))
            c
            (ip_tail o (ip_filled o inet_addr segment s_addr garbage))
  unfolding ip_filled
  sum_around c = refl

  pub with_sum_fits : (c : ℕ) → (length (with_sum c) ≡ 20) × Bytes (with_sum c)
  unfolding ip_filled
  with_sum_fits c =
      let head = ip_head_fits inet_addr segment o s_addr garbage in
      let tail = ip_tail_fits inet_addr segment o s_addr garbage in
      (
        ap length (sum_around c)
            ∙ omega (
              arith,
              length-around o (ip_head o (ip_filled o inet_addr segment s_addr garbage))
                  (ip_tail o (ip_filled o inet_addr segment s_addr garbage)) c,
              head.0,
              tail.0,
            ),
        Bytes-around o (ip_head o (ip_filled o inet_addr segment s_addr garbage))
            (ip_tail o (ip_filled o inet_addr segment s_addr garbage)) c head.1 tail.1,
      )

  -- The checksum of the IP header is computed while the field holds `garbage`. The header that
  -- gets it has the checksum 0 exactly if `garbage` is 0 or 65535, as an `unsigned short`.
  pub ip_sum_computed :
      (c : ℕ) × (Checksum.checksum o (ip_bytes o (ip_filled o inet_addr segment s_addr garbage)) 20
        ≡ some c)
      × ((Checksum.checksum o (with_sum c) 20 ≡ some 0)
          ↔ ((u16 garbage ≡ 0) ⊎ (u16 garbage ≡ 65535)))
  unfolding ip_filled
  ip_sum_computed =
      let head = ip_head_fits inet_addr segment o s_addr garbage in
      let tail = ip_tail_fits inet_addr segment o s_addr garbage in
      let fits = with_sum_fits (u16 garbage) in
      let (c, computed) =
        checksum_returns o (with_sum (u16 garbage)) 20 fits.1 (omega (arith, fits.0))
          (omega arith) in
      (
        c,
        computed,
        checksum_stale o 5 20 _ _ (u16 garbage) c head.0 (omega (arith, head.0, tail.0)) head.1
            tail.1 (omega arith) head.2 (omega arith) computed,
      )

-- The TCP header of the FIN and NULL scans with `c` in its checksum.
module _ (o : ByteOrder) (flags port : ℕ) where
  tcp_start : List ℕ
  tcp_start = tcp_head o (tcp_filled o flags port)

  abbrev pub with_checksum : ℕ → List ℕ
  with_checksum c = tcp_bytes o (record (tcp_filled o flags port) { checksum = c })

  tcp_around : (c : ℕ) → with_checksum c ≡ around o tcp_start c (0 ∷ 0 ∷ [])
  unfolding tcp_filled tcp_start
  tcp_around c = ap (around o tcp_start c) (zeros o)
    where
      zeros : (p : ByteOrder) → bytes16 p 0 ≡ 0 ∷ 0 ∷ []
      zeros little = refl
      zeros big = refl

  pub with_checksum_fits :
      flags < 2 ^ 8 → (c : ℕ) → (length (with_checksum c) ≡ 20) × Bytes (with_checksum c)
  unfolding tcp_start
  with_checksum_fits lt c =
      let head = tcp_head_fits o flags port lt in
      rw (tcp_around c) (
        omega (arith, length-around o tcp_start (0 ∷ 0 ∷ []) c, head.0),
        Bytes-around o tcp_start (0 ∷ 0 ∷ []) c head.1 (omega arith),
      )

-- The checksum over the pseudo header and a segment `head`, checksum, `tail`. The segment that gets
-- it has, with the pseudo header, the checksum 0.
module _ (o : ByteOrder) (inet_addr : String → ℕ) (segment s_addr : ℕ) (head tail : List ℕ) where
  pseudo : List ℕ
  pseudo = pseudo_bytes o (pseudo_filled o inet_addr segment s_addr)

  layout : (c : ℕ) → pseudo ++ around o head c tail ≡ around o (pseudo ++ head) c tail
  layout c = sym (append_assoc pseudo head (bytes16 o c ++ tail))

  pub pseudo_checksum_computed :
      (n len : ℕ)
      → length head ≡ 2 * n
      → 14 + length head + length tail ≡ len
      → Bytes head
      → Bytes tail
      → len < 2 ^ 17
      → (c : ℕ) × (Checksum.checksum o
            (pseudo_bytes o (pseudo_filled o inet_addr segment s_addr) ++ around o head 0 tail)
            len
          ≡ some c)
        × (Checksum.checksum o
              (pseudo_bytes o (pseudo_filled o inet_addr segment s_addr) ++ around o head c tail)
              len
            ≡ some 0)
  unfolding pseudo layout
  pseudo_checksum_computed n len even whole head_Bytes tail_Bytes short =
      let (c, computed) =
        checksum_returns o (around o pre 0 tail) len
          (Bytes-around o pre tail 0 pre_Bytes tail_Bytes)
          (omega (arith, pre_length, whole, even, length-around o pre tail 0)) short in
      (
        c,
        ap (λ b. Checksum.checksum o b len) (layout 0) ∙ computed,
        ap (λ b. Checksum.checksum o b len) (layout c)
            ∙ (checksum_verifies o (6 + n) len pre tail c pre_length
                (omega (arith, pre_length, even)) pre_Bytes tail_Bytes short computed).1,
      )
    where
      pre : List ℕ
      pre = pseudo ++ head

      pre_length : length pre ≡ 2 * (6 + n)
      pre_length =
          omega (arith, length-append pseudo head, (pseudo_fits inet_addr segment o s_addr).0, even)

      pre_Bytes : Bytes pre
      pre_Bytes = Bytes-append pseudo head (pseudo_fits inet_addr segment o s_addr).1 head_Bytes

-- The same for that TCP header.
pub tcp_checksum_computed :
    (o : ByteOrder) (inet_addr : String → ℕ) (s_addr flags port : ℕ)
    → flags < 2 ^ 8
    → (c : ℕ) × (Checksum.checksum o
          (pseudo_bytes o (pseudo_filled o inet_addr 20 s_addr) ++ with_checksum o flags port 0)
          32
        ≡ some c)
      × (Checksum.checksum o
            (pseudo_bytes o (pseudo_filled o inet_addr 20 s_addr) ++ with_checksum o flags port c)
            32
          ≡ some 0)
unfolding tcp_start
tcp_checksum_computed o inet_addr s_addr flags port lt =
    let head = tcp_head_fits o flags port lt in
    let (c, computed, verified) =
      pseudo_checksum_computed o inet_addr 20 s_addr (tcp_start o flags port) (0 ∷ 0 ∷ []) 8 32
        head.0 (omega (arith, head.0)) head.1 (omega arith) (omega arith) in
    (
      c,
      ap over (tcp_around o flags port 0) ∙ computed,
      ap over (tcp_around o flags port c) ∙ verified,
    )
  where
    over : List ℕ → Option ℕ
    over b = Checksum.checksum o (pseudo_bytes o (pseudo_filled o inet_addr 20 s_addr) ++ b) 32
