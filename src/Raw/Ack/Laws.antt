-- ===== src/Raw/Ack/Laws.antt =====
-- What `tcp_ack_scan` sends, and what a scan by it reports.
use Prim.Native.String.{String}
use c_network_tools.Base.{
  ℕ, zero, suc, ◌+◌, ◌*◌, ◌≡◌, refl, ap, Bool, List, [], ◌∷◌, some, ◌>>=◌, arith, ByteOrder, word16,
  u32, is_neg, is_one, not, ◌&&◌,
}
use c_network_tools.Checksum
use c_network_tools.Checksum.{finish}
use c_network_tools.Raw.{Scan}
use c_network_tools.Raw.Padded.Laws.{IsPaddedPacket, padded_packet-IsPaddedPacket}
use c_network_tools.Raw.Ack.{World, sum_loop, checksum, ack_packet}

two_more : (n : ℕ) → 2 * suc n ≡ suc (suc (2 * n))
two_more n = omega arith

sum_loop_even :
    (o : ByteOrder) (n buf : ℕ) (b : List ℕ) (sum : ℕ)
    → sum_loop o buf b (2 * n) sum ≡ Checksum.sum_loop o (2 * n) b sum
unfolding sum_loop Checksum.sum_loop
sum_loop_even o zero buf b sum = refl
sum_loop_even o (suc n) buf [] sum = rw (two_more n) refl
sum_loop_even o (suc n) buf (a ∷ []) sum = rw (two_more n) refl
sum_loop_even o (suc n) buf (a ∷ b ∷ bytes) sum =
    rw (two_more n) (sum_loop_even o n (buf + 2) bytes (u32 (sum + word16 o a b)))

-- On an even number of bytes the `checksum` of this file is that of the others, wherever the bytes
-- lie.
pub checksum_even :
    (o : ByteOrder) (buf : ℕ) (b : List ℕ) (n : ℕ)
    → checksum o buf b (2 * n) ≡ Checksum.checksum o b (2 * n)
unfolding checksum Checksum.checksum
checksum_even o buf b n = ap (λ t. t >>= λ sum. some (finish sum)) (sum_loop_even o n buf b 0)

-- Whether the address is valid and the packet is sent.
abbrev pub is_sent : World → ℕ → Bool
is_sent w port = is_one (w.kernel.inet_pton port) && not (is_neg (w.kernel.sendto port))

module _ (o : ByteOrder) (inet_addr : String → ℕ) (w : World) where
  pub ack_packet-IsPaddedPacket :
      (port : ℕ)
      → (packet : List ℕ) × (ack_packet o inet_addr w port ≡ some packet)
        × IsPaddedPacket o inet_addr (w.stale port) 0x10 (w.s_addr port) (w.ip_sum port) port packet
  unfolding ack_packet
  ack_packet-IsPaddedPacket port =
      padded_packet-IsPaddedPacket o inet_addr (λ b len. checksum o (w.place b) b len)
        (λ b n. checksum_even o (w.place b) b n) (w.stale port) 0x10 (w.s_addr port) (w.ip_sum port)
        port (omega arith)

  -- The packet for a port.
  abbrev pub IsSent : ℕ → List ℕ → Type 0
  IsSent port packet =
      IsPaddedPacket o inet_addr (w.stale port) 0x10 (w.s_addr port) (w.ip_sum port) port packet
