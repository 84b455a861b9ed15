-- ===== src/Checksum.antt =====
-- `checksum` of Fingerprinting/Traceroute/traceroute.c, the Internet checksum, on the bytes of
-- memory from the pointer `b` on. Network_Mapping/Traceroute and TCP_FIN_SCAN have the same text.
pub mod Total
pub mod Fold
pub mod Laws
pub mod Order
pub mod Stale
use c_network_tools.Base.{
  ℕ, zero, suc, ◌+◌, ◌-◌, List, [], ◌∷◌, Option, none, some, ◌>>=◌, ByteOrder, word16, u16, u32,
  low16, not32, ◌>>>◌,
}

-- The loop over `len` bytes and the test for a last odd byte; `none` is a read past the memory.
unfoldable pub sum_loop : ByteOrder → ℕ → List ℕ → ℕ → Option ℕ
sum_loop o zero buf sum = some sum
sum_loop o (suc zero) [] sum = none
sum_loop o (suc zero) (a ∷ buf) sum = some (u32 (sum + a))
sum_loop o (suc (suc len)) [] sum = none
sum_loop o (suc (suc len)) (a ∷ []) sum = none
sum_loop o (suc (suc len)) (a ∷ b ∷ buf) sum = sum_loop o len buf (u32 (sum + word16 o a b))

-- `sum = (sum >> 16) + (sum & 0xFFFF); sum += (sum >> 16); result = ~sum;`
unfoldable pub finish : ℕ → ℕ
finish sum =
    let once = u32 (sum >>> 16 + low16 sum) in
    let twice = u32 (once + once >>> 16) in u16 (not32 twice)

unfoldable pub checksum : ByteOrder → List ℕ → ℕ → Option ℕ
unfolding sum_loop finish
checksum o b len = do sum ← sum_loop o len b 0; some (finish sum)
