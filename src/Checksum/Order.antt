-- ===== src/Checksum/Order.antt =====
-- `checksum` on a longer buffer, with zeros behind, and on a host of the other byte order.
use c_network_tools.Base.{
  ℕ, ◌+◌, ◌-◌, ◌*◌, ◌%◌, ◌^◌, ◌<◌, ◌≡◌, sym, ◌∙◌, ap, List, ◌++◌, some, arith, ByteOrder, little,
  big, length, length-append, length-replicate, Bytes, Bytes-append, Bytes-replicate, replicate,
  bytes16, swap16, take-append, ◌↔◌,
}
use c_network_tools.Checksum.{checksum}
use c_network_tools.Checksum.Total.{total, total-append, total_swapped, total_zero, total-replicate}
use c_network_tools.Checksum.Fold.{ones_sum}
use c_network_tools.Checksum.Laws.{checksum_whole, checksum-ones_sum}

-- What lies behind the first `len` bytes is not read.
pub checksum-append :
    (o : ByteOrder) (xs ys : List ℕ)
    → Bytes xs
    → Bytes ys
    → length xs < 2 ^ 17
    → checksum o (xs ++ ys) (length xs) ≡ checksum o xs (length xs)
checksum-append o xs ys h k short =
    checksum-ones_sum o (xs ++ ys) (length xs) (Bytes-append xs ys h k)
      (omega (arith, length-append xs ys)) short
    ∙ ap (λ t. some (65535 - ones_sum (total o t))) (take-append xs ys)
    ∙ sym (checksum_whole o xs h short)

-- Zeros behind an even number of bytes do not change the checksum.
pub checksum_zeros :
    (o : ByteOrder) (n k : ℕ) (xs : List ℕ)
    → length xs ≡ 2 * n
    → Bytes xs
    → length xs + k < 2 ^ 17
    → checksum o (xs ++ replicate k 0) (length xs + k) ≡ checksum o xs (length xs)
checksum_zeros o n k xs e h short =
    ap (checksum o (xs ++ replicate k 0)) (sym len)
    ∙ checksum_whole o (xs ++ replicate k 0)
        (Bytes-append xs _ h (Bytes-replicate k 0 (omega arith))) (omega (arith, len))
    ∙ ap (λ t. some (65535 - ones_sum t)) same
    ∙ sym (checksum_whole o xs h (omega arith))
  where
    len : length (xs ++ replicate k 0) ≡ length xs + k
    len = omega (arith, length-append xs (replicate k 0), length-replicate {A = ℕ} k 0)

    same : total o (xs ++ replicate k 0) ≡ total o xs
    same = omega (arith, total-append o n xs (replicate k 0) e, total-replicate o k)

complement_swapped :
    (s t : ℕ)
    → s % 65535 ≡ 256 * t % 65535
    → (s ≡ 0) ↔ (t ≡ 0)
    → 65535 - ones_sum s ≡ swap16 (65535 - ones_sum t)
complement_swapped s t e z = ground arith

-- The two bytes that a host stores for the checksum of an even number of bytes, fewer than
-- 2 ^ 17, do not depend on its byte order.
pub checksum_byte_order :
    (n : ℕ) (b : List ℕ) (c d : ℕ)
    → length b ≡ 2 * n
    → Bytes b
    → length b < 2 ^ 17
    → checksum little b (length b) ≡ some c
    → checksum big b (length b) ≡ some d
    → bytes16 little c ≡ bytes16 big d
checksum_byte_order n b c d e h short on_little on_big =
    let swapped =
      complement_swapped (total little b) (total big b) (total_swapped n b e) (total_zero b) in
    ground (
      arith,
      swapped,
      on_little,
      on_big,
      checksum_whole little b h short,
      checksum_whole big b h short,
    )
