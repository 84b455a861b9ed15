-- ===== src/Checksum/Stale.antt =====
-- `checksum` where the field for it did not hold zero while it was computed.
use c_network_tools.Base.{
  ℕ, ◌+◌, ◌-◌, ◌*◌, ◌^◌, ◌<◌, ◌≡◌, ◌↔◌, ◌⊎◌, sym, ◌∙◌, ap, List, some, arith, ByteOrder, length,
  Bytes,
}
use mathlib.Core.Option.{some-injective}
use c_network_tools.Checksum.{checksum}
use c_network_tools.Checksum.Total.{total}
use c_network_tools.Checksum.Fold.{ones_sum}
use c_network_tools.Checksum.Laws.{around, checksum-around}

-- Completing `s` by the checksum of `s + g`.
ones_sum_stale :
    (s g : ℕ)
    → 0 < s
    → g < 2 ^ 16
    → (65535 - ones_sum (s + (65535 - ones_sum (s + g))) ≡ 0) ↔ ((g ≡ 0) ⊎ (g ≡ 65535))
ones_sum_stale s g pos lt = (λ e. ground arith, λ zero. ground arith)

module _ (o : ByteOrder) where
  -- A message of bytes, shorter than 2 ^ 17, with a field at an even place that held `g` while the
  -- checksum was computed, and gets it then; the words in front of the field are not all zero. Its
  -- own checksum is 0 exactly if `g` was 0 or 65535, the two zeros of one's complement arithmetic.
  pub checksum_stale :
      (n len : ℕ) (pre post : List ℕ) (g c : ℕ)
      → length pre ≡ 2 * n
      → length pre + 2 + length post ≡ len
      → Bytes pre
      → Bytes post
      → len < 2 ^ 17
      → 0 < total o pre
      → g < 2 ^ 16
      → checksum o (around o pre g post) len ≡ some c
      → (checksum o (around o pre c post) len ≡ some 0) ↔ ((g ≡ 0) ⊎ (g ≡ 65535))
  checksum_stale n len pre post g c e whole hp hq short nonzero lt computed = (
    λ verified. stale.0 (some-injective _ _ (sym again ∙ verified)),
    λ zeros. again ∙ ap some (stale.1 zeros),
  )
    where
      s : ℕ
      s = total o pre + total o post

      swap : (d : ℕ) → total o pre + d + total o post ≡ s + d
      swap d = omega arith

      c_is : 65535 - ones_sum (s + g) ≡ c
      c_is = some-injective _ _ (
          ap (λ t. some (65535 - ones_sum t)) (sym (swap g))
          ∙ sym (checksum-around o n len pre post g e whole hp hq short lt)
          ∙ computed)

      again :
          checksum o (around o pre c post) len
          ≡ some (65535 - ones_sum (s + (65535 - ones_sum (s + g))))
      again =
          checksum-around o n len pre post c e whole hp hq short (omega (arith, c_is))
          ∙ ap (λ t. some (65535 - ones_sum t)) (swap c ∙ ap (λ d. s + d) (sym c_is))

      stale : (65535 - ones_sum (s + (65535 - ones_sum (s + g))) ≡ 0) ↔ ((g ≡ 0) ⊎ (g ≡ 65535))
      stale = ones_sum_stale s g (omega arith) lt
