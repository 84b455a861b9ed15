-- ===== src/Checksum/Total.antt =====
-- What the loop of `checksum` adds up, without the wrap-around of `unsigned int`.
use c_network_tools.Base.{
  ℕ, zero, suc, ◌+◌, ◌*◌, ◌%◌, ◌^◌, ◌≤◌, ◌<◌, ◌≡◌, ◌↔◌, refl, ◌∙◌, ap, List, [], ◌∷◌, ◌++◌, some,
  arith, ByteOrder, little, big, word16, length, take, Bytes, bytes16, replicate,
}
use c_network_tools.Checksum.{sum_loop}

unfoldable pub total : ByteOrder → List ℕ → ℕ
total o [] = 0
total o (a ∷ []) = a
total o (a ∷ b ∷ xs) = word16 o a b + total o xs

pub total-le : (o : ByteOrder) (xs : List ℕ) → Bytes xs → total o xs ≤ 2 ^ 15 * length xs
unfolding total
total-le o [] h = omega arith
total-le o (a ∷ []) h = omega arith
total-le little (a ∷ b ∷ xs) h = omega (arith, total-le little xs h.1.1)
total-le big (a ∷ b ∷ xs) h = omega (arith, total-le big xs h.1.1)

-- Without overflow the loop computes the total of the first `len` bytes.
pub sum_loop-eq-total :
    (o : ByteOrder) (len : ℕ) (buf : List ℕ) (sum : ℕ)
    → len ≤ length buf
    → sum + total o (take len buf) < 2 ^ 32
    → sum_loop o len buf sum ≡ some (sum + total o (take len buf))
unfolding sum_loop total
sum_loop-eq-total o zero buf sum fits small = ground arith
sum_loop-eq-total o (suc zero) [] sum fits small = absurd (omega arith)
sum_loop-eq-total o (suc zero) (a ∷ buf) sum fits small = ground arith
sum_loop-eq-total o (suc (suc len)) [] sum fits small = absurd (omega arith)
sum_loop-eq-total o (suc (suc len)) (a ∷ []) sum fits small = absurd (omega arith)
sum_loop-eq-total o (suc (suc len)) (a ∷ b ∷ buf) sum fits small =
    ground (arith, sum_loop-eq-total o len buf ((sum + word16 o a b) % 2 ^ 32))

pub sum_loop_from_zero :
    (o : ByteOrder) (len : ℕ) (buf : List ℕ)
    → len ≤ length buf
    → total o (take len buf) < 2 ^ 32
    → sum_loop o len buf 0 ≡ some (total o (take len buf))
sum_loop_from_zero o len buf fits small =
    sum_loop-eq-total o len buf 0 fits (omega arith) ∙ ap some (omega arith)

pub total-bytes16 : (o : ByteOrder) (c : ℕ) → c < 2 ^ 16 → total o (bytes16 o c) ≡ c
unfolding total
total-bytes16 little c h = omega arith
total-bytes16 big c h = omega arith

-- Zeros add nothing.
pub total-replicate : (o : ByteOrder) (n : ℕ) → total o (replicate n 0) ≡ 0
unfolding total
total-replicate o zero = refl
total-replicate o (suc zero) = refl
total-replicate little (suc (suc n)) = omega (arith, total-replicate little n)
total-replicate big (suc (suc n)) = omega (arith, total-replicate big n)

-- A split at an even place splits the total.
pub total-append :
    (o : ByteOrder) (n : ℕ) (xs ys : List ℕ)
    → length xs ≡ 2 * n
    → total o (xs ++ ys) ≡ total o xs + total o ys
unfolding total
total-append o n [] ys e = omega arith
total-append o n (a ∷ []) ys e = absurd (omega arith)
total-append o zero (a ∷ b ∷ xs) ys e = absurd (omega arith)
total-append o (suc n) (a ∷ b ∷ xs) ys e = omega (arith, total-append o n xs ys (omega arith))

-- Read in the other byte order an even number of bytes has 256 times the total, modulo 65535.
pub total_swapped :
    (n : ℕ) (xs : List ℕ) → length xs ≡ 2 * n → total little xs % 65535 ≡ 256 * total big xs % 65535
unfolding total
total_swapped n [] e = refl
total_swapped n (a ∷ []) e = absurd (omega arith)
total_swapped zero (a ∷ b ∷ xs) e = absurd (omega arith)
total_swapped (suc n) (a ∷ b ∷ xs) e = omega (arith, total_swapped n xs (omega arith))

-- Both totals are zero only together.
pub total_zero : (xs : List ℕ) → (total little xs ≡ 0) ↔ (total big xs ≡ 0)
unfolding total
total_zero [] = (λ h. h, λ h. h)
total_zero (a ∷ []) = (λ h. h, λ h. h)
total_zero (a ∷ b ∷ xs) = (
  λ h. omega (arith, (total_zero xs).0 (omega arith)),
  λ h. omega (arith, (total_zero xs).1 (omega arith)),
)
