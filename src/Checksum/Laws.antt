-- ===== src/Checksum/Laws.antt =====
-- `checksum` as one's complement arithmetic, and what a receiver finds when it checks.
use c_network_tools.Base.{
  ℕ, ◌+◌, ◌-◌, ◌*◌, ◌^◌, ◌≤◌, ◌<◌, ◌≡◌, refl, sym, ◌∙◌, ap, List, ◌++◌, some, arith, ByteOrder,
  little, big, length, take, take_all, length-append, length-take, Bytes, Bytes-append, Bytes-take,
  bytes16,
}
use c_network_tools.Checksum.{checksum}
use c_network_tools.Checksum.Total.{
  total, total-le, sum_loop_from_zero, total-bytes16, total-append,
}
use c_network_tools.Checksum.Fold.{ones_sum, finish-ones_sum, ones_sum_completed}

module _ (o : ByteOrder) where
  -- On fewer than 2 ^ 17 bytes, all of them inside the buffer, `checksum` reads nothing outside,
  -- does not overflow, and returns the complement of the one's complement sum of the words.
  pub checksum-ones_sum :
      (b : List ℕ) (len : ℕ)
      → Bytes b
      → len ≤ length b
      → len < 2 ^ 17
      → checksum o b len ≡ some (65535 - ones_sum (total o (take len b)))
  unfolding checksum
  checksum-ones_sum b len h fits short =
      rw (sum_loop_from_zero o len b fits bound) (ap some (finish-ones_sum _ bound))
    where
      bound : total o (take len b) < 2 ^ 32
      bound = omega (arith, total-le o (take len b) (Bytes-take len b h), length-take len b)

  pub checksum_returns :
      (b : List ℕ) (len : ℕ)
      → Bytes b
      → len ≤ length b
      → len < 2 ^ 17
      → (c : ℕ) × (checksum o b len ≡ some c)
  checksum_returns b len h fits short = (_, checksum-ones_sum b len h fits short)

  -- The same, of a whole buffer.
  pub checksum_whole :
      (b : List ℕ)
      → Bytes b
      → length b < 2 ^ 17
      → checksum o b (length b) ≡ some (65535 - ones_sum (total o b))
  checksum_whole b h short =
      checksum-ones_sum b (length b) h (omega arith) short
      ∙ ap (λ t. some (65535 - ones_sum (total o t))) (take_all b)

  pub Bytes-bytes16 : (p : ByteOrder) (c : ℕ) → Bytes (bytes16 p c)
  Bytes-bytes16 little c = omega arith
  Bytes-bytes16 big c = omega arith

  -- The bytes of `pre` and `post` with a halfword `c` between them.
  abbrev pub around : List ℕ → ℕ → List ℕ → List ℕ
  around pre c post = pre ++ (bytes16 o c ++ post)

  pub Bytes-around :
      (pre post : List ℕ) (c : ℕ) → Bytes pre → Bytes post → Bytes (around pre c post)
  Bytes-around pre post c h k =
      Bytes-append pre _ h (Bytes-append (bytes16 o c) post (Bytes-bytes16 o c) k)

  pub length-around :
      (pre post : List ℕ) (c : ℕ) → length (around pre c post) ≡ length pre + 2 + length post
  length-around pre post c = omega (
    arith,
    length-append pre (bytes16 o c ++ post),
    length-append (bytes16 o c) post,
    length-bytes16 o c,
  )
    where
      length-bytes16 : (p : ByteOrder) (d : ℕ) → length (bytes16 p d) ≡ 2
      length-bytes16 little d = refl
      length-bytes16 big d = refl

  total-around :
      (n : ℕ) (pre post : List ℕ) (c : ℕ)
      → length pre ≡ 2 * n
      → c < 2 ^ 16
      → total o (around pre c post) ≡ total o pre + c + total o post
  total-around n pre post c e h = omega (
    arith,
    total-append o n pre (bytes16 o c ++ post) e,
    total-append o 1 (bytes16 o c) post (length-bytes16 o),
    total-bytes16 o c h,
  )
    where
      length-bytes16 : (p : ByteOrder) → length (bytes16 p c) ≡ 2 * 1
      length-bytes16 little = refl
      length-bytes16 big = refl

  -- The value of the checksum with a halfword `d` in the field.
  pub checksum-around :
      (n len : ℕ) (pre post : List ℕ) (d : ℕ)
      → length pre ≡ 2 * n
      → length pre + 2 + length post ≡ len
      → Bytes pre
      → Bytes post
      → len < 2 ^ 17
      → d < 2 ^ 16
      → checksum o (around pre d post) len
        ≡ some (65535 - ones_sum (total o pre + d + total o post))
  checksum-around n len pre post d e whole hp hq short h =
      ap (checksum o (around pre d post)) (sym whole ∙ sym (length-around pre post d))
      ∙ checksum_whole (around pre d post) (Bytes-around pre post d hp hq)
          (omega (arith, length-around pre post d))
      ∙ ap (λ t. some (65535 - ones_sum t)) (total-around n pre post d e h)

  -- Take a message of fewer than 2 ^ 17 bytes with a field of two zero bytes at an even place. With
  -- the checksum of the message stored in the field, in the host's byte order as the code does,
  -- `checksum` is 0.
  pub checksum_verifies :
      (n len : ℕ) (pre post : List ℕ) (c : ℕ)
      → length pre ≡ 2 * n
      → length pre + 2 + length post ≡ len
      → Bytes pre
      → Bytes post
      → len < 2 ^ 17
      → checksum o (around pre 0 post) len ≡ some c
      → (c < 2 ^ 16) × (checksum o (around pre c post) len ≡ some 0)
  checksum_verifies n len pre post c e whole hp hq short computed = (c_lt, again)
    where
      sum_without : ℕ
      sum_without = total o pre + total o post

      c_is : 65535 - ones_sum sum_without ≡ c
      c_is =
          ground
            (arith, computed, checksum-around n len pre post 0 e whole hp hq short (omega arith))

      c_lt : c < 2 ^ 16
      c_lt = ground (arith, c_is)

      again : checksum o (around pre c post) len ≡ some 0
      again = ground (
        arith,
        checksum-around n len pre post c e whole hp hq short c_lt,
        ones_sum_completed sum_without,
        c_is,
      )
