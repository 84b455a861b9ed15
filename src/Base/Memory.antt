-- ===== src/Base/Memory.antt =====
-- A buffer in memory: writes of several bytes, and the C string that begins at its start.
use Prim.Native.Nat.{ℕ, zero, suc, ◌+◌, ◌-◌, ◌≤◌, ◌<◌}
use mathlib.Core.Path.{◌≡◌, refl, ap, ◌∙◌, sym}
use mathlib.Core.Logic.{◌≢◌}
use mathlib.Core.List.{List, [], ◌∷◌, ◌++◌, append_assoc}
use mathlib.Core.Option.{Option, none, some}
use native.Mathlib.Omega.{arith}
use c_network_tools.Base.Tests.{leb, ◌==◌, if◌then◌else◌, le→leb, ◌>>=◌}
use c_network_tools.Base.Lists.{
  length, get_elem?, drop, length-append, length-drop, drop-drop, take,
}
use c_network_tools.Base.Words.{ByteOrder, word16}

module _ {ℓ} {A : Type ℓ} where
  -- The elements of `bs` at the places from `at` on; what does not fit is dropped.
  abbrev pub write : List A → ℕ → List A → List A
  write [] at bs = []
  write (x ∷ xs) (suc at) bs = x ∷ write xs at bs
  write (x ∷ xs) zero [] = x ∷ xs
  write (x ∷ xs) zero (b ∷ bs) = b ∷ write xs zero bs

  -- The same as a step of a program: a write outside the buffer is a fault.
  abbrev pub store : List A → ℕ → List A → Option (List A)
  store buf at bs = if leb (at + length bs) (length buf) then some (write buf at bs) else none

-- A halfword and `n` bytes of a buffer; `none` is a read outside it.
unfoldable pub load16 : ByteOrder → List ℕ → ℕ → Option ℕ
load16 o buf at = do a ← get_elem? buf at; b ← get_elem? buf (at + 1); some (word16 o a b)

unfoldable pub load : List ℕ → ℕ → ℕ → Option (List ℕ)
load buf at n = if leb (at + n) (length buf) then some (take n (drop at buf)) else none

-- `strlen`: the place of the first zero; `none` if there is none in the buffer.
unfoldable pub strlen : List ℕ → Option ℕ
strlen [] = none
strlen (c ∷ cs) =
    let rest = strlen cs in
    if c == 0 then some 0 else (elim rest [ none ↦ none | some n ↦ some (suc n) ])

-- The string that begins with these bytes, which a zero follows.
unfoldable pub c_string : List ℕ → List ℕ
c_string [] = []
c_string (c ∷ cs) = let rest = c_string cs in if c == 0 then [] else c ∷ rest

-- A C string's characters hold no zero.
abbrev pub NoNul : List ℕ → Type 0
NoNul [] = Unit
NoNul (c ∷ cs) = (c ≢ 0) × NoNul cs

pub NoNul-append : (xs ys : List ℕ) → NoNul xs → NoNul ys → NoNul (xs ++ ys)
NoNul-append [] ys h k = k
NoNul-append (x ∷ xs) ys h k = (h.0, NoNul-append xs ys h.1 k)

pub strlen-append : (xs ys : List ℕ) → NoNul xs → strlen (xs ++ 0 ∷ ys) ≡ some (length xs)
unfolding strlen
strlen-append [] ys h = refl
strlen-append (x ∷ xs) ys h = ground (arith, strlen-append xs ys h.1)

module _ {ℓ} {A : Type ℓ} where
  pub length-write : (buf : List A) (at : ℕ) (bs : List A) → length (write buf at bs) ≡ length buf
  length-write [] at bs = refl
  length-write (x ∷ xs) (suc at) bs = ap suc (length-write xs at bs)
  length-write (x ∷ xs) zero [] = refl
  length-write (x ∷ xs) zero (b ∷ bs) = ap suc (length-write xs zero bs)

  pub write-append :
      (p r : List A) (at : ℕ) (bs : List A)
      → at ≡ length p
      → write (p ++ r) at bs ≡ p ++ write r 0 bs
  write-append [] r at bs e = rw e
  write-append (x ∷ p) r zero bs e = absurd (omega arith)
  write-append (x ∷ p) r (suc at) bs e = ap (◌∷◌ x) (write-append p r at bs (omega arith))

  pub write_start : (bs r : List A) → length bs ≤ length r → write r 0 bs ≡ bs ++ drop (length bs) r
  write_start [] [] h = refl
  write_start [] (x ∷ r) h = refl
  write_start (b ∷ bs) [] h = absurd (omega arith)
  write_start (b ∷ bs) (x ∷ r) h = ap (◌∷◌ b) (write_start bs r (omega arith))

  pub store-write :
      (buf : List A) (at : ℕ) (bs : List A)
      → at + length bs ≤ length buf
      → store buf at bs ≡ some (write buf at bs)
  store-write buf at bs h = rw (le→leb (at + length bs) (length buf) h)

  -- A write that fits behind `p` keeps `p` and what lies behind the write.
  pub store-append :
      (p r : List A) (at : ℕ) (bs : List A)
      → at ≡ length p
      → length bs ≤ length r
      → store (p ++ r) at bs ≡ some (p ++ (bs ++ drop (length bs) r))
  store-append p r at bs e h =
      rw
        (
          le→leb (at + length bs) (length (p ++ r)) (omega (arith, length-append p r)),
          write-append p r at bs e,
          write_start bs r h,
        )
        refl

  -- Two writes, the second behind the first.
  pub store-store :
      (p r : List A) (at next : ℕ) (cs bs : List A)
      → at ≡ length p
      → next ≡ at + length cs
      → length cs + length bs ≤ length r
      → (store (p ++ r) at cs >>= λ buf. store buf next bs)
        ≡ some (p ++ (cs ++ (bs ++ drop (length cs + length bs) r)))
  store-store p r at next cs bs e n h =
      ap (λ o. o >>= λ buf. store buf next bs) (store-append p r at cs e (omega arith))
      ∙ ap (λ buf. store buf next bs) (sym (append_assoc p cs (drop (length cs) r)))
      ∙ store-append (p ++ cs) (drop (length cs) r) next bs (omega (arith, length-append p cs))
          (omega (arith, length-drop (length cs) r))
      ∙ ap some (
          append_assoc p cs (bs ++ drop (length bs) (drop (length cs) r))
          ∙ ap (λ t. p ++ (cs ++ (bs ++ t))) (drop-drop (length bs) (length cs) r))

  pub get_elem?-write_lt :
      (buf : List A) (at : ℕ) (bs : List A) (j : ℕ)
      → j < at
      → get_elem? (write buf at bs) j ≡ get_elem? buf j
  get_elem?-write_lt [] at bs j h = refl
  get_elem?-write_lt (x ∷ xs) zero bs j h = absurd (omega arith)
  get_elem?-write_lt (x ∷ xs) (suc at) bs zero h = refl
  get_elem?-write_lt (x ∷ xs) (suc at) bs (suc j) h = get_elem?-write_lt xs at bs j (omega arith)

  pub get_elem?-write_ge :
      (buf : List A) (at : ℕ) (bs : List A) (j : ℕ)
      → at + length bs ≤ j
      → get_elem? (write buf at bs) j ≡ get_elem? buf j
  get_elem?-write_ge [] at bs j h = refl
  get_elem?-write_ge (x ∷ xs) (suc at) bs zero h = absurd (omega arith)
  get_elem?-write_ge (x ∷ xs) (suc at) bs (suc j) h = get_elem?-write_ge xs at bs j (omega arith)
  get_elem?-write_ge (x ∷ xs) zero [] j h = refl
  get_elem?-write_ge (x ∷ xs) zero (b ∷ bs) zero h = absurd (omega arith)
  get_elem?-write_ge (x ∷ xs) zero (b ∷ bs) (suc j) h =
      get_elem?-write_ge xs zero bs j (omega arith)

  pub get_elem?-write_in :
      (buf : List A) (at : ℕ) (bs : List A) (j : ℕ)
      → at + length bs ≤ length buf
      → at ≤ j
      → j < at + length bs
      → get_elem? (write buf at bs) j ≡ get_elem? bs (j - at)
  get_elem?-write_in [] at bs j fits lo hi = absurd (omega arith)
  get_elem?-write_in (x ∷ xs) (suc at) bs zero fits lo hi = absurd (omega arith)
  get_elem?-write_in (x ∷ xs) (suc at) bs (suc j) fits lo hi =
      get_elem?-write_in xs at bs j (omega arith) (omega arith) (omega arith)
      ∙ ap (get_elem? bs) (omega arith)
  get_elem?-write_in (x ∷ xs) zero [] j fits lo hi = absurd (omega arith)
  get_elem?-write_in (x ∷ xs) zero (b ∷ bs) zero fits lo hi = refl
  get_elem?-write_in (x ∷ xs) zero (b ∷ bs) (suc j) fits lo hi =
      let e : suc (j - 0) ≡ suc j - 0 = omega arith in
      get_elem?-write_in xs zero bs j (omega arith) (omega arith) (omega arith)
      ∙ ap (get_elem? (b ∷ bs)) e

pub c_string-NoNul : (xs : List ℕ) → NoNul xs → c_string xs ≡ xs
unfolding c_string
c_string-NoNul [] h = refl
c_string-NoNul (x ∷ xs) h = ground (arith, h.0, c_string-NoNul xs h.1)

-- `scanf("%s", ...)` into `size` bytes: a word and a zero; `none` is a write behind them.
unfoldable pub read_word : ℕ → List ℕ → Option (List ℕ)
read_word size word = if leb (length word + 1) size then some word else none

pub read_word-fits :
    (size : ℕ) (word : List ℕ) → length word < size → read_word size word ≡ some word
unfolding read_word
read_word-fits size word h = rw (le→leb (length word + 1) size (omega arith)) refl
