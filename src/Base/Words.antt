-- ===== src/Base/Words.antt =====
-- Machine words of C as numbers, and the byte order of the host.
use Prim.Native.Nat.{ℕ, ◌+◌, ◌-◌, ◌*◌, ◌/◌, ◌%◌, ◌^◌, ◌<◌}
use mathlib.Core.Path.{◌≡◌}
use mathlib.Core.List.{List, [], ◌∷◌, ◌++◌}
use native.Mathlib.Omega.{arith}

-- Casts to `unsigned char`, `unsigned short` and `unsigned int`.
abbrev pub u8 : ℕ → ℕ
u8 n = n % 2 ^ 8

abbrev pub u16 : ℕ → ℕ
u16 n = n % 2 ^ 16

abbrev pub u32 : ℕ → ℕ
u32 n = n % 2 ^ 32

-- `>> k`, and `& 0xFFFF` as the remainder that it is.
infixl 75 ◌>>>◌
abbrev pub ◌>>>◌ : ℕ → ℕ → ℕ
x >>> k = x / 2 ^ k

abbrev pub low16 : ℕ → ℕ
low16 x = x % 2 ^ 16

-- `~x` of an `unsigned int`.
abbrev pub not32 : ℕ → ℕ
not32 x = 2 ^ 32 - 1 - x

pub data ByteOrder : Type 0 where
  little big : ByteOrder

-- The two bytes of a halfword, the high one first.
abbrev pub net16 : ℕ → List ℕ
net16 v = v / 2 ^ 8 % 2 ^ 8 ∷ v % 2 ^ 8 ∷ []

abbrev pub net32 : ℕ → List ℕ
net32 v = net16 (v / 2 ^ 16) ++ net16 v

-- How the host keeps an `unsigned short` and an `unsigned int` in memory.
abbrev pub bytes16 : ByteOrder → ℕ → List ℕ
bytes16 little v = v % 2 ^ 8 ∷ v / 2 ^ 8 % 2 ^ 8 ∷ []
bytes16 big v = net16 v

abbrev pub bytes32 : ByteOrder → ℕ → List ℕ
bytes32 little v = bytes16 little v ++ bytes16 little (v / 2 ^ 16)
bytes32 big v = net32 v

-- The `unsigned short` that stands in memory as the bytes `a` and `b`.
abbrev pub word16 : ByteOrder → ℕ → ℕ → ℕ
word16 little a b = a + b * 2 ^ 8
word16 big a b = a * 2 ^ 8 + b

abbrev pub swap16 : ℕ → ℕ
swap16 v = v % 2 ^ 8 * 2 ^ 8 + v / 2 ^ 8 % 2 ^ 8

abbrev pub swap32 : ℕ → ℕ
swap32 v = swap16 v * 2 ^ 16 + swap16 (v / 2 ^ 16)

-- `htons` and `htonl`; `ntohs` is the same function as `htons`.
abbrev pub htons : ByteOrder → ℕ → ℕ
htons little v = swap16 v
htons big v = u16 v

abbrev pub htonl : ByteOrder → ℕ → ℕ
htonl little v = swap32 v
htonl big v = u32 v

abbrev pub ntohs : ByteOrder → ℕ → ℕ
ntohs = htons

-- A halfword that went through `htons` stands in memory with its high byte first.
pub bytes16-htons : (o : ByteOrder) (v : ℕ) → bytes16 o (htons o v) ≡ net16 v
bytes16-htons little v = ground arith
bytes16-htons big v = ground arith

pub ntohs-word16 :
    (o : ByteOrder) (a b : ℕ) → a < 256 → b < 256 → ntohs o (word16 o a b) ≡ a * 256 + b
ntohs-word16 little a b ha hb = omega arith
ntohs-word16 big a b ha hb = omega arith
