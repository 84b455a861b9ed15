-- ===== src/Chat/Room/Names.antt =====
-- What the calls of `strncpy` leave in a record of `clients`.
use c_network_tools.Base.{
  ℕ, zero, suc, ◌≤◌, ◌≡◌, refl, ◌∙◌, List, [], ◌∷◌, ◌++◌, some, arith, length, take, replicate,
  get_elem?, write, c_string, NoNul, length-write, length-take, get_elem?-write_ge,
}
use c_network_tools.Chat.{strncpy}

pub NoNul-c_string : (xs : List ℕ) → NoNul (c_string xs)
unfolding c_string
NoNul-c_string [] = tt
NoNul-c_string (x ∷ xs) = ground (arith, NoNul-c_string xs)

-- A buffer of `n` bytes and a zero behind them.
pub record Closed (n : ℕ) (buffer : List ℕ) : Type 0 where
  pub size : length buffer ≡ suc n
  pub end : get_elem? buffer n ≡ some 0

c_string-write :
    (n m : ℕ) (dest src : List ℕ)
    → NoNul src
    → Closed n dest
    → n ≤ m
    → c_string (write dest 0 (take n (src ++ replicate m 0))) ≡ take n src
unfolding c_string
c_string-write n m [] src h c le = absurd (omega (arith, c.size))
c_string-write zero m (d ∷ ds) src h c le = ground (arith, c.end)
c_string-write (suc n) zero (d ∷ ds) src h c le = absurd (omega arith)
c_string-write (suc n) (suc m) (d ∷ ds) [] h c le = refl
c_string-write (suc n) (suc m) (d ∷ ds) (x ∷ src) h c le = ground (
  arith,
  h.0,
  c_string-write n (suc m) ds src h.1 (record { size = omega (arith, c.size); end = c.end })
      (omega arith),
)

-- The string that is read back is the first `n` characters of the one that was copied.
pub c_string-strncpy :
    (n : ℕ) (dest src : List ℕ)
    → Closed n dest
    → c_string (strncpy dest src n) ≡ take n (c_string src)
unfolding strncpy
c_string-strncpy n dest src c =
    c_string-write n n dest (c_string src) (NoNul-c_string src) c (omega arith)

pub strncpy-Closed : (n : ℕ) (dest src : List ℕ) → Closed n dest → Closed n (strncpy dest src n)
unfolding strncpy
strncpy-Closed n dest src c = record {
  size = length-write dest 0 _ ∙ c.size;
  end =
      get_elem?-write_ge dest 0 _ n (omega (arith, length-take n (c_string src ++ replicate n 0)))
      ∙ c.end;
}
