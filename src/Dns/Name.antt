-- ===== src/Dns/Name.antt =====
-- Domain names on the wire: what the encoders of Fingerprinting are meant to produce, and the
-- reading of it by a name server (RFC 1035).
pub mod Laws
use c_network_tools.Base.{
  ℕ, zero, suc, ◌+◌, ◌<◌, ◌≢◌, Bool, true, false, List, [], ◌∷◌, ◌++◌, Option, some, none, ◌>>=◌,
  u8, ◌==◌, if◌then◌else◌, length, take, drop, leb, ◌&&◌, NoNul,
}

abbrev pub dot : ℕ
dot = b'.'

-- A character in front of the first label.
abbrev pub extend : ℕ → List (List ℕ) → List (List ℕ)
extend c [] = (c ∷ []) ∷ []
extend c (l ∷ ls) = (c ∷ l) ∷ ls

-- The labels of a domain name, which dots separate.
unfoldable pub labels : List ℕ → List (List ℕ)
labels [] = [] ∷ []
labels (c ∷ cs) = let rest = labels cs in if c == dot then [] ∷ rest else extend c rest

-- Each label behind its length, without the final zero.
unfoldable pub label_bytes : List (List ℕ) → List ℕ
label_bytes [] = []
label_bytes (l ∷ ls) = u8 (length l) ∷ l ++ label_bytes ls

abbrev pub wire : List (List ℕ) → List ℕ
wire ls = label_bytes ls ++ 0 ∷ []

-- A server reads labels up to the zero; `none` if the bytes run out, or a length byte is more than
-- 63 (such a byte starts a pointer).
unfoldable pub read_name : ℕ → List ℕ → Option (List (List ℕ) × List ℕ)
read_name zero bs = none
read_name (suc fuel) [] = none
read_name (suc fuel) (zero ∷ bs) = some ([], bs)
read_name (suc fuel) (suc n ∷ bs) =
    if leb (suc n) 63 && leb (suc n) (length bs)
    then (do (ls, rest) ← read_name fuel (drop (suc n) bs); some (take (suc n) bs ∷ ls, rest))
    else none

-- Labels that RFC 1035 allows: neither empty nor longer than 63 characters.
abbrev pub Proper : List (List ℕ) → Type 0
Proper [] = Unit
Proper (l ∷ ls) = (0 < length l) × (length l < 64) × NoNul l × Proper ls
