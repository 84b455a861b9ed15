-- ===== src/Base/Load.antt =====
-- Reading network byte order out of a buffer.
use Prim.Native.Nat.{ℕ, zero, suc, ◌+◌, ◌/◌, ◌%◌, ◌^◌, ◌<◌}
use mathlib.Core.Path.{◌≡◌, refl, ap, ◌∙◌}
use mathlib.Core.List.{List, [], ◌∷◌, ◌++◌}
use mathlib.Core.Option.{some}
use native.Mathlib.Omega.{arith}
use c_network_tools.Base.Lists.{length, get_elem?}
use c_network_tools.Base.Words.{ByteOrder, word16, net16, ntohs, ntohs-word16}
use c_network_tools.Base.Memory.{load16}

pub get_elem?-append :
    (p r : List ℕ) (at k : ℕ) → at ≡ length p + k → get_elem? (p ++ r) at ≡ get_elem? r k
get_elem?-append [] r at k e = ap (get_elem? r) (omega arith)
get_elem?-append (x ∷ p) r zero k e = absurd (omega arith)
get_elem?-append (x ∷ p) r (suc at) k e = get_elem?-append p r at k (omega arith)

-- A halfword in network byte order, read and brought into host order.
load16-net16 :
    (o : ByteOrder) (p r : List ℕ) (at v : ℕ)
    → at ≡ length p
    → v < 2 ^ 16
    → (w : ℕ) × (load16 o (p ++ (net16 v ++ r)) at ≡ some w) × (ntohs o w ≡ v)
unfolding load16
load16-net16 o p r at v e h = (
  word16 o (v / 2 ^ 8 % 2 ^ 8) (v % 2 ^ 8),
  rw
      (
        get_elem?-append p (net16 v ++ r) at 0 (omega arith),
        get_elem?-append p (net16 v ++ r) (at + 1) 1 (omega arith),
      )
      refl,
  ntohs-word16 o _ _ (omega arith) (omega arith) ∙ omega arith,
)

pub load16_at :
    (o : ByteOrder) (buf q r : List ℕ) (at v : ℕ)
    → buf ≡ q ++ (net16 v ++ r)
    → at ≡ length q
    → v < 2 ^ 16
    → (w : ℕ) × (load16 o buf at ≡ some w) × (ntohs o w ≡ v)
load16_at o buf q r at v layout e h =
    let (w, read, value) = load16-net16 o q r at v e h in
    (w, ap (λ b. load16 o b at) layout ∙ read, value)
