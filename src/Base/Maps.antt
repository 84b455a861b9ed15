-- ===== src/Base/Maps.antt =====
-- `map` and what a list has at a place.
use Prim.Native.Nat.{ℕ, zero, suc}
use mathlib.Core.Path.{◌≡◌, refl, ap, ap₂}
use mathlib.Core.Logic.{◌≢◌}
use mathlib.Core.Option.{some}
use mathlib.Core.List.{List, [], ◌∷◌, map}
use native.Mathlib.Omega.{arith}
use c_network_tools.Base.Lists.{get_elem?, set, replicate}
use c_network_tools.Base.Tests.{◌>>=◌}

pub get_elem?-replicate {ℓ} :
    {A : Type ℓ} (n : ℕ) (a : A) (i : ℕ) (x : A) → get_elem? (replicate n a) i ≡ some x → a ≡ x
get_elem?-replicate zero a i x e = cc
get_elem?-replicate (suc n) a zero x e = cc
get_elem?-replicate (suc n) a (suc i) x e = get_elem?-replicate n a i x e

module _ {A B : Type 0} where
  pub get_elem?-map :
      (f : A → B) (xs : List A) (i : ℕ)
      → get_elem? (map f xs) i ≡ (get_elem? xs i >>= λ x. some (f x))
  get_elem?-map f [] i = refl
  get_elem?-map f (x ∷ xs) zero = refl
  get_elem?-map f (x ∷ xs) (suc i) = get_elem?-map f xs i

  -- Functions that agree on the elements.
  pub map_agree :
      (f g : A → B) (xs : List A)
      → ((i : ℕ) (x : A) → get_elem? xs i ≡ some x → f x ≡ g x)
      → map f xs ≡ map g xs
  map_agree f g [] h = refl
  map_agree f g (x ∷ xs) h = ap₂ ◌∷◌ (h zero x refl) (map_agree f g xs (λ i y e. h (suc i) y e))

  -- Functions that agree on the elements but the one that is written.
  pub map-set_agree :
      (f g : A → B) (xs : List A) (t : ℕ) (v : A)
      → ((i : ℕ) (x : A) → t ≢ i → get_elem? xs i ≡ some x → f x ≡ g x)
      → map f (set xs t v) ≡ set (map g xs) t (f v)
  map-set_agree f g [] t v h = refl
  map-set_agree f g (x ∷ xs) zero v h =
      ap (λ ys. f v ∷ ys) (map_agree f g xs (λ i y e. h (suc i) y (omega arith) e))
  map-set_agree f g (x ∷ xs) (suc t) v h =
      ap₂ ◌∷◌ (h zero x (omega arith) refl)
        (map-set_agree f g xs t v (λ i y n e. h (suc i) y (λ same. n (omega arith)) e))
