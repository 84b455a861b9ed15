-- ===== src/Chat/Places.antt =====
-- Why the second test for a full server, in `handleClient` of SocketServer.c, never succeeds.
use c_network_tools.Base.{
  ℕ, zero, suc, ◌+◌, ◌<◌, ◌≤◌, ◌≡◌, refl, ap, List, [], ◌∷◌, ◌++◌, some, none, ◌==◌, length, arith,
  if◌then◌else◌, get_elem?, set, Option-cases, inl, inr,
}
use mathlib.Core.Option.{some-injective, none-ne-some}
use c_network_tools.Chat.{register, ClientInfo, Handler, Phase, naming, chatting, leaving, finished}

module _ {A : Type 0} (w : A → ℕ) where
  -- The weight of a list.
  abbrev pub sum_by : List A → ℕ
  sum_by [] = 0
  sum_by (x ∷ xs) = w x + sum_by xs

  pub sum_by-set :
      (xs : List A) (i : ℕ) (x y : A)
      → get_elem? xs i ≡ some x
      → sum_by (set xs i y) + w x ≡ sum_by xs + w y
  sum_by-set [] i x y e = absurd (none-ne-some _ e)
  sum_by-set (z ∷ xs) zero x y e = omega (arith, ap w (some-injective _ _ e))
  sum_by-set (z ∷ xs) (suc i) x y e = omega (arith, sum_by-set xs i x y e)

  pub sum_by-append : (xs ys : List A) → sum_by (xs ++ ys) ≡ sum_by xs + sum_by ys
  sum_by-append [] ys = omega arith
  sum_by-append (x ∷ xs) ys = omega (arith, sum_by-append xs ys)

  sum_by_le : (xs : List A) → ((x : A) → w x ≤ 1) → sum_by xs ≤ length xs
  sum_by_le [] h = omega arith
  sum_by_le (x ∷ xs) h = omega (arith, h x, sum_by_le xs h)

  -- With an element of no weight the weight is less than the length.
  pub sum_by_lt :
      (xs : List A) (i : ℕ) (x : A)
      → ((x : A) → w x ≤ 1)
      → get_elem? xs i ≡ some x
      → w x ≡ 0
      → sum_by xs < length xs
  sum_by_lt [] i x h e none_there = absurd (none-ne-some _ e)
  sum_by_lt (z ∷ xs) zero x h e none_there =
      omega (arith, ap w (some-injective _ _ e), none_there, sum_by_le xs h)
  sum_by_lt (z ∷ xs) (suc i) x h e none_there = omega (arith, h z, sum_by_lt xs i x h e none_there)

-- A record that is in use, and a thread past its naming.
abbrev pub used : ClientInfo → ℕ
used c = if c.socket == 0 then 0 else 1

abbrev pub passed : Phase → ℕ
passed naming = 0
passed (chatting i) = 1
passed (leaving i) = 1
passed finished = 1

abbrev pub has_passed : Handler → ℕ
has_passed h = passed h.phase

pub passed_le : (p : Phase) → passed p ≤ 1
passed_le naming = omega arith
passed_le (chatting i) = omega arith
passed_le (leaving i) = omega arith
passed_le finished = omega arith

pub used_le : (c : ClientInfo) → used c ≤ 1
used_le c = ground arith

-- `register` fails only where all the records are used.
pub register-none :
    (cs : List ClientInfo) (fd : ℕ) (buffer ip : List ℕ)
    → register cs fd buffer ip ≡ none
    → sum_by used cs ≡ length cs
unfolding register
register-none [] fd buffer ip e = refl
register-none (c ∷ cs) fd buffer ip e = elim (Option-cases (register cs fd buffer ip)) [
  | inl full ↦ ground (arith, register-none cs fd buffer ip full, e, full)
  | inr ((cs', i), made) ↦ ground (arith, e, made)
]
