-- ===== src/Dns/Name/Laws.antt =====
use c_network_tools.Base.{
  ℕ, zero, suc, ◌+◌, ◌%◌, ◌<◌, ◌≡◌, refl, ◌∙◌, ap, ap₂, List, [], ◌∷◌, ◌++◌, some, ◌>>=◌, length,
  NoNul, arith, append_assoc, length-append, take-append, drop-append, NoNul-append, le→leb, strlen,
  strlen-append,
}
use c_network_tools.Dns.Name.{extend, labels, label_bytes, wire, read_name, Proper}

length-label_bytes-extend :
    (c : ℕ) (ls : List (List ℕ))
    → 0 < length ls
    → length (label_bytes (extend c ls)) ≡ suc (length (label_bytes ls))
unfolding label_bytes
length-label_bytes-extend c [] h = absurd (omega arith)
length-label_bytes-extend c (l ∷ ls) h = refl

pub labels_nonempty : (d : List ℕ) → 0 < length (labels d)
unfolding labels
labels_nonempty [] = omega arith
labels_nonempty (c ∷ cs) = ground (arith, labels_nonempty cs)

-- Each dot becomes a length byte, and one more stands in front.
pub length-label_bytes : (d : List ℕ) → length (label_bytes (labels d)) ≡ suc (length d)
unfolding labels
length-label_bytes [] = unfold label_bytes in refl
length-label_bytes (c ∷ cs) = ground (
  arith,
  length-label_bytes cs,
  length-label_bytes-extend c (labels cs),
  labels_nonempty cs,
  length-label_bytes_dot cs,
)
  where
    length-label_bytes_dot :
        (ds : List ℕ)
        → length (label_bytes ([] ∷ labels ds)) ≡ suc (length (label_bytes (labels ds)))
    length-label_bytes_dot ds = unfold label_bytes in refl

-- Written labels hold no zero.
pub NoNul-label_bytes : (ls : List (List ℕ)) → Proper ls → NoNul (label_bytes ls)
unfolding label_bytes
NoNul-label_bytes [] h = tt
NoNul-label_bytes (l ∷ ls) (pos, small, nz, h) =
    (omega arith, NoNul-append l (label_bytes ls) nz (NoNul-label_bytes ls h))

pub strlen-wire :
    (ls : List (List ℕ)) (rest : List ℕ)
    → Proper ls
    → strlen (wire ls ++ rest) ≡ some (length (label_bytes ls))
strlen-wire ls rest h =
    ap strlen (append_assoc (label_bytes ls) (0 ∷ []) rest)
    ∙ strlen-append (label_bytes ls) rest (NoNul-label_bytes ls h)

read_name_label :
    (c : ℕ) (l bs : List ℕ) (fuel : ℕ)
    → suc (length l) < 64
    → read_name (suc fuel) (suc (length l) ∷ c ∷ l ++ bs)
      ≡ (read_name fuel bs >>= λ (ls, rest). some ((c ∷ l) ∷ ls, rest))
unfolding read_name
read_name_label c l bs fuel h =
    rw
      (
        le→leb (suc (length l)) 63 (omega arith),
        le→leb (suc (length l)) (length (c ∷ (l ++ bs))) (omega (arith, length-append l bs)),
        drop-append l bs,
        take-append l bs,
      )
      refl

-- A server reads back the labels and what stands behind the name.
pub read_name-wire :
    (ls : List (List ℕ)) (rest : List ℕ) (fuel : ℕ)
    → Proper ls
    → length ls < fuel
    → read_name fuel (wire ls ++ rest) ≡ some (ls, rest)
unfolding read_name label_bytes
read_name-wire ls rest zero h f = absurd (omega arith)
read_name-wire [] rest (suc fuel) h f = refl
read_name-wire ([] ∷ ls) rest (suc fuel) h f = absurd (omega (arith, h.0))
read_name-wire ((c ∷ l) ∷ ls) rest (suc fuel) (pos, small, nz, h) f =
    let size : suc (length l) % 256 ≡ suc (length l) = omega arith in
    let joined : ((l ++ label_bytes ls) ++ 0 ∷ []) ++ rest ≡ l ++ (wire ls ++ rest) =
      ap (λ t. t ++ rest) (append_assoc l (label_bytes ls) (0 ∷ []))
      ∙ append_assoc l (wire ls) rest in
    ap₂ (λ n t. read_name (suc fuel) (n ∷ c ∷ t)) size joined
    ∙ read_name_label c l (wire ls ++ rest) fuel small
    ∙ rw (read_name-wire ls rest fuel h (omega arith)) refl

pub length-label_bytes_append :
    (ls ms : List (List ℕ))
    → length (label_bytes (ls ++ ms)) ≡ length (label_bytes ls) + length (label_bytes ms)
unfolding label_bytes
length-label_bytes_append [] ms = omega arith
length-label_bytes_append (l ∷ ls) ms = omega (
  arith,
  length-append l (label_bytes (ls ++ ms)),
  length-append l (label_bytes ls),
  length-label_bytes_append ls ms,
)

pub length-label_bytes_one : (l : List ℕ) → length (label_bytes (l ∷ [])) ≡ suc (length l)
unfolding label_bytes
length-label_bytes_one l = omega (arith, length-append l [])
