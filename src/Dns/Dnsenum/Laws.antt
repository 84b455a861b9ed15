-- ===== src/Dns/Dnsenum/Laws.antt =====
-- `encode_domain_name` of dnsenum.c writes the name's labels.
use c_network_tools.Base.{
  ℕ, zero, suc, ◌+◌, ◌≤◌, ◌<◌, ◌≡◌, refl, ◌∙◌, ap, sym, List, [], ◌∷◌, ◌++◌, Option, some, none,
  ◌>>=◌, u8, length, take, drop, arith, append_assoc, length-append, length-take, length-drop,
  drop-drop, store, store-append, store-store, Option-cases, >>=-assoc, inl, inr,
}
use c_network_tools.Dns.Name.{labels, label_bytes, wire}
use c_network_tools.Dns.Dnsenum.{strchr_dot, encode_loop, encode_domain_name}

strchr_dot-none : (d : List ℕ) → strchr_dot d ≡ none → labels d ≡ d ∷ []
unfolding strchr_dot labels
strchr_dot-none [] h = refl
strchr_dot-none (c ∷ cs) h = ground (arith, strchr_dot-none cs)

strchr_dot-some :
    (d : List ℕ) (k : ℕ)
    → strchr_dot d ≡ some k
    → (k < length d) × (labels d ≡ take k d ∷ labels (drop (suc k) d))
unfolding strchr_dot labels
strchr_dot-some [] k h = absurd (ground arith)
strchr_dot-some (c ∷ cs) zero h = ground (arith)
strchr_dot-some (c ∷ cs) (suc k) h = ground (arith, strchr_dot-some cs k)

-- The writes behind the loop, for the last label.
encode_last :
    (p r d : List ℕ) (dest : ℕ)
    → dest ≡ length p
    → length d + 2 ≤ length r
    → (store (p ++ r) dest (u8 (length d) ∷ []) >>= λ buf.
        store buf (dest + 1) (d ++ 0 ∷ []) >>= λ buf. store buf (dest + 1 + length d) (0 ∷ []))
      ≡ some (p ++ (wire (d ∷ []) ++ drop (length d + 2) r))
unfolding label_bytes
encode_last p r d dest e h =
    sym (
      >>=-assoc (store (p ++ r) dest (u8 (length d) ∷ []))
        (λ buf. store buf (dest + 1) (d ++ 0 ∷ [])) zero_again)
    ∙ ap (λ o. o >>= zero_again)
        (store-store p r dest (dest + 1) (u8 (length d) ∷ []) (d ++ 0 ∷ []) e refl
          (omega (arith, length-append d (0 ∷ []))))
    ∙ ap zero_again regroup
    ∙ store-append (p ++ (u8 (length d) ∷ d)) (0 ∷ rest) (dest + 1 + length d) (0 ∷ [])
        (omega (arith, length-append p (u8 (length d) ∷ d))) (omega arith)
    ∙ ap some (simp append_assoc)
  where
    rest : List ℕ
    rest = drop (length d + 2) r

    zero_again : List ℕ → Option (List ℕ)
    zero_again buf = store buf (dest + 1 + length d) (0 ∷ [])

    regroup :
        p ++ (u8 (length d) ∷ ((d ++ 0 ∷ []) ++ drop (1 + length (d ++ 0 ∷ [])) r))
        ≡ (p ++ (u8 (length d) ∷ d)) ++ 0 ∷ rest
    regroup =
        let e : 1 + length (d ++ 0 ∷ []) ≡ length d + 2 = omega (arith, length-append d (0 ∷ [])) in
        rw e (simp append_assoc)

module _ (fuel : ℕ) (d : List ℕ) where
  encode_loop-none :
      (buf : List ℕ) (dest : ℕ)
      → strchr_dot d ≡ none
      → encode_loop (suc fuel) buf dest d ≡ (
          store buf dest (u8 (length d) ∷ []) >>= λ buf.
          store buf (dest + 1) (d ++ 0 ∷ []) >>= λ buf. store buf (dest + 1 + length d) (0 ∷ []))
  unfolding encode_loop
  encode_loop-none buf dest h = rw (h, encode_loop)

  encode_loop-some :
      (buf : List ℕ) (dest k : ℕ)
      → strchr_dot d ≡ some k
      → encode_loop (suc fuel) buf dest d ≡ (
          store buf dest (u8 k ∷ []) >>= λ buf. store buf (dest + 1) (take k d) >>= λ buf.
          encode_loop fuel buf (dest + 1 + k) (drop (suc k) d))
  unfolding encode_loop
  encode_loop-some buf dest k h = rw (h, encode_loop)

-- The two writes of a round of the loop.
encode_round :
    (p r d : List ℕ) (dest k : ℕ)
    → dest ≡ length p
    → k < length d
    → length d + 2 ≤ length r
    → (store (p ++ r) dest (u8 k ∷ []) >>= λ buf. store buf (dest + 1) (take k d))
      ≡ some ((p ++ (u8 k ∷ take k d)) ++ drop (suc k) r)
encode_round p r d dest k e lt h =
    store-store p r dest (dest + 1) (u8 k ∷ []) (take k d) e refl (omega (arith, length-take k d))
    ∙ ap some
        (sym (append_assoc p (u8 k ∷ take k d) (drop (1 + length (take k d)) r)) ∙ rw size refl)
  where
    size : 1 + length (take k d) ≡ suc k
    size = omega (arith, length-take k d)

encode_regroup :
    (p r d : List ℕ) (k : ℕ) (ls : List (List ℕ))
    → k < length d
    → (p ++ (u8 k ∷ take k d)) ++ (wire ls ++ drop (length (drop (suc k) d) + 2) (drop (suc k) r))
      ≡ p ++ (wire (take k d ∷ ls) ++ drop (length d + 2) r)
unfolding label_bytes
encode_regroup p r d k ls lt =
    let size : length (take k d) ≡ k = omega (arith, length-take k d) in
    let behind : suc k + (length (drop (suc k) d) + 2) ≡ length d + 2 =
      omega (arith, length-drop (suc k) d) in
    rw (size, drop-drop, behind) (simp append_assoc)

-- The loop writes the name's labels, each behind its length, and a zero. It changes nothing in
-- front of `dest` nor behind that zero.
pub encode_loop-wire :
    (fuel : ℕ) (p r d : List ℕ) (dest : ℕ)
    → dest ≡ length p
    → length d < fuel
    → length d + 2 ≤ length r
    → encode_loop fuel (p ++ r) dest d ≡ some (p ++ (wire (labels d) ++ drop (length d + 2) r))
encode_loop-wire zero p r d dest e f h = absurd (omega arith)
encode_loop-wire (suc fuel) p r d dest e f h = elim (Option-cases (strchr_dot d)) [
  | inl last ↦
      rw (strchr_dot-none d last)
        (encode_loop-none fuel d (p ++ r) dest last ∙ encode_last p r d dest e h)
  | inr (k, found) ↦
      let (lt, split) = strchr_dot-some d k found in
      rw split (
        encode_loop-some fuel d (p ++ r) dest k found
        ∙ sym
            (>>=-assoc (store (p ++ r) dest (u8 k ∷ [])) (λ buf. store buf (dest + 1) (take k d)) _)
        ∙ ap (λ o. o >>= λ buf. encode_loop fuel buf (dest + 1 + k) (drop (suc k) d))
            (encode_round p r d dest k e lt h)
        ∙ encode_loop-wire fuel (p ++ (u8 k ∷ take k d)) (drop (suc k) r) (drop (suc k) d)
            (dest + 1 + k) (omega (arith, length-append p (u8 k ∷ take k d), length-take k d))
            (omega (arith, length-drop (suc k) d))
            (omega (arith, length-drop (suc k) d, length-drop (suc k) r))
        ∙ ap some (encode_regroup p r d k (labels (drop (suc k) d)) lt))
]

-- With room for it, each label of the name is written from `dest` on behind its length, and a zero
-- behind them; nothing in front of `dest` nor behind the zero changes.
pub encode_domain_name-wire :
    (p r d : List ℕ)
    → length d + 2 ≤ length r
    → encode_domain_name (p ++ r) (length p) d
      ≡ some (p ++ (wire (labels d) ++ drop (length d + 2) r))
unfolding encode_domain_name
encode_domain_name-wire p r d h =
    encode_loop-wire (suc (length d)) p r d (length p) refl (omega arith) h
