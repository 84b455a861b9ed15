-- ===== src/Dns/Nslookup/Encode.antt =====
-- `encode_domain_name` of nslookup.c: what it writes, and the byte that it leaves out.
use c_network_tools.Base.{
  ℕ, zero, suc, ◌+◌, ◌-◌, ◌≤◌, ◌<◌, ◌≡◌, refl, sym, ◌∙◌, ap, NoNul, drop-append, strlen-append,
  replicate, length-replicate, List, [], ◌∷◌, ◌++◌, some, ◌>>=◌, arith, u8, length, drop, store,
  store-append, append_assoc, append-nil, length-append, length-drop, ◌==◌, true, false, Bool-cases,
  inl, inr,
}
use c_network_tools.Dns.Name.{dot, extend, labels, label_bytes}
use c_network_tools.Dns.Name.Laws.{labels_nonempty}
use c_network_tools.Dns.Nslookup.{encode_loop, encode_domain_name}

abbrev on_cons : (ℕ → List ℕ → List ℕ) → List ℕ → List ℕ
on_cons f [] = []
on_cons f (x ∷ xs) = f x xs

-- The image of the labels, of which the first has `cur` in front, in a buffer that held `g` in the
-- place of its length and `old` behind `cur`: each label behind its length, but the last one
-- behind the byte that stood there.
unfoldable pub image_from : List ℕ → List (List ℕ) → ℕ → List ℕ → List ℕ
image_from cur [] g old = g ∷ cur ++ old
image_from cur (l ∷ []) g old = (g ∷ cur ++ l) ++ drop (length l) old
image_from cur (l ∷ m ∷ ls) g old =
    (u8 (length (cur ++ l)) ∷ cur ++ l)
    ++ on_cons (λ x xs. image_from [] (m ∷ ls) x xs) (drop (length l) old)

-- A label's first character may as well be counted to the part in front.
image_from-extend :
    (cur : List ℕ) (c : ℕ) (ls : List (List ℕ)) (g x : ℕ) (old : List ℕ)
    → 0 < length ls
    → image_from (cur ++ c ∷ []) ls g old ≡ image_from cur (extend c ls) g (x ∷ old)
unfolding image_from
image_from-extend cur c [] g x old h = absurd (omega arith)
image_from-extend cur c (l ∷ []) g x old h = simp append_assoc
image_from-extend cur c (l ∷ m ∷ ls) g x old h =
    ap
      (λ t.
        (u8 (length t) ∷ t) ++ on_cons (λ y ys. image_from [] (m ∷ ls) y ys) (drop (length l) old))
      (append_assoc cur (c ∷ []) l)

-- A dot ends the label `cur`, and the byte behind it is the place of the next length.
image_from-dot :
    (cur : List ℕ) (ls : List (List ℕ)) (g x : ℕ) (old : List ℕ)
    → 0 < length ls
    → image_from cur ([] ∷ ls) g (x ∷ old) ≡ (u8 (length cur) ∷ cur) ++ image_from [] ls x old
unfolding image_from
image_from-dot cur [] g x old h = absurd (omega arith)
image_from-dot cur (m ∷ ls) g x old h =
    ap (λ t. (u8 (length t) ∷ t) ++ image_from [] (m ∷ ls) x old) (append-nil cur)

module _ (c : ℕ) (host : List ℕ) where
  encode_loop-dot :
      (base : ℕ) (buf : List ℕ) (i lock : ℕ)
      → (c == dot) ≡ true
      → encode_loop base buf i lock (c ∷ host) ≡ (
          store buf (base + lock) (u8 (i - lock) ∷ []) >>= λ buf.
          encode_loop base buf (i + 1) (i + 1) host)
  unfolding encode_loop
  encode_loop-dot base buf i lock e = rw e

  encode_loop-char :
      (base : ℕ) (buf : List ℕ) (i lock : ℕ)
      → (c == dot) ≡ false
      → encode_loop base buf i lock (c ∷ host)
        ≡ (store buf (base + i + 1) (c ∷ []) >>= λ buf. encode_loop base buf (i + 1) lock host)
  unfolding encode_loop
  encode_loop-char base buf i lock e = rw e

  labels-dot : (c == dot) ≡ true → labels (c ∷ host) ≡ [] ∷ labels host
  unfolding labels
  labels-dot e = rw e

  labels-char : (c == dot) ≡ false → labels (c ∷ host) ≡ extend c (labels host)
  unfolding labels
  labels-char e = rw e

-- The loop at the index `i`, with `cur` already written behind the place of its length.
encode_loop-image :
    (base : ℕ) (p cur : List ℕ) (g : ℕ) (old : List ℕ) (i lock : ℕ) (host : List ℕ)
    → base + lock ≡ length p
    → i ≡ lock + length cur
    → length host ≤ length old
    → encode_loop base (p ++ (g ∷ cur ++ old)) i lock host
      ≡ some (p ++ image_from cur (labels host) g old)
encode_loop-image base p cur g old i lock [] e f h =
    unfold encode_loop labels image_from in
    ap (λ t. some (p ++ (g ∷ t ++ old))) (sym (append-nil cur))
encode_loop-image base p cur g [] i lock (c ∷ host) e f h = absurd (omega arith)
encode_loop-image base p cur g (x ∷ old) i lock (c ∷ host) e f h = elim (Bool-cases (c == dot)) [
  | inl is_dot ↦
      let size : i - lock ≡ length cur = omega arith in
      encode_loop-dot c host base (p ++ (g ∷ cur ++ x ∷ old)) i lock is_dot
      ∙ ap (λ o. o >>= λ buf. encode_loop base buf (i + 1) (i + 1) host)
          (store-append p (g ∷ cur ++ x ∷ old) (base + lock) (u8 (i - lock) ∷ []) e (omega arith)
            ∙ ap (λ n. some (p ++ (u8 n ∷ cur ++ x ∷ old))) size
            ∙ ap some (sym (append_assoc p (u8 (length cur) ∷ cur) (x ∷ old))))
      ∙ encode_loop-image base (p ++ (u8 (length cur) ∷ cur)) [] x old (i + 1) (i + 1) host
          (omega (arith, length-append p (u8 (length cur) ∷ cur))) (omega arith) (omega arith)
      ∙ ap some (
          append_assoc p (u8 (length cur) ∷ cur) (image_from [] (labels host) x old)
          ∙ ap (λ t. p ++ t)
              (sym (image_from-dot cur (labels host) g x old (labels_nonempty host))
                ∙ ap (λ ls. image_from cur ls g (x ∷ old)) (sym (labels-dot c host is_dot))))
  | inr other ↦
      encode_loop-char c host base (p ++ (g ∷ cur ++ x ∷ old)) i lock other
      ∙ ap (λ o. o >>= λ buf. encode_loop base buf (i + 1) lock host)
          (ap (λ b. store b (base + i + 1) (c ∷ [])) (sym (append_assoc p (g ∷ cur) (x ∷ old)))
            ∙ store-append (p ++ (g ∷ cur)) (x ∷ old) (base + i + 1) (c ∷ [])
                (omega (arith, length-append p (g ∷ cur))) (omega arith)
            ∙ ap some (simp append_assoc))
      ∙ encode_loop-image base p (cur ++ c ∷ []) g old (i + 1) lock host e
          (omega (arith, length-append cur (c ∷ []))) (omega arith)
      ∙ ap (λ t. some (p ++ t))
          (image_from-extend cur c (labels host) g x old (labels_nonempty host)
            ∙ ap (λ ls. image_from cur ls g (x ∷ old)) (sym (labels-char c host other)))
]

-- What `encode_domain_name` makes of the bytes `old` that stood in `dns_format`, where the first
-- zero of `old` has become a dot and a zero.
abbrev pub image : List (List ℕ) → List ℕ → List ℕ
image ls old = on_cons (image_from [] ls) old

-- The whole effect on a buffer with room for the host, whose first zero from `dns_format` on is not
-- its last byte: the `strcat` puts a dot and a zero in the place of the first zero, and the
-- loop writes each label and its length, but no length for the last label and no final zero.
pub encode_domain_name-image :
    (p q r host : List ℕ) (x : ℕ)
    → NoNul q
    → length host + 1 ≤ length (q ++ 0 ∷ x ∷ r)
    → encode_domain_name (length p) (p ++ (q ++ 0 ∷ x ∷ r)) host
      ≡ some (p ++ image (labels host) (q ++ dot ∷ 0 ∷ r))
unfolding encode_domain_name
encode_domain_name-image p q r host x nz fits =
    rw (drop-append p (q ++ 0 ∷ x ∷ r), strlen-append q (x ∷ r) nz, appended)
      (looped (q ++ dot ∷ 0 ∷ r)
        (omega (arith, length-append q (0 ∷ x ∷ r), length-append q (dot ∷ 0 ∷ r))))
  where
    appended :
        store (p ++ (q ++ 0 ∷ x ∷ r)) (length p + length q) (dot ∷ 0 ∷ [])
        ≡ some (p ++ (q ++ dot ∷ 0 ∷ r))
    appended =
        ap (λ b. store b (length p + length q) (dot ∷ 0 ∷ [])) (sym (append_assoc p q (0 ∷ x ∷ r)))
        ∙ store-append (p ++ q) (0 ∷ x ∷ r) (length p + length q) (dot ∷ 0 ∷ [])
            (omega (arith, length-append p q)) (omega arith)
        ∙ ap some (append_assoc p q (dot ∷ 0 ∷ r))

    looped :
        (old : List ℕ)
        → length host + 1 ≤ length old
        → encode_loop (length p) (p ++ old) 0 0 host ≡ some (p ++ image (labels host) old)
    looped [] h = absurd (omega arith)
    looped (y ∷ ys) h =
        encode_loop-image (length p) p [] y ys 0 0 host (omega arith) (omega arith) (omega arith)

drop-zeros : (n k : ℕ) → n < k → drop {A = ℕ} n (replicate k 0) ≡ 0 ∷ replicate (k - n - 1) 0
drop-zeros zero zero h = absurd (omega arith)
drop-zeros zero (suc k) h = let e : k ≡ suc k - 0 - 1 = omega arith in rw (← e) refl
drop-zeros (suc n) zero h = absurd (omega arith)
drop-zeros (suc n) (suc k) h =
    let e : k - n - 1 ≡ suc k - suc n - 1 = omega arith in rw (← e) (drop-zeros n k (omega arith))

-- On zeros, and with a label in front of the last one, the last label stands behind a zero.
pub image_from-zeros :
    (l : List ℕ) (ls : List (List ℕ)) (last : List ℕ) (g k : ℕ)
    → length (label_bytes (l ∷ ls)) + length last ≤ k
    → (t : List ℕ) × (image_from [] (l ∷ ls ++ last ∷ []) g (replicate k 0)
        ≡ label_bytes (l ∷ ls) ++ 0 ∷ t)
      × (length (label_bytes (l ∷ ls)) + length t ≡ k)
unfolding image_from label_bytes
image_from-zeros l [] last g k h =
    let left = k - length l - 1 in
    let size : length (l ++ []) ≡ length l = omega (arith, length-append l []) in
    (
      last ++ drop (length last) (replicate left 0),
      ap (λ t. u8 (length l) ∷ l ++ on_cons (λ x xs. (x ∷ last) ++ drop (length last) xs) t)
            (drop-zeros (length l) k (omega arith))
          ∙ ap (λ t. u8 (length l) ∷ t ++ 0 ∷ (last ++ drop (length last) (replicate left 0)))
              (sym (append-nil l)),
      omega (
        arith,
        size,
        length-append {A = ℕ} last (drop (length last) (replicate left 0)),
        length-drop {A = ℕ} (length last) (replicate left 0),
        length-replicate {A = ℕ} left 0,
      ),
    )
image_from-zeros l (m ∷ ls) last g k h =
    let left = k - length l - 1 in
    let size : length (l ++ label_bytes (m ∷ ls)) ≡ length l + length (label_bytes (m ∷ ls)) =
      length-append l (label_bytes (m ∷ ls)) in
    let (t, e, n) = image_from-zeros m ls last 0 left (omega (arith, size)) in
    (
      t,
      ap (λ t'. u8 (length l) ∷ l ++ on_cons (image_from [] (m ∷ ls ++ last ∷ [])) t')
            (drop-zeros (length l) k (omega (arith, size)))
          ∙ ap (λ t'. u8 (length l) ∷ l ++ t') e
          ∙ ap (λ t'. u8 (length l) ∷ t') (sym (append_assoc l (label_bytes (m ∷ ls)) (0 ∷ t))),
      omega (arith, size, n),
    )
