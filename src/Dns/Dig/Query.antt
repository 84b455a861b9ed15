-- ===== src/Dns/Dig/Query.antt =====
-- The query of dig.c and host.c.
use c_network_tools.Base.{
  ℕ, suc, ◌+◌, ◌-◌, ◌≤◌, ◌<◌, ◌≡◌, refl, ◌∙◌, ap, true, false, List, [], ◌∷◌, ◌++◌, Option, some,
  ◌>>=◌, u8, length, arith, get_elem?, store, store-write, write, length-write, get_elem?-write_ge,
  get_elem?-write_in, ByteOrder, little, big, bytes16, net16, htons, bytes16-htons, ◌==◌,
  if◌then◌else◌, Bool-cases, inl, inr,
}
use c_network_tools.Dns.Name.{dot}
use c_network_tools.Dns.Dig.{query_header, header_bytes, length_loop, build_query, sizeof_header}

-- Two names of one length with dots at the same places.
abbrev pub SameDots : List ℕ → List ℕ → Type 0
SameDots [] [] = Unit
SameDots [] (d ∷ ds) = ⊥
SameDots (c ∷ cs) [] = ⊥
SameDots (c ∷ cs) (d ∷ ds) = ((c == dot) ≡ (d == dot)) × SameDots cs ds

SameDots-length : (cs ds : List ℕ) → SameDots cs ds → length cs ≡ length ds
SameDots-length [] [] h = refl
SameDots-length [] (d ∷ ds) h = absurd h
SameDots-length (c ∷ cs) [] h = absurd h
SameDots-length (c ∷ cs) (d ∷ ds) h = ap suc (SameDots-length cs ds h.1)

length_loop-SameDots :
    (size i j : ℕ) (cs ds buf : List ℕ)
    → SameDots cs ds
    → length_loop size i j cs buf ≡ length_loop size i j ds buf
unfolding length_loop
length_loop-SameDots size i j [] [] buf h = refl
length_loop-SameDots size i j [] (d ∷ ds) buf h = absurd h
length_loop-SameDots size i j (c ∷ cs) [] buf h = absurd h
length_loop-SameDots size i j (c ∷ cs) (d ∷ ds) buf h = rw (h.0) (λ k.
    if d == dot
    then (store buf (sizeof_header + j) (u8 (i - j) ∷ []) >>= λ b.
        length_loop-SameDots size (i + 1) (i + 1) cs ds b h.1 k)
    else length_loop-SameDots size (i + 1) j cs ds buf h.1 k)

-- The letters of the name do not reach the query: two names of one length with dots at the same
-- places give the same buffer and length.
pub build_query-SameDots :
    (o : ByteOrder) (garbage cs ds : List ℕ)
    → SameDots cs ds
    → build_query o garbage cs ≡ build_query o garbage ds
unfolding build_query
build_query-SameDots o garbage cs ds h = rw (SameDots-length cs ds h) (λ k.
    store garbage 0 (header_bytes o (query_header o)) >>= λ b.
    length_loop-SameDots (length ds) 0 0 cs ds b h k >>= λ b'.
    store b' (12 + length ds + 1) (bytes16 o (htons o 1) ++ bytes16 o (htons o 1)) >>= λ b''.
    some (b'', 12 + length ds + 2 + 4))

-- What a run of the loop leaves alone.
pub record IsLoopResult (buf : List ℕ) (last : ℕ) (result : Option (List ℕ)) : Type 0 where
  pub out : List ℕ
  pub returns : result ≡ some out
  pub same_length : length out ≡ length buf
  pub kept : (k : ℕ) → last < k → get_elem? out k ≡ get_elem? buf k

module _ (size i j c : ℕ) (domain buf : List ℕ) where
  length_loop-dot :
      (c == dot) ≡ true
      → length_loop size i j (c ∷ domain) buf ≡ (
          store buf (sizeof_header + j) (u8 (i - j) ∷ []) >>= λ buf.
          length_loop size (i + 1) (i + 1) domain buf)
  unfolding length_loop
  length_loop-dot e = rw e

  length_loop-char :
      (c == dot) ≡ false
      → length_loop size i j (c ∷ domain) buf ≡ length_loop size (i + 1) j domain buf
  unfolding length_loop
  length_loop-char e = rw e

length_loop-IsLoopResult :
    (size i j last : ℕ) (domain buf : List ℕ)
    → j ≤ i
    → last ≡ sizeof_header + i + length domain
    → last < length buf
    → IsLoopResult buf last (length_loop size i j domain buf)
length_loop-IsLoopResult size i j last [] buf ji e fits = record {
  out = write buf (12 + j) (u8 (size - j) ∷ []);
  returns = unfold length_loop in store-write buf (12 + j) _ (omega arith);
  same_length = length-write buf (12 + j) _;
  kept = λ k lt. get_elem?-write_ge buf (12 + j) _ k (omega arith);
}
length_loop-IsLoopResult size i j last (c ∷ domain) buf ji e fits = elim (Bool-cases (c == dot)) [
  | inl is_dot ↦
      let written : List ℕ = write buf (12 + j) (u8 (i - j) ∷ []) in
      let rest =
        length_loop-IsLoopResult size (i + 1) (i + 1) last domain written (omega arith)
          (omega arith) (omega (arith, length-write buf (12 + j) (u8 (i - j) ∷ []))) in
      record {
        out = rest.out;
        returns =
            length_loop-dot size i j c domain buf is_dot
            ∙ rw (store-write buf (12 + j) (u8 (i - j) ∷ []) (omega arith)) rest.returns;
        same_length = rest.same_length ∙ length-write buf (12 + j) _;
        kept = λ k lt. rest.kept k lt ∙ get_elem?-write_ge buf (12 + j) _ k (omega arith);
      }
  | inr other ↦
      let rest =
        length_loop-IsLoopResult size (i + 1) j last domain buf (omega arith) (omega arith) fits in
      record {
        out = rest.out;
        returns = length_loop-char size i j c domain buf other ∙ rest.returns;
        same_length = rest.same_length;
        kept = rest.kept;
      }
]

length-header : (o : ByteOrder) → length (header_bytes o (query_header o)) ≡ 12
unfolding query_header
length-header little = refl
length-header big = refl

question_written :
    (o : ByteOrder) → bytes16 o (htons o 1) ++ bytes16 o (htons o 1) ≡ net16 1 ++ net16 1
question_written o = rw bytes16-htons refl

-- The query as it is sent: `query_len` bytes, of which the last is whatever the buffer held, and
-- the type and the class one place too early, where the name's final zero belongs.
pub record IsShifted (garbage domain : List ℕ) (result : Option (List ℕ × ℕ)) : Type 0 where
  pub buffer : List ℕ
  pub returns : result ≡ some (buffer, length domain + 18)
  pub same_size : length buffer ≡ length garbage
  pub question_early :
      (k : ℕ) → k < 4 → get_elem? buffer (length domain + 13 + k) ≡ get_elem? (net16 1 ++ net16 1) k
  pub last_unwritten :
      get_elem? buffer (length domain + 17) ≡ get_elem? garbage (length domain + 17)

module _ (o : ByteOrder) (garbage domain : List ℕ) where
  build_query_steps :
      (b1 b2 b3 : List ℕ)
      → store garbage 0 (header_bytes o (query_header o)) ≡ some b1
      → length_loop (length domain) 0 0 domain b1 ≡ some b2
      → store b2 (12 + length domain + 1) (net16 1 ++ net16 1) ≡ some b3
      → build_query o garbage domain ≡ some (b3, 12 + length domain + 2 + 4)
  unfolding build_query
  build_query_steps b1 b2 b3 h1 h2 h3 =
      rw (h1, h2)
        (ap (λ q. store b2 (12 + length domain + 1) q >>= λ b. some (b, 12 + length domain + 2 + 4))
            (question_written o)
          ∙ ap (λ r. r >>= λ b. some (b, 12 + length domain + 2 + 4)) h3)

  abbrev headed : List ℕ
  headed = write garbage 0 (header_bytes o (query_header o))

  from_loop :
      length domain + 18 ≤ length garbage
      → IsLoopResult headed (12 + length domain) (length_loop (length domain) 0 0 domain headed)
      → IsShifted garbage domain (build_query o garbage domain)
  from_loop fits r =
      let size : length r.out ≡ length garbage =
        r.same_length ∙ length-write garbage 0 (header_bytes o (query_header o)) in
      record {
        buffer = write r.out (12 + length domain + 1) (net16 1 ++ net16 1);
        returns =
            build_query_steps _ _ _
              (store-write garbage 0 (header_bytes o (query_header o))
                (omega (arith, length-header o)))
              r.returns
              (store-write r.out (12 + length domain + 1) (net16 1 ++ net16 1)
                (omega (arith, size)))
            ∙ ap (λ n. some (write r.out (12 + length domain + 1) (net16 1 ++ net16 1), n))
                (omega arith);
        same_size = length-write r.out (12 + length domain + 1) (net16 1 ++ net16 1) ∙ size;
        question_early = λ k lt.
            let here : length domain + 13 + k - (12 + length domain + 1) ≡ k = omega arith in
            get_elem?-write_in r.out (12 + length domain + 1) (net16 1 ++ net16 1)
              (length domain + 13 + k) (omega (arith, size)) (omega arith) (omega arith)
            ∙ ap (get_elem? (net16 1 ++ net16 1)) here;
        last_unwritten =
            get_elem?-write_ge r.out (12 + length domain + 1) (net16 1 ++ net16 1)
              (length domain + 17) (omega arith)
            ∙ r.kept (length domain + 17) (omega arith)
            ∙ get_elem?-write_ge garbage 0 (header_bytes o (query_header o)) (length domain + 17)
                (omega (arith, length-header o));
      }

  -- `build_query` returns for every name that fits the buffer: the question stands from
  -- `length domain + 13` on, where the name's final zero belongs, and the last of the bytes sent,
  -- the one at `length domain + 17`, was never written.
  pub build_query-IsShifted :
      length domain + 18 ≤ length garbage → IsShifted garbage domain (build_query o garbage domain)
  build_query-IsShifted fits = from_loop fits (
      length_loop-IsLoopResult (length domain) 0 0 (12 + length domain) domain headed (omega arith)
        (omega arith) (omega (arith, length-write garbage 0 (header_bytes o (query_header o)))))
