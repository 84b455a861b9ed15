-- ===== src/Chat/Records.antt =====
-- The table `clients` of SocketServer.c in a run: which thread a record belongs to.
use c_network_tools.Base.{
  ℕ, zero, suc, ◌≡◌, ◌≢◌, ◌⊎◌, inl, inr, refl, ap, ◌∙◌, sym, List, [], ◌∷◌, ◌++◌, Option, some,
  none, arith, get_elem?, set,
}
use mathlib.Core.Path.{subst}
use mathlib.Core.Option.{some-injective}
use c_network_tools.Chat.{
  Chat, Handler, Phase, naming, chatting, leaving, finished, ClientInfo, move,
}

eq_or_ne : (a b : ℕ) → (a ≡ b) ⊎ (a ≢ b)
eq_or_ne a b = omega arith

module _ {A : Type 0} where
  pub get_elem?-set_same :
      (xs : List A) (i : ℕ) (x v : A) → get_elem? xs i ≡ some x → get_elem? (set xs i v) i ≡ some v
  get_elem?-set_same [] i x v e = cc
  get_elem?-set_same (y ∷ xs) zero x v e = refl
  get_elem?-set_same (y ∷ xs) (suc i) x v e = get_elem?-set_same xs i x v e

  pub get_elem?-set_other :
      (xs : List A) (i j : ℕ) (v : A) → i ≢ j → get_elem? (set xs i v) j ≡ get_elem? xs j
  get_elem?-set_other [] i j v n = refl
  get_elem?-set_other (y ∷ xs) zero zero v n = absurd (n refl)
  get_elem?-set_other (y ∷ xs) zero (suc j) v n = refl
  get_elem?-set_other (y ∷ xs) (suc i) zero v n = refl
  get_elem?-set_other (y ∷ xs) (suc i) (suc j) v n =
      get_elem?-set_other xs i j v (λ e. n (ap suc e))

  -- What is at `j` after `i` was written.
  pub moved_at :
      (xs : List A) (i j : ℕ) (x v y : A)
      → get_elem? xs i ≡ some x
      → get_elem? (set xs i v) j ≡ some y
      → ((i ≡ j) × (v ≡ y)) ⊎ ((i ≢ j) × (get_elem? xs j ≡ some y))
  moved_at xs i j x v y e e' = elim (eq_or_ne i j) [
    | inl same ↦ inl (
      same,
      some-injective _ _
          (sym (get_elem?-set_same xs i x v e) ∙ ap (get_elem? (set xs i v)) same ∙ e'),
    )
    | inr other ↦ inr (other, sym (get_elem?-set_other xs i j v other) ∙ e')
  ]

  -- What holds of every other element, and of the one that is written, holds of every element behind.
  pub every-set_other :
      (P : A → Type 0) (xs : List A) (i : ℕ) (x v : A)
      → get_elem? xs i ≡ some x
      → P v
      → ((j : ℕ) (y : A) → i ≢ j → get_elem? xs j ≡ some y → P y)
      → (j : ℕ) (y : A) → get_elem? (set xs i v) j ≡ some y
      → P y
  every-set_other P xs i x v there holds every j y e = elim (moved_at xs i j x v y there e) [
    | inl (same, is_new) ↦ subst P is_new holds
    | inr (other, old) ↦ every j y other old
  ]

  pub every-set :
      (P : A → Type 0) (xs : List A) (i : ℕ) (x v : A)
      → get_elem? xs i ≡ some x
      → P v
      → ((j : ℕ) (y : A) → get_elem? xs j ≡ some y → P y)
      → (j : ℕ) (y : A) → get_elem? (set xs i v) j ≡ some y
      → P y
  every-set P xs i x v there holds every =
      every-set_other P xs i x v there holds (λ j y other e. every j y e)

  pub get_elem?-snoc :
      (xs : List A) (x y : A) (i : ℕ)
      → get_elem? (xs ++ x ∷ []) i ≡ some y
      → (get_elem? xs i ≡ some y) ⊎ (x ≡ y)
  get_elem?-snoc [] x y zero e = inr (some-injective _ _ e)
  get_elem?-snoc [] x y (suc i) e = cc
  get_elem?-snoc (z ∷ xs) x y zero e = inl e
  get_elem?-snoc (z ∷ xs) x y (suc i) e = get_elem?-snoc xs x y i e

-- The record that a thread uses.
abbrev pub index : Phase → Option ℕ
index naming = none
index (chatting i) = some i
index (leaving i) = some i
index finished = none

-- Every thread past its naming uses a record with its own socket, and no two threads the same.
pub record Owned (s : Chat) : Type 0 where
  pub nonzero : (t : ℕ) (h : Handler) → get_elem? s.handlers t ≡ some h → h.fd ≢ 0
  pub own :
      (t i : ℕ) (h : Handler)
      → get_elem? s.handlers t ≡ some h
      → index h.phase ≡ some i
      → (c : ClientInfo) × (get_elem? s.clients i ≡ some c) × (c.socket ≡ h.fd)
  pub alone :
      (t t' i : ℕ) (h h' : Handler)
      → get_elem? s.handlers t ≡ some h
      → get_elem? s.handlers t' ≡ some h'
      → index h.phase ≡ some i
      → index h'.phase ≡ some i
      → t ≡ t'

-- A thread moves on with the record that it had, or without one.
pub Owned-move :
    (s : Chat) (t : ℕ) (h : Handler) (p : Phase)
    → Owned s
    → get_elem? s.handlers t ≡ some h
    → ((i : ℕ) → index p ≡ some i → index h.phase ≡ some i)
    → Owned (move s t h p)
Owned-move s t h p o e keeps = record {
  nonzero = λ t' k e'. elim (at t' k e') [
    | inl (same, is_new) ↦ subst (λ (k : Handler). k.fd ≢ 0) is_new (o.nonzero t h e)
    | inr (other, old) ↦ o.nonzero t' k old
  ];
  own = λ t' i k e' x.
      let (h', old, fd, x') = before t' i k e' x in
      let (c, found, owner) = o.own t' i h' old x' in (c, found, owner ∙ fd);
  alone = λ t1 t2 i k1 k2 e1 e2 x1 x2.
      let (h1, old1, fd1, y1) = before t1 i k1 e1 x1 in
      let (h2, old2, fd2, y2) = before t2 i k2 e2 x2 in o.alone t1 t2 i h1 h2 old1 old2 y1 y2;
}
  where
    new : Handler
    new = record h { phase = p }

    at :
        (t' : ℕ) (k : Handler)
        → get_elem? (set s.handlers t new) t' ≡ some k
        → ((t ≡ t') × (new ≡ k)) ⊎ ((t ≢ t') × (get_elem? s.handlers t' ≡ some k))
    at t' k e' = moved_at s.handlers t t' h new k e e'

    before :
        (t' i : ℕ) (k : Handler)
        → get_elem? (set s.handlers t new) t' ≡ some k
        → index k.phase ≡ some i
        → (h' : Handler) × (get_elem? s.handlers t' ≡ some h')
          × (h'.fd ≡ k.fd)
          × (index h'.phase ≡ some i)
    before t' i k e' x = elim (at t' k e') [
      | inl (same, is_new) ↦ (
        h,
        ap (get_elem? s.handlers) (sym same) ∙ e,
        ap (λ (k : Handler). k.fd) is_new,
        keeps i (ap (λ (k : Handler). index k.phase) is_new ∙ x),
      )
      | inr (other, old) ↦ (k, old, refl, x)
    ]

-- A free record belongs to no thread.
pub Owned-apart :
    (s : Chat) (t i j : ℕ) (k : Handler) (c : ClientInfo)
    → Owned s
    → get_elem? s.clients i ≡ some c
    → c.socket ≡ 0
    → get_elem? s.handlers t ≡ some k
    → index k.phase ≡ some j
    → i ≢ j
Owned-apart s t i j k c o found free old x i_is_j =
    let (d, found', owner) = o.own t j k old x in
    let c_is_d : c ≡ d =
      some-injective _ _ (sym found ∙ ap (get_elem? s.clients) i_is_j ∙ found') in
    o.nonzero t k old (sym owner ∙ sym (ap (λ (c : ClientInfo). c.socket) c_is_d) ∙ free)

-- A thread takes a record that was free.
pub Owned-register :
    (s : Chat) (t i : ℕ) (h : Handler) (c c' : ClientInfo)
    → Owned s
    → get_elem? s.handlers t ≡ some h
    → get_elem? s.clients i ≡ some c
    → c.socket ≡ 0
    → c'.socket ≡ h.fd
    → Owned (move (record s { clients = set s.clients i c' }) t h (chatting i))
Owned-register s t i h c c' o e found free taken = record {
  nonzero = λ t' k e'. elim (at t' k e') [
    | inl (same, is_new) ↦ subst (λ (k : Handler). k.fd ≢ 0) is_new (o.nonzero t h e)
    | inr (other, old) ↦ o.nonzero t' k old
  ];
  own = λ t' j k e' x. elim (at t' k e') [
    | inl (same, is_new) ↦
        let i_is_j = taken_by j k is_new x in
        (
          c',
          ap (get_elem? (set s.clients i c')) (sym i_is_j)
              ∙ get_elem?-set_same s.clients i c c' found,
          taken ∙ ap (λ (k : Handler). k.fd) is_new,
        )
    | inr (other, old) ↦
        let (d, found', owner) = o.own t' j k old x in
        (
          d,
          get_elem?-set_other s.clients i j c' (Owned-apart s t' i j k c o found free old x)
              ∙ found',
          owner,
        )
  ];
  alone = λ t1 t2 j k1 k2 e1 e2 x1 x2. elim (at t1 k1 e1) [
    | inl (same1, new1) ↦ elim (at t2 k2 e2) [
      | inl (same2, _) ↦ sym same1 ∙ same2
      | inr (_, old2) ↦
          absurd (Owned-apart s t2 i j k2 c o found free old2 x2 (taken_by j k1 new1 x1))
    ]
    | inr (_, old1) ↦ elim (at t2 k2 e2) [
      | inl (_, new2) ↦
          absurd (Owned-apart s t1 i j k1 c o found free old1 x1 (taken_by j k2 new2 x2))
      | inr (_, old2) ↦ o.alone t1 t2 j k1 k2 old1 old2 x1 x2
    ]
  ];
}
  where
    new : Handler
    new = record h { phase = chatting i }

    at :
        (t' : ℕ) (k : Handler)
        → get_elem? (set s.handlers t new) t' ≡ some k
        → ((t ≡ t') × (new ≡ k)) ⊎ ((t ≢ t') × (get_elem? s.handlers t' ≡ some k))
    at t' k e' = moved_at s.handlers t t' h new k e e'

    taken_by : (j : ℕ) (k : Handler) → new ≡ k → index k.phase ≡ some j → i ≡ j
    taken_by j k is_new x = some-injective _ _ (ap (λ (k : Handler). index k.phase) is_new ∙ x)
