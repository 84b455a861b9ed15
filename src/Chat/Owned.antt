-- ===== src/Chat/Owned.antt =====
-- `Owned` in every run of the server.
use c_network_tools.Base.{
  ℕ, zero, suc, ◌<◌, false, ◌≡◌, ◌≢◌, inl, inr, refl, ap, ◌∙◌, sym, List, [], ◌∷◌, ◌++◌, Option,
  some, none, ◌==◌, arith, ◌||◌, get_elem?, set, ==_iff, Option-cases, Holds, Holds-some,
  Holds-bind, Holds-then, Holds-if,
}
use mathlib.Core.Path.{subst}
use mathlib.Core.Option.{none-ne-some, some-injective}
use c_network_tools.Chat.{
  strncpy, Event, accepted, accept_failed, received, cleared, Chat, Call, add_socket, step, run,
  start, handle_accepted, handle_received, handle_cleared, in_use, register, Handler, Phase, naming,
  chatting, leaving, finished, ClientInfo, move, can_receive,
}
use c_network_tools.Chat.Laws.{Holds-step}
use c_network_tools.Chat.Records.{
  index, Owned, Owned-move, Owned-register, moved_at, get_elem?-set_other, get_elem?-snoc,
}

-- A thread gives its record back.
Owned-clear :
    (s : Chat) (t i : ℕ) (h : Handler) (c' : ClientInfo)
    → Owned s
    → get_elem? s.handlers t ≡ some h
    → index h.phase ≡ some i
    → Owned (move (record s { clients = set s.clients i c' }) t h finished)
Owned-clear s t i h c' o e x = record {
  nonzero = λ t' k e'. moved.nonzero t' k e';
  own = λ t' j k e' x'.
      let (d, found, owner) = moved.own t' j k e' x' in
      (d, get_elem?-set_other s.clients i j c' (apart t' j k e' x') ∙ found, owner);
  alone = moved.alone;
}
  where
    moved : Owned (move s t h finished)
    moved = Owned-move s t h finished o e (λ j none_some. cc)

    apart :
        (t' j : ℕ) (k : Handler)
        → get_elem? (set s.handlers t (record h { phase = finished })) t' ≡ some k
        → index k.phase ≡ some j
        → i ≢ j
    apart t' j k e' x' same =
        elim (moved_at s.handlers t t' h (record h { phase = finished }) k e e') [
          | inl (_, is_new) ↦
              absurd (none-ne-some _ (ap (λ (k : Handler). index k.phase) is_new ∙ x'))
          | inr (other, old) ↦ other (o.alone t t' i h k e old x (x' ∙ ap some (sym same)))
        ]

-- A record with a socket, a name and an address written into it.
abbrev pub filled : ClientInfo → ℕ → List ℕ → List ℕ → ClientInfo
filled c fd buffer ip = record {
  socket = fd;
  name = strncpy c.name buffer 49;
  ip = strncpy c.ip ip 15;
}

-- `register` takes a record that is free, and writes nothing else.
abbrev pub Takes : List ClientInfo → ℕ → List ℕ → List ℕ → List ClientInfo × ℕ → Type 0
Takes cs fd buffer ip (cs', i) =
    (c : ClientInfo) × (get_elem? cs i ≡ some c)
    × (c.socket ≡ 0)
    × (cs' ≡ set cs i (filled c fd buffer ip))

pub register-Takes :
    (cs : List ClientInfo) (fd : ℕ) (buffer ip : List ℕ)
    → Holds (Takes cs fd buffer ip) (register cs fd buffer ip)
unfolding register
register-Takes [] fd buffer ip = tt
register-Takes (c ∷ cs) fd buffer ip =
    Holds-if (Takes (c ∷ cs) fd buffer ip) (c.socket == 0) _ _
      (λ free. (c, refl, (==_iff c.socket 0).0 free, refl))
      (λ taken.
        Holds-then (Takes cs fd buffer ip) _ (register cs fd buffer ip) _
          (register-Takes cs fd buffer ip)
          (λ (cs', i) (d, found, free, written). (d, found, free, ap (λ t. c ∷ t) written)))

-- All the records in front of it are taken.
abbrev pub IsFirst : List ClientInfo → List ClientInfo × ℕ → Type 0
IsFirst cs (cs', i) = (j : ℕ) (d : ClientInfo) → j < i → get_elem? cs j ≡ some d → d.socket ≢ 0

pub register-IsFirst :
    (cs : List ClientInfo) (fd : ℕ) (buffer ip : List ℕ)
    → Holds (IsFirst cs) (register cs fd buffer ip)
unfolding register
register-IsFirst [] fd buffer ip = tt
register-IsFirst (c ∷ cs) fd buffer ip =
    Holds-if (IsFirst (c ∷ cs)) (c.socket == 0) _ _ (λ free j d lt e. absurd (omega arith))
      (λ taken.
        Holds-then (IsFirst cs) (IsFirst (c ∷ cs)) (register cs fd buffer ip) _
          (register-IsFirst cs fd buffer ip) (λ (cs', i) first. behind c cs taken i first))
  where
    behind :
        (c : ClientInfo) (cs : List ClientInfo)
        → (c.socket == 0) ≡ false
        → (i : ℕ) → ((j : ℕ) (d : ClientInfo) → j < i → get_elem? cs j ≡ some d → d.socket ≢ 0)
        → (j : ℕ) (d : ClientInfo) → j < suc i
        → get_elem? (c ∷ cs) j ≡ some d
        → d.socket ≢ 0
    behind c cs taken i first zero d lt e = λ is_free.
        let same = ap (λ (c : ClientInfo). c.socket) (some-injective c d e) in
        let busy : c.socket ≢ 0 = ground (arith, taken) in busy (same ∙ is_free)
    behind c cs taken i first (suc j) d lt e = first j d (omega arith) e

pub Owned-accept :
    (s : Chat) (sockets : List ℕ) (fd : ℕ) (ip : List ℕ)
    → Owned s
    → fd ≢ 0
    → Owned (record s {
      client_sockets = sockets;
      handlers = s.handlers ++ record { fd = fd; ip = ip; phase = naming } ∷ [];
    })
Owned-accept s sockets fd ip o nz = record {
  nonzero = λ t k e. elim (get_elem?-snoc s.handlers new k t e) [
    | inl before ↦ o.nonzero t k before
    | inr is_new ↦ subst (λ (k : Handler). k.fd ≢ 0) is_new nz
  ];
  own = λ t i k e x. o.own t i k (old t i k e x) x;
  alone = λ t t' i h h' e e' x x'. o.alone t t' i h h' (old t i h e x) (old t' i h' e' x') x x';
}
  where
    new : Handler
    new = record { fd = fd; ip = ip; phase = naming }

    old :
        (t i : ℕ) (k : Handler)
        → get_elem? (s.handlers ++ new ∷ []) t ≡ some k
        → index k.phase ≡ some i
        → get_elem? s.handlers t ≡ some k
    old t i k e x = elim (get_elem?-snoc s.handlers new k t e) [
      | inl before ↦ before
      | inr is_new ↦ absurd (none-ne-some _ (ap (λ (k : Handler). index k.phase) is_new ∙ x))
    ]

pub handle_received-Owned :
    (s : Chat) (t : ℕ) (h : Handler) (p : Phase) (b : Option (List ℕ))
    → Owned s
    → get_elem? s.handlers t ≡ some h
    → h.phase ≡ p
    → Holds (λ (r : Chat × List Call). Owned r.0) (handle_received s t h p b)
unfolding handle_received
handle_received-Owned s t h naming none o e is =
    Owned-move s t h finished o e (λ i x. absurd (none-ne-some _ x))
handle_received-Owned s t h naming (some b) o e is =
    elim (Option-cases (register s.clients h.fd b h.ip)) [
      | inl full ↦
          rw (full, Holds) (Owned-move s t h finished o e (λ i x. absurd (none-ne-some _ x)))
      | inr ((cs', i), made) ↦
          let (c, found, free, written) =
            Holds-some (Takes s.clients h.fd b h.ip) _ (cs', i) made
              (register-Takes s.clients h.fd b h.ip) in
          rw (made, Holds)
            (subst (λ cs. Owned (move (record s { clients = cs }) t h (chatting i))) (sym written)
              (Owned-register s t i h c _ o e found free refl))
    ]
handle_received-Owned s t h (chatting i) none o e is =
    Owned-move s t h (leaving i) o e (λ j x. ap index is ∙ x)
handle_received-Owned s t h (chatting i) (some b) o e is =
    Holds-bind _ (get_elem? s.clients i) _ (λ c found. o)
handle_received-Owned s t h (leaving i) b o e is = tt
handle_received-Owned s t h finished b o e is = tt

pub handle_cleared-Owned :
    (s : Chat) (t : ℕ) (h : Handler) (p : Phase)
    → Owned s
    → get_elem? s.handlers t ≡ some h
    → h.phase ≡ p
    → Holds (λ (r : Chat × List Call). Owned r.0) (handle_cleared s t h p)
unfolding handle_cleared
handle_cleared-Owned s t h naming o e is = tt
handle_cleared-Owned s t h (chatting i) o e is = tt
handle_cleared-Owned s t h (leaving i) o e is =
    Holds-bind _ (get_elem? s.clients i) _ (λ c found. Owned-clear s t i h _ o e (ap index is))
handle_cleared-Owned s t h finished o e is = tt

pub step-Owned :
    (s : Chat) (e : Event) → Owned s → Holds (λ (r : Chat × List Call). Owned r.0) (step s e)
unfolding step
step-Owned s (accepted fd ip) o =
    Holds-if _ (fd == 0 || in_use s.handlers fd) _ _ (λ e. tt)
      (λ e. accepted-Owned (ground arith) (add_socket s.client_sockets fd) refl)
  where
    accepted-Owned :
        fd ≢ 0
        → (m : Option (List ℕ)) → add_socket s.client_sockets fd ≡ m
        → Owned (handle_accepted s fd ip).0
    accepted-Owned nz none full = rw (full, handle_accepted) o
    accepted-Owned nz (some sockets) added =
        rw (added, handle_accepted) (Owned-accept s sockets fd ip o nz)
step-Owned s accept_failed o = o
step-Owned s (received t b) o =
    Holds-if _ (can_receive b) _ _
      (λ e.
        Holds-bind _ (get_elem? s.handlers t) _
          (λ h found. handle_received-Owned s t h h.phase b o found refl))
      (λ e. tt)
step-Owned s (cleared t) o =
    Holds-bind _ (get_elem? s.handlers t) _
      (λ h found. handle_cleared-Owned s t h h.phase o found refl)

run-Owned :
    (s : Chat) (es : List Event) → Owned s → Holds (λ (r : Chat × List Call). Owned r.0) (run s es)
unfolding run
run-Owned s [] o = o
run-Owned s (e ∷ es) o =
    Holds-step Owned Owned (step s e) (λ r. run r.0 es) (step-Owned s e o)
      (λ r o'. run-Owned r.0 es o')

pub start-Owned : Owned start
start-Owned = record {
  nonzero = λ t h found. absurd (none-ne-some _ found);
  own = λ t i h found x. absurd (none-ne-some _ found);
  alone = λ t t' i h h' found found' x x'. absurd (none-ne-some _ found);
}

-- In every state that the server can reach, each thread that is registered uses a record with its
-- own socket, and no two threads use the same record.
pub reached-Owned :
    (es : List Event) (s : Chat) (calls : List Call) → run start es ≡ some (s, calls) → Owned s
reached-Owned es s calls e =
    Holds-some _ (run start es) (s, calls) e (run-Owned start es start-Owned)
