-- ===== src/Chat/Counted.antt =====
-- A client that the table `clientSockets` of SocketServer.c took in finds a record.
use c_network_tools.Base.{
  ℕ, ◌≤◌, ◌≡◌, ◌≢◌, refl, ap, ◌∙◌, sym, List, [], ◌∷◌, Option, some, none, ◌==◌, length, arith,
  true, ◌||◌, get_elem?, set, Option-cases, length-set, inl, inr, Holds, Holds-some, Holds-bind,
  Holds-if,
}
use mathlib.Core.Path.{subst}
use c_network_tools.Chat.{
  Event, accepted, accept_failed, received, cleared, Chat, Call, add_socket, step, run, start,
  max_clients, handle_accepted, handle_received, handle_cleared, in_use, register, Handler, Phase,
  naming, chatting, leaving, finished, ClientInfo, move, can_receive,
}
use c_network_tools.Chat.Slots.{accepted_fds, Holding}
use c_network_tools.Chat.Laws.{Holds-step, reached-Holding}
use c_network_tools.Chat.Owned.{Takes, register-Takes, IsFirst, register-IsFirst}
use c_network_tools.Chat.Places.{
  sum_by, sum_by-set, sum_by-append, sum_by_lt, used, has_passed, passed, passed_le, used_le,
  register-none,
}

-- There are ten records, and no more of them in use than threads past their naming.
pub record Counted (s : Chat) : Type 0 where
  pub records : length s.clients ≡ max_clients
  pub counted : sum_by used s.clients ≤ sum_by has_passed s.handlers

Counted-move :
    (s : Chat) (t : ℕ) (h : Handler) (p : Phase)
    → Counted s
    → get_elem? s.handlers t ≡ some h
    → has_passed h ≤ passed p
    → Counted (move s t h p)
Counted-move s t h p k e le = record {
  records = k.records;
  counted =
      omega (arith, k.counted, sum_by-set has_passed s.handlers t h (record h { phase = p }) e);
}

Counted-register :
    (s : Chat) (t i : ℕ) (h : Handler) (c c' : ClientInfo)
    → Counted s
    → get_elem? s.handlers t ≡ some h
    → h.phase ≡ naming
    → get_elem? s.clients i ≡ some c
    → c.socket ≡ 0
    → Counted (move (record s { clients = set s.clients i c' }) t h (chatting i))
Counted-register s t i h c c' k e is found free = record {
  records = length-set s.clients i c' ∙ k.records;
  counted = omega (
    arith,
    k.counted,
    ap passed is,
    was_free,
    used_le c',
    sum_by-set used s.clients i c c' found,
    sum_by-set has_passed s.handlers t h (record h { phase = chatting i }) e,
  );
}
  where
    was_free : used c ≡ 0
    was_free = ground (arith, free)

Counted-clear :
    (s : Chat) (t i : ℕ) (h : Handler) (c : ClientInfo)
    → Counted s
    → get_elem? s.handlers t ≡ some h
    → get_elem? s.clients i ≡ some c
    → Counted (move (record s { clients = set s.clients i (record c { socket = 0 }) }) t h finished)
Counted-clear s t i h c k e found = record {
  records = length-set s.clients i (record c { socket = 0 }) ∙ k.records;
  counted = omega (
    arith,
    k.counted,
    passed_le h.phase,
    sum_by-set used s.clients i c (record c { socket = 0 }) found,
    sum_by-set has_passed s.handlers t h (record h { phase = finished }) e,
  );
}

pub handle_received-Counted :
    (s : Chat) (t : ℕ) (h : Handler) (p : Phase) (b : Option (List ℕ))
    → Counted s
    → get_elem? s.handlers t ≡ some h
    → h.phase ≡ p
    → Holds (λ (r : Chat × List Call). Counted r.0) (handle_received s t h p b)
unfolding handle_received
handle_received-Counted s t h naming none k e is =
    Counted-move s t h finished k e (passed_le h.phase)
handle_received-Counted s t h naming (some b) k e is =
    elim (Option-cases (register s.clients h.fd b h.ip)) [
      | inl full ↦ rw (full, Holds) (Counted-move s t h finished k e (passed_le h.phase))
      | inr ((cs', i), made) ↦
          let (c, found, free, written) =
            Holds-some (Takes s.clients h.fd b h.ip) _ (cs', i) made
              (register-Takes s.clients h.fd b h.ip) in
          rw (made, Holds)
            (subst (λ cs. Counted (move (record s { clients = cs }) t h (chatting i))) (sym written)
              (Counted-register s t i h c _ k e is found free))
    ]
handle_received-Counted s t h (chatting i) none k e is =
    Counted-move s t h (leaving i) k e (passed_le h.phase)
handle_received-Counted s t h (chatting i) (some b) k e is =
    Holds-bind _ (get_elem? s.clients i) _ (λ c found. k)
handle_received-Counted s t h (leaving i) b k e is = tt
handle_received-Counted s t h finished b k e is = tt

pub handle_cleared-Counted :
    (s : Chat) (t : ℕ) (h : Handler) (p : Phase)
    → Counted s
    → get_elem? s.handlers t ≡ some h
    → Holds (λ (r : Chat × List Call). Counted r.0) (handle_cleared s t h p)
unfolding handle_cleared
handle_cleared-Counted s t h naming k e = tt
handle_cleared-Counted s t h (chatting i) k e = tt
handle_cleared-Counted s t h (leaving i) k e =
    Holds-bind _ (get_elem? s.clients i) _ (λ c found. Counted-clear s t i h c k e found)
handle_cleared-Counted s t h finished k e = tt

pub step-Counted :
    (s : Chat) (e : Event) → Counted s → Holds (λ (r : Chat × List Call). Counted r.0) (step s e)
unfolding step
step-Counted s (accepted fd ip) k =
    Holds-if _ (fd == 0 || in_use s.handlers fd) _ _ (λ e. tt)
      (λ e. accepted-Counted (add_socket s.client_sockets fd) refl)
  where
    accepted-Counted :
        (m : Option (List ℕ))
        → add_socket s.client_sockets fd ≡ m
        → Counted (handle_accepted s fd ip).0
    accepted-Counted none full = rw (full, handle_accepted) k
    accepted-Counted (some sockets) added =
        rw (added, handle_accepted)
          (record {
            records = k.records;
            counted = omega (
              arith,
              k.counted,
              sum_by-append has_passed s.handlers
                  (record { fd = fd; ip = ip; phase = naming } ∷ []),
            );
          })
step-Counted s accept_failed k = k
step-Counted s (received t b) k =
    Holds-if _ (can_receive b) _ _
      (λ e.
        Holds-bind _ (get_elem? s.handlers t) _
          (λ h found. handle_received-Counted s t h h.phase b k found refl))
      (λ e. tt)
step-Counted s (cleared t) k =
    Holds-bind _ (get_elem? s.handlers t) _
      (λ h found. handle_cleared-Counted s t h h.phase k found)

run-Counted :
    (s : Chat) (es : List Event)
    → Counted s
    → Holds (λ (r : Chat × List Call). Counted r.0) (run s es)
unfolding run
run-Counted s [] k = k
run-Counted s (e ∷ es) k =
    Holds-step Counted Counted (step s e) (λ r. run r.0 es) (step-Counted s e k)
      (λ r k'. run-Counted r.0 es k')

-- With at most as many threads as records, a thread that is not past its naming finds a free one.
pub register-ne-none :
    (s : Chat) (t : ℕ) (h : Handler) (buffer ip : List ℕ)
    → Counted s
    → length s.handlers ≤ max_clients
    → get_elem? s.handlers t ≡ some h
    → h.phase ≡ naming
    → register s.clients h.fd buffer ip ≢ none
register-ne-none s t h buffer ip k few found is full = omega (
  arith,
  register-none s.clients h.fd buffer ip full,
  k.records,
  k.counted,
  sum_by_lt has_passed s.handlers t h (λ x. passed_le x.phase) found (ap passed is),
)

pub start-Counted : Counted start
start-Counted = record { records = refl; counted = omega arith }

-- In every state that the server can reach, a thread that waits for its client's name and receives
-- it registers the client in the first record that was free, with its socket, the first 49 bytes of
-- the name and the first 15 of the address: the server is never full at this point.
pub naming-registers :
    (es : List Event) (s : Chat) (calls : List Call) (t : ℕ) (h : Handler) (buffer : List ℕ)
    → run start es ≡ some (s, calls)
    → get_elem? s.handlers t ≡ some h
    → h.phase ≡ naming
    → can_receive (some buffer) ≡ true
    → (clients : List ClientInfo) × (i : ℕ) × Takes s.clients h.fd buffer h.ip (clients, i)
      × IsFirst s.clients (clients, i)
      × (step s (received t (some buffer))
          ≡ some (move (record s { clients = clients }) t h (chatting i), []))
unfolding step handle_received
naming-registers es s calls t h buffer e found is fits =
    elim (Option-cases (register s.clients h.fd buffer h.ip)) [
      | inl full ↦
          absurd
            (register-ne-none s t h buffer h.ip k (omega (arith, holding.threads)) found is full)
      | inr ((clients, i), made) ↦ (
        clients,
        i,
        Holds-some (Takes s.clients h.fd buffer h.ip) _ (clients, i) made
            (register-Takes s.clients h.fd buffer h.ip),
        Holds-some (IsFirst s.clients) _ (clients, i) made
            (register-IsFirst s.clients h.fd buffer h.ip),
        rw (fits, found, is) (rw (made, handle_received) refl),
      )
    ]
  where
    k : Counted s
    k = Holds-some _ (run start es) (s, calls) e (run-Counted start es start-Counted)

    holding : Holding (accepted_fds es) s
    holding = reached-Holding es s calls e
