-- ===== src/Chat/Slots.antt =====
-- The table `clientSockets` of SocketServer.c in a run.
use c_network_tools.Base.{
  ℕ, zero, suc, ◌<◌, ◌≤◌, ◌≡◌, ◌≢◌, refl, ap, ◌∙◌, sym, List, [], ◌∷◌, ◌++◌, Option, some, none,
  ◌==◌, length, length-append, append-nil, NoNul, NoNul-append, arith, false, ◌||◌, Option-cases,
  Holds, Holds-bind, Holds-if, Holds-map, get_elem?, length-set, min, ◌⊎◌, inl, inr,
}
use c_network_tools.Chat.{
  Event, accepted, accept_failed, received, cleared, Chat, Call, add_socket, step, handle_accepted,
  handle_received, handle_cleared, in_use, register, Handler, Phase, naming, chatting, leaving,
  finished, max_clients, register, can_receive,
}

-- The first `n` of `fds`, and free places up to `n`.
unfoldable pub slots : ℕ → List ℕ → List ℕ
slots zero fds = []
slots (suc n) [] = 0 ∷ slots n []
slots (suc n) (fd ∷ fds) = fd ∷ slots n fds

pub length-slots : (n : ℕ) (fds : List ℕ) → length (slots n fds) ≡ n
unfolding slots
length-slots zero fds = refl
length-slots (suc n) [] = ap suc (length-slots n [])
length-slots (suc n) (fd ∷ fds) = ap suc (length-slots n fds)

-- The sockets that `accept` returned, in order.
unfoldable pub accepted_fds : List Event → List ℕ
accepted_fds [] = []
accepted_fds (accepted fd ip ∷ es) = fd ∷ accepted_fds es
accepted_fds (accept_failed ∷ es) = accepted_fds es
accepted_fds (received t b ∷ es) = accepted_fds es
accepted_fds (cleared t ∷ es) = accepted_fds es

pub add_socket-slots_free :
    (n : ℕ) (fds : List ℕ) (fd : ℕ)
    → NoNul fds
    → length fds < n
    → add_socket (slots n fds) fd ≡ some (slots n (fds ++ fd ∷ []))
unfolding add_socket slots
add_socket-slots_free zero fds fd h lt = absurd (omega arith)
add_socket-slots_free (suc n) [] fd h lt = refl
add_socket-slots_free (suc n) (f ∷ fds) fd h lt =
    ground (arith, h.0, add_socket-slots_free n fds fd h.1 (omega arith))

pub add_socket-slots_full :
    (n : ℕ) (fds : List ℕ) (fd : ℕ)
    → NoNul fds
    → n ≤ length fds
    → add_socket (slots n fds) fd ≡ none
unfolding add_socket slots
add_socket-slots_full zero fds fd h le = refl
add_socket-slots_full (suc n) [] fd h le = absurd (omega arith)
add_socket-slots_full (suc n) (f ∷ fds) fd h le =
    ground (arith, h.0, add_socket-slots_full n fds fd h.1 (omega arith))

pub slots-append :
    (n : ℕ) (fds more : List ℕ) → n ≤ length fds → slots n (fds ++ more) ≡ slots n fds
unfolding slots
slots-append zero fds more le = refl
slots-append (suc n) [] more le = absurd (omega arith)
slots-append (suc n) (f ∷ fds) more le = ap (λ t. f ∷ t) (slots-append n fds more (omega arith))

-- What an event other than an accepted client does to the table, and to the number of threads.
abbrev pub Keeps : Chat → Chat × List Call → Type 0
Keeps s r = (r.0.client_sockets ≡ s.client_sockets) × (length r.0.handlers ≡ length s.handlers)

pub handle_received-Keeps :
    (s : Chat) (t : ℕ) (h : Handler) (p : Phase) (b : Option (List ℕ))
    → Holds (Keeps s) (handle_received s t h p b)
unfolding handle_received
handle_received-Keeps s t h naming none = (refl, length-set _ _ _)
handle_received-Keeps s t h naming (some b) = elim (Option-cases (register s.clients h.fd b h.ip)) [
  | inl e ↦ rw (e, Holds) (refl, length-set _ _ _)
  | inr (r, e) ↦ rw (e, Holds) (refl, length-set _ _ _)
]
handle_received-Keeps s t h (chatting i) none = (refl, length-set _ _ _)
handle_received-Keeps s t h (chatting i) (some b) =
    Holds-bind (Keeps s) (get_elem? s.clients i) _ (λ c e. (refl, refl))
handle_received-Keeps s t h (leaving i) b = tt
handle_received-Keeps s t h finished b = tt

pub handle_cleared-Keeps :
    (s : Chat) (t : ℕ) (h : Handler) (p : Phase) → Holds (Keeps s) (handle_cleared s t h p)
unfolding handle_cleared
handle_cleared-Keeps s t h naming = tt
handle_cleared-Keeps s t h (chatting i) = tt
handle_cleared-Keeps s t h (leaving i) =
    Holds-bind (Keeps s) (get_elem? s.clients i) _ (λ c e. (refl, length-set _ _ _))
handle_cleared-Keeps s t h finished = tt

-- The table holds the first ten sockets of `fds`, and so many threads there are.
pub record Holding (fds : List ℕ) (s : Chat) : Type 0 where
  pub table : s.client_sockets ≡ slots max_clients fds
  pub nonzero : NoNul fds
  pub threads : length s.handlers ≡ min max_clients (length fds)

Holding-Keeps :
    (fds : List ℕ) (s : Chat) (r : Chat × List Call) → Holding fds s → Keeps s r → Holding fds r.0
Holding-Keeps fds s r h k = record {
  table = k.0 ∙ h.table;
  nonzero = h.nonzero;
  threads = k.1 ∙ h.threads;
}

handle_accepted-Holding :
    (fds : List ℕ) (s : Chat) (fd : ℕ) (ip : List ℕ)
    → Holding fds s
    → fd ≢ 0
    → Holding (fds ++ fd ∷ []) (handle_accepted s fd ip).0
unfolding handle_accepted
handle_accepted-Holding fds s fd ip h nz = elim (lt_or_le (length fds) max_clients) [
  | inl lt ↦
      let added =
        ap (λ ss. add_socket ss fd) h.table
        ∙ add_socket-slots_free max_clients fds fd h.nonzero lt in
      rw (added, handle_accepted)
        (record {
          table = refl;
          nonzero = NoNul-append fds (fd ∷ []) h.nonzero (nz, tt);
          threads = omega (
            arith,
            h.threads,
            length-append fds (fd ∷ []),
            length-append s.handlers (record { fd = fd; ip = ip; phase = naming } ∷ []),
          );
        })
  | inr le ↦
      let full =
        ap (λ ss. add_socket ss fd) h.table
        ∙ add_socket-slots_full max_clients fds fd h.nonzero le in
      rw (full, handle_accepted)
        (record {
          table = h.table ∙ sym (slots-append max_clients fds (fd ∷ []) le);
          nonzero = NoNul-append fds (fd ∷ []) h.nonzero (nz, tt);
          threads = omega (arith, h.threads, length-append fds (fd ∷ []));
        })
]
  where
    lt_or_le : (a b : ℕ) → (a < b) ⊎ (b ≤ a)
    lt_or_le a b = omega arith

pub step-Holding :
    (fds : List ℕ) (s : Chat) (e : Event)
    → Holding fds s
    → Holds (λ r. Holding (fds ++ accepted_fds (e ∷ [])) r.0) (step s e)
unfolding step accepted_fds
step-Holding fds s (accepted fd ip) h =
    Holds-if _ (fd == 0 || in_use s.handlers fd) _ _ (λ e. tt)
      (λ e. handle_accepted-Holding fds s fd ip h (nonzero e))
  where
    nonzero : (fd == 0 || in_use s.handlers fd) ≡ false → fd ≢ 0
    nonzero e = ground arith
step-Holding fds s accept_failed h = rw (append-nil fds) h
step-Holding fds s (received t b) h = rw (append-nil fds) (
    Holds-if _ (can_receive b) _ _
      (λ e. Holds-bind _ (get_elem? s.handlers t) _ (λ hd e.
        Holds-map (Keeps s) _ (handle_received s t hd hd.phase b) (λ r k. Holding-Keeps fds s r h k)
          (handle_received-Keeps s t hd hd.phase b)))
      (λ e. tt))
step-Holding fds s (cleared t) h = rw (append-nil fds) (
    Holds-bind _ (get_elem? s.handlers t) _ (λ hd e.
      Holds-map (Keeps s) _ (handle_cleared s t hd hd.phase) (λ r k. Holding-Keeps fds s r h k)
        (handle_cleared-Keeps s t hd hd.phase)))
