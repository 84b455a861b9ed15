-- ===== src/Chat/Laws.antt =====
-- Runs of the server of SocketServer.c: its table of sockets, and who gets a message.
use c_network_tools.Base.{
  ℕ, zero, suc, ◌≤◌, ◌≡◌, ◌≢◌, refl, ap, ◌∙◌, sym, List, [], ◌∷◌, ◌++◌, Option, some, ◌==◌, length,
  append_assoc, append-nil, NoNul, arith, false, if◌then◌else◌, ◌>>=◌, take, map, Holds, Holds-some,
  Holds-then,
}
use c_network_tools.Chat.{
  Event, accepted, accept_failed, received, cleared, Chat, Call, sent, closed, add_socket,
  broadcast_message, step, run, start, handle_accepted, in_use, max_clients,
}
use c_network_tools.Chat.Slots.{slots, accepted_fds, add_socket-slots_full, Holding, step-Holding}

accepted_fds-cons :
    (e : Event) (es : List Event) → accepted_fds (e ∷ es) ≡ accepted_fds (e ∷ []) ++ accepted_fds es
unfolding accepted_fds
accepted_fds-cons (accepted fd ip) es = refl
accepted_fds-cons accept_failed es = refl
accepted_fds-cons (received t b) es = refl
accepted_fds-cons (cleared t) es = refl

-- Of a step and the run behind it; `P` and `Q` are about the states.
pub Holds-step :
    (P Q : Chat → Type 0) (o : Option (Chat × List Call))
    (f : Chat × List Call → Option (Chat × List Call))
    → Holds (λ (r : Chat × List Call). P r.0) o
    → ((r : Chat × List Call) → P r.0 → Holds (λ (r' : Chat × List Call). Q r'.0) (f r))
    → Holds (λ (r : Chat × List Call). Q r.0) (o >>= λ r. f r >>= λ r'. some (r'.0, r.1 ++ r'.1))
Holds-step P Q o f h k =
    Holds-then (λ (r : Chat × List Call). P r.0) (λ (r : Chat × List Call). Q r.0) o _ h
      (λ r p.
        Holds-then (λ (r : Chat × List Call). Q r.0) (λ (r : Chat × List Call). Q r.0) (f r) _
          (k r p) (λ r' q. q))

run-Holding :
    (fds : List ℕ) (s : Chat) (es : List Event)
    → Holding fds s
    → Holds (λ (r : Chat × List Call). Holding (fds ++ accepted_fds es) r.0) (run s es)
unfolding run
run-Holding fds s [] h = unfold accepted_fds in rw (append-nil fds) h
run-Holding fds s (e ∷ es) h =
    rw (accepted_fds-cons e es, sym (append_assoc fds (accepted_fds (e ∷ [])) (accepted_fds es)))
      (Holds-step (Holding (fds ++ accepted_fds (e ∷ [])))
        (Holding ((fds ++ accepted_fds (e ∷ [])) ++ accepted_fds es)) (step s e) (λ r. run r.0 es)
        (step-Holding fds s e h) (λ r k. run-Holding (fds ++ accepted_fds (e ∷ [])) r.0 es k))

pub reached-Holding :
    (es : List Event) (s : Chat) (calls : List Call)
    → run start es ≡ some (s, calls)
    → Holding (accepted_fds es) s
reached-Holding es s calls e =
    Holds-some _ (run start es) (s, calls) e (run-Holding [] start es at_start)
  where
    at_start : Holding [] start
    at_start = unfold slots in record { table = refl; nonzero = tt; threads = refl }

-- After ten accepted clients, whatever became of them, the server closes the socket of every
-- further client at once and does nothing else.
pub full_for_ever :
    (es : List Event) (s : Chat) (calls : List Call) (fd : ℕ) (ip : List ℕ)
    → run start es ≡ some (s, calls)
    → max_clients ≤ length (accepted_fds es)
    → fd ≢ 0
    → in_use s.handlers fd ≡ false
    → step s (accepted fd ip) ≡ some (s, closed fd ∷ [])
unfolding step handle_accepted
full_for_ever es s calls fd ip e full nz free =
    let h = reached-Holding es s calls e in
    let no_place =
      ap (λ ss. add_socket ss fd) h.table
      ∙ add_socket-slots_full max_clients (accepted_fds es) fd h.nonzero full in
    let client : (fd == 0) ≡ false = ground (arith, nz) in
    rw (free, client) (rw (no_place, handle_accepted) refl)

-- The sockets other than one.
abbrev pub others : ℕ → List ℕ → List ℕ
others x [] = []
others x (fd ∷ fds) = let rest = others x fds in if fd == x then rest else fd ∷ rest

broadcast_message-slots_none :
    (n sender : ℕ) (message : List ℕ) → broadcast_message (slots n []) sender message ≡ []
unfolding broadcast_message slots
broadcast_message-slots_none zero sender m = refl
broadcast_message-slots_none (suc n) sender m = broadcast_message-slots_none n sender m

pub broadcast_message-slots :
    (n : ℕ) (fds : List ℕ) (sender : ℕ) (message : List ℕ)
    → NoNul fds
    → broadcast_message (slots n fds) sender message
      ≡ map (λ fd. sent fd message) (others sender (take n fds))
unfolding broadcast_message slots
broadcast_message-slots zero fds sender m h = refl
broadcast_message-slots (suc n) [] sender m h = broadcast_message-slots_none n sender m
broadcast_message-slots (suc n) (fd ∷ fds) sender m h =
    ground (arith, h.0, broadcast_message-slots n fds sender m h.1)
