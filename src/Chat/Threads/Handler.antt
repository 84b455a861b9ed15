-- ===== src/Chat/Threads/Handler.antt =====
-- Every step of `handleClient` is explained.
use c_network_tools.Base.{
  ℕ, zero, suc, ◌≤◌, ◌≡◌, refl, ap, ◌∙◌, sym, Bool, true, false, List, [], ◌∷◌, ◌++◌, Option, some,
  none, arith, get_elem?, ◌==◌, ◌&&◌, drop, inl, inr, not, ltb, if◌then◌else◌, Holds, Holds-if,
  Holds-bind, Option-cases,
}
use mathlib.Core.Path.{subst}
use c_network_tools.Chat.{
  Chat, ClientInfo, Handler, Phase, Call, sent, closed, broadcast_message, can_receive,
  format_message, register, max_clients,
}
use c_network_tools.Chat
use c_network_tools.Chat.Slots.{slots}
use c_network_tools.Chat.Laws.{reached-Holding}
use c_network_tools.Chat.Threads.{
  Place, naming, refused, finished, named, chatting, sending, ended, leaving, greeting, parting,
  heard, speaking, Thread, Broadcast, Server, go, is_locked, broadcast_next, continue, receive,
}
use c_network_tools.Chat.Threads.View.{shown, phase_of, sends, closes, shown-go_same}
use c_network_tools.Chat.Threads.Explained.{Carries, Explained, Explained-silent, unsent}
use c_network_tools.Chat.Threads.Moves.{carried-go, socket-go}
use c_network_tools.Chat.Threads.Commits.{
  unlocked, broadcast_round, After, silent, hangs_up, registers, speaks, clears,
}

drop-slots : (n k : ℕ) (fds : List ℕ) → n ≤ k → drop k (slots n fds) ≡ []
unfolding slots
drop-slots zero zero fds le = refl
drop-slots zero (suc k) fds le = refl
drop-slots (suc n) zero fds le = absurd (omega arith)
drop-slots (suc n) (suc k) [] le = drop-slots n k [] (omega arith)
drop-slots (suc n) (suc k) (fd ∷ fds) le = drop-slots n k fds (omega arith)

sends_at_most_one :
    (b : Bool) (fd : ℕ) (m : List ℕ)
    → sends (if b then sent fd m ∷ [] else []) ≡ (if b then sent fd m ∷ [] else [])
sends_at_most_one true fd m = refl
sends_at_most_one false fd m = refl

closes_none : (b : Bool) (fd : ℕ) (m : List ℕ) → closes (if b then sent fd m ∷ [] else []) ≡ []
closes_none true fd m = refl
closes_none false fd m = refl

-- What is owed in front of a round.
pub unsent-round :
    (ss : List ℕ) (b : Broadcast) (fd : ℕ)
    → get_elem? ss b.next ≡ some fd
    → unsent ss (some b)
      ≡ sends (if not (fd == 0) && not (fd == b.sender_fd) then sent fd b.message ∷ [] else [])
        ++ unsent ss (some (record b { next = suc b.next }))
unsent-round ss b fd at =
    broadcast_round ss b.next fd b.sender_fd b.message at
    ∙ ap (λ c. c ++ unsent ss (some (record b { next = suc b.next })))
        (sym (sends_at_most_one (not (fd == 0) && not (fd == b.sender_fd)) fd b.message))

module _ (s : Server) (calls : List Call) (x : Explained s calls) (t : ℕ) (h : Thread)
    (found : get_elem? s.threads t ≡ some h) where
  -- Behind the last place nothing is left to send.
  pub nothing_left : (b : Broadcast) → max_clients ≤ b.next → unsent s.client_sockets (some b) ≡ []
  unfolding broadcast_message
  nothing_left b le =
      let holding = reached-Holding x.events (shown s) x.told x.ran in
      ap (λ ss. broadcast_message ss b.sender_fd b.message)
        (ap (drop b.next) holding.table ∙ drop-slots max_clients b.next _ le)

  broadcast_next-Explained :
      (i : ℕ) (b : Broadcast)
      → h.place ≡ sending i
      → s.lock ≡ some b
      → Holds (After calls) (broadcast_next s t h i b)
  unfolding broadcast_next
  broadcast_next-Explained i b is held =
      Holds-if (After calls) (ltb b.next max_clients) _ _
        (λ lt. Holds-bind (After calls) (get_elem? s.client_sockets b.next) _ (λ fd at.
          Explained-silent s (record s { lock = some (record b { next = suc b.next }) }) calls _ x
            x.carried x.socket refl
            (ap (unsent s.client_sockets) held ∙ unsent-round s.client_sockets b fd at)
            (closes_none (not (fd == 0) && not (fd == b.sender_fd)) fd b.message)))
        (λ ge.
          Explained-silent s (record (go s t h (chatting i)) { lock = none }) calls [] x
            (carried-go s calls x t h found (chatting i) s.clients tt (λ t' i k other e y. refl))
            (socket-go s calls x t h found (chatting i) s.clients
              (λ o. ap (λ p. Chat.is_open (phase_of p)) is ∙ o))
            (shown-go_same s t h found (chatting i) (sym (ap phase_of is)))
            (ap (unsent s.client_sockets) held ∙ nothing_left b (ground arith)) refl)

  pub continue-Explained : (p : Place) → h.place ≡ p → Holds (After calls) (continue s t h p)
  unfolding continue Chat.handle_received Chat.is_open
  continue-Explained naming is = tt
  continue-Explained (named buffer) is =
      Holds-if (After calls) (is_locked s.lock) _ _ (λ e. tt)
        (λ e. elim (Option-cases (register s.clients h.fd buffer h.ip)) [
          | inl full ↦
              rw (full, Holds)
                (silent s calls x t h found refused s.notices (sym (ap phase_of is)) tt)
          | inr ((cs, i), made) ↦
              rw (made, Holds) (registers s calls x t h found buffer cs i is made)
        ])
  continue-Explained refused is =
      hangs_up s calls x t h found Phase.naming finished (ap phase_of is) refl tt refl
  continue-Explained (chatting i) is = tt
  continue-Explained (heard i buffer) is =
      Holds-bind (After calls) (get_elem? s.clients i) _ (λ c there.
        silent s calls x t h found (speaking i (format_message c buffer)) s.notices
          (sym (ap phase_of is))
          (buffer, c, subst (Carries s.clients) is (x.carried t h found), there, refl))
  continue-Explained (speaking i message) is =
      Holds-if (After calls) (is_locked s.lock) _ _ (λ e. tt)
        (λ e. speaks s calls x t h found i message is (unlocked s.lock e))
  continue-Explained (sending i) is =
      Holds-bind (After calls) s.lock _ (λ b held. broadcast_next-Explained i b is held)
  continue-Explained (ended i) is =
      hangs_up s calls x t h found (Phase.chatting i) (leaving i) (ap phase_of is) refl tt refl
  continue-Explained (greeting i) is =
      Holds-bind (After calls) (get_elem? s.clients i) _
        (λ c there. silent s calls x t h found (chatting i) _ (sym (ap phase_of is)) tt)
  continue-Explained (parting i) is =
      Holds-bind (After calls) (get_elem? s.clients i) _
        (λ c there. silent s calls x t h found finished _ (sym (ap phase_of is)) tt)
  continue-Explained (leaving i) is =
      Holds-if (After calls) (is_locked s.lock) _ _ (λ e. tt)
        (λ e.
          Holds-bind (After calls) (get_elem? s.clients i) _
            (λ c there. clears s calls x t h found i c is there))
  continue-Explained finished is = tt

  pub receive-Explained :
      (p : Place) (b : Option (List ℕ))
      → h.place ≡ p
      → can_receive b ≡ true
      → Holds (λ s'. Explained s' (calls ++ [])) (receive s t h p b)
  unfolding receive
  receive-Explained naming none is fits =
      silent s calls x t h found refused s.notices (sym (ap phase_of is)) tt
  receive-Explained naming (some buffer) is fits =
      silent s calls x t h found (named buffer) s.notices (sym (ap phase_of is)) fits
  receive-Explained (chatting i) none is fits =
      silent s calls x t h found (ended i) s.notices (sym (ap phase_of is)) tt
  receive-Explained (chatting i) (some buffer) is fits =
      silent s calls x t h found (heard i buffer) s.notices (sym (ap phase_of is)) fits
  receive-Explained refused b is fits = tt
  receive-Explained finished b is fits = tt
  receive-Explained (named buffer) b is fits = tt
  receive-Explained (sending i) b is fits = tt
  receive-Explained (ended i) b is fits = tt
  receive-Explained (greeting i) b is fits = tt
  receive-Explained (parting i) b is fits = tt
  receive-Explained (leaving i) b is fits = tt
  receive-Explained (heard i buffer) b is fits = tt
  receive-Explained (speaking i message) b is fits = tt
