-- ===== src/Chat/Threads/Commits.antt =====
-- The steps of a thread that Chat takes too, and those that do not show.
use c_network_tools.Base.{
  ℕ, zero, suc, ◌≡◌, refl, ap, ap₂, ◌∙◌, sym, true, false, List, [], ◌∷◌, ◌++◌, Option, some, none,
  arith, get_elem?, set, ◌==◌, ◌&&◌, append-nil, drop, not, if◌then◌else◌, Holds-some,
}
use mathlib.Core.Path.{subst}
use mathlib.Core.Option.{some-injective}
use c_network_tools.Chat.{
  Chat, ClientInfo, Handler, Phase, Call, sent, closed, broadcast_message, add_socket, can_receive,
  format_message, register, max_clients,
}
use c_network_tools.Chat
use c_network_tools.Chat.Records.{index, Owned-apart, get_elem?-set_other}
use c_network_tools.Chat.Owned.{reached-Owned, Takes, register-Takes}
use c_network_tools.Chat.Threads.{
  Place, named, sending, leaving, greeting, parting, Notice, speaking, Thread, Broadcast, Server,
  go, is_locked,
}
use c_network_tools.Chat.Threads.View.{
  shown, phase_of, handler_of, shown-thread, shown-go, shown-go_same, sends, closes,
}
use c_network_tools.Chat.Threads.Explained.{
  Carries, Explained, Explained-silent, Explained-step, unsent,
}
use c_network_tools.Chat.Threads.Moves.{carried-go, socket-go}

pub unlocked : (l : Option Broadcast) → is_locked l ≡ false → l ≡ none
unlocked none e = refl
unlocked (some b) e = cc

sends-broadcast_message :
    (ss : List ℕ) (fd : ℕ) (m : List ℕ)
    → sends (broadcast_message ss fd m) ≡ broadcast_message ss fd m
unfolding broadcast_message
sends-broadcast_message [] fd m = refl
sends-broadcast_message (s ∷ ss) fd m = ground (arith, sends-broadcast_message ss fd m)

closes-broadcast_message :
    (ss : List ℕ) (fd : ℕ) (m : List ℕ) → closes (broadcast_message ss fd m) ≡ []
unfolding broadcast_message
closes-broadcast_message [] fd m = refl
closes-broadcast_message (s ∷ ss) fd m = ground (arith, closes-broadcast_message ss fd m)

-- One round of `broadcastMessage` sends the first of what is left.
pub broadcast_round :
    (ss : List ℕ) (k s fd : ℕ) (m : List ℕ)
    → get_elem? ss k ≡ some s
    → broadcast_message (drop k ss) fd m
      ≡ (if not (s == 0) && not (s == fd) then sent s m ∷ [] else [])
        ++ broadcast_message (drop (suc k) ss) fd m
unfolding broadcast_message
broadcast_round [] k s fd m e = cc
broadcast_round (x ∷ ss) zero s fd m e = ground (arith, some-injective x s e)
broadcast_round (x ∷ ss) (suc k) s fd m e = broadcast_round ss k s fd m e

abbrev pub After : List Call → Server × List Call → Type 0
After calls r = Explained r.0 (calls ++ r.1)

module _ (s : Server) (calls : List Call) (x : Explained s calls) (t : ℕ) (h : Thread)
    (found : get_elem? s.threads t ≡ some h) where
  -- What Chat does with what the thread has received.
  handled :
      (p : Phase) (b : Option (List ℕ))
      → phase_of h.place ≡ p
      → can_receive b ≡ true
      → Chat.step (shown s) (Chat.received t b)
        ≡ Chat.handle_received (shown s) t (handler_of h) p b
  unfolding Chat.step
  handled p b is fits = rw (fits, shown-thread s t h found, is) refl

  -- Within one phase, with the tables as they are.
  pub silent :
      (place : Place) (notices : List Notice)
      → phase_of place ≡ phase_of h.place
      → Carries s.clients place
      → Explained (record (go s t h place) { notices = notices }) (calls ++ [])
  silent place notices same carries =
      Explained-silent s (record (go s t h place) { notices = notices }) calls [] x
        (carried-go s calls x t h found place s.clients carries (λ t' i k other e y. refl))
        (socket-go s calls x t h found place s.clients
          (λ opens. ap Chat.is_open (sym same) ∙ opens))
        (shown-go_same s t h found place same) refl refl

  -- The `close` of a client that has gone, from a phase into another.
  pub hangs_up :
      (p : Phase) (place : Place)
      → phase_of h.place ≡ p
      → Chat.is_open p ≡ true
      → Carries s.clients place
      → Chat.handle_received (shown s) t (handler_of h) p none
        ≡ some (Chat.move (shown s) t (handler_of h) (phase_of place), closed h.fd ∷ [])
      → Explained (go s t h place) (calls ++ closed h.fd ∷ [])
  hangs_up p place is opens carries does =
      Explained-step s (go s t h place) calls (closed h.fd ∷ []) x
        (carried-go s calls x t h found place s.clients carries (λ t' i k other e y. refl))
        (socket-go s calls x t h found place s.clients (λ o. ap Chat.is_open is ∙ opens))
        (Chat.received t none) (closed h.fd ∷ [])
        (handled p none is refl
          ∙ does
          ∙ ap (λ r. some (r, closed h.fd ∷ [])) (sym (shown-go s t h found place)))
        (append-nil (unsent s.client_sockets s.lock)) refl

  pub registers :
      (buffer : List ℕ) (cs : List ClientInfo) (i : ℕ)
      → h.place ≡ named buffer
      → register s.clients h.fd buffer h.ip ≡ some (cs, i)
      → Explained (go (record s { clients = cs }) t h (greeting i)) (calls ++ [])
  unfolding Chat.handle_received Chat.is_open
  registers buffer cs i is made =
      let (c, there, free, written) =
        Holds-some (Takes s.clients h.fd buffer h.ip) _ (cs, i) made
          (register-Takes s.clients h.fd buffer h.ip) in
      Explained-step s (go (record s { clients = cs }) t h (greeting i)) calls [] x
        (carried-go s calls x t h found (greeting i) cs tt (λ t' j k other e y.
          ap (λ cs. get_elem? cs j) written
          ∙ get_elem?-set_other s.clients i j _ (
              Owned-apart (shown s) t' i j (handler_of k) c
                (reached-Owned x.events (shown s) x.told x.ran) there free (shown-thread s t' k e)
                y)))
        (socket-go s calls x t h found (greeting i) cs
          (λ o. ap (λ p. Chat.is_open (phase_of p)) is))
        (Chat.received t (some buffer)) []
        (handled Phase.naming (some buffer) (ap phase_of is)
            (subst (Carries s.clients) is (x.carried t h found))
          ∙ rw (made, Chat.handle_received)
              (ap (λ r. some (r, []))
                (sym (shown-go (record s { clients = cs }) t h found (greeting i)))))
        (append-nil (unsent s.client_sockets s.lock)) refl

  -- `broadcastMessage` takes the mutex: all that it will send is said at once.
  pub speaks :
      (i : ℕ) (message : List ℕ)
      → h.place ≡ speaking i message
      → s.lock ≡ none
      → Explained
          (record (go s t h (sending i)) {
            lock = some (record { thread = t; sender_fd = h.fd; message = message; next = 0 });
          })
          (calls ++ [])
  unfolding Chat.handle_received Chat.is_open
  speaks i message is free =
      let (buffer, c, fits, there, made) = subst (Carries s.clients) is (x.carried t h found) in
      let said = broadcast_message s.client_sockets h.fd message in
      Explained-step s
        (record (go s t h (sending i)) {
          lock = some (record { thread = t; sender_fd = h.fd; message = message; next = 0 });
        })
        calls [] x
        (carried-go s calls x t h found (sending i) s.clients tt (λ t' i k other e y. refl))
        (socket-go s calls x t h found (sending i) s.clients
          (λ o. ap (λ p. Chat.is_open (phase_of p)) is))
        (Chat.received t (some buffer)) said
        (handled (Phase.chatting i) (some buffer) (ap phase_of is) fits
          ∙ rw (there, Chat.handle_received)
              (ap₂ (λ r m. some (r, broadcast_message s.client_sockets h.fd m))
                (sym (shown-go_same s t h found (sending i) (sym (ap phase_of is)))) (sym made)))
        (ap (λ l. unsent s.client_sockets l ++ sends said) free
          ∙ sends-broadcast_message s.client_sockets h.fd message)
        (closes-broadcast_message s.client_sockets h.fd message)

  -- The end of `handleClient`.
  pub clears :
      (i : ℕ) (c : ClientInfo)
      → h.place ≡ leaving i
      → get_elem? s.clients i ≡ some c
      → Explained
          (go (record s { clients = set s.clients i (record c { socket = 0 }) }) t h (parting i))
          (calls ++ [])
  unfolding Chat.step Chat.handle_cleared Chat.is_open
  clears i c is there =
      let cs = set s.clients i (record c { socket = 0 }) in
      Explained-step s (go (record s { clients = cs }) t h (parting i)) calls [] x
        (carried-go s calls x t h found (parting i) cs tt (λ t' j k other e y.
          get_elem?-set_other s.clients i j _ (λ same. other (
            (reached-Owned x.events (shown s) x.told x.ran).alone t t' i (handler_of h)
              (handler_of k) (shown-thread s t h found) (shown-thread s t' k e)
              (ap (λ p. index (phase_of p)) is) (y ∙ ap some (sym same))))))
        (socket-go s calls x t h found (parting i) cs (λ o. cc)) (Chat.cleared t) []
        (rw (shown-thread s t h found, is, there, Chat.handle_cleared)
          (ap (λ r. some (r, []))
            (sym (shown-go (record s { clients = cs }) t h found (parting i)))))
        (append-nil (unsent s.client_sockets s.lock)) refl
