-- ===== src/Chat/Threads/Listening.antt =====
-- Every step of `main` is explained.
use c_network_tools.Base.{
  ℕ, ◌≡◌, refl, ap, ◌∙◌, sym, false, List, [], ◌∷◌, ◌++◌, some, none, map, ◌==◌, ◌||◌, append-nil,
  inl, inr, Holds, Holds-if, Option-cases,
}
use mathlib.Core.Path.{subst}
use mathlib.Core.List.{map-append}
use c_network_tools.Chat.{
  Chat, ClientInfo, Handler, Phase, Call, sent, closed, broadcast_message, can_receive,
  format_message, register, max_clients, add_socket,
}
use c_network_tools.Chat
use c_network_tools.Chat.Records.{get_elem?-snoc}
use c_network_tools.Chat.Threads.{
  naming, Thread, Main, accepting, holding, rejecting, starting, Server, is_locked, accept,
  continue_main, in_use,
}
use c_network_tools.Chat.Threads.View.{shown, handler_of, in_use-shown}
use c_network_tools.Chat.Threads.Explained.{
  Carries, Explained, Explained-silent, Explained-step, unsent,
}
use c_network_tools.Chat.Threads.Commits.{unlocked, After}

module _ (s : Server) (calls : List Call) where
  pub accept-Explained :
      (fd : ℕ) (ip : List ℕ) (m : Main)
      → Explained (record s { main = m }) calls
      → (fd == 0 || in_use s.threads fd) ≡ false
      → Holds (λ s'. Explained s' (calls ++ [])) (accept s fd ip m)
  unfolding accept
  accept-Explained fd ip accepting x fresh =
      Explained-silent (record s { main = accepting }) (record s { main = holding fd ip }) calls []
        x x.carried
        (ap (λ b. fd == 0 || b)
            (ap (λ hs. Chat.in_use hs fd) (append-nil (map handler_of s.threads))
              ∙ sym (in_use-shown s.threads fd))
          ∙ fresh)
        refl refl refl
  accept-Explained fd ip (holding fd' ip') x fresh = tt
  accept-Explained fd ip (rejecting fd' ip') x fresh = tt
  accept-Explained fd ip (starting fd' ip') x fresh = tt

  adds :
      (fd : ℕ) (ip ss : List ℕ)
      → Explained (record s { main = holding fd ip }) calls
      → add_socket s.client_sockets fd ≡ some ss
      → s.lock ≡ none
      → Explained (record s { client_sockets = ss; main = starting fd ip }) (calls ++ [])
  unfolding Chat.step Chat.handle_accepted
  adds fd ip ss x added free =
      Explained-step (record s { main = holding fd ip })
        (record s { client_sockets = ss; main = starting fd ip }) calls [] x x.carried tt
        (Chat.accepted fd ip) []
        (rw (x.socket, added, Chat.handle_accepted)
          (ap
            (λ hs. some (
              record {
                client_sockets = ss;
                clients = s.clients;
                handlers = hs ++ record { fd = fd; ip = ip; phase = Phase.naming } ∷ [];
              },
              [],
            ))
            (append-nil (map handler_of s.threads))))
        (rw free refl) refl

  rejects :
      (fd : ℕ) (ip : List ℕ)
      → Explained (record s { main = rejecting fd ip }) calls
      → Explained (record s { main = accepting }) (calls ++ closed fd ∷ [])
  unfolding Chat.step Chat.handle_accepted
  rejects fd ip x =
      Explained-step (record s { main = rejecting fd ip }) (record s { main = accepting }) calls
        (closed fd ∷ []) x x.carried tt (Chat.accepted fd ip) (closed fd ∷ [])
        (rw (x.socket.0, x.socket.1, Chat.handle_accepted) refl)
        (append-nil (unsent s.client_sockets s.lock)) refl

  starts :
      (fd : ℕ) (ip : List ℕ)
      → Explained (record s { main = starting fd ip }) calls
      → Explained
          (record s {
            threads = s.threads ++ record { fd = fd; ip = ip; place = naming } ∷ [];
            main = accepting;
          })
          (calls ++ [])
  starts fd ip x =
      let new : Thread = record { fd = fd; ip = ip; place = naming } in
      Explained-silent (record s { main = starting fd ip })
        (record s { threads = s.threads ++ new ∷ []; main = accepting }) calls [] x
        (λ t h e. elim (get_elem?-snoc s.threads new h t e) [
          | inl before ↦ x.carried t h before
          | inr is_new ↦ subst (λ (h : Thread). Carries s.clients h.place) is_new tt
        ])
        tt
        (ap (λ hs. record (shown s) { handlers = hs })
          (append-nil (map handler_of (s.threads ++ new ∷ []))
            ∙ map-append handler_of s.threads (new ∷ [])))
        refl refl

  pub continue_main-Explained :
      (m : Main) → Explained (record s { main = m }) calls → Holds (After calls) (continue_main s m)
  unfolding continue_main
  continue_main-Explained accepting x = tt
  continue_main-Explained (holding fd ip) x =
      Holds-if (After calls) (is_locked s.lock) _ _ (λ e. tt)
        (λ e. elim (Option-cases (add_socket s.client_sockets fd)) [
          | inl full ↦
              rw (full, Holds)
                (Explained-silent (record s { main = holding fd ip })
                  (record s { main = rejecting fd ip }) calls [] x x.carried (x.socket, full) refl
                  refl refl)
          | inr (ss, added) ↦ rw (added, Holds) (adds fd ip ss x added (unlocked s.lock e))
        ])
  continue_main-Explained (rejecting fd ip) x = rejects fd ip x
  continue_main-Explained (starting fd ip) x = starts fd ip x
