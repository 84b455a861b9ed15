-- ===== src/Chat/Threads/Balance.antt =====
-- What the calls of `broadcastMessage` owe is sent, in every run of the threads.
use c_network_tools.Base.{
  ℕ, ◌≡◌, refl, ap, ap₂, ◌∙◌, sym, List, [], ◌∷◌, ◌++◌, Option, some, none, arith, get_elem?, ◌==◌,
  ◌||◌, ◌>>=◌, inl, inr, ltb, append_assoc, append-nil, Holds, Holds-if, Holds-bind, Holds-then,
  Option-cases, Holds-some,
}
use c_network_tools.Chat.{
  Call, broadcast_message, register, add_socket, can_receive, max_clients, sent, closed,
}
use c_network_tools.Chat.Inbox.{inbox, inbox-append}
use c_network_tools.Chat.Threads.{
  Place, naming, refused, finished, named, greeting, chatting, sending, ended, leaving, parting,
  heard, speaking, Thread, Main, accepting, holding, rejecting, starting, Broadcast, Server, Event,
  accepted, accept_failed, main_continues, received, continues, is_locked, broadcast_next, continue,
  receive, accept, continue_main, in_use, is_accepting, step, run, start,
}
use c_network_tools.Chat.Threads.View.{sends, sends-append}
use c_network_tools.Chat.Threads.Explained.{Explained, unsent}
use c_network_tools.Chat.Threads.Commits.{unlocked, After}
use c_network_tools.Chat.Threads.Handler.{unsent-round, nothing_left}
use c_network_tools.Chat.Threads.Exclusion.{Untouched, receive-Untouched, accept-Untouched}
use c_network_tools.Chat.Threads.Laws.{step-Explained, start-Explained}
use c_network_tools.Chat.Threads.Spoken.{
  Utterance, begun, begun_in, begun_by, spoken, heard_by, broadcasts, inbox-broadcasts,
  broadcasts-append,
}

-- What is owed before and what is begun is sent, or is owed behind.
abbrev pub Balanced : Server → List Utterance → Server × List Call → Type 0
Balanced s us (s', more) =
    unsent s.client_sockets s.lock ++ broadcasts us ≡ sends more ++ unsent s'.client_sockets s'.lock

Untouched-Balanced : (s : Server) (r : Server × List Call) → Untouched s r → Balanced s [] r
Untouched-Balanced s (s', more) (tables, records, same, none_sent) =
    append-nil (unsent s.client_sockets s.lock)
    ∙ sym (ap₂ unsent tables same)
    ∙ ap (λ t. t ++ unsent s'.client_sockets s'.lock) (sym none_sent)

module _ (s : Server) (calls : List Call) (x : Explained s calls) (t : ℕ) (h : Thread)
    (found : get_elem? s.threads t ≡ some h) where
  rests : unsent s.client_sockets s.lock ++ [] ≡ unsent s.client_sockets s.lock
  rests = append-nil (unsent s.client_sockets s.lock)

  sending-Balanced :
      (i : ℕ) (b : Broadcast) → s.lock ≡ some b → Holds (Balanced s []) (broadcast_next s t h i b)
  unfolding broadcast_next
  sending-Balanced i b held =
      Holds-if (Balanced s []) (ltb b.next max_clients) _ _
        (λ lt. Holds-bind (Balanced s []) (get_elem? s.client_sockets b.next) _ (λ fd at.
          rests ∙ ap (unsent s.client_sockets) held ∙ unsent-round s.client_sockets b fd at))
        (λ ge.
          rests
          ∙ ap (unsent s.client_sockets) held
          ∙ nothing_left s calls x t h found b (ground arith))

  continue-Balanced : (p : Place) → Holds (Balanced s (begun s h p)) (continue s t h p)
  unfolding continue
  continue-Balanced naming = tt
  continue-Balanced (named buffer) =
      Holds-if (Balanced s []) (is_locked s.lock) _ _ (λ e. tt)
        (λ e. elim (Option-cases (register s.clients h.fd buffer h.ip)) [
          | inl full ↦ rw (full, Holds) rests
          | inr ((cs, i), made) ↦ rw (made, Holds) rests
        ])
  continue-Balanced refused = rests
  continue-Balanced (greeting i) =
      Holds-bind (Balanced s []) (get_elem? s.clients i) _ (λ c there. rests)
  continue-Balanced (chatting i) = tt
  continue-Balanced (heard i buffer) =
      Holds-bind (Balanced s []) (get_elem? s.clients i) _ (λ c there. rests)
  continue-Balanced (speaking i message) =
      Holds-if (Balanced s (begun s h (speaking i message))) (is_locked s.lock) _ _ (λ e. tt)
        (λ e.
          ap (λ l. unsent s.client_sockets l ++ broadcasts (begun s h (speaking i message)))
            (unlocked s.lock e)
          ∙ append-nil (broadcast_message s.client_sockets h.fd message))
  continue-Balanced (sending i) =
      Holds-bind (Balanced s []) s.lock _ (λ b held. sending-Balanced i b held)
  continue-Balanced (ended i) = rests
  continue-Balanced (leaving i) =
      Holds-if (Balanced s []) (is_locked s.lock) _ _ (λ e. tt)
        (λ e. Holds-bind (Balanced s []) (get_elem? s.clients i) _ (λ c there. rests))
  continue-Balanced (parting i) =
      Holds-bind (Balanced s []) (get_elem? s.clients i) _ (λ c there. rests)
  continue-Balanced finished = tt

continue_main-Balanced : (s : Server) (p : Main) → Holds (Balanced s []) (continue_main s p)
unfolding continue_main
continue_main-Balanced s accepting = tt
continue_main-Balanced s (holding fd ip) =
    Holds-if (Balanced s []) (is_locked s.lock) _ _ (λ e. tt)
      (λ e.
        let free = unlocked s.lock e in
        elim (Option-cases (add_socket s.client_sockets fd)) [
          | inl full ↦ rw (full, Holds) (append-nil (unsent s.client_sockets s.lock))
          | inr (ss, added) ↦ rw (added, Holds) (rw free refl)
        ])
continue_main-Balanced s (rejecting fd ip) = append-nil (unsent s.client_sockets s.lock)
continue_main-Balanced s (starting fd ip) = append-nil (unsent s.client_sockets s.lock)

thread-Balanced :
    (s : Server) (calls : List Call) (x : Explained s calls) (t : ℕ) (o : Option Thread)
    → get_elem? s.threads t ≡ o
    → Holds (Balanced s (begun_by s o)) (do h ← o; continue s t h h.place)
thread-Balanced s calls x t none gone = tt
thread-Balanced s calls x t (some h) found = continue-Balanced s calls x t h found h.place

step-Balanced :
    (s : Server) (calls : List Call) (e : Event)
    → Explained s calls
    → Holds (Balanced s (begun_in s e)) (step s e)
unfolding step
step-Balanced s calls (accepted fd ip) x =
    Holds-if (Balanced s []) (fd == 0 || in_use s.threads fd) _ _ (λ e. tt)
      (λ e.
        Holds-then (λ s'. Untouched s (s', [])) (Balanced s []) (accept s fd ip s.main) _
          (accept-Untouched s fd ip s.main) (λ s' u. Untouched-Balanced s (s', []) u))
step-Balanced s calls accept_failed x =
    Holds-if (Balanced s []) (is_accepting s.main) _ _
      (λ e. append-nil (unsent s.client_sockets s.lock)) (λ e. tt)
step-Balanced s calls main_continues x = continue_main-Balanced s s.main
step-Balanced s calls (received t r) x =
    Holds-if (Balanced s []) (can_receive r) _ _
      (λ e. Holds-bind (Balanced s []) (get_elem? s.threads t) _ (λ h found.
        Holds-then (λ s'. Untouched s (s', [])) (Balanced s []) (receive s t h h.place r) _
          (receive-Untouched s t h h.place r) (λ s' u. Untouched-Balanced s (s', []) u)))
      (λ e. tt)
step-Balanced s calls (continues t) x = thread-Balanced s calls x t (get_elem? s.threads t) refl

joins :
    (s s' s'' : Server) (us vs : List Utterance) (calls more : List Call)
    → Balanced s us (s', calls)
    → Balanced s' vs (s'', more)
    → Balanced s (us ++ vs) (s'', calls ++ more)
joins s s' s'' us vs calls more b b' =
    ap (λ t. unsent s.client_sockets s.lock ++ t) (broadcasts-append us vs)
    ∙ sym (append_assoc (unsent s.client_sockets s.lock) (broadcasts us) (broadcasts vs))
    ∙ ap (λ t. t ++ broadcasts vs) b
    ∙ append_assoc (sends calls) (unsent s'.client_sockets s'.lock) (broadcasts vs)
    ∙ ap (λ t. sends calls ++ t) b'
    ∙ sym (append_assoc (sends calls) (sends more) (unsent s''.client_sockets s''.lock))
    ∙ ap (λ t. t ++ unsent s''.client_sockets s''.lock) (sym (sends-append calls more))

rest-Balanced :
    (s : Server) (us : List Utterance) (es : List Event) (o : Option (Server × List Call))
    → Holds (Balanced s us) o
    → ((s' : Server) (calls : List Call)
        → o ≡ some (s', calls)
        → Holds (Balanced s' (spoken s' es)) (run s' es))
    → Holds
        (Balanced s (elim o [ none ↦ [] | some r ↦ us ++ spoken r.0 es ]))
        (do (s', calls) ← o; (s'', more) ← run s' es; some (s'', calls ++ more))
rest-Balanced s us es none b later = tt
rest-Balanced s us es (some (s', calls)) b later =
    Holds-then (Balanced s' (spoken s' es)) (Balanced s (us ++ spoken s' es)) (run s' es) _
      (later s' calls refl) (λ (s'', more) b'. joins s s' s'' us (spoken s' es) calls more b b')

run-Balanced :
    (s : Server) (calls : List Call) (es : List Event)
    → Explained s calls
    → Holds (Balanced s (spoken s es)) (run s es)
unfolding run spoken
run-Balanced s calls [] x = append-nil (unsent s.client_sockets s.lock)
run-Balanced s calls (e ∷ es) x =
    rest-Balanced s (begun_in s e) es (step s e) (step-Balanced s calls e x) (λ s' more taken.
      run-Balanced s' (calls ++ more) es
        (Holds-some (After calls) (step s e) (s', more) taken (step-Explained s calls e x)))

inbox-sends : (fd : ℕ) (calls : List Call) → inbox fd (sends calls) ≡ inbox fd calls
inbox-sends fd [] = refl
inbox-sends fd (sent to text ∷ calls) = ground (arith, inbox-sends fd calls)
inbox-sends fd (closed to ∷ calls) = inbox-sends fd calls

-- In every run of the threads each socket is sent the texts of the calls of `broadcastMessage`, in
-- the order in which these take the mutex, with a copy of each text for each place in which the
-- socket stands in `clientSockets` when the call takes it, and none if the socket is the sender's.
-- What the call in the mutex has yet to send counts as sent.
pub run-heard :
    (es : List Event) (s : Server) (calls : List Call)
    → run start es ≡ some (s, calls)
    → (fd : ℕ) → inbox fd (calls ++ unsent s.client_sockets s.lock) ≡ heard_by fd (spoken start es)
run-heard es s calls ran fd =
    let rest = unsent s.client_sockets s.lock in
    inbox-append fd calls rest
    ∙ ap (λ t. t ++ inbox fd rest) (sym (inbox-sends fd calls))
    ∙ sym (inbox-append fd (sends calls) rest)
    ∙ ap (inbox fd) (
        sym (
          Holds-some (Balanced start (spoken start es)) _ (s, calls) ran
            (run-Balanced start [] es start-Explained)))
    ∙ inbox-broadcasts fd (spoken start es)
