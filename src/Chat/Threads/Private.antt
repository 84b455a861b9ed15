-- ===== src/Chat/Threads/Private.antt =====
-- A thread reads its record without the mutex: until it gives it free, no other thread writes it.
use c_network_tools.Base.{
  ℕ, ◌≡◌, ◌≢◌, refl, ap, ◌∙◌, sym, List, [], some, ltb, get_elem?, ◌==◌, ◌||◌, inl, inr, Holds,
  Holds-if, Holds-bind, Holds-some, Holds-then, Option-cases,
}
use c_network_tools.Chat.{Call, register, add_socket, can_receive, max_clients}
use c_network_tools.Chat.Records.{index, Owned, Owned-apart, get_elem?-set_other}
use c_network_tools.Chat.Owned.{reached-Owned, Takes, register-Takes}
use c_network_tools.Chat.Threads.{
  Place, naming, refused, finished, named, chatting, sending, ended, leaving, greeting, parting,
  heard, speaking, Thread, Main, accepting, holding, rejecting, starting, broadcast_next, Server,
  Event, accepted, accept_failed, main_continues, received, continues, is_locked, continue, receive,
  accept, continue_main, in_use, is_accepting, step, run, start,
}
use c_network_tools.Chat.Threads.View.{shown, phase_of, handler_of, shown-thread}
use c_network_tools.Chat.Threads.Laws.{run-explained}
use c_network_tools.Chat.Threads.Exclusion.{Untouched, accept-Untouched, receive-Untouched}

-- The record `i` behind a step.
abbrev KeepsRecord : Server → ℕ → Server × List Call → Type 0
KeepsRecord s i r = get_elem? r.0.clients i ≡ get_elem? s.clients i

module _ (s : Server) (o : Owned (shown s)) (t i : ℕ) (h : Thread)
    (found : get_elem? s.threads t ≡ some h) (own : index (phase_of h.place) ≡ some i) where
  abbrev Spared : Server × List Call → Type 0
  Spared = KeepsRecord s i

  continue-Spared :
      (t' : ℕ) (k : Thread) (p : Place)
      → get_elem? s.threads t' ≡ some k
      → k.place ≡ p
      → t ≢ t'
      → Holds Spared (continue s t' k p)
  unfolding continue broadcast_next
  continue-Spared t' k naming there is other = tt
  continue-Spared t' k (named buffer) there is other =
      Holds-if Spared (is_locked s.lock) _ _ (λ e. tt)
        (λ e. elim (Option-cases (register s.clients k.fd buffer k.ip)) [
          | inl full ↦ rw (full, Holds) refl
          | inr ((cs, j), made) ↦
              let (c, at, free, written) =
                Holds-some (Takes s.clients k.fd buffer k.ip) _ (cs, j) made
                  (register-Takes s.clients k.fd buffer k.ip) in
              rw (made, Holds)
                (ap (λ cs. get_elem? cs i) written
                  ∙ get_elem?-set_other s.clients j i _ (
                      Owned-apart (shown s) t j i (handler_of h) c o at free
                        (shown-thread s t h found) own))
        ])
  continue-Spared t' k refused there is other = refl
  continue-Spared t' k (chatting j) there is other = tt
  continue-Spared t' k (heard j buffer) there is other =
      Holds-bind Spared (get_elem? s.clients j) _ (λ c e. refl)
  continue-Spared t' k (speaking j message) there is other =
      Holds-if Spared (is_locked s.lock) _ _ (λ e. tt) (λ e. refl)
  continue-Spared t' k (sending j) there is other = Holds-bind Spared s.lock _ (λ b held.
      Holds-if Spared (ltb b.next max_clients) _ _
        (λ lt. Holds-bind Spared (get_elem? s.client_sockets b.next) _ (λ fd e. refl)) (λ ge. refl))
  continue-Spared t' k (ended j) there is other = refl
  continue-Spared t' k (greeting j) there is other =
      Holds-bind Spared (get_elem? s.clients j) _ (λ c e. refl)
  continue-Spared t' k (parting j) there is other =
      Holds-bind Spared (get_elem? s.clients j) _ (λ c e. refl)
  continue-Spared t' k (leaving j) there is other =
      Holds-if Spared (is_locked s.lock) _ _ (λ e. tt)
        (λ e. Holds-bind Spared (get_elem? s.clients j) _ (λ c e.
          get_elem?-set_other s.clients j i _ (λ same. other (
            o.alone t t' i (handler_of h) (handler_of k) (shown-thread s t h found)
              (shown-thread s t' k there) own (ap (λ p. index (phase_of p)) is ∙ ap some same)))))
  continue-Spared t' k finished there is other = tt

  continue_main-Spared : (p : Main) → Holds Spared (continue_main s p)
  unfolding continue_main
  continue_main-Spared accepting = tt
  continue_main-Spared (holding fd ip) =
      Holds-if Spared (is_locked s.lock) _ _ (λ e. tt)
        (λ e. elim (Option-cases (add_socket s.client_sockets fd)) [
          | inl full ↦ rw (full, Holds) refl
          | inr (ss, added) ↦ rw (added, Holds) refl
        ])
  continue_main-Spared (rejecting fd ip) = refl
  continue_main-Spared (starting fd ip) = refl

  step-Spared : (e : Event) → e ≢ continues t → Holds Spared (step s e)
  unfolding step
  step-Spared (accepted fd ip) other =
      Holds-if Spared (fd == 0 || in_use s.threads fd) _ _ (λ e. tt)
        (λ e.
          Holds-then (λ s'. Untouched s (s', [])) Spared (accept s fd ip s.main) _
            (accept-Untouched s fd ip s.main) (λ s' u. ap (λ cs. get_elem? cs i) u.1))
  step-Spared accept_failed other = Holds-if Spared (is_accepting s.main) _ _ (λ e. refl) (λ e. tt)
  step-Spared main_continues other = continue_main-Spared s.main
  step-Spared (received t' r) other =
      Holds-if Spared (can_receive r) _ _
        (λ e. Holds-bind Spared (get_elem? s.threads t') _ (λ k there.
          Holds-then (λ s'. Untouched s (s', [])) Spared (receive s t' k k.place r) _
            (receive-Untouched s t' k k.place r) (λ s' u. ap (λ cs. get_elem? cs i) u.1)))
        (λ e. tt)
  step-Spared (continues t') other =
      Holds-bind Spared (get_elem? s.threads t') _ (λ k there.
        continue-Spared t' k k.place there refl (λ same. other (ap continues (sym same))))

-- In every state that the threads can reach, the record of a thread, from its registration until the
-- thread gives the record free, is left as it is by every step but the next statement of this
-- thread, so that until then the thread may read it without the mutex.
pub step-spared :
    (es : List Event) (s s' : Server) (calls more : List Call) (t i : ℕ) (h : Thread) (e : Event)
    → run start es ≡ some (s, calls)
    → get_elem? s.threads t ≡ some h
    → index (phase_of h.place) ≡ some i
    → e ≢ continues t
    → step s e ≡ some (s', more)
    → get_elem? s'.clients i ≡ get_elem? s.clients i
step-spared es s s' calls more t i h e ran found own other stepped =
    let (events, told, explained, _, _, _) = run-explained es s calls ran in
    Holds-some (KeepsRecord s i) (step s e) (s', more) stepped
      (step-Spared s (reached-Owned events (shown s) told explained) t i h found own e other)
