-- ===== src/Chat/Threads/Held.antt =====
-- `Mutex` in every run of the threads.
use c_network_tools.Base.{
  ℕ, ◌≡◌, refl, ap, false, List, [], ◌∷◌, Option, some, none, arith, get_elem?, ◌==◌, ◌||◌, inl,
  inr, ltb, Holds, Holds-if, Holds-bind, Holds-some, Holds-then, Option-cases,
}
use mathlib.Core.Option.{none-ne-some}
use c_network_tools.Chat.{Call, max_clients, register, add_socket, can_receive}
use c_network_tools.Chat.Threads.{
  Place, naming, refused, finished, named, chatting, sending, ended, leaving, greeting, parting,
  heard, speaking, Thread, Main, accepting, holding, rejecting, starting, Server, Event, accepted,
  accept_failed, main_continues, received, continues, go, is_locked, broadcast_next, continue,
  receive, accept, continue_main, in_use, is_accepting, step, run, start,
}
use c_network_tools.Chat.Threads.Commits.{unlocked}
use c_network_tools.Chat.Threads.Mutex.{
  is_sending, Mutex, Mutex-go, Mutex-append, Mutex-take, Mutex-release, Mutex-round,
}

-- What a step leaves behind.
abbrev Behind : Server × List Call → Type 0
Behind r = Mutex r.0.threads r.0.lock

module _ (s : Server) (m : Mutex s.threads s.lock) (t : ℕ) (h : Thread)
    (found : get_elem? s.threads t ≡ some h) where
  goes :
      (p : Place)
      → is_sending h.place ≡ false
      → is_sending p ≡ false
      → Mutex (go s t h p).threads s.lock
  goes p = Mutex-go s.threads s.lock m t h p found

  continue-Mutex : (p : Place) → h.place ≡ p → Holds Behind (continue s t h p)
  unfolding continue broadcast_next
  continue-Mutex naming is = tt
  continue-Mutex (named buffer) is =
      Holds-if Behind (is_locked s.lock) _ _ (λ e. tt)
        (λ e. elim (Option-cases (register s.clients h.fd buffer h.ip)) [
          | inl full ↦ rw (full, Holds) (goes refused (ap is_sending is) refl)
          | inr ((cs, i), made) ↦ rw (made, Holds) (goes (greeting i) (ap is_sending is) refl)
        ])
  continue-Mutex refused is = goes finished (ap is_sending is) refl
  continue-Mutex (chatting i) is = tt
  continue-Mutex (heard i buffer) is =
      Holds-bind Behind (get_elem? s.clients i) _
        (λ c there. goes (speaking i _) (ap is_sending is) refl)
  continue-Mutex (speaking i message) is =
      Holds-if Behind (is_locked s.lock) _ _ (λ e. tt)
        (λ e. Mutex-take s.threads s.lock m t i h _ found (unlocked s.lock e) refl (omega arith))
  continue-Mutex (sending i) is = Holds-bind Behind s.lock _ (λ b held.
      Holds-if Behind (ltb b.next max_clients) _ _
        (λ lt.
          Holds-bind Behind (get_elem? s.client_sockets b.next) _
            (λ fd at. Mutex-round s.threads s.lock m b held (ground arith)))
        (λ ge. Mutex-release s.threads s.lock m t h (chatting i) found (ap is_sending is) refl))
  continue-Mutex (ended i) is = goes (leaving i) (ap is_sending is) refl
  continue-Mutex (greeting i) is =
      Holds-bind Behind (get_elem? s.clients i) _
        (λ c there. goes (chatting i) (ap is_sending is) refl)
  continue-Mutex (parting i) is =
      Holds-bind Behind (get_elem? s.clients i) _ (λ c there. goes finished (ap is_sending is) refl)
  continue-Mutex (leaving i) is =
      Holds-if Behind (is_locked s.lock) _ _ (λ e. tt)
        (λ e.
          Holds-bind Behind (get_elem? s.clients i) _
            (λ c there. goes (parting i) (ap is_sending is) refl))
  continue-Mutex finished is = tt

  receive-Mutex :
      (p : Place) (b : Option (List ℕ))
      → h.place ≡ p
      → Holds (λ (s' : Server). Mutex s'.threads s'.lock) (receive s t h p b)
  unfolding receive
  receive-Mutex naming none is = goes refused (ap is_sending is) refl
  receive-Mutex naming (some buffer) is = goes (named buffer) (ap is_sending is) refl
  receive-Mutex (chatting i) none is = goes (ended i) (ap is_sending is) refl
  receive-Mutex (chatting i) (some buffer) is = goes (heard i buffer) (ap is_sending is) refl
  receive-Mutex refused b is = tt
  receive-Mutex finished b is = tt
  receive-Mutex (named buffer) b is = tt
  receive-Mutex (sending i) b is = tt
  receive-Mutex (ended i) b is = tt
  receive-Mutex (greeting i) b is = tt
  receive-Mutex (parting i) b is = tt
  receive-Mutex (leaving i) b is = tt
  receive-Mutex (heard i buffer) b is = tt
  receive-Mutex (speaking i message) b is = tt

continue_main-Mutex :
    (s : Server) (p : Main) → Mutex s.threads s.lock → Holds Behind (continue_main s p)
unfolding continue_main
continue_main-Mutex s accepting m = tt
continue_main-Mutex s (holding fd ip) m =
    Holds-if Behind (is_locked s.lock) _ _ (λ e. tt)
      (λ e. elim (Option-cases (add_socket s.client_sockets fd)) [
        | inl full ↦ rw (full, Holds) m
        | inr (ss, added) ↦ rw (added, Holds) m
      ])
continue_main-Mutex s (rejecting fd ip) m = m
continue_main-Mutex s (starting fd ip) m =
    Mutex-append s.threads s.lock m (record { fd = fd; ip = ip; place = naming }) refl

accept-Mutex :
    (s : Server) (fd : ℕ) (ip : List ℕ) (p : Main)
    → Mutex s.threads s.lock
    → Holds (λ (s' : Server). Mutex s'.threads s'.lock) (accept s fd ip p)
unfolding accept
accept-Mutex s fd ip accepting m = m
accept-Mutex s fd ip (holding fd' ip') m = tt
accept-Mutex s fd ip (rejecting fd' ip') m = tt
accept-Mutex s fd ip (starting fd' ip') m = tt

step-Mutex : (s : Server) (e : Event) → Mutex s.threads s.lock → Holds Behind (step s e)
unfolding step
step-Mutex s (accepted fd ip) m =
    Holds-if Behind (fd == 0 || in_use s.threads fd) _ _ (λ e. tt)
      (λ e.
        Holds-then (λ (s' : Server). Mutex s'.threads s'.lock) Behind (accept s fd ip s.main) _
          (accept-Mutex s fd ip s.main m) (λ s' m'. m'))
step-Mutex s accept_failed m = Holds-if Behind (is_accepting s.main) _ _ (λ e. m) (λ e. tt)
step-Mutex s main_continues m = continue_main-Mutex s s.main m
step-Mutex s (received t b) m =
    Holds-if Behind (can_receive b) _ _
      (λ e. Holds-bind Behind (get_elem? s.threads t) _ (λ h found.
        Holds-then (λ (s' : Server). Mutex s'.threads s'.lock) Behind (receive s t h h.place b) _
          (receive-Mutex s m t h found h.place b refl) (λ s' m'. m')))
      (λ e. tt)
step-Mutex s (continues t) m =
    Holds-bind Behind (get_elem? s.threads t) _
      (λ h found. continue-Mutex s m t h found h.place refl)

run-Mutex : (s : Server) (es : List Event) → Mutex s.threads s.lock → Holds Behind (run s es)
unfolding run
run-Mutex s [] m = m
run-Mutex s (e ∷ es) m =
    Holds-then Behind Behind (step s e) _ (step-Mutex s e m)
      (λ (s', calls) m'. Holds-then Behind Behind (run s' es) _ (run-Mutex s' es m') (λ r m''. m''))

pub reached-Mutex :
    (es : List Event) (s : Server) (calls : List Call)
    → run start es ≡ some (s, calls)
    → Mutex s.threads s.lock
reached-Mutex es s calls ran =
    Holds-some Behind _ (s, calls) ran
      (run-Mutex start es (record {
        held = λ b e. absurd (none-ne-some _ e);
        holder = λ t h e is. absurd (none-ne-some _ e);
      }))
