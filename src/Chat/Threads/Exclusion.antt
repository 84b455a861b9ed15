-- ===== src/Chat/Threads/Exclusion.antt =====
-- What the mutex is for: nobody else touches the tables or sends while it is held.
use c_network_tools.Base.{
  ℕ, ◌≡◌, ◌≢◌, refl, ap, ◌∙◌, sym, false, List, [], Option, some, none, get_elem?, ◌==◌, ◌||◌, inl,
  inr, Holds, Holds-if, Holds-bind, Holds-some, Holds-then, Bool-cases,
}
use mathlib.Core.Option.{some-injective, none-ne-some}
use c_network_tools.Chat.{Call, can_receive}
use c_network_tools.Chat.Threads.{
  Place, naming, refused, finished, named, chatting, sending, ended, leaving, greeting, parting,
  heard, speaking, Thread, Main, accepting, holding, rejecting, starting, Broadcast, Server, Event,
  accepted, accept_failed, main_continues, received, continues, is_locked, continue, receive,
  accept, continue_main, in_use, is_accepting, step, run, start,
}
use c_network_tools.Chat.Threads.Commits.{unlocked}
use c_network_tools.Chat.Threads.View.{sends}
use c_network_tools.Chat.Threads.Mutex.{is_sending, Mutex}
use c_network_tools.Chat.Threads.Held.{reached-Mutex}

-- The tables, the mutex and the messages of a step.
abbrev pub Untouched : Server → Server × List Call → Type 0
Untouched s (s', more) =
    (s'.client_sockets ≡ s.client_sockets)
    × (s'.clients ≡ s.clients)
    × (s'.lock ≡ s.lock)
    × (sends more ≡ [])

module _ (s : Server) where
  pub receive-Untouched :
      (t : ℕ) (h : Thread) (p : Place) (r : Option (List ℕ))
      → Holds (λ s'. Untouched s (s', [])) (receive s t h p r)
  unfolding receive
  receive-Untouched t h naming none = (refl, refl, refl, refl)
  receive-Untouched t h naming (some buffer) = (refl, refl, refl, refl)
  receive-Untouched t h (chatting i) none = (refl, refl, refl, refl)
  receive-Untouched t h (chatting i) (some buffer) = (refl, refl, refl, refl)
  receive-Untouched t h refused r = tt
  receive-Untouched t h finished r = tt
  receive-Untouched t h (named buffer) r = tt
  receive-Untouched t h (sending i) r = tt
  receive-Untouched t h (ended i) r = tt
  receive-Untouched t h (greeting i) r = tt
  receive-Untouched t h (parting i) r = tt
  receive-Untouched t h (leaving i) r = tt
  receive-Untouched t h (heard i buffer) r = tt
  receive-Untouched t h (speaking i message) r = tt

  pub accept-Untouched :
      (fd : ℕ) (ip : List ℕ) (p : Main) → Holds (λ s'. Untouched s (s', [])) (accept s fd ip p)
  unfolding accept
  accept-Untouched fd ip accepting = (refl, refl, refl, refl)
  accept-Untouched fd ip (holding fd' ip') = tt
  accept-Untouched fd ip (rejecting fd' ip') = tt
  accept-Untouched fd ip (starting fd' ip') = tt

module _ (s : Server) (b : Broadcast) (held : s.lock ≡ some b) where
  not_free : is_locked s.lock ≢ false
  not_free e = none-ne-some _ (sym (unlocked s.lock e) ∙ held)

  continue-Untouched :
      (t : ℕ) (h : Thread) (p : Place)
      → is_sending p ≡ false
      → Holds (Untouched s) (continue s t h p)
  unfolding continue
  continue-Untouched t h naming idle = tt
  continue-Untouched t h (named buffer) idle =
      Holds-if (Untouched s) (is_locked s.lock) _ _ (λ e. tt) (λ e. absurd (not_free e))
  continue-Untouched t h refused idle = (refl, refl, refl, refl)
  continue-Untouched t h (chatting i) idle = tt
  continue-Untouched t h (heard i buffer) idle =
      Holds-bind (Untouched s) (get_elem? s.clients i) _ (λ c there. (refl, refl, refl, refl))
  continue-Untouched t h (speaking i message) idle =
      Holds-if (Untouched s) (is_locked s.lock) _ _ (λ e. tt) (λ e. absurd (not_free e))
  continue-Untouched t h (sending i) idle = cc
  continue-Untouched t h (ended i) idle = (refl, refl, refl, refl)
  continue-Untouched t h (greeting i) idle =
      Holds-bind (Untouched s) (get_elem? s.clients i) _ (λ c there. (refl, refl, refl, refl))
  continue-Untouched t h (parting i) idle =
      Holds-bind (Untouched s) (get_elem? s.clients i) _ (λ c there. (refl, refl, refl, refl))
  continue-Untouched t h (leaving i) idle =
      Holds-if (Untouched s) (is_locked s.lock) _ _ (λ e. tt) (λ e. absurd (not_free e))
  continue-Untouched t h finished idle = tt

  continue_main-Untouched : (p : Main) → Holds (Untouched s) (continue_main s p)
  unfolding continue_main
  continue_main-Untouched accepting = tt
  continue_main-Untouched (holding fd ip) =
      Holds-if (Untouched s) (is_locked s.lock) _ _ (λ e. tt) (λ e. absurd (not_free e))
  continue_main-Untouched (rejecting fd ip) = (refl, refl, refl, refl)
  continue_main-Untouched (starting fd ip) = (refl, refl, refl, refl)

  step-Untouched :
      (e : Event) → Mutex s.threads s.lock → e ≢ continues b.thread → Holds (Untouched s) (step s e)
  unfolding step
  step-Untouched (accepted fd ip) m other =
      Holds-if (Untouched s) (fd == 0 || in_use s.threads fd) _ _ (λ e. tt)
        (λ e.
          Holds-then (λ s'. Untouched s (s', [])) (Untouched s) (accept s fd ip s.main) _
            (accept-Untouched s fd ip s.main) (λ s' u. u))
  step-Untouched accept_failed m other =
      Holds-if (Untouched s) (is_accepting s.main) _ _ (λ e. (refl, refl, refl, refl)) (λ e. tt)
  step-Untouched main_continues m other = continue_main-Untouched s.main
  step-Untouched (received t r) m other =
      Holds-if (Untouched s) (can_receive r) _ _
        (λ e. Holds-bind (Untouched s) (get_elem? s.threads t) _ (λ h found.
          Holds-then (λ s'. Untouched s (s', [])) (Untouched s) (receive s t h h.place r) _
            (receive-Untouched s t h h.place r) (λ s' u. u)))
        (λ e. tt)
  step-Untouched (continues t) m other =
      Holds-bind (Untouched s) (get_elem? s.threads t) _ (λ h found.
        elim (Bool-cases (is_sending h.place)) [
          | inl busy ↦
              let (b', taken, own) = m.holder t h found busy in
              absurd (
                other (
                  ap continues (
                    sym own
                    ∙ ap (λ (b : Broadcast). b.thread) (some-injective b' b (sym taken ∙ held)))))
          | inr idle ↦ continue-Untouched t h h.place idle
        ])

-- While a thread is in `broadcastMessage`, any step but its own leaves both tables and the mutex as
-- they are and sends nothing.
pub step-alone :
    (es : List Event) (s s' : Server) (calls more : List Call) (b : Broadcast) (e : Event)
    → run start es ≡ some (s, calls)
    → s.lock ≡ some b
    → e ≢ continues b.thread
    → step s e ≡ some (s', more)
    → (s'.client_sockets ≡ s.client_sockets)
      × (s'.clients ≡ s.clients)
      × (s'.lock ≡ s.lock)
      × (sends more ≡ [])
step-alone es s s' calls more b e ran held other stepped =
    Holds-some (Untouched s) (step s e) (s', more) stepped
      (step-Untouched s b held e (reached-Mutex es s calls ran) other)
