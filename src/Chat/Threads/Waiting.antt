-- ===== src/Chat/Threads/Waiting.antt =====
-- A thread in front of the mutex gets it.
use c_network_tools.Base.{
  ℕ, ◌+◌, ◌-◌, ◌≤◌, ◌≡◌, ◌≢◌, refl, ap, ◌∙◌, sym, Bool, true, false, List, [], ◌∷◌, ◌++◌, Option,
  some, none, arith, get_elem?, ◌>>=◌, inl, inr, append_assoc, replicate, Option-cases,
}
use mathlib.Core.Option.{some-injective}
use c_network_tools.Chat.{Call, register, max_clients}
use c_network_tools.Chat.Records.{index, Owned, get_elem?-set_same, get_elem?-set_other}
use c_network_tools.Chat.Owned.{reached-Owned}
use c_network_tools.Chat.Threads.{
  Place, naming, refused, finished, named, chatting, sending, ended, leaving, greeting, parting,
  heard, speaking, Thread, Server, Event, continues, go, continue, step, run, start,
}
use c_network_tools.Chat.Threads.View.{shown, phase_of, handler_of, shown-thread}
use c_network_tools.Chat.Threads.Laws.{run-explained}
use c_network_tools.Chat.Threads.Release.{run-released}

-- The places in front of the mutex.
abbrev pub waits : Place → Bool
waits naming = false
waits refused = false
waits finished = false
waits (named buffer) = true
waits (chatting i) = false
waits (sending i) = false
waits (ended i) = false
waits (greeting i) = false
waits (parting i) = false
waits (leaving i) = true
waits (heard i buffer) = false
waits (speaking i message) = true

abbrev behind : List Call → Server × List Call → Option (Server × List Call)
behind calls q = some (q.0, calls ++ q.1)

abbrev on : Option (Server × List Call) → List Event → Option (Server × List Call)
on o es = o >>= λ r. run r.0 es >>= behind r.1

-- A run of two parts.
run-append : (s : Server) (xs ys : List Event) → run s (xs ++ ys) ≡ on (run s xs) ys
unfolding run
run-append s [] ys = whole (run s ys)
  where
    whole : (o : Option (Server × List Call)) → o ≡ (o >>= behind [])
    whole none = refl
    whole (some q) = refl
run-append s (e ∷ xs) ys = through (step s e) (λ r. run-append r xs ys)
  where
    third :
        (c d : List Call) (o : Option (Server × List Call))
        → ((o >>= behind d) >>= behind c) ≡ (o >>= behind (c ++ d))
    third c d none = refl
    third c d (some q) = ap (λ t. some (q.0, t)) (sym (append_assoc c d q.1))

    second :
        (c : List Call) (o : Option (Server × List Call))
        → (on o ys >>= behind c) ≡ on (o >>= behind c) ys
    second c none = refl
    second c (some r) = third c r.1 (run r.0 ys)

    through :
        (o : Option (Server × List Call))
        → ((r : Server) → run r (xs ++ ys) ≡ on (run r xs) ys)
        → (o >>= λ a. run a.0 (xs ++ ys) >>= behind a.1)
          ≡ on (o >>= λ a. run a.0 xs >>= behind a.1) ys
    through none ih = refl
    through (some a) ih =
        ap (λ (o : Option (Server × List Call)). o >>= behind a.1) (ih a.0)
        ∙ second a.1 (run a.0 xs)

run-on :
    (s : Server) (xs ys : List Event) (r q : Server × List Call)
    → run s xs ≡ some r
    → run r.0 ys ≡ some q
    → run s (xs ++ ys) ≡ some (q.0, r.1 ++ q.1)
run-on s xs ys r q first second =
    run-append s xs ys ∙ ap (λ o. on o ys) first ∙ ap (λ o. o >>= behind r.1) second

-- The thread has taken a step that was in front of the mutex.
abbrev pub Served : ℕ → Server → Type 0
Served t s = (k : Thread) × (get_elem? s.threads t ≡ some k) × (waits k.place ≡ false)

abbrev Serves : ℕ → Option (Server × List Call) → Type 0
Serves t none = ⊥
Serves t (some r) = Served t r.0

Serves-some :
    (t : ℕ) (o : Option (Server × List Call))
    → Serves t o
    → (r : Server × List Call) × (o ≡ some r) × Served t r.0
Serves-some t none x = absurd x
Serves-some t (some r) x = (r, refl, x)

module _ (s : Server) (t : ℕ) (h : Thread) (free : s.lock ≡ none) (o : Owned (shown s))
    (found : get_elem? s.threads t ≡ some h) where
  gone : (p : Place) → waits p ≡ false → Served t (go s t h p)
  gone p moved = (
    record h { place = p },
    get_elem?-set_same s.threads t h (record h { place = p }) found,
    moved,
  )

  continue-Serves : (p : Place) → h.place ≡ p → waits p ≡ true → Serves t (continue s t h p)
  unfolding continue
  continue-Serves naming is w = cc
  continue-Serves refused is w = cc
  continue-Serves finished is w = cc
  continue-Serves (named buffer) is w = elim (Option-cases (register s.clients h.fd buffer h.ip)) [
    | inl full ↦ rw (free, full, Serves) (gone refused refl)
    | inr ((cs, i), made) ↦ rw (free, made, Serves) (gone (greeting i) refl)
  ]
  continue-Serves (chatting i) is w = cc
  continue-Serves (sending i) is w = cc
  continue-Serves (ended i) is w = cc
  continue-Serves (greeting i) is w = cc
  continue-Serves (parting i) is w = cc
  continue-Serves (leaving i) is w =
      let (c, there, owner) =
        o.own t i (handler_of h) (shown-thread s t h found) (ap (λ p. index (phase_of p)) is) in
      rw (free, there, Serves) (gone (parting i) refl)
  continue-Serves (heard i buffer) is w = cc
  continue-Serves (speaking i message) is w = rw (free, Serves) (gone (sending i) refl)

  served :
      waits h.place ≡ true
      → (r : Server × List Call) × (run s (continues t ∷ []) ≡ some r) × Served t r.0
  unfolding run step
  served w =
      let (r, taken, x) = Serves-some t (continue s t h h.place) (continue-Serves h.place refl w) in
      ((r.0, r.1 ++ []), rw (found, taken) refl, x)

-- In any state that the threads can reach with a thread in front of the mutex, at most eleven steps
-- of one thread can be taken, and behind them the waiting thread can take its own, after which it
-- waits no more.
pub run-Served :
    (es : List Event) (s : Server) (calls : List Call) (t : ℕ) (h : Thread)
    → run start es ≡ some (s, calls)
    → get_elem? s.threads t ≡ some h
    → waits h.place ≡ true
    → (u n : ℕ) × (n ≤ max_clients + 1)
      × (r : Server × List Call) × (run s (replicate n (continues u) ++ continues t ∷ []) ≡ some r)
      × Served t r.0
run-Served es s calls t h ran found w = elim (Option-cases s.lock) [
  | inl free ↦
      let (events, told, explained, _, _, _) = run-explained es s calls ran in
      let (r, taken, x) =
        served s t h free (reached-Owned events (shown s) told explained) found w in
      (0, 0, omega arith, r, taken, x)
  | inr (b, held) ↦
      let (k, i, there, is, drained) = run-released es s calls b ran held in
      let turns = replicate (max_clients + 1 - b.next) (continues b.thread) in
      let s' : Server = record (go s b.thread k (chatting i)) { lock = none } in
      let reached = run-on start es turns (s, calls) _ ran drained in
      let (events, told, explained, _, _, _) = run-explained (es ++ turns) s' _ reached in
      let other : b.thread ≢ t = λ same.
        let k_is_h = some-injective k h (sym there ∙ ap (get_elem? s.threads) same ∙ found) in
        let moving = ap (λ (k : Thread). waits k.place) k_is_h in let busy = ap waits is in cc in
      let still : get_elem? s'.threads t ≡ some h =
        get_elem?-set_other s.threads b.thread t (record k { place = chatting i }) other ∙ found in
      let (r, taken, x) =
        served s' t h refl (reached-Owned events (shown s') told explained) still w in
      (
        b.thread,
        max_clients + 1 - b.next,
        at_most (max_clients + 1) b.next,
        _,
        run-on s turns (continues t ∷ []) _ r drained taken,
        x,
      )
]
  where
    at_most : (a b : ℕ) → a - b ≤ a
    at_most a b = omega arith
