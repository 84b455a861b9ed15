-- ===== src/Chat/Threads/View.antt =====
-- How a state of the threads shows a state of Chat, in which a thread takes each of its steps at once.
use c_network_tools.Base.{
  ℕ, zero, suc, ◌≡◌, refl, ap, ap₂, ◌∙◌, sym, List, [], ◌∷◌, ◌++◌, Option, some, map, get_elem?,
  set, ◌==◌, ◌&&◌, ◌||◌, ◌>>=◌, map-set_agree, get_elem?-map,
}
use mathlib.Core.Option.{some-injective}
use c_network_tools.Chat.{Chat, Handler, Phase, Call, sent, closed, broadcast_message}
use c_network_tools.Chat
use c_network_tools.Chat.Threads.{
  Place, naming, refused, finished, named, chatting, sending, ended, leaving, greeting, parting,
  heard, speaking, Thread, Main, accepting, holding, rejecting, starting, Server, go, in_use,
  is_open,
}

abbrev pub phase_of : Place → Phase
phase_of naming = Phase.naming
phase_of refused = Phase.naming
phase_of finished = Phase.finished
phase_of (named buffer) = Phase.naming
phase_of (chatting i) = Phase.chatting i
phase_of (sending i) = Phase.chatting i
phase_of (greeting i) = Phase.chatting i
phase_of (parting i) = Phase.finished
phase_of (ended i) = Phase.chatting i
phase_of (leaving i) = Phase.leaving i
phase_of (heard i buffer) = Phase.chatting i
phase_of (speaking i message) = Phase.chatting i

abbrev pub handler_of : Thread → Handler
handler_of h = record { fd = h.fd; ip = h.ip; phase = phase_of h.place }

-- The thread that `main` is about to make.
abbrev pub born : Main → List Handler
born accepting = []
born (holding fd ip) = []
born (rejecting fd ip) = []
born (starting fd ip) = record { fd = fd; ip = ip; phase = Phase.naming } ∷ []

abbrev pub shown : Server → Chat
shown s = record {
  client_sockets = s.client_sockets;
  clients = s.clients;
  handlers = map handler_of s.threads ++ born s.main;
}

-- The messages among the calls.
abbrev pub sends : List Call → List Call
sends [] = []
sends (sent fd message ∷ calls) = sent fd message ∷ sends calls
sends (closed fd ∷ calls) = sends calls

pub sends-append : (xs ys : List Call) → sends (xs ++ ys) ≡ sends xs ++ sends ys
sends-append [] ys = refl
sends-append (sent fd m ∷ xs) ys = ap (λ t. sent fd m ∷ t) (sends-append xs ys)
sends-append (closed fd ∷ xs) ys = sends-append xs ys

-- The sockets that the calls close.
abbrev pub closes : List Call → List ℕ
closes [] = []
closes (sent fd message ∷ calls) = closes calls
closes (closed fd ∷ calls) = fd ∷ closes calls

pub closes-append : (xs ys : List Call) → closes (xs ++ ys) ≡ closes xs ++ closes ys
closes-append [] ys = refl
closes-append (sent fd m ∷ xs) ys = closes-append xs ys
closes-append (closed fd ∷ xs) ys = ap (λ t. fd ∷ t) (closes-append xs ys)

module _ {A : Type 0} where
  pub get_elem?-append_some :
      (xs ys : List A) (i : ℕ) (x : A) → get_elem? xs i ≡ some x → get_elem? (xs ++ ys) i ≡ some x
  get_elem?-append_some [] ys i x e = cc
  get_elem?-append_some (z ∷ xs) ys zero x e = e
  get_elem?-append_some (z ∷ xs) ys (suc i) x e = get_elem?-append_some xs ys i x e

  set-append :
      (xs ys : List A) (i : ℕ) (x v : A)
      → get_elem? xs i ≡ some x
      → set (xs ++ ys) i v ≡ set xs i v ++ ys
  set-append [] ys i x v e = cc
  set-append (z ∷ xs) ys zero x v e = refl
  set-append (z ∷ xs) ys (suc i) x v e = ap (λ t. z ∷ t) (set-append xs ys i x v e)

  set_same : (xs : List A) (i : ℕ) (x : A) → get_elem? xs i ≡ some x → set xs i x ≡ xs
  set_same [] i x e = refl
  set_same (z ∷ xs) zero x e = ap (λ y. y ∷ xs) (sym (some-injective _ _ e))
  set_same (z ∷ xs) (suc i) x e = ap (λ t. z ∷ t) (set_same xs i x e)

module _ (s : Server) (t : ℕ) (h : Thread) (found : get_elem? s.threads t ≡ some h) where
  pub shown-thread : get_elem? (shown s).handlers t ≡ some (handler_of h)
  shown-thread = get_elem?-append_some (map handler_of s.threads) (born s.main) t (handler_of h) (
      get_elem?-map handler_of s.threads t
      ∙ ap (λ (m : Option Thread). m >>= λ k. some (handler_of k)) found)

  -- A thread that goes somewhere moves on in what is shown.
  pub shown-go :
      (place : Place)
      → shown (go s t h place) ≡ Chat.move (shown s) t (handler_of h) (phase_of place)
  shown-go place =
      ap (λ hs. record (shown s) { handlers = hs })
        (ap (λ hs. hs ++ born s.main)
            (map-set_agree handler_of handler_of s.threads t (record h { place = place })
              (λ i x other e. refl))
          ∙ sym (
              set-append (map handler_of s.threads) (born s.main) t (handler_of h) _ (
                get_elem?-map handler_of s.threads t
                ∙ ap (λ (m : Option Thread). m >>= λ k. some (handler_of k)) found)))

  -- Within one phase nothing is shown.
  pub shown-go_same :
      (place : Place) → phase_of place ≡ phase_of h.place → shown (go s t h place) ≡ shown s
  shown-go_same place same =
      shown-go place
      ∙ ap (λ p. Chat.move (shown s) t (handler_of h) p) same
      ∙ ap (λ hs. record (shown s) { handlers = hs })
          (set_same (shown s).handlers t (handler_of h) shown-thread)

pub in_use-shown : (hs : List Thread) (fd : ℕ) → in_use hs fd ≡ Chat.in_use (map handler_of hs) fd
unfolding in_use Chat.in_use
in_use-shown [] fd = refl
in_use-shown (h ∷ hs) fd =
    ap₂ ◌||◌ (ap (λ b. (h.fd == fd) && b) (at_place h.place)) (in_use-shown hs fd)
  where
    at_place : (p : Place) → is_open p ≡ Chat.is_open (phase_of p)
    at_place naming = refl
    at_place refused = refl
    at_place finished = refl
    at_place (named b) = refl
    at_place (chatting i) = refl
    at_place (sending i) = refl
    at_place (ended i) = refl
    at_place (greeting i) = refl
    at_place (parting i) = refl
    at_place (leaving i) = refl
    at_place (heard i b) = refl
    at_place (speaking i m) = refl
