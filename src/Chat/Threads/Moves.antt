-- ===== src/Chat/Threads/Moves.antt =====
-- What the threads and `main` carry with them stays true when a thread takes a step.
use c_network_tools.Base.{
  ℕ, zero, suc, ◌≡◌, ◌≢◌, refl, ap, ◌∙◌, sym, Bool, true, false, List, [], ◌∷◌, some, arith,
  get_elem?, set, ◌==◌, ◌&&◌, ◌||◌,
}
use mathlib.Core.Path.{subst}
use mathlib.Core.Option.{some-injective}
use c_network_tools.Chat.{
  Chat, ClientInfo, Handler, Phase, Call, sent, closed, broadcast_message, add_socket, can_receive,
  format_message,
}
use c_network_tools.Chat
use c_network_tools.Chat.Records.{index, every-set_other}
use c_network_tools.Chat.Threads.{
  Place, naming, refused, finished, named, chatting, sending, ended, leaving, greeting, parting,
  heard, speaking, Thread, Main, accepting, holding, rejecting, starting, Server, go,
}
use c_network_tools.Chat.Threads.View.{shown, phase_of, handler_of, shown-thread, shown-go}
use c_network_tools.Chat.Threads.Explained.{Carries, HasSocket, Explained}

Carries-agree :
    (cs cs' : List ClientInfo) (p : Place)
    → ((i : ℕ) → index (phase_of p) ≡ some i → get_elem? cs' i ≡ get_elem? cs i)
    → Carries cs p
    → Carries cs' p
Carries-agree cs cs' naming h x = tt
Carries-agree cs cs' refused h x = tt
Carries-agree cs cs' finished h x = tt
Carries-agree cs cs' (named b) h x = x
Carries-agree cs cs' (chatting i) h x = tt
Carries-agree cs cs' (sending i) h x = tt
Carries-agree cs cs' (ended i) h x = tt
Carries-agree cs cs' (greeting i) h x = tt
Carries-agree cs cs' (parting i) h x = tt
Carries-agree cs cs' (leaving i) h x = tt
Carries-agree cs cs' (heard i b) h x = x
Carries-agree cs cs' (speaking i m) h (b, c, fits, found, made) =
    (b, c, fits, h i refl ∙ found, made)

-- A thread that moves on uses no socket that was not in use.
in_use-set :
    (hs : List Handler) (t : ℕ) (h new : Handler) (fd : ℕ)
    → get_elem? hs t ≡ some h
    → new.fd ≡ h.fd
    → (Chat.is_open new.phase ≡ true → Chat.is_open h.phase ≡ true)
    → Chat.in_use hs fd ≡ false
    → Chat.in_use (set hs t new) fd ≡ false
unfolding Chat.in_use
in_use-set [] t h new fd e same opens free = refl
in_use-set (k ∷ hs) zero h new fd e same opens free = rw same (
    closes (h.fd == fd) (Chat.is_open h.phase) (Chat.is_open new.phase) (Chat.in_use hs fd) opens (
      subst (λ (k : Handler). ((k.fd == fd) && Chat.is_open k.phase || Chat.in_use hs fd) ≡ false)
        (some-injective k h e) free))
  where
    closes :
        (a b b' c : Bool) → (b' ≡ true → b ≡ true) → (a && b || c) ≡ false → (a && b' || c) ≡ false
    closes false b b' c imp e = e
    closes true b false c imp e = ground arith
    closes true b true c imp e = ground (arith, imp refl)
in_use-set (k ∷ hs) (suc t) h new fd e same opens free =
    ground (arith, free, in_use-set hs t h new fd e same opens)

HasSocket-keeps :
    (r r' : Chat) (m : Main)
    → r'.client_sockets ≡ r.client_sockets
    → ((fd : ℕ) → Chat.in_use r.handlers fd ≡ false → Chat.in_use r'.handlers fd ≡ false)
    → HasSocket r m
    → HasSocket r' m
HasSocket-keeps r r' accepting e keeps x = tt
HasSocket-keeps r r' (holding fd ip) e keeps x = ground (arith, keeps fd)
HasSocket-keeps r r' (rejecting fd ip) e keeps (x, full) =
    (ground (arith, keeps fd), ap (λ ss. add_socket ss fd) e ∙ full)
HasSocket-keeps r r' (starting fd ip) e keeps x = tt

module _ (s : Server) (calls : List Call) (x : Explained s calls) (t : ℕ) (h : Thread)
    (found : get_elem? s.threads t ≡ some h) (place : Place) where
  -- The threads behind a step of one of them that changes no other thread's record.
  pub carried-go :
      (cs' : List ClientInfo)
      → Carries cs' place
      → ((t' i : ℕ) (k : Thread)
          → t ≢ t'
          → get_elem? s.threads t' ≡ some k
          → index (phase_of k.place) ≡ some i
          → get_elem? cs' i ≡ get_elem? s.clients i)
      → (t' : ℕ) (k : Thread) → get_elem? (go s t h place).threads t' ≡ some k
      → Carries cs' k.place
  carried-go cs' here same =
      every-set_other (λ k. Carries cs' k.place) s.threads t h (record h { place = place }) found
        here
        (λ t' k other e.
          Carries-agree s.clients cs' k.place (λ i y. same t' i k other e y) (x.carried t' k e))

  pub socket-go :
      (cs' : List ClientInfo)
      → (Chat.is_open (phase_of place) ≡ true → Chat.is_open (phase_of h.place) ≡ true)
      → HasSocket (shown (go (record s { clients = cs' }) t h place)) s.main
  socket-go cs' opens =
      subst (λ r. HasSocket r s.main) (sym (shown-go (record s { clients = cs' }) t h found place))
        (HasSocket-keeps (shown s)
          (Chat.move (shown (record s { clients = cs' })) t (handler_of h) (phase_of place)) s.main
          refl
          (λ fd free.
            in_use-set (shown s).handlers t (handler_of h)
              (record (handler_of h) { phase = phase_of place }) fd (shown-thread s t h found) refl
              opens free)
          x.socket)
