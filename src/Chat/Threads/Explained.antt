-- ===== src/Chat/Threads/Explained.antt =====
-- A state of the threads that a run of Chat explains.
use c_network_tools.Base.{
  ℕ, ◌≡◌, refl, ap, ap₂, ◌∙◌, sym, true, false, List, [], ◌∷◌, ◌++◌, Option, some, none, get_elem?,
  ◌==◌, ◌||◌, ◌>>=◌, append_assoc, append-nil, drop,
}
use c_network_tools.Chat.{
  Chat, ClientInfo, Handler, Phase, Call, sent, closed, broadcast_message, add_socket, can_receive,
  format_message,
}
use c_network_tools.Chat
use c_network_tools.Chat.Threads.{
  Place, naming, refused, finished, named, chatting, sending, ended, leaving, greeting, parting,
  heard, speaking, Thread, Main, accepting, holding, rejecting, starting, Broadcast, Server,
}
use c_network_tools.Chat.Threads.View.{shown, sends, sends-append, closes, closes-append}

-- The messages that the call of `broadcastMessage` in the mutex has not sent yet.
abbrev pub unsent : List ℕ → Option Broadcast → List Call
unsent sockets none = []
unsent sockets (some b) = broadcast_message (drop b.next sockets) b.sender_fd b.message

-- What a thread carries with it: bytes that were received, or a text made of its own record.
abbrev pub Carries : List ClientInfo → Place → Type 0
Carries cs naming = Unit
Carries cs refused = Unit
Carries cs finished = Unit
Carries cs (named buffer) = can_receive (some buffer) ≡ true
Carries cs (chatting i) = Unit
Carries cs (sending i) = Unit
Carries cs (ended i) = Unit
Carries cs (greeting i) = Unit
Carries cs (parting i) = Unit
Carries cs (leaving i) = Unit
Carries cs (heard i buffer) = can_receive (some buffer) ≡ true
Carries cs (speaking i message) =
    (buffer : List ℕ) × (c : ClientInfo) × (can_receive (some buffer) ≡ true)
    × (get_elem? cs i ≡ some c)
    × (message ≡ format_message c buffer)

-- What `main` carries with it: a socket that no thread uses, for which there may be no place.
abbrev pub HasSocket : Chat → Main → Type 0
HasSocket s accepting = Unit
HasSocket s (holding fd ip) = (fd == 0 || Chat.in_use s.handlers fd) ≡ false
HasSocket s (rejecting fd ip) =
    ((fd == 0 || Chat.in_use s.handlers fd) ≡ false) × (add_socket s.client_sockets fd ≡ none)
HasSocket s (starting fd ip) = Unit

-- A run of Chat reaches what the state shows, closes what was closed so far, and sends what was sent
-- so far and what the mutex still holds back.
pub record Explained (s : Server) (calls : List Call) : Type 0 where
  pub events : List Chat.Event
  pub told : List Call
  pub ran : Chat.run Chat.start events ≡ some (shown s, told)
  pub same : sends told ≡ sends calls ++ unsent s.client_sockets s.lock
  pub shut : closes told ≡ closes calls
  pub carried : (t : ℕ) (h : Thread) → get_elem? s.threads t ≡ some h → Carries s.clients h.place
  pub socket : HasSocket (shown s) s.main

abbrev then_step : Chat.Event → Chat × List Call → Option (Chat × List Call)
then_step e x = Chat.step x.0 e >>= λ y. some (y.0, x.1 ++ y.1)

abbrev behind : List Call → Chat × List Call → Option (Chat × List Call)
behind calls x = some (x.0, calls ++ x.1)

behind_nothing :
    (o : Option (Chat × List Call)) → (o >>= λ y. some (y.0, y.1 ++ [])) ≡ (o >>= behind [])
behind_nothing none = refl
behind_nothing (some y) = ap (λ t. some (y.0, t)) (append-nil y.1)

behind-behind :
    (c d : List Call) (o : Option (Chat × List Call))
    → ((o >>= behind d) >>= behind c) ≡ (o >>= behind (c ++ d))
behind-behind c d none = refl
behind-behind c d (some y) = ap (λ t. some (y.0, t)) (sym (append_assoc c d y.1))

regroup :
    (e : Chat.Event) (c : List Call) (o : Option (Chat × List Call))
    → ((o >>= then_step e) >>= behind c) ≡ ((o >>= behind c) >>= then_step e)
regroup e c none = refl
regroup e c (some z) = behind-behind c z.1 (Chat.step z.0 e)

-- A run with an event more.
run-snoc :
    (s : Chat) (es : List Chat.Event) (e : Chat.Event)
    → Chat.run s (es ++ e ∷ []) ≡ (Chat.run s es >>= then_step e)
unfolding Chat.run
run-snoc s [] e = behind_nothing (Chat.step s e)
run-snoc s (d ∷ es) e = through (Chat.step s d) (λ r. run-snoc r es e)
  where
    through :
        (o : Option (Chat × List Call))
        → ((r : Chat) → Chat.run r (es ++ e ∷ []) ≡ (Chat.run r es >>= then_step e))
        → (o >>= λ x. Chat.run x.0 (es ++ e ∷ []) >>= behind x.1)
          ≡ ((o >>= λ x. Chat.run x.0 es >>= behind x.1) >>= then_step e)
    through none ih = refl
    through (some x) ih =
        ap (λ (o : Option (Chat × List Call)). o >>= behind x.1) (ih x.0)
        ∙ regroup e x.1 (Chat.run x.0 es)

module _ (s s' : Server) (calls more : List Call) (x : Explained s calls)
    (carried : (t : ℕ) (h : Thread) → get_elem? s'.threads t ≡ some h → Carries s'.clients h.place)
    (socket : HasSocket (shown s') s'.main) where
  -- A step that does not show.
  pub Explained-silent :
      shown s' ≡ shown s
      → unsent s.client_sockets s.lock ≡ sends more ++ unsent s'.client_sockets s'.lock
      → closes more ≡ []
      → Explained s' (calls ++ more)
  Explained-silent quiet left none_closed = record {
    events = x.events;
    told = x.told;
    ran = x.ran ∙ ap (λ r. some (r, x.told)) (sym quiet);
    same = x.same ∙ ap (λ t. sends calls ++ t) left ∙ regrouped;
    shut =
        x.shut
        ∙ sym (append-nil (closes calls))
        ∙ ap (λ t. closes calls ++ t) (sym none_closed)
        ∙ sym (closes-append calls more);
    carried = carried;
    socket = socket;
  }
    where
      regrouped :
          sends calls ++ (sends more ++ unsent s'.client_sockets s'.lock)
          ≡ sends (calls ++ more) ++ unsent s'.client_sockets s'.lock
      regrouped =
          sym (append_assoc (sends calls) (sends more) (unsent s'.client_sockets s'.lock))
          ∙ ap (λ t. t ++ unsent s'.client_sockets s'.lock) (sym (sends-append calls more))

  -- A step that Chat takes too.
  pub Explained-step :
      (e : Chat.Event) (done : List Call)
      → Chat.step (shown s) e ≡ some (shown s', done)
      → unsent s.client_sockets s.lock ++ sends done
        ≡ sends more ++ unsent s'.client_sockets s'.lock
      → closes done ≡ closes more
      → Explained s' (calls ++ more)
  Explained-step e done stepped left closed_same = record {
    events = x.events ++ e ∷ [];
    told = x.told ++ done;
    ran = run-snoc Chat.start x.events e ∙ rw (x.ran) (rw stepped refl);
    same =
        sends-append x.told done
        ∙ ap (λ t. t ++ sends done) x.same
        ∙ append_assoc (sends calls) (unsent s.client_sockets s.lock) (sends done)
        ∙ ap (λ t. sends calls ++ t) left
        ∙ sym (append_assoc (sends calls) (sends more) (unsent s'.client_sockets s'.lock))
        ∙ ap (λ t. t ++ unsent s'.client_sockets s'.lock) (sym (sends-append calls more));
    shut = closes-append x.told done ∙ ap₂ ◌++◌ x.shut closed_same ∙ sym (closes-append calls more);
    carried = carried;
    socket = socket;
  }
