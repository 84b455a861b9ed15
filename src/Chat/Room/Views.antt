-- ===== src/Chat/Room/Views.antt =====
-- How a state of SocketServer.c shows a room, and what keeps it so.
use c_network_tools.Base.{
  ℕ, ◌≤◌, ◌≡◌, ◌≢◌, refl, ap, ◌∙◌, sym, List, [], Option, some, none, length, map, get_elem?, set,
  c_string, NoNul, map-set_agree, length-set,
}
use c_network_tools.Chat.{
  Call, max_clients, Chat, ClientInfo, Handler, Phase, naming, chatting, leaving, finished, move,
}
use c_network_tools.Chat.Slots.{slots}
use c_network_tools.Chat.Records.{index}
use c_network_tools.Chat.Room.{Member, waiting, talking, closing, gone, Room, become}
use c_network_tools.Chat.Room.Names.{Closed}

-- The member that a thread serves.
abbrev pub talker : ℕ → Option ClientInfo → Member
talker fd none = talking fd [] []
talker fd (some c) = talking fd (c_string c.name) (c_string c.ip)

abbrev pub view_at : List ClientInfo → ℕ → List ℕ → Phase → Member
view_at cs fd ip naming = waiting fd ip
view_at cs fd ip (chatting i) = talker fd (get_elem? cs i)
view_at cs fd ip (leaving i) = closing
view_at cs fd ip finished = gone

abbrev pub view : List ClientInfo → Handler → Member
view cs h = view_at cs h.fd h.ip h.phase

-- A state of the server shows a room.
pub record Views (s : Chat) (r : Room) : Type 0 where
  pub table : s.client_sockets ≡ slots max_clients r.joined
  pub nonzero : NoNul r.joined
  pub few : length r.joined ≤ max_clients
  pub threads : length s.handlers ≡ length r.joined
  pub members : r.members ≡ map (view s.clients) s.handlers
  pub buffers :
      (i : ℕ) (c : ClientInfo) → get_elem? s.clients i ≡ some c → Closed 49 c.name × Closed 15 c.ip

-- Both cannot happen, or both happen with the same calls.
abbrev pub Agree : Option (Chat × List Call) → Option (Room × List Call) → Type 0
Agree none none = Unit
Agree none (some r) = ⊥
Agree (some s) none = ⊥
Agree (some s) (some r) = Views s.0 r.0 × (s.1 ≡ r.1)

view_at_agree :
    (cs cs' : List ClientInfo) (fd : ℕ) (ip : List ℕ) (p : Phase)
    → ((i : ℕ) → index p ≡ some i → get_elem? cs' i ≡ get_elem? cs i)
    → view_at cs' fd ip p ≡ view_at cs fd ip p
view_at_agree cs cs' fd ip naming h = refl
view_at_agree cs cs' fd ip (chatting i) h = ap (talker fd) (h i refl)
view_at_agree cs cs' fd ip (leaving i) h = refl
view_at_agree cs cs' fd ip finished h = refl

-- A thread moves on, and at most a record that no other thread uses changes.
pub Views-change :
    (s : Chat) (r : Room) (t : ℕ) (h : Handler) (p : Phase) (cs : List ClientInfo)
    → Views s r
    → ((i : ℕ) (c : ClientInfo) → get_elem? cs i ≡ some c → Closed 49 c.name × Closed 15 c.ip)
    → ((t' i : ℕ) (k : Handler)
        → t ≢ t'
        → get_elem? s.handlers t' ≡ some k
        → index k.phase ≡ some i
        → get_elem? cs i ≡ get_elem? s.clients i)
    → Views (move (record s { clients = cs }) t h p) (become r t (view_at cs h.fd h.ip p))
Views-change s r t h p cs v buffers same = record {
  table = v.table;
  nonzero = v.nonzero;
  few = v.few;
  threads = length-set s.handlers t (record h { phase = p }) ∙ v.threads;
  members =
      ap (λ ms. set ms t (view_at cs h.fd h.ip p)) v.members
      ∙ sym (
          map-set_agree (view cs) (view s.clients) s.handlers t (record h { phase = p })
            (λ t' k other found.
              view_at_agree s.clients cs k.fd k.ip k.phase (λ i x. same t' i k other found x)));
  buffers = buffers;
}

pub Views-move :
    (s : Chat) (r : Room) (t : ℕ) (h : Handler) (p : Phase)
    → Views s r
    → Views (move s t h p) (become r t (view_at s.clients h.fd h.ip p))
Views-move s r t h p v = Views-change s r t h p s.clients v v.buffers (λ t' i k other found x. refl)
