-- ===== src/Client/Delivery.antt =====
-- What another client of SocketServer.c prints of a session of SocketClient.c.
use c_network_tools.Base.{
  ℕ, zero, suc, ◌<◌, ◌≡◌, refl, ap, ap₂, take_le, ◌∙◌, Bool-cases, inl, inr, List, [], ◌∷◌, ◌++◌,
  Option, some, arith, length, take, map, get_elem?, c_string, c_string-NoNul, NoNul, NoNul-append,
  length-append,
}
use c_network_tools.Chat.{Event, Call, sent, closed, start}
use c_network_tools.Chat
use c_network_tools.Chat.Laws.{others}
use c_network_tools.Chat.Room.{waiting, Room, line, empty}
use c_network_tools.Chat.Room
use c_network_tools.Chat.Inbox.{inbox, count, inbox-append}
use c_network_tools.Chat.Room.Names.{NoNul-c_string}
use c_network_tools.Chat.Room.Laws.{observed}
use c_network_tools.Client.{main, World, left, End, receive_messages, str_eq, exit}
use c_network_tools.Client.Laws.{until_exit, AreTexts, Works}
use c_network_tools.Client.Session.{heard, AreReceived, spread, session-calls, NoNul-IsText}

-- The text that a client prints.
abbrev pub said : List ℕ → List ℕ → List ℕ → List ℕ
said name ip text = name ++ b' ' ∷ b'(' ∷ ip ++ b')' ∷ b':' ∷ b' ' ∷ text

inbox_none :
    (to : ℕ) (tos : List ℕ) (text : List ℕ)
    → count to tos ≡ 0
    → inbox to (map (λ fd. sent fd text) tos) ≡ []
inbox_none to [] text e = refl
inbox_none to (fd ∷ tos) text e = ground (arith, inbox_none to tos text)

inbox_once :
    (to : ℕ) (tos : List ℕ) (text : List ℕ)
    → count to tos ≡ 1
    → inbox to (map (λ fd. sent fd text) tos) ≡ text ∷ []
inbox_once to [] text e = absurd (omega arith)
inbox_once to (fd ∷ tos) text e = ground (arith, inbox_once to tos text, inbox_none to tos text)

inbox-spread :
    (to : ℕ) (tos name ip : List ℕ) (bs : List (List ℕ))
    → count to tos ≡ 1
    → inbox to (spread tos name ip bs) ≡ map (line name ip) bs
inbox-spread to tos name ip [] e = refl
inbox-spread to tos name ip (b ∷ bs) e =
    inbox-append to (map (λ fd. sent fd (line name ip b)) tos) (spread tos name ip bs)
    ∙ ap₂ ◌++◌ (inbox_once to tos (line name ip b) e) (inbox-spread to tos name ip bs e)

receive_messages-some :
    (text : List ℕ) (answers : List (Option (List ℕ)))
    → 0 < length text
    → NoNul text
    → receive_messages (some text ∷ answers)
      ≡ (text ∷ (receive_messages answers).0, (receive_messages answers).1)
unfolding receive_messages
receive_messages-some [] answers pos h = absurd (omega arith)
receive_messages-some (c ∷ text) answers pos h =
    ap (λ t. (t ∷ (receive_messages answers).0, (receive_messages answers).1))
      (c_string-NoNul (c ∷ text) h)

-- The texts with the name and the address in front are shorter than the buffer of a client.
abbrev pub AreShort : List ℕ → List ℕ → List (List ℕ) → Type 0
AreShort name ip [] = Unit
AreShort name ip (b ∷ bs) = (length (said name ip b) < 1024) × AreShort name ip bs

module _ (name ip : List ℕ) (hn : NoNul name) (hi : NoNul ip) where
  NoNul-said : (b : List ℕ) → NoNul b → NoNul (said name ip b)
  NoNul-said b h =
      NoNul-append (name ++ b' ' ∷ b'(' ∷ ip) (b')' ∷ b':' ∷ b' ' ∷ b)
        (NoNul-append name (b' ' ∷ b'(' ∷ ip) hn (omega arith, (omega arith, hi)))
        (omega arith, (omega arith, (omega arith, h)))

  line-said :
      (b : List ℕ) → NoNul b → length (said name ip b) < 1024 → line name ip b ≡ said name ip b
  line-said b h short =
      ap (λ t. take 1073 (said name ip t)) (c_string-NoNul b h)
      ∙ take_le 1073 (said name ip b) (omega arith)

  -- Read one at a time, the lines are printed as they are, and the client waits for more.
  receive_messages-lines :
      (bs : List (List ℕ))
      → AreTexts bs
      → AreShort name ip bs
      → receive_messages (map some (map (line name ip) bs)) ≡ (map (said name ip) bs, End.waiting)
  receive_messages-lines [] h short = unfold receive_messages in refl
  receive_messages-lines (b ∷ bs) h short =
      let nz = NoNul-IsText b h.0 in
      ap (λ t. receive_messages (some t ∷ map some (map (line name ip) bs)))
        (line-said b nz short.0)
      ∙ receive_messages-some (said name ip b) (map some (map (line name ip) bs))
          (omega (arith, length-append (name ++ b' ' ∷ b'(' ∷ ip) (b')' ∷ b':' ∷ b' ' ∷ b)))
          (NoNul-said b nz)
      ∙ ap (λ r. (said name ip b ∷ r.0, r.1)) (receive_messages-lines bs h.1 short.1)

NoNul-take : (n : ℕ) (xs : List ℕ) → NoNul xs → NoNul (take n xs)
NoNul-take zero xs h = tt
NoNul-take (suc n) [] h = tt
NoNul-take (suc n) (x ∷ xs) h = (h.0, NoNul-take n xs h.1)

AreTexts-until_exit : (ts : List (List ℕ)) → AreTexts ts → AreTexts (until_exit ts)
AreTexts-until_exit [] h = tt
AreTexts-until_exit (t ∷ ts) h = elim (Bool-cases (str_eq t exit)) [
  | inl e ↦ rw e tt
  | inr e ↦ rw e (h.0, AreTexts-until_exit ts h.1)
]

-- Under the conditions of `session-calls`, another client whose socket was let in exactly once. If
-- each message for it is received at once and is shorter than its buffer, it prints the texts in
-- front of the first `exit`, in order, each with the name and the address in front, and waits for
-- more.
pub session-printed :
    (before : List Event) (r : Room) (calls : List Call) (t fd to : ℕ) (ip garbage name : List ℕ)
    (w : World) (texts : List (List ℕ))
    → Room.run empty before ≡ some (r, calls)
    → get_elem? r.members t ≡ some (waiting fd ip)
    → Works garbage w name texts
    → length name < 49
    → AreReceived (name ∷ until_exit texts)
    → count to (others fd r.joined) ≡ 1
    → AreShort name (take 15 (c_string ip)) (until_exit texts)
    → (nickname : List ℕ) × (sends : List (List ℕ)) × (more : List Call) × (main garbage w
        ≡ some (left nickname sends))
      × (observed (Chat.run start (before ++ heard t (nickname ∷ sends))) ≡ some (calls ++ more))
      × (receive_messages (map some (inbox to more))
          ≡ (map (said name (take 15 (c_string ip))) (until_exit texts), End.waiting))
session-printed before r calls t fd to ip garbage name w texts ran waits works short fits once few =
    let (nickname, sends, sent_right, heard_right) =
      session-calls before r calls t fd ip garbage name w texts ran waits works short fits in
    let address = take 15 (c_string ip) in
    (
      nickname,
      sends,
      spread (others fd r.joined) name address (until_exit texts),
      sent_right,
      heard_right,
      ap (λ ts. receive_messages (map some ts))
            (inbox-spread to (others fd r.joined) name address (until_exit texts) once)
          ∙ receive_messages-lines name address (NoNul-IsText name works.named)
              (NoNul-take 15 (c_string ip) (NoNul-c_string ip)) (until_exit texts)
              (AreTexts-until_exit texts works.said) few,
    )
