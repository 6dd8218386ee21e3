-- ===== src/Hub.antt =====
-- worker/hub.go: the hub that fans the status out to its subscribers. A subscriber is its channel, with
-- what its buffer of eight holds; a name stands for the channel.
use fragments.Base.{
  ℕ, suc, ◌≤◌, String, str_append, not, List, [], ◌∷◌, ◌++◌, map, keep, All, All-keep, length,
  length-append, ltb, ◌==◌, if◌then◌else◌, arith, Bool-cases, inl, inr,
}

pub record Subscriber : Type 0 where
  pub channel : ℕ
  pub buffer : List String

-- The next channel's name only grows.
pub record Hub : Type 0 where
  pub subs : List Subscriber
  pub next_channel : ℕ

abbrev pub room : ℕ
room = 8

abbrev pub new_hub : Hub
new_hub = record { subs = []; next_channel = 0 }

unfoldable pub subscribe : Hub → Hub × ℕ
subscribe h = (
  record {
    subs = record { channel = h.next_channel; buffer = [] } ∷ h.subs;
    next_channel = suc h.next_channel;
  },
  h.next_channel,
)

-- An unknown channel changes nothing.
unfoldable pub unsubscribe : ℕ → Hub → Hub
unsubscribe c h = record h { subs = keep (λ s. not (s.channel == c)) h.subs }

-- A full buffer drops the message.
abbrev pub deliver_to : String → Subscriber → Subscriber
deliver_to msg s =
    if ltb (length s.buffer) room then record s { buffer = s.buffer ++ msg ∷ [] } else s

unfoldable pub broadcast : String → Hub → Hub
broadcast msg h = record h { subs = map (deliver_to msg) h.subs }

unfoldable pub sse_message : String → String → String
sse_message event content =
    str_append "event: " (str_append event (str_append "\ndata: " (str_append content "\n\n")))

-- What a hub is asked.
pub data Call : Type 0 where
  join : Call
  quit : ℕ → Call
  tell : String → Call

abbrev pub serve : Call → Hub → Hub
serve join h = (subscribe h).0
serve (quit c) h = unsubscribe c h
serve (tell msg) h = broadcast msg h

-- No buffer is over its room, and every channel is older than the next one.
abbrev pub IsHub : Hub → Type 0
IsHub h = All (λ s. (length s.buffer ≤ room) × (suc s.channel ≤ h.next_channel)) h.subs

older :
    (n : ℕ) (ss : List Subscriber)
    → All (λ s. (length s.buffer ≤ room) × (suc s.channel ≤ n)) ss
    → All (λ s. (length s.buffer ≤ room) × (suc s.channel ≤ suc n)) ss
older n [] h = tt
older n (s ∷ ss) h = ((h.0.0, omega arith), older n ss h.1)

told :
    (msg : String) (n : ℕ) (ss : List Subscriber)
    → All (λ s. (length s.buffer ≤ room) × (suc s.channel ≤ n)) ss
    → All (λ s. (length s.buffer ≤ room) × (suc s.channel ≤ n)) (map (deliver_to msg) ss)
told msg n [] h = tt
told msg n (s ∷ ss) h = elim (Bool-cases (ltb (length s.buffer) room)) [
  | inl e ↦ rw e ((ground (arith, length-append s.buffer (msg ∷ [])), h.0.1), told msg n ss h.1)
  | inr e ↦ rw e (h.0, told msg n ss h.1)
]

-- Every call keeps the buffers within their room.
pub serve-IsHub : (c : Call) (h : Hub) → IsHub h → IsHub (serve c h)
unfolding subscribe unsubscribe broadcast
serve-IsHub join h k = ((omega arith, omega arith), older h.next_channel h.subs k)
serve-IsHub (quit c) h k =
    All-keep (λ s. (length s.buffer ≤ room) × (suc s.channel ≤ h.next_channel))
      (λ s. not (s.channel == c)) h.subs k
serve-IsHub (tell msg) h k = told msg h.next_channel h.subs k
