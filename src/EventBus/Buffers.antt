-- ===== src/EventBus/Buffers.antt =====
-- What a channel of the bus holds, and how the steps of publishers and receivers change it.
use slurpee.Prelude.{
  ℕ, suc, ◌+◌, ◌≤◌, ◌<◌, ◌≡◌, if◌then◌else◌, some, List, [], ◌∷◌, ◌++◌, arith, length,
  length-append, All,
}
use slurpee.Prelude.Keys.{◌==◌, nat_eq, lookup, insert, erase}
use slurpee.EventBus.{BusMessage, subscriber_buffer_size, try_send, send_all}

-- How many of the messages have an id.
unfoldable pub copies : ℕ → List BusMessage → ℕ
copies k [] = 0
copies k (m ∷ ms) = let n = copies k ms in if m.id == k then suc n else n

copies-append : (k : ℕ) (ms ns : List BusMessage) → copies k (ms ++ ns) ≡ copies k ms + copies k ns
unfolding copies
copies-append k [] ns = omega arith
copies-append k (m ∷ ms) ns = ground (arith, copies-append k ms ns)

-- A buffer holds what was sent, each message once, and 64 messages at most.
pub record IsBuffer (sending : List BusMessage) (hi : ℕ) (buffer : List BusMessage) : Type 0 where
  pub once : (k : ℕ) → copies k buffer + copies k sending ≤ 1
  pub drawn : (k : ℕ) → hi < k → copies k buffer + copies k sending ≡ 0
  pub room : length buffer ≤ subscriber_buffer_size

abbrev pub Buffered : List BusMessage → ℕ → ℕ × List BusMessage → Type 0
Buffered sending hi p = IsBuffer sending hi p.1

-- Another publisher draws an id.
pub draw-IsBuffer :
    (m : BusMessage) (sending : List BusMessage) (hi : ℕ) (buffer : List BusMessage)
    → m.id ≡ hi + 1
    → IsBuffer sending hi buffer
    → IsBuffer (m ∷ sending) m.id buffer
unfolding copies
draw-IsBuffer m sending hi buffer e h = record {
  once = λ k. ground (arith, e, h.once k, h.drawn k);
  drawn = λ k above. ground (arith, e, above, h.drawn k);
  room = h.room;
}

-- A message is sent, and there is room for it or not.
send-IsBuffer :
    (m : BusMessage) (before after : List BusMessage) (hi : ℕ) (buffer : List BusMessage)
    → IsBuffer (before ++ m ∷ after) hi buffer
    → IsBuffer (before ++ after) hi (try_send m buffer)
unfolding try_send copies
send-IsBuffer m before after hi buffer h = record {
  once = λ k. ground (
    arith,
    h.once k,
    copies-append k before (m ∷ after),
    copies-append k before after,
    copies-append k buffer (m ∷ []),
  );
  drawn = λ k above. ground (
    arith,
    h.drawn k above,
    copies-append k before (m ∷ after),
    copies-append k before after,
    copies-append k buffer (m ∷ []),
  );
  room = ground (arith, h.room, length-append buffer (m ∷ []));
}

-- A message is sent to nobody.
pub pass-IsBuffer :
    (m : BusMessage) (before after : List BusMessage) (hi : ℕ) (buffer : List BusMessage)
    → IsBuffer (before ++ m ∷ after) hi buffer
    → IsBuffer (before ++ after) hi buffer
unfolding copies
pass-IsBuffer m before after hi buffer h = record {
  once = λ k.
      ground (arith, h.once k, copies-append k before (m ∷ after), copies-append k before after);
  drawn = λ k above.
      ground
        (arith, h.drawn k above, copies-append k before (m ∷ after), copies-append k before after);
  room = h.room;
}

pub receive-IsBuffer :
    (sending : List BusMessage) (hi : ℕ) (m : BusMessage) (ms : List BusMessage)
    → IsBuffer sending hi (m ∷ ms)
    → IsBuffer sending hi ms
unfolding copies
receive-IsBuffer sending hi m ms h = record {
  once = λ k. ground (arith, h.once k);
  drawn = λ k above. ground (arith, h.drawn k above);
  room = omega (arith, h.room);
}

pub draw-Buffered :
    (m : BusMessage) (sending : List BusMessage) (hi : ℕ) (subs : List (ℕ × List BusMessage))
    → m.id ≡ hi + 1
    → All (Buffered sending hi) subs
    → All (Buffered (m ∷ sending) m.id) subs
draw-Buffered m sending hi [] e h = tt
draw-Buffered m sending hi ((ch, buffer) ∷ subs) e (first, h) =
    (draw-IsBuffer m sending hi buffer e first, draw-Buffered m sending hi subs e h)

pub send_all-Buffered :
    (m : BusMessage) (before after : List BusMessage) (hi : ℕ) (subs : List (ℕ × List BusMessage))
    → All (Buffered (before ++ m ∷ after) hi) subs
    → All (Buffered (before ++ after) hi) (send_all m subs)
unfolding send_all
send_all-Buffered m before after hi [] h = tt
send_all-Buffered m before after hi ((ch, buffer) ∷ subs) (first, h) =
    (send-IsBuffer m before after hi buffer first, send_all-Buffered m before after hi subs h)

module _ (sending : List BusMessage) (hi : ℕ) where
  pub insert-Buffered :
      (ch : ℕ) (buffer : List BusMessage) (subs : List (ℕ × List BusMessage))
      → IsBuffer sending hi buffer
      → All (Buffered sending hi) subs
      → All (Buffered sending hi) (insert ch buffer subs)
  unfolding insert
  insert-Buffered ch buffer [] k h = (k, tt)
  insert-Buffered ch buffer ((j, b) ∷ subs) k h =
      ground (arith, insert-Buffered ch buffer subs k h.1)

  pub erase-Buffered :
      (ch : ℕ) (subs : List (ℕ × List BusMessage))
      → All (Buffered sending hi) subs
      → All (Buffered sending hi) (erase ch subs)
  unfolding erase
  erase-Buffered ch [] h = tt
  erase-Buffered ch ((j, b) ∷ subs) h = ground (arith, erase-Buffered ch subs h.1)

  pub lookup-Buffered :
      (ch : ℕ) (subs : List (ℕ × List BusMessage)) (buffer : List BusMessage)
      → All (Buffered sending hi) subs
      → lookup ch subs ≡ some buffer
      → IsBuffer sending hi buffer
  unfolding lookup
  lookup-Buffered ch [] buffer h e = cc
  lookup-Buffered ch ((j, b) ∷ subs) buffer h e = ground (arith, lookup-Buffered ch subs buffer h.1)
