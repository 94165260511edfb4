-- ===== src/EventBus/Order.antt =====
-- What a consumer of the bus can rely on, over any interleaving of publishers.
use mathlib.Core.Option
use slurpee.Prelude.{
  ℕ, ◌+◌, ◌%◌, ◌^◌, ◌≤◌, ◌<◌, ◌≡◌, refl, if◌then◌else◌, some, List, [], ◌∷◌, ◌++◌, arith, length,
  All, ltb, subst, Option, none,
}
use slurpee.Prelude.Action.{on_option}
use slurpee.Prelude.Keys.{nat_eq, lookup, insert}
use slurpee.EventBus.{
  BusMessage, EventBus, new_event_bus, subscribe, unsubscribe, draw_stamp, broadcast, try_send,
  send_all, receive_from, or_now,
}
use slurpee.EventBus.Buffers.{
  copies, IsBuffer, Buffered, draw-IsBuffer, pass-IsBuffer, receive-IsBuffer, draw-Buffered,
  send_all-Buffered, insert-Buffered, erase-Buffered, lookup-Buffered,
}

-- A publication in progress is a message that has its id and is not sent yet.
pub record Traffic : Type 0 where
  pub sending : List BusMessage
  pub bus : EventBus

pub record IsSafe (t : Traffic) : Type 0 where
  pub empty : IsBuffer t.sending t.bus.next_id []
  pub buffers : All (Buffered t.sending t.bus.next_id) t.bus.subscribers

-- One step of anybody: a publisher draws an id, or sends what it has, in any order among the
-- publishers; a subscription begins or ends; the owner of a channel receives.
pub data Step (t : Traffic) : Traffic → Type 0 where
  draws :
      (msg : BusMessage) (now : ℕ)
      → t.bus.next_id + 1 < 2 ^ 64
      → Step t (record {
        sending = (draw_stamp msg now t.bus).0 ∷ t.sending;
        bus = (draw_stamp msg now t.bus).1;
      })
  sends :
      (before after : List BusMessage) (m : BusMessage)
      → t.sending ≡ before ++ m ∷ after
      → Step t (record { sending = before ++ after; bus = broadcast m t.bus })
  subscribed : Step t (record t { bus = (subscribe t.bus).1 })
  unsubscribed : (ch : ℕ) → Step t (record t { bus = unsubscribe ch t.bus })
  received :
      (ch : ℕ) (buffer : List BusMessage) (msg : BusMessage) (rest : List BusMessage)
      → lookup ch t.bus.subscribers ≡ some buffer
      → receive_from buffer ≡ some (msg, rest)
      → Step t
          (record t { bus = record (t.bus) { subscribers = insert ch rest t.bus.subscribers } })

pub data Reach (t : Traffic) : Traffic → Type 0 where
  here : Reach t t
  next : {u v : Traffic} → Reach t u → Step u v → Reach t v

abbrev pub no_traffic : Traffic
no_traffic = record { sending = []; bus = new_event_bus }

Step-IsSafe : {t u : Traffic} → IsSafe t → Step t u → IsSafe u
unfolding draw_stamp broadcast subscribe unsubscribe receive_from
Step-IsSafe {t} o (draws msg now h) =
    let (sent, b) = draw_stamp msg now t.bus in
    let e : sent.id ≡ t.bus.next_id + 1 = omega (arith, h) in
    record {
      empty = draw-IsBuffer sent t.sending t.bus.next_id [] e o.empty;
      buffers = draw-Buffered sent t.sending t.bus.next_id t.bus.subscribers e o.buffers;
    }
Step-IsSafe {t} o (sends before after m e) =
    let hi = t.bus.next_id in
    record {
      empty = pass-IsBuffer m before after hi [] (subst (λ l. IsBuffer l hi []) e o.empty);
      buffers =
          send_all-Buffered m before after hi t.bus.subscribers
            (subst (λ l. All (Buffered l hi) t.bus.subscribers) e o.buffers);
    }
Step-IsSafe {t} o subscribed = record {
  empty = o.empty;
  buffers =
      insert-Buffered t.sending t.bus.next_id t.bus.next_channel [] t.bus.subscribers o.empty
        o.buffers;
}
Step-IsSafe {t} o (unsubscribed ch) = record {
  empty = o.empty;
  buffers = erase-Buffered t.sending t.bus.next_id ch t.bus.subscribers o.buffers;
}
Step-IsSafe {t} o (received ch [] msg rest e r) = cc
Step-IsSafe {t} o (received ch (m ∷ ms) msg rest e r) =
    let old = lookup-Buffered t.sending t.bus.next_id ch t.bus.subscribers (m ∷ ms) o.buffers e in
    let left = receive-IsBuffer t.sending t.bus.next_id m ms old in
    record {
      empty = o.empty;
      buffers =
          insert-Buffered t.sending t.bus.next_id ch rest t.bus.subscribers
            (subst (IsBuffer t.sending t.bus.next_id) {x = ms} {y = rest} (cc) left) o.buffers;
    }

Reach-IsSafe : {t u : Traffic} → IsSafe t → Reach t u → IsSafe u
Reach-IsSafe o here = o
Reach-IsSafe o (next r s) = Step-IsSafe (Reach-IsSafe o r) s

start-IsSafe : IsSafe no_traffic
unfolding new_event_bus copies
start-IsSafe = record {
  empty = record { once = λ k. omega arith; drawn = λ k above. refl; room = omega arith };
  buffers = tt;
}

-- From a new bus, in any interleaving of publishers, each of which draws an id and then sends, of
-- subscriptions and of receivers in which the 64-bit counter does not wrap, a channel holds at most
-- 64 messages, no two of them with the same id, and none with an id that the counter has not
-- reached. Nothing is said of the order
-- of the messages.
pub Reach-buffer :
    {t : Traffic} (ch k : ℕ) (buffer : List BusMessage)
    → Reach no_traffic t
    → lookup ch t.bus.subscribers ≡ some buffer
    → (length buffer ≤ 64) × (copies k buffer ≤ (if ltb t.bus.next_id k then 0 else 1))
Reach-buffer {t} ch k buffer r e =
    let h =
      lookup-Buffered t.sending t.bus.next_id ch t.bus.subscribers buffer
        (Reach-IsSafe start-IsSafe r).buffers e in
    (h.room, ground (arith, h.once k, h.drawn k))

lookup-send_all :
    (ch : ℕ) (m : BusMessage) (subs : List (ℕ × List BusMessage))
    → lookup ch (send_all m subs) ≡ Option.map (try_send m) (lookup ch subs)
unfolding lookup send_all
lookup-send_all ch m [] = refl
lookup-send_all ch m ((j, b) ∷ subs) = ground (arith, lookup-send_all ch m subs)

-- A publication draws the next id, and keeps the message but for the id and, if it had none, the
-- time, which is then that of the call. Whatever other publishers and subscribers have made of the
-- bus when it sends, the message is then added at the end of every channel that has room, a full
-- channel keeps what it has, and no channel appears or goes.
pub lookup-broadcast :
    (ch now : ℕ) (msg : BusMessage) (b c : EventBus)
    → let (sent, after) = draw_stamp msg now b in
      (sent.id ≡ (b.next_id + 1) % 2 ^ 64)
      × (sent.timestamp ≡ some (on_option msg.timestamp now (λ t. t)))
      × (record sent { id = msg.id; timestamp = msg.timestamp } ≡ msg)
      × (after ≡ record b { next_id = sent.id })
      × (lookup ch (broadcast sent c).subscribers
          ≡ Option.map
              (λ buffer. if ltb (length buffer) 64 then buffer ++ sent ∷ [] else buffer)
              (lookup ch c.subscribers))
unfolding draw_stamp broadcast try_send
lookup-broadcast ch now msg b c =
    let sent = (draw_stamp msg now b).0 in
    (refl, timed msg.timestamp, refl, refl, lookup-send_all ch sent c.subscribers)
  where
    timed : (o : Option ℕ) → or_now o now ≡ some (on_option o now (λ t. t))
    timed none = refl
    timed (some t) = refl
