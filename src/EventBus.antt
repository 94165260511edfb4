-- ===== src/EventBus.antt =====
-- app/eventbus.go: broadcast to buffered channels, without waiting for a slow consumer.
-- A channel is a number and the messages in its buffer, oldest first. A publication is two steps: it
-- draws an id, and then it sends to all channels under the read lock, which publishers share. Order
-- interleaves these steps; `publish` is a publication that no other comes between.
pub mod Buffers
pub mod Order
use slurpee.Prelude.{
  ℕ, suc, ◌+◌, ◌%◌, ◌^◌, Bool, Option, none, some, List, [], ◌∷◌, ◌++◌, length, ltb, if◌then◌else◌,
}
use slurpee.Prelude.Keys.{Bytes, ◌==◌, nat_eq, erase, lookup, insert}
use slurpee.Model.{DeliveryStatus, AttemptStatus}

pub data BusMessageType : Type 0 where
  created status_changed delivery_attempt : BusMessageType

pub record BusMessage : Type 0 where
  pub id : ℕ
  pub kind : BusMessageType
  pub event_id : Bytes
  pub subject : Bytes
  pub delivery_status : DeliveryStatus
  -- `none` is Go's zero time.
  pub timestamp : Option ℕ
  pub properties : List (Bytes × Bytes)
  pub subscriber_endpoint : Bytes
  pub attempt_status : Option AttemptStatus
  pub response_status_code : ℕ

abbrev pub subscriber_buffer_size : ℕ
subscriber_buffer_size = 64

pub record EventBus : Type 0 where
  -- An atomic.Uint64.
  pub next_id : ℕ
  pub subscribers : List (ℕ × List BusMessage)
  -- The identity of the next channel that is made.
  pub next_channel : ℕ

unfoldable pub new_event_bus : EventBus
new_event_bus = record { next_id = 0; subscribers = []; next_channel = 0 }

-- The channel, and the bus that sends to it.
unfoldable pub subscribe : EventBus → ℕ × EventBus
subscribe b = (
  b.next_channel,
  record b {
    subscribers = insert b.next_channel [] b.subscribers;
    next_channel = suc b.next_channel;
  },
)

unfoldable pub unsubscribe : ℕ → EventBus → EventBus
unsubscribe ch b = record b { subscribers = erase ch b.subscribers }

-- `select { case ch <- msg: default: }`
unfoldable pub try_send : BusMessage → List BusMessage → List BusMessage
try_send msg buffer =
    if ltb (length buffer) subscriber_buffer_size then buffer ++ msg ∷ [] else buffer

unfoldable pub send_all : BusMessage → List (ℕ × List BusMessage) → List (ℕ × List BusMessage)
send_all msg [] = []
send_all msg ((ch, buffer) ∷ rest) = (ch, try_send msg buffer) ∷ send_all msg rest

abbrev pub or_now : Option ℕ → ℕ → Option ℕ
or_now none now = some now
or_now (some t) now = some t

-- `msg.ID = b.nextID.Add(1)`, and the time: the message to send, and the bus.
unfoldable pub draw_stamp : BusMessage → ℕ → EventBus → BusMessage × EventBus
draw_stamp msg now b =
    let id = (b.next_id + 1) % 2 ^ 64 in
    (record msg { id = id; timestamp = or_now msg.timestamp now }, record b { next_id = id })

-- The part of `Publish` under the read lock.
unfoldable pub broadcast : BusMessage → EventBus → EventBus
unfolding send_all try_send
broadcast msg b = record b { subscribers = send_all msg b.subscribers }

unfoldable pub publish : BusMessage → ℕ → EventBus → EventBus
unfolding draw_stamp broadcast
publish msg now b = let (sent, c) = draw_stamp msg now b in broadcast sent c

-- A receive by the owner of the channel.
unfoldable pub receive_from : List BusMessage → Option (BusMessage × List BusMessage)
receive_from [] = none
receive_from (msg ∷ rest) = some (msg, rest)
