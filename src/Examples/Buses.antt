-- ===== src/Examples/Buses.antt =====
-- The event bus.
use mathlib.Core.Option
use slurpee.Prelude.{
  ◌+◌, ◌%◌, ◌^◌, ◌≤◌, ◌≡◌, refl, none, some, [], ◌∷◌, ◌++◌, length, ltb, if◌then◌else◌, arith,
}
use slurpee.Prelude.Keys.{codes, nat_eq, lookup, insert}
use slurpee.Model.{pending}
use slurpee.EventBus.{
  BusMessage, created, EventBus, new_event_bus, subscribe, draw_stamp, broadcast,
}
use slurpee.EventBus.Buffers.{copies}
use slurpee.EventBus.Order.{
  Traffic, no_traffic, here, next, subscribed, draws, sends, Reach, Reach-buffer, lookup-broadcast,
}

abbrev sample_message : BusMessage
sample_message = record {
  id = 0;
  kind = created;
  event_id = codes "e";
  subject = codes "order";
  delivery_status = pending;
  timestamp = none;
  properties = [];
  subscriber_endpoint = [];
  attempt_status = none;
  response_status_code = 0;
}

abbrev subscribed_bus : EventBus
subscribed_bus = (subscribe new_event_bus).1

abbrev first_message : BusMessage
first_message = record sample_message { id = 1; timestamp = some 42 }

abbrev second_message : BusMessage
second_message = record sample_message { id = 2; timestamp = some 43 }

-- Two publishers, of which the second sends first.
abbrev overtaken : Traffic
overtaken = record {
  sending = [];
  bus = broadcast first_message (broadcast second_message (record subscribed_bus { next_id = 2 }));
}

overtaking : Reach no_traffic overtaken
unfolding subscribe new_event_bus draw_stamp
overtaking =
    next
      (next
        (next (next (next here subscribed) (draws sample_message 42 (omega arith)))
          (draws sample_message 43 (omega arith)))
        (sends [] (first_message ∷ []) second_message refl))
      (sends [] [] first_message refl)

out_of_order : lookup 0 overtaken.bus.subscribers ≡ some (second_message ∷ first_message ∷ [])
unfolding lookup insert broadcast subscribe new_event_bus
out_of_order = refl

Reach-buffer_example :
    (length (second_message ∷ first_message ∷ []) ≤ 64)
    × (copies 2 (second_message ∷ first_message ∷ [])
        ≤ (if ltb overtaken.bus.next_id 2 then 0 else 1))
Reach-buffer_example =
    Reach-buffer 0 2 (second_message ∷ first_message ∷ []) overtaking out_of_order

lookup-broadcast_example :
    let (sent, after) = draw_stamp sample_message 42 subscribed_bus in
    (sent.id ≡ (subscribed_bus.next_id + 1) % 2 ^ 64)
    × (sent.timestamp ≡ some 42)
    × (record sent { id = sample_message.id; timestamp = sample_message.timestamp }
        ≡ sample_message)
    × (after ≡ record subscribed_bus { next_id = sent.id })
    × (lookup 0 (broadcast sent subscribed_bus).subscribers
        ≡ Option.map
            (λ buffer. if ltb (length buffer) 64 then buffer ++ sent ∷ [] else buffer)
            (lookup 0 subscribed_bus.subscribers))
lookup-broadcast_example = lookup-broadcast 0 42 sample_message subscribed_bus subscribed_bus
