-- ===== src/Views/Events/Stream.antt =====
-- views/events.go: the stream of server-sent events.
use slurpee.Prelude.{
  ℕ, ◌-◌, ◌*◌, Bool, true, not, ◌&&◌, ◌||◌, Option, none, some, List, [], ◌∷◌, is_empty, ltb,
  if◌then◌else◌,
}
use slurpee.Prelude.Action.{Action, pure, ◌>>=◌, on_option, on_result}
use slurpee.Prelude.Int.{ℤ, pos, negsuc, ltb_ℤ}
use slurpee.Prelude.Keys.{Bytes, ◌==◌, bytes_eq}
use slurpee.Prelude.Text.{contains, parse_int, split_first}
use slurpee.Db.Listings.{count_events_after_timestamp, status_text}
use slurpee.External.{External}
use slurpee.App.{Application, in_db}
use slurpee.EventBus
use slurpee.EventBus.{BusMessage}
use slurpee.Views.{Platform}
use slurpee.Views.Events.{EventFilters, after_params, date_filter, end_of_day}

-- What is written to the client: the number of missed events, a message with its id
-- `<id>:<nanoseconds>`, or a comment that keeps the connection open.
pub data Frame : Type 0 where
  missed : ℕ → Frame
  message : ℕ → ℤ → BusMessage → Frame
  keepalive : Frame

-- The cases of the handler's `select`.
pub data Wakeup : Type 0 where
  cancelled ticked closed : Wakeup
  received : BusMessage → Wakeup

-- A `time.Time`; the zero time is the start of the year 1.
abbrev pub instant : Option ℕ → ℤ
instant none = negsuc (62135596800 * 1000000000 - 1)
instant (some t) = pos t

module _ {Value : Type 0} (ext : External Value) (platform : Platform) where
  -- `matchesStreamFilters`
  unfoldable pub matches_stream_filters : BusMessage → EventFilters → Bool
  unfolding date_filter
  matches_stream_filters msg f =
      (is_empty f.subject || contains (platform.to_lower msg.subject) (platform.to_lower f.subject))
      && (is_empty f.status || status_text msg.delivery_status == f.status)
      && on_option (date_filter ext platform f.date_from) true
          (λ t. not (ltb_ℤ (instant msg.timestamp) t))
      && on_option (date_filter ext platform f.date_to) true
          (λ t. not (ltb_ℤ (end_of_day t) (instant msg.timestamp)))

  -- The time in a `Last-Event-ID`.
  unfoldable pub last_seen : Bytes → Option ℤ
  last_seen last_id = on_option (split_first b':' last_id) none (λ (id, nanos). parse_int 64 nanos)

  -- The answer to a `Last-Event-ID`.
  unfoldable pub report_missed : Bytes → EventFilters → Action Application (List Frame)
  unfolding last_seen
  report_missed last_id filters = on_option (last_seen last_id) (pure []) λ nanos. do
    counted ←
        in_db
          (count_events_after_timestamp platform.engine (after_params ext platform nanos filters))
    pure (on_result counted (λ e. []) (λ count. if ltb 0 count then missed count ∷ [] else []))

  -- `eventsStreamHandler` up to its loop: the channel, and what is written first.
  unfoldable pub open_stream : Bytes → EventFilters → Action Application (ℕ × List Frame)
  unfolding report_missed
  open_stream last_id filters a =
      let (channel, bus) = EventBus.subscribe a.event_bus in
      (do frames ← report_missed last_id filters; pure (channel, frames))
        (record a { event_bus = bus })

  -- One round of the loop: what is written, or `none` if the handler returns.
  unfoldable pub stream_step : EventFilters → Wakeup → Option (List Frame)
  unfolding matches_stream_filters
  stream_step filters cancelled = none
  stream_step filters ticked = some (keepalive ∷ [])
  stream_step filters closed = none
  stream_step filters (received msg) = some (
      if matches_stream_filters msg filters
      then message msg.id (instant msg.timestamp) msg ∷ []
      else [])

  -- The deferred `unsubscribe`.
  unfoldable pub close_stream : ℕ → Action Application (Unit {0})
  close_stream channel a = (tt, record a { event_bus = EventBus.unsubscribe channel a.event_bus })
