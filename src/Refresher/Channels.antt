-- ===== src/Refresher/Channels.antt =====
-- crates/runtime/src/accelerated_table.rs (`Builder::build`, `trigger_refresh`) and
-- refresh.rs (`Refresher::start`): which tables take a request to refresh, and what they run.
use spiceai.Prelude.{Option, none, some, ◌≡◌, ◌↔◌, arith}
use spiceai.Prelude.Result.{Result, ok, err}
use spiceai.Refresh.{Refresh, disabled, full, append, changes}

-- A channel, or a stream of the source, is a value of a type of its own.
pub data AccelerationRefreshMode (Channel Stream : Type 0) : Type 0 where
  disabled_mode : AccelerationRefreshMode Channel Stream
  full_mode : Channel → AccelerationRefreshMode Channel Stream
  append_mode : Option Channel → AccelerationRefreshMode Channel Stream
  changes_mode : Stream → AccelerationRefreshMode Channel Stream

pub data Error : Type 0 where
  manual_refresh_is_not_supported : Error

-- What `Refresher::start` spawns: nothing, the loop with its channel, or a stream.
pub data Started (Channel Stream : Type 0) : Type 0 where
  nothing : Started Channel Stream
  scheduled : Channel → Started Channel Stream
  streaming_append : Started Channel Stream
  changes_stream : Stream → Started Channel Stream

-- `trigger_refresh`: where the request goes.
unfoldable pub trigger_refresh : {Channel : Type 0} → Option Channel → Result Error Channel
trigger_refresh (some refresh_trigger) = ok refresh_trigger
trigger_refresh none = err manual_refresh_is_not_supported

module _ {Channel Stream : Type 0} where
  -- The `match self.refresh.mode` of `build`; a panic is `none`.
  unfoldable pub refresh_channels :
      Refresh
      → Channel
      → Option Stream
      → Option Stream
      → Option (AccelerationRefreshMode Channel Stream × Option Channel)
  refresh_channels refresh channel appended changed = elim refresh.mode [
    | disabled ↦ some (disabled_mode, none)
    | append ↦ elim refresh.time_column [
      | none ↦ elim appended [ none ↦ none | some stream ↦ some (changes_mode stream, none) ]
      | some column ↦ some (append_mode (some channel), some channel)
    ]
    | full ↦ some (full_mode channel, some channel)
    | changes ↦ elim changed [ none ↦ none | some stream ↦ some (changes_mode stream, none) ]
  ]

  -- The `match acceleration_refresh_mode` of `start`.
  unfoldable pub started : Refresh → AccelerationRefreshMode Channel Stream → Started Channel Stream
  started refresh disabled_mode = nothing
  started refresh (append_mode receiver) = elim receiver [
    | none ↦ streaming_append
    | some channel ↦ elim refresh.time_column [
      | none ↦ streaming_append
      | some column ↦ scheduled channel
    ]
  ]
  started refresh (full_mode channel) = scheduled channel
  started refresh (changes_mode stream) = changes_stream stream

  -- The loop that a trigger belongs to.
  unfoldable pub loop_of : Started Channel Stream → Option Channel
  loop_of nothing = none
  loop_of (scheduled channel) = some channel
  loop_of streaming_append = none
  loop_of (changes_stream stream) = none

module _ {Channel Stream : Type 0} (refresh : Refresh) (channel : Channel)
    (appended changed : Option Stream) (mode : AccelerationRefreshMode Channel Stream)
    (refresh_trigger : Option Channel) where
  -- For a table that is built without a panic: a request to refresh is taken if and only if the loop
  -- of scheduled refreshes is started, and it goes to the channel that this loop reads.
  pub refresh_channels-started :
      refresh_channels refresh channel appended changed ≡ some (mode, refresh_trigger)
      → (loop_of (started refresh mode) ≡ refresh_trigger)
        × ((trigger_refresh refresh_trigger ≡ ok channel)
            ↔ (loop_of (started refresh mode) ≡ some channel))
  unfolding refresh_channels started trigger_refresh loop_of
  refresh_channels-started h = ground arith
