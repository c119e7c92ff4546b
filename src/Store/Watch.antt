-- ===== src/Store/Watch.antt =====
-- crates/studio-store/src/watch.rs: the watcher of a directory. The notify crate calls back with its
-- events, which wait in a channel; a reading of the clock is the next of a sequence, in nanoseconds.
pub mod Debounce
use cobrust_studio.Base.{
  ℕ, suc, ◌+◌, ◌-◌, ◌≤◌, ◌==◌, ltb, leb, Bool, true, false, not, ◌&&◌, List, [], ◌∷◌, ◌++◌, Option,
  none, some, Text, Result, ok, err, length, if◌then◌else◌,
}
use cobrust_studio.Host.{FilePath, eq_path}
use cobrust_studio.Store.Documents.{EventKind, create, modify, remove, RawEvent}

-- `DEBOUNCE_WINDOW`: 200 ms
abbrev pub debounce_window : ℕ
debounce_window = 200000000

-- the capacity of the channel
abbrev pub channel_capacity : ℕ
channel_capacity = 64

-- `notify::EventKind`, without the details of a kind, and `notify::Event`
pub data NotifyKind : Type 0 where
  any_kind access_kind create_kind modify_kind remove_kind other_kind : NotifyKind

pub record NotifyEvent : Type 0 where
  pub kind : NotifyKind
  pub paths : List FilePath

-- `map_kind`
unfoldable pub map_kind : NotifyKind → Option EventKind
map_kind create_kind = some create
map_kind modify_kind = some modify
map_kind remove_kind = some remove
map_kind any_kind = none
map_kind access_kind = none
map_kind other_kind = none

unfoldable pub eq_kind : EventKind → EventKind → Bool
eq_kind create create = true
eq_kind create modify = false
eq_kind create remove = false
eq_kind modify create = false
eq_kind modify modify = true
eq_kind modify remove = false
eq_kind remove create = false
eq_kind remove modify = false
eq_kind remove remove = true

-- two events with the same `(path, kind)`
unfoldable pub same_key : RawEvent → RawEvent → Bool
unfolding eq_path eq_kind
same_key e f = eq_path e.path f.path && eq_kind e.kind f.kind

-- The channel between the callback and the stream, the map of the stream with the time of the last
-- emission by the key of an event, and the number of readings of the clock.
pub record WatchStream : Type 0 where
  pub queue : List RawEvent
  pub closed : Bool
  pub last_emitted : RawEvent → Option ℕ
  pub reads : ℕ

-- what `watch_dir_stream` returns
unfoldable pub watch_dir_stream : ℕ → WatchStream
watch_dir_stream reads = record {
  queue = [];
  closed = false;
  last_emitted = λ e. none;
  reads = reads;
}

-- `tx.try_send(raw)`, whose failure drops the event
unfoldable pub try_send : RawEvent → WatchStream → WatchStream
try_send raw s =
    if not s.closed && ltb (length s.queue) channel_capacity
    then record s { queue = s.queue ++ raw ∷ [] }
    else s

module _ (is_dir : FilePath → Bool) where
  send_kind : FilePath → Option EventKind → WatchStream → WatchStream
  unfolding try_send
  send_kind path none s = s
  send_kind path (some kind) s = try_send (record { path = path; kind = kind }) s

  send_paths : NotifyKind → List FilePath → WatchStream → WatchStream
  unfolding send_kind map_kind
  send_paths kind [] s = s
  send_paths kind (path ∷ paths) s =
      send_paths kind paths (if is_dir path then s else send_kind path (map_kind kind) s)

  -- the callback of `watch_dir`
  unfoldable pub on_notify : Result Text NotifyEvent → WatchStream → WatchStream
  unfolding send_paths
  on_notify (err why) s = s
  on_notify (ok evt) s = send_paths evt.kind evt.paths s

-- `Poll<Option<RawEvent>>`, an event with the time of its emission
pub data Polled : Type 0 where
  item : RawEvent → ℕ → Polled
  finished pending : Polled

module _ (clock : ℕ → ℕ) where
  -- `last_emitted.retain`
  retained : ℕ → Option ℕ → Option ℕ
  retained now none = none
  retained now (some t) = if ltb (now - t) debounce_window then some t else none

  -- `is_none_or` in the test for a stale entry
  is_stale : ℕ → Option ℕ → Bool
  is_stale now none = true
  is_stale now (some t) = leb debounce_window (now - t)

  -- `last_emitted.insert`
  insert_emitted : RawEvent → ℕ → (RawEvent → Option ℕ) → RawEvent → Option ℕ
  unfolding same_key
  insert_emitted evt now last e = if same_key e evt then some now else last e

  -- the loop of `poll_next`
  poll_loop : List RawEvent → WatchStream → Polled × WatchStream
  unfolding is_stale insert_emitted
  poll_loop [] s = (if s.closed then finished else pending, record s { queue = [] })
  poll_loop (evt ∷ queue) s =
      let now = clock s.reads in
      let suppressed = poll_loop queue (record s { reads = suc s.reads }) in
      if is_stale now (s.last_emitted evt)
      then (
        item evt now,
        record s {
          queue = queue;
          reads = suc s.reads;
          last_emitted = insert_emitted evt now s.last_emitted;
        },
      )
      else suppressed

  unfoldable pub poll_next : WatchStream → Polled × WatchStream
  unfolding poll_loop retained
  poll_next s =
      let now_gc = clock s.reads in
      poll_loop s.queue
        (record s { reads = suc s.reads; last_emitted = λ e. retained now_gc (s.last_emitted e) })

-- What happens to a stream: a callback, a poll, the end of the sender.
pub data WatchStep : Type 0 where
  notified : Result Text NotifyEvent → WatchStep
  polled hung_up : WatchStep

-- an emitted event, with its time
pub record Emission : Type 0 where
  pub event : RawEvent
  pub time : ℕ

unfoldable pub emitted : Polled → List Emission
emitted (item evt t) = record { event = evt; time = t } ∷ []
emitted finished = []
emitted pending = []

module _ (is_dir : FilePath → Bool) (clock : ℕ → ℕ) where
  unfoldable pub step : WatchStep → WatchStream → List Emission × WatchStream
  unfolding on_notify poll_next emitted
  step (notified r) s = ([], on_notify is_dir r s)
  step polled s = let (p, s') = poll_next clock s in (emitted p, s')
  step hung_up s = ([], record s { closed = true })

  -- the events of a run, in their order
  unfoldable pub run : List WatchStep → WatchStream → List Emission
  unfolding step
  run [] s = []
  run (a ∷ more) s = let (es, s') = step a s in es ++ run more s'
