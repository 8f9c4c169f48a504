-- ===== src/Net/EventLoop.antt =====
-- net/EventLoop.hpp and .cpp, net/Channel.hpp and .cpp, net/Epoll.hpp and .cpp: the loop, the channels
-- that it watches, and the tasks that are queued in it.
-- The kernel's interest list is a parameter (`Kernel`). A channel is its place in `objects`, which
-- is also the pointer that the kernel gives back. What a callback or a task does is an argument.
pub mod Watched
pub mod Tasks
pub mod Dispatch
pub mod Tests
use azh_lid.Prelude.{
  ℕ, Bool, true, false, Option, none, some, List, [], ◌∷◌, ◌++◌, ◌==◌, ◌||◌, ◌&&◌, not,
  if◌then◌else◌, ℤ, negsuc, length, get_or, set, Map, lookup, insert, erase, int_eq,
}
use azh_lid.Net.TcpConnection.{Interest}

-- epoll_ctl: whether it works, and the interest list after it. A registration has the channel's pointer.
pub record Kernel (S : Type 0) : Type 0 where
  pub ctl_add : ℤ → Interest → ℕ → S → Bool × S
  pub ctl_mod : ℤ → Interest → ℕ → S → Bool × S
  pub ctl_del : ℤ → S → Bool × S

-- `alive` is whether the object exists; `tied` and `tie_alive` are the object whose life it watches.
pub record Channel : Type 0 where
  pub fd : ℤ
  pub events : Interest
  pub alive : Bool
  pub has_cb : Bool
  pub tied : Bool
  pub tie_alive : Bool

-- What code that runs in the loop does to a channel.
pub data Act : Type 0 where
  enables_read : ℕ → Act
  enables_write : ℕ → Act
  disables_write : ℕ → Act
  disables_all : ℕ → Act
  removes : ℕ → Act
  destroys : ℕ → Act

-- `handled` are the callbacks that have been called, with their events, and `ran` the tasks.
pub record EventLoop (S : Type 0) : Type 0 where
  pub epoller : S
  pub channels : Map ℤ ℕ
  pub objects : List Channel
  pub running : Bool
  pub pending_functors : List ℕ
  pub handled : List (ℕ × ℕ)
  pub ran : List ℕ

abbrev pub no_events : Interest
no_events = record { reading = false; writing = false }

abbrev pub no_channel : Channel
no_channel = record {
  fd = negsuc 0;
  events = no_events;
  alive = false;
  has_cb = false;
  tied = false;
  tie_alive = false;
}

abbrev pub has_none : Interest → Bool
has_none e = not (e.reading || e.writing)

module _ {S : Type 0} (k : Kernel S) where
  abbrev pub channel_at : ℕ → EventLoop S → Channel
  channel_at c l = get_or l.objects c no_channel

  -- Epoll::del, whose result the loop does not read.
  pub del : ℤ → EventLoop S → EventLoop S
  del fd l = record l { epoller = (k.ctl_del fd l.epoller).1 }

  add_result : ℤ → ℕ → Bool × S → EventLoop S → EventLoop S
  add_result fd c (true, e) l = record l { epoller = e; channels = insert fd c l.channels }
  add_result fd c (false, e) l = record l { epoller = e }

  watch_more : ℕ → Channel → Option ℕ → EventLoop S → EventLoop S
  watch_more c ch none l = add_result ch.fd c (k.ctl_add ch.fd ch.events c l.epoller) l
  watch_more c ch (some c') l = record l { epoller = (k.ctl_mod ch.fd ch.events c l.epoller).1 }

  pub update_channel : ℕ → EventLoop S → EventLoop S
  unfolding add_result watch_more
  update_channel c l =
      let ch = channel_at c l in
      if has_none ch.events
      then record (del ch.fd l) { channels = erase ch.fd l.channels }
      else watch_more c ch (lookup ch.fd l.channels) l

  pub remove_channel : ℕ → EventLoop S → EventLoop S
  remove_channel c l =
      let ch = channel_at c l in del ch.fd (record l { channels = erase ch.fd l.channels })

  pub set_channel : ℕ → Channel → EventLoop S → EventLoop S
  set_channel c ch l = record l { objects = set l.objects c ch }

  with_events : Interest → Channel → Channel
  with_events e ch = record ch { events = e }

  -- The channel's own operations, in the thread of the loop; each ends with `update`.
  pub act : Act → EventLoop S → EventLoop S
  unfolding with_events
  act (enables_read c) l =
      let ch = channel_at c l in
      update_channel c (set_channel c (with_events (record ch.events { reading = true }) ch) l)
  act (enables_write c) l =
      let ch = channel_at c l in
      update_channel c (set_channel c (with_events (record ch.events { writing = true }) ch) l)
  act (disables_write c) l =
      let ch = channel_at c l in
      update_channel c (set_channel c (with_events (record ch.events { writing = false }) ch) l)
  act (disables_all c) l =
      update_channel c (set_channel c (with_events no_events (channel_at c l)) l)
  act (removes c) l = remove_channel c l
  act (destroys c) l = set_channel c (record (channel_at c l) { alive = false }) l

  pub act_all : List Act → EventLoop S → EventLoop S
  act_all [] l = l
  act_all (a ∷ acts) l = act_all acts (act a l)

  pub stop : EventLoop S → EventLoop S
  stop l = record l { running = false }

  pub queue_in_loop : ℕ → EventLoop S → EventLoop S
  queue_in_loop task l = record l { pending_functors = l.pending_functors ++ task ∷ [] }

  -- What callbacks and tasks do: to channels, and which tasks they queue.
  module _ (on_event : ℕ → ℕ → List Act × List ℕ) (on_task : ℕ → List Act × List ℕ) where
    reacts : List Act × List ℕ → EventLoop S → EventLoop S
    reacts (acts, tasks) l =
        let l' = act_all acts l in record l' { pending_functors = l'.pending_functors ++ tasks }

    -- `runInLoop`, in the thread of the loop or another one.
    pub run_in_loop : Bool → ℕ → EventLoop S → EventLoop S
    unfolding reacts
    run_in_loop in_loop_thread task l =
        if in_loop_thread
        then reacts (on_task task) (record l { ran = l.ran ++ task ∷ [] })
        else queue_in_loop task l

    pub handle_event : ℕ → ℕ → EventLoop S → EventLoop S
    unfolding reacts
    handle_event c revents l =
        let ch = channel_at c l in
        if (not ch.tied || ch.tie_alive) && ch.has_cb
        then reacts (on_event c revents) (record l { handled = l.handled ++ (c, revents) ∷ [] })
        else l

    run_each : List ℕ → EventLoop S → EventLoop S
    unfolding reacts
    run_each [] l = l
    run_each (task ∷ tasks) l = run_each tasks (run_in_loop true task l)

    pub do_pending_functors : EventLoop S → EventLoop S
    unfolding run_each
    do_pending_functors l = run_each l.pending_functors (record l { pending_functors = [] })

    pub found : ℕ → Option ℕ → EventLoop S → EventLoop S
    found revents none l = l
    found revents (some c) l = if (channel_at c l).alive then handle_event c revents l else l

    -- The events of one poll; `none` is a read of a channel that no longer exists.
    pub dispatch : List (ℕ × ℕ) → EventLoop S → Option (EventLoop S)
    unfolding found
    dispatch [] l = some l
    dispatch ((c, revents) ∷ events) l =
        if (channel_at c l).alive
        then dispatch events (found revents (lookup (channel_at c l).fd l.channels) l)
        else none

    -- One turn of `loop`, with the events that the poll returns.
    pub turn : List (ℕ × ℕ) → EventLoop S → Option (EventLoop S)
    turn events l = elim (dispatch events (do_pending_functors l)) [
      | none ↦ none
      | some l' ↦ some (do_pending_functors l')
    ]

    pub turns : List (List (ℕ × ℕ)) → EventLoop S → Option (EventLoop S)
    turns [] l = some l
    turns (events ∷ polls) l =
        if l.running
        then elim (turn events l) [ none ↦ none | some l' ↦ turns polls l' ]
        else some l

    -- `loop`, until the polls are used up or it is told to stop.
    pub loop : List (List (ℕ × ℕ)) → EventLoop S → Option (EventLoop S)
    unfolding turns
    loop polls l = turns polls (record l { running = true })
