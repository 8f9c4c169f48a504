-- ===== src/Net/TcpConnection/Tests.antt =====
-- The life of a connection of net/TcpConnection.cpp on concrete runs.
use azh_lid.Prelude.{negsuc, ◌⊎◌, ◌≡◌, refl, true, false, none, some, [], ◌∷◌, pos, is_negative}
use mathlib.Core.Option
use azh_lid.Memory.Pool.{empty_pool}
use azh_lid.Memory.Buffer.{would_block, received}
use azh_lid.Net.TcpConnection.{
  disconnected, connect_established, register, drop_channel, close_fd, registers, connects, closes,
  closes_fd, disconnecting, Connection, Callbacks, Io, Events, arrives, works, asks_send,
  asks_shutdown, run, step, new_connection, handle_event, handle_error, handle_close,
  is_state_connected, no_interest,
}
use azh_lid.Net.TcpConnection.Handlers.{run-Living, whole_life}
use azh_lid.Net.TcpConnection.Life.{IsTame, Living?, IsLiving, closings, notices}
use azh_lid.Net.TcpConnection.Shutdown.{disconnecting_never_closes}

-- A server that sets no callback.
abbrev silent : Callbacks
silent = record { connected_cb = none; message_cb = none; close_cb = none }

silent-IsTame : IsTame silent
silent-IsTame = record {
  connected_tame = λ c v. v;
  message_tame = λ c v. v;
  close_tame = λ c e. (refl, refl, refl, refl);
}

-- Every allocation is granted, the peer has closed, and the kernel takes nothing.
abbrev quiet : Io
quiet = record {
  env = record { others = λ q. q; granted = some 7; grown = true };
  read = λ n. received [];
  write = λ bytes. would_block;
  direct = λ bytes. would_block;
}

abbrev fresh_connection : Connection
fresh_connection = new_connection (pos 5) empty_pool

abbrev hung_up : Events
hung_up = record { err = false; hup = true; rdhup = false; readable = false; writable = false }

abbrev arrived : Events
arrived = record { err = false; hup = false; rdhup = false; readable = true; writable = true }

fresh-IsLiving : IsLiving fresh_connection
unfolding new_connection
fresh-IsLiving = (refl, refl, record { no_notice = refl; no_closing = refl })

-- A connection that sends, meets an event, and is shut down from another thread.
run-Living_example : Living? (
    run silent
      (asks_send quiet true (1 ∷ 2 ∷ [])
        ∷ arrives quiet arrived
        ∷ asks_shutdown false
        ∷ works quiet
        ∷ arrives quiet hung_up
        ∷ [])
      fresh_connection)
run-Living_example =
    run-Living silent silent-IsTame
      (asks_send quiet true (1 ∷ 2 ∷ [])
        ∷ arrives quiet arrived
        ∷ asks_shutdown false
        ∷ works quiet
        ∷ arrives quiet hung_up
        ∷ [])
      fresh_connection fresh-IsLiving

-- A connection after `shutdown`, with its channel still registered.
abbrev leaving : Connection
leaving = record {
  state = disconnecting;
  connfd = pos 5;
  channel = some no_interest;
  pool = empty_pool;
  input = none;
  output = none;
  tasks = [];
  log = [];
}

leaving-IsLiving : IsLiving leaving
leaving-IsLiving = ((λ e. absurd (cc)), refl, record { no_notice = refl; no_closing = refl })

hang_up_is_ignored : run silent (arrives quiet hung_up ∷ []) leaving ≡ some leaving
unfolding run step handle_event handle_error handle_close is_state_connected Option.bind
hang_up_is_ignored = refl

disconnecting_never_closes_example :
    (leaving.state ≡ disconnecting)
    × (closings leaving.log ≡ 0)
    × (is_negative leaving.connfd ≡ false)
disconnecting_never_closes_example =
    disconnecting_never_closes silent (λ c e. e) silent-IsTame (arrives quiet hung_up ∷ []) leaving
      leaving leaving-IsLiving refl hang_up_is_ignored

-- A connection that is established, and meets a hang-up.
abbrev gone : Connection
gone = record {
  state = disconnected;
  connfd = negsuc 0;
  channel = none;
  pool = empty_pool;
  input = none;
  output = none;
  tasks = [];
  log =
      registers (record { reading = true; writing = false })
      ∷ connects
      ∷ registers no_interest
      ∷ closes
      ∷ closes_fd (pos 5)
      ∷ [];
}

hang_up_closes :
    run silent (arrives quiet hung_up ∷ []) (connect_established silent fresh_connection)
    ≡ some gone
unfolding run step handle_event handle_error handle_close is_state_connected connect_established
    register new_connection drop_channel close_fd Option.bind
hang_up_closes = refl

whole_life_example :
    ((notices gone.log ≡ 0) × (closings gone.log ≡ 0) × (is_negative gone.connfd ≡ false))
    ⊎ ((notices gone.log ≡ 1)
        × (closings gone.log ≡ 1)
        × (is_negative gone.connfd ≡ true)
        × (gone.channel ≡ none))
whole_life_example =
    whole_life silent silent-IsTame 5 empty_pool (arrives quiet hung_up ∷ []) gone hang_up_closes
