-- ===== src/Logger/Writer/Tests.antt =====
-- Runs of logger/logger.cpp.
use azh_lid.Prelude.{◌≡◌, refl, true, false, none, some, List, [], ◌∷◌, ◌++◌, arith}
use azh_lid.Logger.LogQueue.{LogQueue}
use azh_lid.Logger.LogQueue.Valid.{IsValid}
use azh_lid.Logger.LogQueue.Refine.{queued}
use azh_lid.Logger.Writer.{
  Line, Env, Logger, Config, initialize, create_new_log_file, close_file, sync_write, need_new_file,
  after_create, put_line, write, shutdown,
}
use azh_lid.Logger.Writer.Rotation.{IsBounded, Step, writes, steps, step, steps-IsBounded}
use azh_lid.Logger.Writer.Shutdown.{written, shutdown-queued}

abbrev today : Env
today = record { opens = true; existing = []; fwrite = λ n. n; day = 40; day_made = 40 }

abbrev tomorrow : Env
tomorrow = record { opens = true; existing = []; fwrite = λ n. n; day = 41; day_made = 41 }

-- A ring of three places with two records.
abbrev two_queued : LogQueue Line
two_queued = record {
  capacity = 3;
  debug = false;
  buffer = (7 ∷ []) ∷ (8 ∷ []) ∷ [] ∷ [];
  size = 2;
  front = 0;
  rear = 2;
  read_count = 0;
  write_count = 0;
}

two_queued-IsValid : IsValid two_queued
two_queued-IsValid = record {
  positive = omega arith;
  small = omega arith;
  sized = refl;
  front_in = omega arith;
  size_in = omega arith;
  rear_at = refl;
}

-- A logger whose file takes two records.
abbrev ready : Logger
ready = record {
  initialized = true;
  shutdown_requested = false;
  current_level = 2;
  max_lines = 2;
  line_count = 1;
  today = 40;
  file = some ((5 ∷ []) ∷ []);
  closed = [];
  out = [];
  async = false;
  log_queue = none;
  has_thread = false;
}

ready-IsBounded : IsBounded ready
ready-IsBounded = ((refl, omega arith), tt, omega arith, omega arith)

abbrev three_writes : List Step
three_writes =
    writes today 0 (6 ∷ [])
    ∷ writes today 2 (7 ∷ [])
    ∷ writes today 3 (9 ∷ [])
    ∷ writes tomorrow 1 (8 ∷ [])
    ∷ []

steps-IsBounded_example : IsBounded (steps three_writes ready)
steps-IsBounded_example =
    steps-IsBounded three_writes ready (refl, (refl, (refl, (refl, tt)))) ready-IsBounded

-- The second record starts a file as the first is full, the third is of too low a level, and the last one is of
-- the next day.
three_files : (steps three_writes ready).closed ≡ ((5 ∷ []) ∷ (6 ∷ []) ∷ []) ∷ ((7 ∷ []) ∷ []) ∷ []
unfolding steps step write sync_write need_new_file create_new_log_file close_file after_create
    put_line
three_files = refl

-- A file that is opened to append to has more records than max_lines.
too_long :
    (sync_write
      (record today { existing = (1 ∷ []) ∷ (2 ∷ []) ∷ []; fwrite = λ n. 0 })
      (7 ∷ [])
      (record ready { file = none })).file
    ≡ some ((1 ∷ []) ∷ (2 ∷ []) ∷ [] ∷ [])
unfolding sync_write need_new_file create_new_log_file close_file after_create put_line
too_long = refl

abbrev busy : Logger
busy = record ready { async = true; log_queue = some two_queued; has_thread = true }

shutdown-queued_example :
    (written (shutdown (λ i. today) busy) ≡ written busy ++ queued [] two_queued)
    × ((shutdown (λ i. today) busy).out ≡ busy.out)
    × ((shutdown (λ i. today) busy).file ≡ none)
    × ((shutdown (λ i. today) busy).initialized ≡ false)
shutdown-queued_example =
    shutdown-queued (λ i. today) two_queued busy (λ i. (refl, refl, λ n. refl)) two_queued-IsValid
      (omega arith, (omega arith, tt)) refl refl refl

-- A failure to open the first file leaves the thread running on a logger that is not set up, which `shutdown` does not stop.
abbrev blank : Logger
blank = record {
  initialized = false;
  shutdown_requested = false;
  current_level = 2;
  max_lines = 0;
  line_count = 0;
  today = 0;
  file = none;
  closed = [];
  out = [];
  async = false;
  log_queue = none;
  has_thread = false;
}

abbrev asks_async : Config
asks_async = record { level = 2; max_lines = 10; queue_capacity = 4; async = true }

thread_left :
    (shutdown
      (λ i. today)
      (initialize true
        (record { opens = false; existing = []; fwrite = λ n. n; day = 1; day_made = 1 })
        asks_async
        blank).1).has_thread
    ≡ true
unfolding initialize create_new_log_file close_file shutdown
thread_left = refl
