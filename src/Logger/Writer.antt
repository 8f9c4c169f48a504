-- ===== src/Logger/Writer.antt =====
-- logger/logger.hpp and logger/logger.cpp: levels, the files and their rotation, the asynchronous thread.
-- A record is its bytes after formatting. The name of a new file is in Logger.FileName: whether it opens
-- and what it holds already, as it is opened to append, are arguments. `fwrite` may write a part of a
-- record. A file is the list of what its calls of `fwrite` have written. A level is a number: ERROR is 0, WARN 1, INFO 2 and DEBUG 3.
pub mod Rotation
pub mod Shutdown
pub mod Tests
use azh_lid.Prelude.{
  ℕ, zero, suc, ◌+◌, Bool, true, false, Option, none, some, List, [], ◌∷◌, ◌++◌, ltb, leb, ◌==◌,
  ◌&&◌, not, if◌then◌else◌, ℤ, pos, negsuc, length, take, add_size,
}
use azh_lid.Logger.LogQueue.{LogQueue, create, push_copy, pop}

abbrev pub Line : Type 0
Line = List ℕ

-- What a write meets: whether a new file opens and what it holds, how many bytes of a record of a length
-- `fwrite` writes, the day, and the day when the file is made.
pub record Env : Type 0 where
  pub opens : Bool
  pub existing : List Line
  pub fwrite : ℕ → ℕ
  pub day : ℕ
  pub day_made : ℕ

-- `file` holds the records of the file that is open, `closed` those of earlier ones, oldest first, and
-- `out` what was given to the standard output. `has_thread` is whether the asynchronous thread runs.
pub record Logger : Type 0 where
  pub initialized : Bool
  pub shutdown_requested : Bool
  pub current_level : ℕ
  pub max_lines : ℕ
  pub line_count : ℕ
  pub today : ℕ
  pub file : Option (List Line)
  pub closed : List (List Line)
  pub out : List Line
  pub async : Bool
  pub log_queue : Option (LogQueue Line)
  pub has_thread : Bool

pub record Config : Type 0 where
  pub level : ℕ
  pub max_lines : ℕ
  pub queue_capacity : ℕ
  pub async : Bool

abbrev pub files_of : Option (List Line) → List (List Line)
files_of none = []
files_of (some lines) = lines ∷ []

close_file : Logger → Logger
close_file l = record l { closed = l.closed ++ files_of l.file; file = none }

pub create_new_log_file : Env → Logger → Bool × Logger
unfolding close_file
create_new_log_file e l =
    let l' = record (close_file l) { today = e.day_made } in
    if e.opens then (true, record l' { file = some e.existing; line_count = 0 }) else (false, l')

pub need_new_file : Env → Logger → Option (List Line) → Bool
need_new_file e l none = true
need_new_file e l (some lines) =
    if ltb 0 l.max_lines && leb l.max_lines l.line_count then true else not (l.today == e.day)

pub to_stdout : Line → Logger → Logger
to_stdout line l = record l { out = l.out ++ line ∷ [] }

-- A record that is written in part is reported, and counts all the same.
put_line : Env → Line → Option (List Line) → Logger → Logger
put_line e line none l = to_stdout line l
put_line e line (some lines) l = record l {
  file = some (lines ++ take (e.fwrite (length line)) line ∷ []);
  line_count = add_size l.line_count 1;
}

after_create : Env → Line → Bool × Logger → Logger
after_create e line (true, l) = put_line e line l.file l
after_create e line (false, l) = to_stdout line l

pub sync_write : Env → Line → Logger → Logger
unfolding put_line after_create
sync_write e line l =
    if length line == 0
    then l
    else if need_new_file e l l.file
    then after_create e line (create_new_log_file e l)
    else put_line e line l.file l

pushed : Line → Option (Bool × LogQueue Line) → Logger → Logger
pushed line none l = l
pushed line (some (true, q)) l = record l { log_queue = some q }
pushed line (some (false, q)) l = to_stdout line (record l { log_queue = some q })

enqueue : Env → Line → Option (LogQueue Line) → Logger → Logger
enqueue e line none l = sync_write e line l
enqueue e line (some q) l = pushed line (push_copy line (pos 100) q) l

pub write : Env → ℕ → Line → Logger → Logger
unfolding pushed enqueue
write e level line l =
    if not l.initialized
    then l
    else if ltb l.current_level level
    then l
    else if l.async
    then enqueue e line l.log_queue l
    else sync_write e line l

popped : Env → Option (Option Line × LogQueue Line) → Logger → Logger
popped e none l = l
popped e (some (none, q)) l = record l { log_queue = some q }
popped e (some (some line, q)) l = sync_write e line (record l { log_queue = some q })

take_one : Env → ℤ → Option (LogQueue Line) → Logger → Logger
take_one e timeout_ms none l = l
take_one e timeout_ms (some q) l = popped e (pop [] timeout_ms q) l

-- One turn of `async_write_thread`.
pub async_turn : Env → Logger → Logger
unfolding popped take_one
async_turn e l = take_one e (pos 100) l.log_queue l

-- What the thread writes before it ends: what is left in the queue, at most `n` records, while no other
-- thread logs.
pub drain : (ℕ → Env) → ℕ → Logger → Logger
drain envs zero l = l
drain envs (suc n) l = drain envs n (take_one (envs n) (pos 0) l.log_queue l)

pub set_level : ℕ → Logger → Logger
set_level level l = record l { current_level = level }

-- `initialize`; `thread_starts` is whether the thread can be made.
pub initialize : Bool → Env → Config → Logger → Bool × Logger
initialize thread_starts e config l =
    let asks = config.async && ltb 0 config.queue_capacity in
    let set_up = record l {
      current_level = config.level;
      max_lines = config.max_lines;
      async = if asks then thread_starts else l.async;
      has_thread = if asks then thread_starts else l.has_thread;
      log_queue =
          if asks
          then (if thread_starts then create [] config.queue_capacity false else none)
          else l.log_queue;
    } in
    let (works, l') = create_new_log_file e set_up in
    if l.initialized
    then (false, l)
    else if works
    then (true, record l' { initialized = true })
    else (false, l')

size_of : Option (LogQueue Line) → ℕ
size_of none = 0
size_of (some q) = q.size

-- `shutdown`, with what each write of the last records meets.
pub shutdown : (ℕ → Env) → Logger → Logger
unfolding size_of
shutdown envs l =
    if l.initialized
    then (let drained = if l.has_thread then drain envs (size_of l.log_queue) l else l in
        record (close_file drained) {
          log_queue = none;
          has_thread = false;
          initialized = false;
          shutdown_requested = false;
        })
    else l
