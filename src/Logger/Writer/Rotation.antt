-- ===== src/Logger/Writer/Rotation.antt =====
-- How long the files of logger/logger.cpp get.
use azh_lid.Prelude.{
  ℕ, ◌+◌, ◌≤◌, ◌<◌, ◌≡◌, inl, inr, ap, ◌∙◌, Bool, true, false, Option, none, some, List, [], ◌∷◌,
  ◌++◌, arith, ltb, leb, ◌==◌, ◌&&◌, not, if◌then◌else◌, Bool-cases, length, take, length-append,
  size_mod, pos,
}
use native.Mathlib.Nat.{mod-eq_of_lt}
use azh_lid.Logger.LogQueue.{LogQueue, push_copy, pop}
use azh_lid.Logger.Writer.{
  Line, Env, Logger, files_of, close_file, create_new_log_file, need_new_file, to_stdout, put_line,
  after_create, sync_write, pushed, enqueue, write, popped, take_one, async_turn, set_level,
}

abbrev pub AllBounded : ℕ → List (List Line) → Type 0
AllBounded n [] = Unit
AllBounded n (lines ∷ files) = (length lines ≤ n) × AllBounded n files

abbrev pub OpenBounded : Logger → Option (List Line) → Type 0
OpenBounded l none = Unit
OpenBounded l (some lines) = (length lines ≡ l.line_count) × (length lines ≤ l.max_lines)

-- No file has more records than `max_lines`, and the open one has as many as are counted.
abbrev pub IsBounded : Logger → Type 0
IsBounded l =
    OpenBounded l l.file
    × AllBounded l.max_lines l.closed
    × (0 < l.max_lines)
    × (l.max_lines < size_mod)

AllBounded-append :
    (n : ℕ) (xs ys : List (List Line)) → AllBounded n xs → AllBounded n ys → AllBounded n (xs ++ ys)
AllBounded-append n [] ys h k = k
AllBounded-append n (x ∷ xs) ys h k = (h.0, AllBounded-append n xs ys h.1 k)

closed-Bounded : (l : Logger) → IsBounded l → AllBounded l.max_lines (close_file l).closed
unfolding close_file
closed-Bounded l (open_bounded, all, _, _) =
    AllBounded-append l.max_lines l.closed _ all (go l.file open_bounded)
  where
    go : (o : Option (List Line)) → OpenBounded l o → AllBounded l.max_lines (files_of o)
    go none h = tt
    go (some lines) h = (h.1, tt)

put_line-IsBounded :
    (e : Env) (line : Line) (lines : List Line) (l : Logger)
    → length lines ≡ l.line_count
    → l.line_count < l.max_lines
    → AllBounded l.max_lines l.closed
    → l.max_lines < size_mod
    → IsBounded (put_line e line (some lines) l)
unfolding put_line
put_line-IsBounded e line lines l same room all small = (
  (
    length-append lines (take (e.fwrite (length line)) line ∷ [])
        ∙ omega (arith, same, mod-eq_of_lt {n = l.line_count + 1} {m = size_mod} (omega arith)),
    omega (arith, length-append lines (take (e.fwrite (length line)) line ∷ [])),
  ),
  all,
  omega arith,
  small,
)

sync_write-IsBounded :
    (e : Env) (line : Line) (l : Logger)
    → e.existing ≡ []
    → IsBounded l
    → IsBounded (sync_write e line l)
unfolding sync_write create_new_log_file need_new_file after_create to_stdout
sync_write-IsBounded e line l fresh v = empty_line (length line == 0)
  where
    created :
        (b : Bool)
        → IsBounded (
            after_create e line (
              if b
              then (
                true,
                record (close_file l) {
                  today = e.day_made;
                  file = some e.existing;
                  line_count = 0;
                },
              )
              else (false, record (close_file l) { today = e.day_made })))
    created true =
        put_line-IsBounded e line e.existing
          (record (close_file l) { today = e.day_made; file = some e.existing; line_count = 0 })
          (ap length fresh) v.2 (closed-Bounded l v) v.3
    created false = (tt, closed-Bounded l v, v.2, v.3)

    same_day :
        (b : Bool) (lines : List Line)
        → OpenBounded l (some lines)
        → l.line_count < l.max_lines
        → IsBounded (
            if b
            then after_create e line (create_new_log_file e l)
            else put_line e line (some lines) l)
    same_day true lines h room = created e.opens
    same_day false lines h room = put_line-IsBounded e line lines l h.0 room v.1 v.3

    kept :
        (o : Option (List Line))
        → OpenBounded l o
        → IsBounded (
            if need_new_file e l o
            then after_create e line (create_new_log_file e l)
            else put_line e line o l)
    kept none h = created e.opens
    kept (some lines) h = elim (Bool-cases (ltb 0 l.max_lines && leb l.max_lines l.line_count)) [
      | inl full ↦ simp full (created e.opens)
      | inr room ↦ simp room (same_day (not (l.today == e.day)) lines h (ground (arith, room, v.2)))
    ]

    empty_line :
        (b : Bool)
        → IsBounded (
            if b
            then l
            else if need_new_file e l l.file
            then after_create e line (create_new_log_file e l)
            else put_line e line l.file l)
    empty_line true = v
    empty_line false = kept l.file v.0

-- What changes only the queue and the standard output.
pushed-IsBounded :
    (line : Line) (r : Option (Bool × LogQueue Line)) (l : Logger)
    → IsBounded l
    → IsBounded (pushed line r l)
unfolding pushed to_stdout
pushed-IsBounded line none l v = v
pushed-IsBounded line (some (true, q)) l v = v
pushed-IsBounded line (some (false, q)) l v = v

either_way : (b : Bool) (l m : Logger) → IsBounded l → IsBounded m → IsBounded (if b then l else m)
either_way true l m v w = v
either_way false l m v w = w

write-IsBounded :
    (e : Env) (level : ℕ) (line : Line) (l : Logger)
    → e.existing ≡ []
    → IsBounded l
    → IsBounded (write e level line l)
unfolding write enqueue
write-IsBounded e level line l fresh v = either_way (not l.initialized) l _ v (
    either_way (ltb l.current_level level) l _ v
      (either_way l.async _ _ (queues l.log_queue) (sync_write-IsBounded e line l fresh v)))
  where
    queues : (o : Option (LogQueue Line)) → IsBounded (enqueue e line o l)
    queues none = sync_write-IsBounded e line l fresh v
    queues (some q) = pushed-IsBounded line (push_copy line (pos 100) q) l v

async_turn-IsBounded :
    (e : Env) (l : Logger) → e.existing ≡ [] → IsBounded l → IsBounded (async_turn e l)
unfolding async_turn popped take_one
async_turn-IsBounded e l fresh v = takes l.log_queue
  where
    pops : (r : Option (Option Line × LogQueue Line)) → IsBounded (popped e r l)
    pops none = v
    pops (some (none, q)) = v
    pops (some (some line, q)) =
        sync_write-IsBounded e line (record l { log_queue = some q }) fresh v

    takes : (o : Option (LogQueue Line)) → IsBounded (take_one e (pos 100) o l)
    takes none = v
    takes (some q) = pops (pop [] (pos 100) q)

-- What the threads of a program do with a logger that is set up.
pub data Step : Type 0 where
  writes : Env → ℕ → Line → Step
  turns : Env → Step
  sets_level : ℕ → Step

unfoldable pub step : Step → Logger → Logger
step (writes e level line) l = write e level line l
step (turns e) l = async_turn e l
step (sets_level level) l = set_level level l

unfoldable pub steps : List Step → Logger → Logger
unfolding step
steps [] l = l
steps (s ∷ rest) l = steps rest (step s l)

-- A new file of the step is empty when it is opened.
abbrev OpensEmpty : Step → Type 0
OpensEmpty (writes e level line) = e.existing ≡ []
OpensEmpty (turns e) = e.existing ≡ []
OpensEmpty (sets_level level) = Unit

abbrev pub AllOpenEmpty : List Step → Type 0
AllOpenEmpty [] = Unit
AllOpenEmpty (s ∷ rest) = OpensEmpty s × AllOpenEmpty rest

step-IsBounded : (s : Step) (l : Logger) → OpensEmpty s → IsBounded l → IsBounded (step s l)
unfolding step set_level
step-IsBounded (writes e level line) l fresh v = write-IsBounded e level line l fresh v
step-IsBounded (turns e) l fresh v = async_turn-IsBounded e l fresh v
step-IsBounded (sets_level level) l fresh v = v

-- Over any writes, turns of the asynchronous thread and changes of the level, whatever the day,
-- whether or not new files open and whether records are written whole, if each new file is empty when
-- it is opened: no file has got more than max_lines records, whole or in part, and the open one has
-- got as many as are counted, if it was so at the start and max_lines is positive and fits a size_t.
pub steps-IsBounded :
    (rest : List Step) (l : Logger) → AllOpenEmpty rest → IsBounded l → IsBounded (steps rest l)
unfolding steps
steps-IsBounded [] l fresh v = v
steps-IsBounded (s ∷ rest) l fresh v =
    steps-IsBounded rest (step s l) fresh.1 (step-IsBounded s l fresh.0 v)
