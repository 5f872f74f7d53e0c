-- ===== src/Timer/Threads.antt =====
-- src/timer.cpp: the thread of one timer, and the thread that is in `setTimer` and then in
-- `stopTimer` for it, statement by statement.
use media_gateway_v4_7_1_sde.Base.{
  Bool, true, false, ◌≡◌, if◌then◌else◌, Run, ok, fault, use_after_free, ◌>>=◌,
}

-- Where the owner of the timer is: in `setTimer` behind `pthread_create`, away, and in `stopTimer`
-- behind the test of `tpool[id]`, behind `delete`, behind `tpool[id] = 0`, behind `pthread_join`; or
-- the test failed.
pub data Stopper : Type 0 where
  setting away passed deleted zeroed stopped not_there : Stopper

-- Where the timer's thread is: in `select`, in the callback, behind the test of `tpool[id]`, behind
-- `delete` or the failed test, at its end; or it was cancelled.
pub data Sleeper : Type 0 where
  sleeping calling tested freed finished cancelled : Sleeper

-- The two threads, whether the `Ts` was not deleted yet, and whether `tpool[id]` has it.
pub record Threads : Type 0 where
  pub stopper : Stopper
  pub sleeper : Sleeper
  pub alive : Bool
  pub in_pool : Bool

-- Behind `pthread_create` in `setTimer`.
abbrev pub created : Threads
created = record { stopper = setting; sleeper = sleeping; alive = true; in_pool = false }

-- `delete tpool[id]`, for a null pointer no effect.
abbrev delete_ts : Threads → Run Threads
delete_ts t =
    if t.in_pool
    then (if t.alive then ok (record t { alive = false }) else fault use_after_free)
    else ok t

-- `pthread_cancel` and `pthread_join`
abbrev cancel : Sleeper → Sleeper
cancel finished = finished
cancel sleeping = cancelled
cancel calling = cancelled
cancel tested = cancelled
cancel freed = cancelled
cancel cancelled = cancelled

-- The next statement of `Timer::setTimer` (`tpool[cnt] = t`) or of `Timer::stopTimer`.
unfoldable pub stop_step : Threads → Run Threads
stop_step t = elim t.stopper [
  | setting ↦ ok (record t { in_pool = true; stopper = away })
  | away ↦ ok (record t { stopper = if t.in_pool then passed else not_there })
  | passed ↦ delete_ts t >>= λ u. ok (record u { stopper = deleted })
  | deleted ↦ ok (record t { in_pool = false; stopper = zeroed })
  | zeroed ↦ ok (record t { sleeper = cancel t.sleeper; stopper = stopped })
  | stopped ↦ ok t
  | not_there ↦ ok t
]

-- The next statement of `Timer::callback`: the timeout and the reads of `*t` in `onTimeout`, the end
-- of the callback and the test, `delete`, `tpool[id] = 0`.
unfoldable pub sleep_step : Threads → Run Threads
sleep_step t = elim t.sleeper [
  | sleeping ↦ if t.alive then ok (record t { sleeper = calling }) else fault use_after_free
  | calling ↦ ok (record t { sleeper = if t.in_pool then tested else freed })
  | tested ↦ delete_ts t >>= λ u. ok (record u { sleeper = freed })
  | freed ↦ ok (record t { in_pool = false; sleeper = finished })
  | finished ↦ ok t
  | cancelled ↦ ok t
]

pub data Thread : Type 0 where
  stopping timing : Thread

unfoldable pub step : Thread → Threads → Run Threads
unfolding stop_step sleep_step
step stopping t = stop_step t
step timing t = sleep_step t

-- The timer's thread is in `select`, or has come to its end.
abbrev rests : Sleeper → Bool
rests sleeping = true
rests calling = false
rests tested = false
rests freed = false
rests finished = true
rests cancelled = true

-- Neither `setTimer` nor `stopTimer` is under way.
abbrev is_outside : Stopper → Bool
is_outside setting = false
is_outside away = true
is_outside passed = false
is_outside deleted = false
is_outside zeroed = false
is_outside stopped = true
is_outside not_there = true

abbrev begins_stop : Stopper → Bool
begins_stop setting = false
begins_stop away = true
begins_stop passed = false
begins_stop deleted = false
begins_stop zeroed = false
begins_stop stopped = false
begins_stop not_there = false

abbrev begins_callback : Sleeper → Bool
begins_callback sleeping = true
begins_callback calling = false
begins_callback tested = false
begins_callback freed = false
begins_callback finished = false
begins_callback cancelled = false

-- A thread begins only while the other one is not under way.
unfoldable pub is_alone : Thread → Threads → Bool
is_alone stopping t = if begins_stop t.stopper then rests t.sleeper else true
is_alone timing t = if begins_callback t.sleeper then is_outside t.stopper else true

-- What the two threads reach if neither begins while the other is under way.
pub data Reach : Threads → Type 0 where
  at_start : Reach created
  and_then :
      {t u : Threads} (w : Thread) → Reach t → is_alone w t ≡ true → step w t ≡ ok u → Reach u

-- The states that this leaves.
data Sound : Stopper → Sleeper → Bool → Bool → Type 0 where
  sound_created : Sound setting sleeping true false
  sound_set : Sound away sleeping true true
  sound_calling : Sound away calling true true
  sound_tested : Sound away tested true true
  sound_freed : Sound away freed false true
  sound_finished : Sound away finished false false
  sound_missed : Sound not_there finished false false
  sound_passed : Sound passed sleeping true true
  sound_deleted : Sound deleted sleeping false true
  sound_zeroed : Sound zeroed sleeping false false
  sound_stopped : Sound stopped cancelled false false

abbrev IsSound : Threads → Type 0
IsSound t = Sound t.stopper t.sleeper t.alive t.in_pool

abbrev Goes : Thread → Threads → Type 0
Goes w t = (u : Threads) × (step w t ≡ ok u) × IsSound u

-- The timer's thread is over.
abbrev pub is_over : Sleeper → Bool
is_over sleeping = false
is_over calling = false
is_over tested = false
is_over freed = false
is_over finished = true
is_over cancelled = true
