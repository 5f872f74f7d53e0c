-- ===== src/Timer.antt =====
-- src/timer.cpp: one-shot timers, each a thread that sleeps and then calls back.
-- `tpool[id]` is 0 where `map_find` finds nothing; `tpool2` has the threads of the same ids.
pub mod Ids
pub mod Threads
use media_gateway_v4_7_1_sde.Base.{
  ℕ, ◌+◌, Bool, true, false, Option, none, some, List, [], ◌∷◌, if◌then◌else◌, ◌==◌, map_find,
  map_assign, map_erase, nat_eq,
}

-- `class Ts`; `para` is the object that the callback gets.
pub record Ts : Type 0 where
  pub timeout : ℕ
  pub para : ℕ
  pub id : ℕ

pub record Timers : Type 0 where
  pub tpool : List (ℕ × Ts)
  pub cnt : ℕ

abbrev pub new_timers : Timers
new_timers = record { tpool = []; cnt = 0 }

-- `if(++cnt == 0x7fffffff) cnt = 1;`
unfoldable pub next_id : ℕ → ℕ
next_id cnt = if cnt + 1 == 0x7fffffff then 1 else cnt + 1

-- `Timer::setTimer`
unfoldable pub set_timer : ℕ → ℕ → Timers → ℕ × Timers
unfolding next_id
set_timer timeout para t =
    let id = next_id t.cnt in
    (
      id,
      record {
        cnt = id;
        tpool = map_assign id (record { timeout = timeout; para = para; id = id }) t.tpool;
      },
    )

-- `Timer::stopTimer`: 0 is `true`. Its thread is cancelled, so that the timer will not go off.
unfoldable pub stop_timer : ℕ → Timers → Bool × Timers
stop_timer id t = elim (map_find id t.tpool) [
  | none ↦ (false, t)
  | some ts ↦ (true, record t { tpool = map_erase id t.tpool })
]

-- The end of `onTimeout`, behind the callback.
unfoldable pub timer_done : ℕ → Timers → Timers
timer_done id t = record t { tpool = map_erase id t.tpool }
