-- ===== src/Uloop/Timers.antt =====
-- The timers of uloop.c: a list of the pending ones, ordered by time. A timer is named by a number,
-- the address of its `struct uloop_timeout`.
pub mod Expiry
pub mod Invariant
use libubox.Base.{
  ℕ, zero, suc, Bool, true, false, Option, none, some, List, [], ◌∷◌, ◌==◌, if◌then◌else◌,
}
use libubox.Base.Int.{ℤ, pos, negsuc, ltb_ℤ}
use libubox.Links.{remove}
use libubox.Uloop.Time.{Timeval, tv_diff, later, add_msecs}

-- `struct uloop_timeout` without its links and callback.
pub record Timer : Type 0 where
  pub pending : Bool
  pub time : Timeval

-- The timers of the program, and the list `timeouts` of those that are linked.
pub record Timeouts : Type 0 where
  pub timer : ℕ → Timer
  pub list : List ℕ

abbrev pub update : (ℕ → Timer) → ℕ → Timer → ℕ → Timer
update f id t i = if i == id then t else f i

-- The place that `uloop_timeout_add` looks for, and `list_add_tail` there.
unfoldable pub insert : (ℕ → Timer) → ℕ → List ℕ → List ℕ
insert timer id [] = id ∷ []
insert timer id (tmp ∷ r) =
    if later (timer tmp).time (timer id).time then id ∷ tmp ∷ r else tmp ∷ insert timer id r

-- `uloop_timeout_add`, with its result.
unfoldable pub timeout_add : Timeouts → ℕ → Timeouts × ℤ
unfolding insert
timeout_add s id = if (s.timer id).pending then (s, negsuc 0) else (
  record s {
    timer = update s.timer id (record (s.timer id) { pending = true });
    list = insert s.timer id s.list;
  },
  pos 0,
)

-- `uloop_timeout_cancel`.
unfoldable pub timeout_cancel : Timeouts → ℕ → Timeouts × ℤ
unfolding remove
timeout_cancel s id =
    if (s.timer id).pending
    then (
      record s {
        timer = update s.timer id (record (s.timer id) { pending = false });
        list = remove id s.list;
      },
      pos 0,
    )
    else (s, negsuc 0)

-- The second half of `uloop_timeout_set`: the time is written, and the timer added.
abbrev pub set_time : Timeouts → ℕ → Timeval → Timeouts
set_time s id t = record s { timer = update s.timer id (record (s.timer id) { time = t }) }

-- The first half of `uloop_timeout_set`: a pending timer is cancelled.
unfoldable pub stop_pending : Timeouts → ℕ → Timeouts
stop_pending s id = if (s.timer id).pending then (timeout_cancel s id).0 else s

-- `uloop_timeout_set` with a delay that is not negative; `now` is what `uloop_gettime` returns.
unfoldable pub timeout_set : Timeouts → ℕ → ℕ → Timeval → Timeouts × ℤ
timeout_set s id msecs now = timeout_add (set_time (stop_pending s id) id (add_msecs now msecs)) id

-- `uloop_timeout_remaining`.
unfoldable pub timeout_remaining : Timeouts → ℕ → Timeval → ℤ
timeout_remaining s id now =
    if (s.timer id).pending then tv_diff (s.timer id).time now else negsuc 0

-- `uloop_get_next_timeout`.
unfoldable pub get_next_timeout : Timeouts → Timeval → ℤ
get_next_timeout s tv = elim s.list [
  | [] ↦ negsuc 0
  | id ∷ _ ↦ let diff = tv_diff (s.timer id).time tv in if ltb_ℤ diff (pos 0) then pos 0 else diff
]

-- The loop of `uloop_clear_timeouts` over the timers that are still to be visited.
pub clear_loop : List ℕ → Timeouts → Timeouts
clear_loop [] s = s
clear_loop (t ∷ r) s = clear_loop r (timeout_cancel s t).0

-- `uloop_clear_timeouts`.
unfoldable pub clear_timeouts : Timeouts → Timeouts
unfolding clear_loop
clear_timeouts s = clear_loop s.list s

-- `uloop_process_timeouts` on fuel. The callbacks are `cb`, and may use every operation above; with
-- the timers come the ones that have fired and the times they were set to, in order.
unfoldable pub process_timeouts :
    (cb : ℕ → Timeouts → Timeouts) → ℕ → Timeouts → Timeval → Option (Timeouts × List (ℕ × Timeval))
process_timeouts cb zero s tv = none
process_timeouts cb (suc n) s tv = elim s.list [
  | [] ↦ some (s, [])
  | id ∷ _ ↦ elim (later (s.timer id).time tv) [
    | true ↦ some (s, [])
    | false ↦ elim (process_timeouts cb n (cb id (timeout_cancel s id).0) tv) [
      | none ↦ none
      | some (s', fired) ↦ some (s', (id, (s.timer id).time) ∷ fired)
    ]
  ]
]
