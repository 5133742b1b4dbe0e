-- ===== src/Uloop/Fds/Fetch.antt =====
-- `uloop_fetch_events` with epoll (uloop.c).
use libubox.Base.{ℕ, Bool, true, false, not, ◌||◌, Option, none, some, List, [], ◌∷◌, if◌then◌else◌}
use libubox.Uloop.Fds.{no_events, Slot, Loop, with_fd, fd_delete}

-- `struct epoll_event` as `epoll_wait` fills it.
pub record Polled : Type 0 where
  pub ptr : Option ℕ
  pub err_or_hup : Bool
  pub rdhup : Bool
  pub readable : Bool
  pub writable : Bool

abbrev pub mark_error : Loop → ℕ → Loop
mark_error s u = with_fd s u (record (s.fd u) { error = true })

-- A round of `uloop_fetch_events` for a descriptor, up to the test of the events.
unfoldable pub fetch_error : Loop → ℕ → Bool → Loop
fetch_error s u failed =
    if not failed
    then s
    else if not (s.fd u).flags.error_cb
    then fd_delete (mark_error s u) u
    else mark_error s u

-- The round; where an entry is NULL the code leaves its events as they were, and nothing reads them.
unfoldable pub fetch_one : Loop → Polled → Loop × Slot
fetch_one s p = elim p.ptr [
  | none ↦ (s, record { fd = none; events = no_events })
  | some u ↦
      let t = fetch_error s u p.err_or_hup in
      if not (p.rdhup || p.readable || p.writable || p.err_or_hup)
      then (t, record { fd = none; events = no_events })
      else (
        if p.rdhup then with_fd t u (record (t.fd u) { eof = true }) else t,
        record {
          fd = some u;
          events = record { read = p.readable; write = p.writable; buffered = false };
        },
      )
]

unfoldable pub fetch_loop : Loop → List Polled → Loop × List Slot
fetch_loop s [] = (s, [])
fetch_loop s (p ∷ r) =
    let (t, cur) = fetch_one s p in let (t', rest) = fetch_loop t r in (t', cur ∷ rest)

-- `uloop_fetch_events` and the assignment of `cur_nfds`; `waited` is what `epoll_wait` fills in, `none` if
-- it fails.
unfoldable pub fetch_events : Loop → Option (List Polled) → Loop
fetch_events s none = s
fetch_events s (some waited) = let (t, queue) = fetch_loop s waited in record t { queue = queue }
