-- ===== src/Uloop/Fds.antt =====
-- The file descriptors of uloop.c: their registration with epoll, the events that were fetched, and the
-- callbacks that run. A descriptor is named by a number, the address of its `struct uloop_fd`.
pub mod Fetch
pub mod Rounds
pub mod Stack
pub mod Delete
pub mod Delivery
pub mod Run
mod Tests
use libubox.Base.{
  ℕ, Bool, true, false, not, ◌&&◌, ◌||◌, Option, none, some, List, [], ◌∷◌, map, ◌==◌,
  if◌then◌else◌,
}

-- The bits of a mask of events: ULOOP_READ, ULOOP_WRITE and ULOOP_EVENT_BUFFERED.
pub record Events : Type 0 where
  pub read : Bool
  pub write : Bool
  pub buffered : Bool

abbrev pub no_events : Events
no_events = record { read = false; write = false; buffered = false }

-- The bits of the flags of a descriptor.
pub record Flags : Type 0 where
  pub read : Bool
  pub write : Bool
  pub edge_trigger : Bool
  pub blocking : Bool
  pub error_cb : Bool

abbrev pub no_flags : Flags
no_flags = record {
  read = false;
  write = false;
  edge_trigger = false;
  blocking = false;
  error_cb = false;
}

-- `struct uloop_fd`; of its callback, whether there is one.
pub record Fd : Type 0 where
  pub cb : Bool
  pub eof : Bool
  pub error : Bool
  pub registered : Bool
  pub flags : Flags

-- `struct uloop_fd_stack` without its link, and `struct uloop_fd_event`: NULL or a descriptor, and events.
pub record Slot : Type 0 where
  pub fd : Option ℕ
  pub events : Events

-- The calls of the system.
pub data Call : Type 0 where
  set_nonblock : ℕ → Call
  ctl_add : ℕ → Flags → Call
  ctl_mod : ℕ → Flags → Call
  ctl_del : ℕ → Call

-- The descriptors of the program, `fd_stack` from the top, the `cur_nfds` entries of `cur_fds` from `cur_fd`
-- on, and the calls of the system so far, the last first.
pub record Loop : Type 0 where
  pub fd : ℕ → Fd
  pub stack : List Slot
  pub queue : List Slot
  pub calls : List Call

abbrev pub with_fd : Loop → ℕ → Fd → Loop
with_fd s u f = record s { fd = λ i. if i == u then f else s.fd i }

unfoldable pub names : Slot → ℕ → Bool
names cur u = elim cur.fd [ none ↦ false | some i ↦ i == u ]

-- `cur->events |= events | ULOOP_EVENT_BUFFERED`.
abbrev pub buffer_events : Events → Events → Events
buffer_events old e = record {
  read = old.read || e.read;
  write = old.write || e.write;
  buffered = true;
}

-- The loop of `uloop_fd_stack_event`; no events stand for -1, and the result is `none` without an entry.
unfoldable pub stack_loop : ℕ → Option Events → List Slot → Option (List Slot)
stack_loop u e [] = none
stack_loop u e (cur ∷ next) = elim (names cur u) [
  | true ↦ some (elim e [
    | none ↦ record cur { fd = none } ∷ next
    | some new ↦ record cur { events = buffer_events cur.events new } ∷ next
  ])
  | false ↦ elim (stack_loop u e next) [ none ↦ none | some r ↦ some (cur ∷ r) ]
]

-- `uloop_fd_stack_event`.
unfoldable pub fd_stack_event : Loop → ℕ → Option Events → Loop × Bool
fd_stack_event s u e =
    if not (s.fd u).flags.edge_trigger then (s, false) else (elim (stack_loop u e s.stack) [
      | none ↦ (s, false)
      | some stack ↦ (record s { stack = stack }, true)
    ])

-- The loop of `uloop_fd_delete`, for an entry.
unfoldable pub forget : ℕ → Slot → Slot
forget u cur = if names cur u then record cur { fd = none } else cur

-- `__uloop_fd_delete` with epoll.
abbrev pub ctl_delete : Loop → ℕ → Loop
ctl_delete s u = record (with_fd s u (record (s.fd u) { flags = no_flags })) {
  calls = ctl_del u ∷ s.calls;
}

-- `uloop_fd_delete`; its result is that of `epoll_ctl`, or 0.
unfoldable pub fd_delete : Loop → ℕ → Loop
fd_delete s u =
    let t = record s { queue = map (forget u) s.queue } in
    if not (t.fd u).registered
    then t
    else ctl_delete (fd_stack_event (with_fd t u (record (t.fd u) { registered = false })) u none).0
        u

-- `register_poll` with epoll; its result is that of `epoll_ctl`.
abbrev pub register_poll : Loop → ℕ → Flags → Loop
register_poll s u flags = record (with_fd s u (record (s.fd u) { flags = flags })) {
  calls = (if (s.fd u).registered then ctl_mod u flags else ctl_add u flags) ∷ s.calls;
}

-- `uloop_fd_add`; `ok` is whether `epoll_ctl` succeeds.
unfoldable pub fd_add : Loop → ℕ → Flags → Bool → Loop
fd_add s u flags ok =
    if not (flags.read || flags.write)
    then fd_delete s u
    else let t =
        if not (s.fd u).registered && not flags.blocking
        then record s { calls = set_nonblock u ∷ s.calls }
        else s in
      let r = register_poll t u flags in
      if not ok
      then r
      else with_fd r u (record (r.fd u) { registered = true; eof = false; error = false })
