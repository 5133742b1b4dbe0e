-- ===== src/Uloop/Signals.antt =====
-- The signal handlers of uloop.c, set and taken back by `uloop_setup_signals`.
pub mod Restore
use libubox.Base.{ℕ, Bool, true, false, Option, none, some, ◌==◌, if◌then◌else◌}

-- `struct sigaction`, of the C library: what the code reads and writes of it.
pub record Sigaction : Type 0 where
  pub sa_handler : ℕ
  pub sa_flags : ℕ
  pub sa_mask : ℕ

-- The constants of the system, and the addresses of the handlers of uloop.c.
pub record System : Type 0 where
  pub sigint : ℕ
  pub sigterm : ℕ
  pub sigchld : ℕ
  pub sigpipe : ℕ
  pub sig_dfl : ℕ
  pub sig_ign : ℕ
  pub handle_sigint : ℕ
  pub handle_sigchld : ℕ

-- The actions of the process, as `sigaction` reads and writes them, and the static variables of
-- `uloop_setup_signals`.
pub record Signals : Type 0 where
  pub action : ℕ → Sigaction
  pub old_sigint : Sigaction
  pub old_sigchld : Sigaction
  pub old_sigterm : Sigaction

-- `sigaction(signum, act, NULL)` where `act` is not NULL.
abbrev pub set_action : (ℕ → Sigaction) → ℕ → Option Sigaction → ℕ → Sigaction
set_action f signum none = f
set_action f signum (some act) = λ i. if i == signum then act else f i

module _ (sys : System) where
  -- `act` and `old` in `uloop_install_handler`, from the action that is in place.
  unfoldable pub choose_action : Sigaction → ℕ → Sigaction → Bool → Option Sigaction × Sigaction
  choose_action s handler old true =
      if s.sa_handler == sys.sig_dfl
      then (some (record s { sa_handler = handler; sa_flags = 0 }), s)
      else (none, old)
  choose_action s handler old false =
      if s.sa_handler == handler then (some old, old) else (none, old)

  -- `uloop_install_handler`, with `*old` afterwards.
  unfoldable pub install_handler :
      (ℕ → Sigaction) → ℕ → ℕ → Sigaction → Bool → (ℕ → Sigaction) × Sigaction
  unfolding choose_action
  install_handler f signum handler old add =
      let (act, old') = choose_action (f signum) handler old add in (set_action f signum act, old')

  -- `new_handler` in `uloop_ignore_signal`.
  unfoldable pub ignore_handler : Sigaction → Bool → ℕ
  ignore_handler s true = if s.sa_handler == sys.sig_dfl then sys.sig_ign else 0
  ignore_handler s false = if s.sa_handler == sys.sig_ign then sys.sig_dfl else 0

  -- `uloop_ignore_signal`. NULL is 0.
  unfoldable pub ignore_signal : (ℕ → Sigaction) → ℕ → Bool → ℕ → Sigaction
  unfolding ignore_handler
  ignore_signal f signum ignore =
      let new_handler = ignore_handler (f signum) ignore in
      if new_handler == 0
      then f
      else set_action f signum (some (record (f signum) { sa_handler = new_handler; sa_flags = 0 }))

  -- `uloop_setup_signals`.
  unfoldable pub setup_signals : Signals → Bool → Signals
  setup_signals g add =
      let (f1, old_int) = install_handler g.action sys.sigint sys.handle_sigint g.old_sigint add in
      let (f2, old_term) = install_handler f1 sys.sigterm sys.handle_sigint g.old_sigterm add in
      let (f3, old_chld) = install_handler f2 sys.sigchld sys.handle_sigchld g.old_sigchld add in
      record {
        action = ignore_signal f3 sys.sigpipe add;
        old_sigint = old_int;
        old_sigchld = old_chld;
        old_sigterm = old_term;
      }
