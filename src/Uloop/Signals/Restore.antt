-- ===== src/Uloop/Signals/Restore.antt =====
-- The actions of the signals after `uloop_setup_signals` set and took back its handlers (uloop.c).
use libubox.Base.{
  ℕ, ◌≡◌, ◌≢◌, inl, inr, refl, ap, ◌∙◌, Bool, true, false, Option, none, some, arith, ◌==◌,
  if◌then◌else◌, ==→eq, eq→==, Bool-cases,
}
use libubox.Uloop.Signals.{
  Sigaction, System, Signals, set_action, choose_action, install_handler, ignore_handler,
  ignore_signal, setup_signals,
}

-- What is so of a system: the signals differ, `SIG_DFL` is NULL and `SIG_IGN` is not.
pub record IsSystem (sys : System) : Type 0 where
  pub int_term : (sys.sigint == sys.sigterm) ≡ false
  pub int_chld : (sys.sigint == sys.sigchld) ≡ false
  pub int_pipe : (sys.sigint == sys.sigpipe) ≡ false
  pub term_chld : (sys.sigterm == sys.sigchld) ≡ false
  pub term_pipe : (sys.sigterm == sys.sigpipe) ≡ false
  pub chld_pipe : (sys.sigchld == sys.sigpipe) ≡ false
  pub sig_dfl : sys.sig_dfl ≡ 0
  pub sig_ign : sys.sig_ign ≢ 0

-- The handlers of uloop.c are not in place yet.
pub record IsOutside (sys : System) (g : Signals) : Type 0 where
  pub int : ((g.action sys.sigint).sa_handler == sys.handle_sigint) ≡ false
  pub term : ((g.action sys.sigterm).sa_handler == sys.handle_sigint) ≡ false
  pub chld : ((g.action sys.sigchld).sa_handler == sys.handle_sigchld) ≡ false

module _ (sys : System) (h : IsSystem sys) where
  set_action-other :
      (f : ℕ → Sigaction) (signum : ℕ) (act : Option Sigaction) (j : ℕ)
      → (j == signum) ≡ false
      → set_action f signum act j ≡ f j
  set_action-other f signum none j ne = refl
  set_action-other f signum (some act) j ne = rw ne refl

  install_handler-other :
      (f : ℕ → Sigaction) (signum handler : ℕ) (old : Sigaction) (add : Bool) (j : ℕ)
      → (j == signum) ≡ false
      → (install_handler sys f signum handler old add).0 j ≡ f j
  unfolding install_handler
  install_handler-other f signum handler old add j ne =
      set_action-other f signum (choose_action sys (f signum) handler old add).0 j ne

  ignore_signal-other :
      (f : ℕ → Sigaction) (signum : ℕ) (ignore : Bool) (j : ℕ)
      → (j == signum) ≡ false
      → ignore_signal sys f signum ignore j ≡ f j
  unfolding ignore_signal
  ignore_signal-other f signum ignore j ne = ground arith

  -- A handler that is installed and taken back leaves the action that was there, whatever happened
  -- to the other signals between.
  install_handler-restored :
      (f f' : ℕ → Sigaction) (signum handler : ℕ) (old : Sigaction)
      → ((f signum).sa_handler == handler) ≡ false
      → f' signum ≡ (install_handler sys f signum handler old true).0 signum
      → (install_handler sys f' signum handler
            (install_handler sys f signum handler old true).1
            false).0
          signum
        ≡ f signum
  unfolding install_handler choose_action
  install_handler-restored f f' signum handler old out e =
      let same : (signum == signum) ≡ true = eq→== signum signum refl in
      elim (Bool-cases ((f signum).sa_handler == sys.sig_dfl)) [
        | inl dfl ↦
            let e' : f' signum ≡ record (f signum) { sa_handler = handler; sa_flags = 0 } =
              e ∙ simp (dfl, same) in
            let ours : ((f' signum).sa_handler == handler) ≡ true =
              ap (λ a. a.sa_handler == handler) e' ∙ eq→== handler handler refl in
            simp (dfl, ours, same)
        | inr custom ↦ let e' : f' signum ≡ f signum = e ∙ simp custom in simp (custom, e', out)
      ]

  ignore_signal-stays :
      (f f' : ℕ → Sigaction) (signum : ℕ)
      → f' signum ≡ ignore_signal sys f signum true signum
      → ignore_signal sys f' signum false signum ≡ ignore_signal sys f signum true signum
  unfolding ignore_signal ignore_handler
  ignore_signal-stays f f' signum e =
      let null : (sys.sig_dfl == 0) ≡ true = eq→== sys.sig_dfl 0 h.sig_dfl in
      elim (Bool-cases ((f' signum).sa_handler == sys.sig_ign)) [
        | inl ignored ↦ simp (ignored, null) e
        | inr other ↦ simp other e
      ]

  -- What `ignore_signal` does to its signal.
  ignore_signal-at :
      (f : ℕ → Sigaction) (signum : ℕ)
      → ignore_signal sys f signum true signum ≡ (
          if (f signum).sa_handler == sys.sig_dfl
          then record (f signum) { sa_handler = sys.sig_ign; sa_flags = 0 }
          else f signum)
  unfolding ignore_signal ignore_handler
  ignore_signal-at f signum =
      let same : (signum == signum) ≡ true = eq→== signum signum refl in
      elim (Bool-cases ((f signum).sa_handler == sys.sig_dfl)) [
        | inl dfl ↦
            let ign : (sys.sig_ign == 0) ≡ false = ground (arith, h.sig_ign) in
            simp (dfl, ign, same)
        | inr custom ↦ simp custom
      ]

-- Two signals differ either way round.
ne_sym : (a b : ℕ) → (a == b) ≡ false → (b == a) ≡ false
ne_sym a b h = ground arith

-- What `uloop_run` does to the actions, from start to end.
pub record Restored (sys : System) (g g' : Signals) : Type 0 where
  pub others : (i : ℕ) → (i == sys.sigpipe) ≡ false → g'.action i ≡ g.action i
  -- `SIGPIPE` stays ignored where the default action was in place.
  pub pipe : g'.action sys.sigpipe ≡ (
      if (g.action sys.sigpipe).sa_handler == sys.sig_dfl
      then record (g.action sys.sigpipe) { sa_handler = sys.sig_ign; sa_flags = 0 }
      else g.action sys.sigpipe)

-- What `uloop_setup_signals(true)` and then `uloop_setup_signals(false)` have done, call by call.
module _ (sys : System) (g : Signals) (h : IsSystem sys) (out : IsOutside sys g) where
  abbrev int_on : (ℕ → Sigaction) × Sigaction
  int_on = install_handler sys g.action sys.sigint sys.handle_sigint g.old_sigint true

  abbrev term_on : (ℕ → Sigaction) × Sigaction
  term_on = install_handler sys int_on.0 sys.sigterm sys.handle_sigint g.old_sigterm true

  abbrev chld_on : (ℕ → Sigaction) × Sigaction
  chld_on = install_handler sys term_on.0 sys.sigchld sys.handle_sigchld g.old_sigchld true

  abbrev pipe_on : ℕ → Sigaction
  pipe_on = ignore_signal sys chld_on.0 sys.sigpipe true

  abbrev int_off : (ℕ → Sigaction) × Sigaction
  int_off = install_handler sys pipe_on sys.sigint sys.handle_sigint int_on.1 false

  abbrev term_off : (ℕ → Sigaction) × Sigaction
  term_off = install_handler sys int_off.0 sys.sigterm sys.handle_sigint term_on.1 false

  abbrev chld_off : (ℕ → Sigaction) × Sigaction
  chld_off = install_handler sys term_off.0 sys.sigchld sys.handle_sigchld chld_on.1 false

  past_int_on : (i : ℕ) → (i == sys.sigint) ≡ false → int_on.0 i ≡ g.action i
  past_int_on = install_handler-other sys h g.action sys.sigint sys.handle_sigint g.old_sigint true

  past_term_on : (i : ℕ) → (i == sys.sigterm) ≡ false → term_on.0 i ≡ int_on.0 i
  past_term_on =
      install_handler-other sys h int_on.0 sys.sigterm sys.handle_sigint g.old_sigterm true

  past_chld_on : (i : ℕ) → (i == sys.sigchld) ≡ false → chld_on.0 i ≡ term_on.0 i
  past_chld_on =
      install_handler-other sys h term_on.0 sys.sigchld sys.handle_sigchld g.old_sigchld true

  past_pipe_on : (i : ℕ) → (i == sys.sigpipe) ≡ false → pipe_on i ≡ chld_on.0 i
  past_pipe_on = ignore_signal-other sys h chld_on.0 sys.sigpipe true

  past_int_off : (i : ℕ) → (i == sys.sigint) ≡ false → int_off.0 i ≡ pipe_on i
  past_int_off = install_handler-other sys h pipe_on sys.sigint sys.handle_sigint int_on.1 false

  past_term_off : (i : ℕ) → (i == sys.sigterm) ≡ false → term_off.0 i ≡ int_off.0 i
  past_term_off =
      install_handler-other sys h int_off.0 sys.sigterm sys.handle_sigint term_on.1 false

  past_chld_off : (i : ℕ) → (i == sys.sigchld) ≡ false → chld_off.0 i ≡ term_off.0 i
  past_chld_off =
      install_handler-other sys h term_off.0 sys.sigchld sys.handle_sigchld chld_on.1 false

  int_restored : int_off.0 sys.sigint ≡ g.action sys.sigint
  int_restored =
      install_handler-restored sys h g.action pipe_on sys.sigint sys.handle_sigint g.old_sigint
        out.int
        (past_pipe_on sys.sigint h.int_pipe
          ∙ past_chld_on sys.sigint h.int_chld
          ∙ past_term_on sys.sigint h.int_term)

  term_restored : term_off.0 sys.sigterm ≡ g.action sys.sigterm
  term_restored =
      let first = past_int_on sys.sigterm (ne_sym sys.sigint sys.sigterm h.int_term) in
      install_handler-restored sys h int_on.0 int_off.0 sys.sigterm sys.handle_sigint g.old_sigterm
        (rw first out.term)
        (past_int_off sys.sigterm (ne_sym sys.sigint sys.sigterm h.int_term)
          ∙ past_pipe_on sys.sigterm h.term_pipe
          ∙ past_chld_on sys.sigterm h.term_chld)
      ∙ first

  chld_restored : chld_off.0 sys.sigchld ≡ g.action sys.sigchld
  chld_restored =
      let int_apart = ne_sym sys.sigint sys.sigchld h.int_chld in
      let term_apart = ne_sym sys.sigterm sys.sigchld h.term_chld in
      let first = past_term_on sys.sigchld term_apart ∙ past_int_on sys.sigchld int_apart in
      install_handler-restored sys h term_on.0 term_off.0 sys.sigchld sys.handle_sigchld
        g.old_sigchld (rw first out.chld)
        (past_term_off sys.sigchld term_apart
          ∙ past_int_off sys.sigchld int_apart
          ∙ past_pipe_on sys.sigchld h.chld_pipe)
      ∙ first

  other_restored : (i : ℕ) → (i == sys.sigpipe) ≡ false → chld_off.0 i ≡ g.action i
  other_restored i not_pipe = elim (Bool-cases (i == sys.sigchld)) [
    | inl chld ↦ let e : i ≡ sys.sigchld = ==→eq i sys.sigchld chld in rw e chld_restored
    | inr not_chld ↦ past_chld_off i not_chld ∙ (elim (Bool-cases (i == sys.sigterm)) [
      | inl term ↦ let e : i ≡ sys.sigterm = ==→eq i sys.sigterm term in rw e term_restored
      | inr not_term ↦ past_term_off i not_term ∙ (elim (Bool-cases (i == sys.sigint)) [
        | inl int ↦ let e : i ≡ sys.sigint = ==→eq i sys.sigint int in rw e int_restored
        | inr not_int ↦
            past_int_off i not_int
            ∙ past_pipe_on i not_pipe
            ∙ past_chld_on i not_chld
            ∙ past_term_on i not_term
            ∙ past_int_on i not_int
      ])
    ])
  ]

  pipe_before : chld_on.0 sys.sigpipe ≡ g.action sys.sigpipe
  pipe_before =
      past_chld_on sys.sigpipe (ne_sym sys.sigchld sys.sigpipe h.chld_pipe)
      ∙ past_term_on sys.sigpipe (ne_sym sys.sigterm sys.sigpipe h.term_pipe)
      ∙ past_int_on sys.sigpipe (ne_sym sys.sigint sys.sigpipe h.int_pipe)

  pipe_after : chld_off.0 sys.sigpipe ≡ pipe_on sys.sigpipe
  pipe_after =
      past_chld_off sys.sigpipe (ne_sym sys.sigchld sys.sigpipe h.chld_pipe)
      ∙ past_term_off sys.sigpipe (ne_sym sys.sigterm sys.sigpipe h.term_pipe)
      ∙ past_int_off sys.sigpipe (ne_sym sys.sigint sys.sigpipe h.int_pipe)

  pipe_ignored : ignore_signal sys chld_off.0 sys.sigpipe false sys.sigpipe ≡ (
      if (g.action sys.sigpipe).sa_handler == sys.sig_dfl
      then record (g.action sys.sigpipe) { sa_handler = sys.sig_ign; sa_flags = 0 }
      else g.action sys.sigpipe)
  pipe_ignored =
      ignore_signal-stays sys h chld_on.0 chld_off.0 sys.sigpipe pipe_after
      ∙ ignore_signal-at sys h chld_on.0 sys.sigpipe
      ∙ ap
          (λ a.
            if a.sa_handler == sys.sig_dfl
            then record a { sa_handler = sys.sig_ign; sa_flags = 0 }
            else a)
          pipe_before

-- `uloop_setup_signals(true)` and then `uloop_setup_signals(false)` restore the action of every signal
-- but `SIGPIPE`, which stays ignored where its default action was in place: `SIG_DFL`, which is NULL
-- here, is taken for no new handler. None of the handlers of uloop.c is in place before.
pub setup_signals-Restored :
    (sys : System) (g : Signals)
    → IsSystem sys
    → IsOutside sys g
    → Restored sys g (setup_signals sys (setup_signals sys g true) false)
unfolding setup_signals
setup_signals-Restored sys g h out = record {
  others = λ i np.
      ignore_signal-other sys h (chld_off sys g h out).0 sys.sigpipe false i np
      ∙ other_restored sys g h out i np;
  pipe = pipe_ignored sys g h out;
}
