-- ===== src/JsonScript/Run/Returns.antt =====
-- That a run of a script ends (json_script.c).
use libubox.Base.{
  Yields-map, ℕ, zero, suc, ◌+◌, ◌≤◌, ◌<◌, ◌≡◌, inl, inr, refl, sym, ◌∙◌, true, false, Option, none,
  some, List, [], ◌∷◌, arith, ◌==◌, if◌then◌else◌, ==→eq, Yields, Bool-cases, Option-cases, length,
  All,
}
use libubox.Links.{has}
use libubox.JsonScript.{Str, Attr, Attrs, Ctx, Handlers, Call, strcmp}
use libubox.JsonScript.Cmd.{get_file, process_cmd}
use libubox.JsonScript.Run.{chain_loop, script_run, next_seq, json_script_run_file, json_script_run}
use libubox.JsonScript.Run.Keeps.{Solid, Keeps}
use libubox.JsonScript.Run.Commands.{process_cmd-Keeps}

-- How many of the files have not been run with the number.
unfoldable waiting : List ℕ → ℕ → (ℕ → ℕ) → ℕ
waiting [] seq mark = 0
waiting (f ∷ fs) seq mark = if mark f == seq then waiting fs seq mark else suc (waiting fs seq mark)

-- What was run stays so.
abbrev pub Marks : ℕ → (ℕ → ℕ) → (ℕ → ℕ) → Type 0
Marks seq mark later = (f : ℕ) → (mark f == seq) ≡ true → (later f == seq) ≡ true

waiting_mono :
    (fs : List ℕ) (seq : ℕ) (mark later : ℕ → ℕ)
    → Marks seq mark later
    → waiting fs seq later ≤ waiting fs seq mark
unfolding waiting
waiting_mono [] seq mark later m = omega arith
waiting_mono (f ∷ fs) seq mark later m = ground (arith, waiting_mono fs seq mark later m, m f)

marked : (seq : ℕ) (mark : ℕ → ℕ) (f : ℕ) → Marks seq mark (λ i. if i == f then seq else mark i)
marked seq mark f i e = elim (Bool-cases (i == f)) [
  | inl this ↦ rw this (ground arith)
  | inr apart ↦ rw apart e
]

waiting_fewer :
    (fs : List ℕ) (seq : ℕ) (mark : ℕ → ℕ) (f : ℕ)
    → has fs f ≡ true
    → (mark f == seq) ≡ false
    → waiting fs seq (λ i. if i == f then seq else mark i) < waiting fs seq mark
unfolding waiting
waiting_fewer [] seq mark f listed new = absurd (ground arith)
waiting_fewer (g ∷ fs) seq mark f listed new =
    let later =
      waiting_mono fs seq mark (λ i. if i == f then seq else mark i) (marked seq mark f) in
    elim (Bool-cases (g == f)) [
      | inl this ↦
          let e : g ≡ f = ==→eq g f this in
          let unmarked : (mark g == seq) ≡ false = rw e new in
          let now : ((if g == f then seq else mark g) == seq) ≡ true = rw this (ground arith) in
          rw (now, unmarked) (omega (arith, later))
      | inr apart ↦
          let rest = waiting_fewer fs seq mark f (ground arith) new in
          rw apart (ground (arith, rest))
    ]

waiting_bound : (fs : List ℕ) (seq : ℕ) (mark : ℕ → ℕ) → waiting fs seq mark ≤ length fs
unfolding waiting
waiting_bound [] seq mark = omega arith
waiting_bound (f ∷ fs) seq mark = ground (arith, waiting_bound fs seq mark)

-- How many times a file is in a list.
unfoldable pub count : ℕ → List ℕ → ℕ
count f [] = 0
count f (g ∷ l) = if f == g then suc (count f l) else count f l

-- Whether a file has been run with the number, as 0 or 1.
abbrev was : ℕ → (ℕ → ℕ) → ℕ → ℕ
was seq mark f = if mark f == seq then 1 else 0

-- Entering a file that has not been run counts it, and marks it.
count-enter :
    (seq : ℕ) (mark : ℕ → ℕ) (f : ℕ) (entered : List ℕ)
    → (mark f == seq) ≡ false
    → (i : ℕ)
    → count i (f ∷ entered) + was seq mark i
      ≡ count i entered + was seq (λ j. if j == f then seq else mark j) i
unfolding count
count-enter seq mark f entered new i = elim (Bool-cases (i == f)) [
  | inl this ↦
      let e : i ≡ f = ==→eq i f this in
      let unmarked : (mark i == seq) ≡ false = rw e new in rw (this, unmarked) (ground arith)
  | inr other ↦ rw other refl
]

-- Every file that a name leads to is one of those.
pub record IsKnown (known : List ℕ) (c : Ctx) : Type 0 where
  pub files : (name : Str) (f : ℕ) → c.files name ≡ some f → has known f ≡ true

module _ (h : Handlers) (known : List ℕ)
    (handled : (name : Str) (f : ℕ) → h.handle_file name ≡ some f → has known f ≡ true) where
  known_after :
      (name : Str) (f : ℕ) (c : Ctx)
      → IsKnown known c
      → has known f ≡ true
      → (n : Str) (g : ℕ)
      → elim (c.files n) [
        | some g ↦ some g
        | none ↦ if strcmp n (h.file_key f) then some f else none
      ]
        ≡ some g
      → has known g ≡ true
  known_after name f c v listed n g e = elim (Option-cases (c.files n)) [
    | inr (g', there) ↦ v.files n g (there ∙ (rw there at e))
    | inl absent ↦
        let e' : (if strcmp n (h.file_key f) then some f else none) ≡ some g = rw absent at e in
        elim (Bool-cases (strcmp n (h.file_key f))) [
          | inl this ↦
              let same : some f ≡ some g = rw this at e' in
              let eq : f ≡ g = cc in rw (sym eq) listed
          | inr differs ↦ let bad : none ≡ some g = rw differs at e' in absurd cc
        ]
  ]

  get_file-known :
      (name : Str) (c : Ctx)
      → IsKnown known c
      → IsKnown known (get_file h name c).0
        × ((f : ℕ) → (get_file h name c).1 ≡ some f → has known f ≡ true)
        × ((get_file h name c).0.file_seq ≡ c.file_seq)
        × ((get_file h name c).0.run_seq ≡ c.run_seq)
        × ((get_file h name c).0.entered ≡ c.entered)
  unfolding get_file
  get_file-known name c v = elim (Option-cases (c.files name)) [
    | inr (f, there) ↦
        simp (get_file, there) (v, λ g e. v.files name g (there ∙ e), refl, refl, refl)
    | inl absent ↦ elim (Option-cases (h.handle_file name)) [
      | inl none_such ↦ simp (get_file, absent, none_such) (v, λ g e. absurd cc, refl, refl, refl)
      | inr (f, found) ↦
          let listed : has known f ≡ true = handled name f found in
          simp (get_file, absent, found)
            (
              record { files = known_after name f c v listed },
              λ g e. handled name g (found ∙ e),
              refl,
              refl,
              refl,
            )
    ]
  ]

module _ (h : Handlers) (known : List ℕ)
    (handled : (name : Str) (f : ℕ) → h.handle_file name ≡ some f → has known f ≡ true)
    (solid : (f : ℕ) → All Solid (h.file_data f)) where
  -- What a run of a file leaves.
  pub record Ran (seq : ℕ) (c c' : Ctx) : Type 0 where
    pub known_files : IsKnown known c'
    pub marks : Marks seq c.file_seq c'.file_seq
    pub once :
        (f : ℕ)
        → count f c'.entered + was seq c.file_seq f ≡ count f c.entered + was seq c'.file_seq f

  chain_loop-Keeps :
      (call : Call) (script : ℕ → Option Attr → Ctx → Option Ctx) (P : Ctx → Type 0)
      → ((block : Attr) → Solid block → Keeps P (process_cmd h call script block))
      → (blocks : List Attr) (c : Ctx) → All Solid blocks
      → P c
      → Yields P (chain_loop h call script blocks c)
  unfolding chain_loop
  chain_loop-Keeps call script P keeps [] c v p = p
  chain_loop-Keeps call script P keeps (b ∷ r) c v p =
      let out = keeps b v.0 c p in
      elim (Option-cases (process_cmd h call script b c)) [
        | inl bad ↦ absurd (rw bad at out)
        | inr (res, got) ↦
            simp (chain_loop, got)
              (chain_loop-Keeps call script P keeps r res.0 v.1 (rw got at out))
      ]

  once_more :
      (seq : ℕ) (c c' : Ctx) (i : ℕ)
      → count i c'.entered + was seq c.file_seq i ≡ count i c.entered + was seq c'.file_seq i
      → count i c'.entered ≤ suc (count i c.entered)
  once_more seq c c' i e = ground (arith, e)

  found_file :
      (seq : ℕ) (c : Ctx) (name : Str) (c' : Ctx) → Ran seq c c' → Ran seq c (get_file h name c').0
  found_file seq c name c' r =
      let near = get_file-known h known handled name c' r.known_files in
      record {
        known_files = near.0;
        marks = λ i e. rw near.2 (r.marks i e);
        once = λ i. rw (near.2, near.4) (r.once i);
      }

  script_run-returns :
      (n : ℕ) (call : Call) (f : ℕ) (context : Option Attr) (c : Ctx)
      → IsKnown known c
      → has known f ≡ true
      → waiting known call.seq c.file_seq < n
      → Yields (Ran call.seq c) (script_run n h call f context c)
  unfolding script_run
  script_run-returns zero call f context c v listed fuel = absurd (omega arith)
  script_run-returns (suc n) call f context c v listed fuel =
      elim (Bool-cases (c.file_seq f == call.seq)) [
        | inl again ↦ elim (Option-cases context) [
          | inl top ↦
              simp (script_run, again, top)
                (record { known_files = v; marks = λ i e. e; once = λ i. refl })
          | inr (a, include) ↦
              simp (script_run, again, include)
                (record {
                  known_files = record { files = v.files };
                  marks = λ i e. e;
                  once = λ i. refl;
                })
        ]
        | inr new ↦
            let start = record c {
              file_seq = λ i. if i == f then call.seq else c.file_seq i;
              entered = f ∷ c.entered;
            } in
            let fewer = waiting_fewer known call.seq c.file_seq f listed new in
            let started : IsKnown known start = record { files = v.files } in
            let out =
              chain_loop-Keeps call (script_run n h call) (Ran call.seq start)
                (process_cmd-Keeps h call (script_run n h call) (Ran call.seq start)
                  (λ c' b l r. record {
                    known_files = record { files = r.known_files.files };
                    marks = r.marks;
                    once = r.once;
                  })
                  (λ name c' r. found_file call.seq start name c' r)
                  (λ name g expr c' r found.
                    let near = get_file-known h known handled name c' r.known_files in
                    let after = found_file call.seq start name c' r in
                    let less =
                      waiting_mono known call.seq start.file_seq (get_file h name c').0.file_seq
                        after.marks in
                    Yields-map (Ran call.seq (get_file h name c').0) (Ran call.seq start)
                      (λ d r'. record {
                        known_files = r'.known_files;
                        marks = λ i e. r'.marks i (after.marks i e);
                        once = λ i. omega (arith, r'.once i, after.once i);
                      })
                      (script_run n h call g expr (get_file h name c').0)
                      (script_run-returns n call g expr (get_file h name c').0 near.0
                        (near.1 g found) (omega (arith, less, fewer)))))
                (h.file_data f) start (solid f)
                (record { known_files = started; marks = λ i e. e; once = λ i. refl }) in
            simp (script_run, new)
              (Yields-map (Ran call.seq start) (Ran call.seq c)
                (λ d r. record {
                  known_files = r.known_files;
                  marks = λ i e. r.marks i (marked call.seq c.file_seq f i e);
                  once = λ i.
                      omega (arith, r.once i, count-enter call.seq c.file_seq f c.entered new i);
                })
                (chain_loop h call (script_run n h call) (h.file_data f) start) out)
      ]

  -- Where `known` has each file that `handle_file` gives and that the context has, and no array of the files is
  -- empty, `json_script_run` returns: fuel of one more than the files there are is enough whatever the files
  -- include, since a file that has run with the number is not run again, and no attribute is read past its end.
  -- Each file has been entered once more at most than before, and the files of the context are in `known`.
  pub json_script_run-returns :
      (vars : Attrs) (name : Str) (c : Ctx)
      → IsKnown known c
      → Yields
          (λ c'. IsKnown known c' × ((f : ℕ) → count f c'.entered ≤ suc (count f c.entered)))
          (json_script_run (suc (length known)) h vars name c)
  unfolding json_script_run json_script_run_file
  json_script_run-returns vars name c v =
      let near = get_file-known h known handled name c v in
      elim (Option-cases (get_file h name c).1) [
        | inl missing ↦ simp (json_script_run, missing) (near.0, λ i. rw near.4 (omega arith))
        | inr (f, found) ↦
            let first = (get_file h name c).0 in
            let seq = next_seq first.run_seq in
            let start : Ctx = record first { run_seq = seq; abort = false } in
            let started : IsKnown known start = record { files = near.0.files } in
            let room = waiting_bound known seq start.file_seq in
            let call : Call = record { vars = vars; seq = seq } in
            simp (json_script_run, json_script_run_file, found)
              (Yields-map (Ran seq start)
                (λ c'. IsKnown known c' × ((f : ℕ) → count f c'.entered ≤ suc (count f c.entered)))
                (λ d r. (r.known_files, λ i. rw (sym near.4) (once_more seq start d i (r.once i))))
                (script_run (suc (length known)) h call f none start)
                (script_run-returns (suc (length known)) call f none start started (near.1 f found)
                  (omega (arith, room))))
      ]
