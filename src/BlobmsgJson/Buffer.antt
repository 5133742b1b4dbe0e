-- ===== src/BlobmsgJson/Buffer.antt =====
-- The buffer of blobmsg_json.c and the strings in it.
use libubox.Base.{
  ℕ, ◌+◌, ◌≤◌, ◌<◌, ◌≡◌, inl, inr, refl, sym, ap, ◌∙◌, Bool, true, false, Option, some, [], ◌∷◌,
  ◌++◌, append-nil, append_assoc, arith, ltb, leb, ◌==◌, if◌then◌else◌, ge→ltb, ==→eq, Yields,
  Bool-cases, Option-cases, ◌>>=◌, length, replicate, length-append, nil_of_length, min,
}
use libubox.Base.{Yields-bind, Yields-map}
use libubox.BlobmsgJson.{
  Str, Strbuf, put_at, puts, add_separator, escape, escaped, format_loop, format_string,
}
use libubox.BlobmsgJson.Print.{quoted, print_string, separator}

-- The state of a buffer that holds a text.
pub record Holds (ind : Bool) (level : ℕ) (text : Str) (s : Strbuf) : Type 0 where
  pub room : length s.text ≤ s.len
  pub some_room : 0 < s.len
  pub live : s.null ≡ false
  pub written : s.text ≡ text
  pub indented : s.indent ≡ ind
  pub leveled : s.indent_level ≡ level

-- A text that is the same.
pub retext :
    (ind : Bool) (level : ℕ) (text text' : Str) (o : Option Strbuf)
    → text ≡ text'
    → Yields (Holds ind level text) o
    → Yields (Holds ind level text') o
retext ind level text text' o e y =
    Yields-map (Holds ind level text) (Holds ind level text')
      (λ s h. record {
        room = h.room;
        some_room = h.some_room;
        live = h.live;
        written = h.written ∙ e;
        indented = h.indented;
        leveled = h.leveled;
      })
      o y

module _ (alloc : ℕ → Bool) (enough : (n : ℕ) → alloc n ≡ true) (ind : Bool) where
  pub and_then :
      (level : ℕ) (text : Str) (level' : ℕ) (text' : Str) (o : Option Strbuf)
      (k : Strbuf → Option Strbuf)
      → Yields (Holds ind level text) o
      → ((s : Strbuf) → Holds ind level text s → Yields (Holds ind level' text') (k s))
      → Yields (Holds ind level' text') (o >>= k)
  and_then level text level' text' o k y f =
      Yields-bind (Holds ind level text) (Holds ind level' text') o k y f

  put_at-Holds :
      (level : ℕ) (text : Str) (s : Strbuf) (c : Str)
      → Holds ind level text s
      → length s.text + length c ≤ s.len
      → Yields (Holds ind level (text ++ c)) (put_at alloc s c)
  unfolding put_at
  put_at-Holds level text s c h fits =
      let inside : ltb s.len (length s.text + length c) ≡ false =
        ge→ltb s.len (length s.text + length c) fits in
      simp (put_at, h.live, inside)
        (record {
          room = rw length-append (omega (arith, fits));
          some_room = h.some_room;
          live = refl;
          written = ap (λ t. t ++ c) h.written;
          indented = h.indented;
          leveled = h.leveled;
        })

  pub puts-Holds :
      (level : ℕ) (text : Str) (s : Strbuf) (c : Str)
      → Holds ind level text s
      → Yields (Holds ind level (text ++ c)) (puts alloc s c)
  unfolding puts
  puts-Holds level text s c h = elim (Bool-cases (length c == 0)) [
    | inl nothing ↦
        simp (puts, nothing)
          (retext ind level text (text ++ c) (some s)
            (let e : c ≡ [] = nil_of_length c (==→eq (length c) 0 nothing) in
              rw (e, append-nil) refl)
            h)
    | inr something ↦ elim (Bool-cases (leb s.len (length s.text + length c))) [
      | inl grows ↦
          let more = s.len + (16 + length c) in
          let grown : Holds ind level text (record s { len = more }) = record {
            room = omega (arith, h.room);
            some_room = omega arith;
            live = h.live;
            written = h.written;
            indented = h.indented;
            leveled = h.leveled;
          } in
          simp (puts, something, grows, enough more)
            (put_at-Holds level text (record s { len = more }) c grown (omega (arith, h.room)))
      | inr fits ↦
          simp (puts, something, fits) (put_at-Holds level text s c h (ground (arith, fits)))
    ]
  ]

  pub add_separator-Holds :
      (level : ℕ) (text : Str) (s : Strbuf)
      → Holds ind level text s
      → Yields (Holds ind level (text ++ separator ind level)) (add_separator alloc s)
  unfolding add_separator
  add_separator-Holds level text s h = elim (Bool-cases s.indent) [
    | inl on ↦
        let tabs : Str = 10 ∷ replicate (if ltb 16 s.indent_level then 16 else s.indent_level) 9 in
        let e : ind ≡ true = sym h.indented ∙ on in
        let n : (if ltb 16 s.indent_level then 16 else s.indent_level) ≡ min 16 level =
          rw h.leveled (ground arith) in
        simp (add_separator, on)
          (retext ind level (text ++ tabs) (text ++ separator ind level) (puts alloc s tabs)
            (rw (e, n) refl) (puts-Holds level text s tabs h))
    | inr off ↦
        let e : ind ≡ false = sym h.indented ∙ off in
        simp (add_separator, off)
          (retext ind level text (text ++ separator ind level) (some s) (rw (e, append-nil) refl) h)
  ]

  format_loop-Holds :
      (level : ℕ) (text run rest : Str) (s : Strbuf)
      → Holds ind level text s
      → Yields (Holds ind level (text ++ (run ++ quoted rest))) (format_loop alloc run rest s)
  unfolding format_loop quoted
  format_loop-Holds level text run [] s h =
      retext ind level (text ++ run) (text ++ (run ++ [])) (puts alloc s run) (rw append-nil refl)
        (puts-Holds level text s run h)
  format_loop-Holds level text run (c ∷ r) s h = elim (Option-cases (escape c)) [
    | inl plain ↦
        simp (format_loop, plain)
          (retext ind level (text ++ ((run ++ (c ∷ [])) ++ quoted r))
            (text ++ (run ++ (c ∷ quoted r))) (format_loop alloc (run ++ (c ∷ [])) r s)
            (simp append_assoc) (format_loop-Holds level text (run ++ (c ∷ [])) r s h))
    | inr (e, special) ↦
        simp (format_loop, special)
          (retext ind level (((text ++ run) ++ escaped e c) ++ quoted r)
            (text ++ (run ++ (escaped e c ++ quoted r)))
            (puts alloc s run >>= λ s1.
              puts alloc s1 (escaped e c) >>= λ s2. format_loop alloc [] r s2)
            (simp append_assoc)
            (and_then level (text ++ run) level (((text ++ run) ++ escaped e c) ++ quoted r)
              (puts alloc s run)
              (λ s1. puts alloc s1 (escaped e c) >>= λ s2. format_loop alloc [] r s2)
              (puts-Holds level text s run h)
              (λ s1 h1.
                and_then level ((text ++ run) ++ escaped e c) level
                  (((text ++ run) ++ escaped e c) ++ quoted r) (puts alloc s1 (escaped e c))
                  (λ s2. format_loop alloc [] r s2)
                  (puts-Holds level (text ++ run) s1 (escaped e c) h1)
                  (λ s2 h2. format_loop-Holds level ((text ++ run) ++ escaped e c) [] r s2 h2))))
  ]

  pub format_string-Holds :
      (level : ℕ) (text str : Str) (s : Strbuf)
      → Holds ind level text s
      → Yields (Holds ind level (text ++ print_string str)) (format_string alloc str s)
  unfolding format_string
  format_string-Holds level text str s h =
      retext ind level (((text ++ (34 ∷ [])) ++ quoted str) ++ (34 ∷ [])) (text ++ print_string str)
        (puts alloc s (34 ∷ []) >>= λ s1.
          format_loop alloc [] str s1 >>= λ s2. puts alloc s2 (34 ∷ []))
        (simp append_assoc)
        (and_then level (text ++ (34 ∷ [])) level (((text ++ (34 ∷ [])) ++ quoted str) ++ (34 ∷ []))
          (puts alloc s (34 ∷ []))
          (λ s1. format_loop alloc [] str s1 >>= λ s2. puts alloc s2 (34 ∷ []))
          (puts-Holds level text s (34 ∷ []) h)
          (λ s1 h1.
            and_then level ((text ++ (34 ∷ [])) ++ quoted str) level
              (((text ++ (34 ∷ [])) ++ quoted str) ++ (34 ∷ [])) (format_loop alloc [] str s1)
              (λ s2. puts alloc s2 (34 ∷ []))
              (format_loop-Holds level (text ++ (34 ∷ [])) [] str s1 h1)
              (λ s2 h2. puts-Holds level ((text ++ (34 ∷ [])) ++ quoted str) s2 (34 ∷ []) h2)))
