-- ===== src/BlobmsgJson/Lists.antt =====
-- The names, commas and brackets that blobmsg_json.c writes.
use libubox.Base.{
  ℕ, suc, ◌-◌, ◌≡◌, inl, inr, refl, ap, Bool, true, false, ◌||◌, Option, some, [], ◌∷◌, ◌++◌,
  append-nil, append_assoc, arith, ◌==◌, if◌then◌else◌, Yields, Bool-cases, ◌>>=◌, length,
}
use libubox.BlobmsgJson.{Str, Strbuf, puts, add_separator, format_string}
use libubox.BlobmsgJson.Format.{Custom, format_name, format_comma, open_list, close_list}
use libubox.BlobmsgJson.Print.{print_string, separator, print_name, brackets}
use libubox.BlobmsgJson.Buffer.{
  Holds, retext, and_then, puts-Holds, add_separator-Holds, format_string-Holds,
}

raised :
    (ind : Bool) (level : ℕ) (text : Str) (s : Strbuf)
    → Holds ind level text s
    → Holds ind (suc level) text (record s { indent_level = suc s.indent_level })
raised ind level text s h = record {
  room = h.room;
  some_room = h.some_room;
  live = h.live;
  written = h.written;
  indented = h.indented;
  leveled = ap suc h.leveled;
}

lowered :
    (ind : Bool) (level : ℕ) (text : Str) (s : Strbuf)
    → Holds ind (suc level) text s
    → Holds ind level text (record s { indent_level = s.indent_level - 1 })
lowered ind level text s h = record {
  room = h.room;
  some_room = h.some_room;
  live = h.live;
  written = h.written;
  indented = h.indented;
  leveled = omega (arith, h.leveled);
}

module _ (alloc : ℕ → Bool) (enough : (n : ℕ) → alloc n ≡ true) (ind : Bool) where
  pub open_list-Holds :
      (level : ℕ) (text : Str) (is_array : Bool) (s : Strbuf)
      → Holds ind level text s
      → Yields
          (Holds ind
            (suc level)
            (text ++ ((if is_array then 91 else 123) ∷ separator ind (suc level))))
          (open_list alloc is_array s)
  unfolding open_list
  open_list-Holds level text is_array s h =
      let sign : Str = (if is_array then 91 else 123) ∷ [] in
      retext ind (suc level) ((text ++ sign) ++ separator ind (suc level))
        (text ++ (sign ++ separator ind (suc level)))
        (puts alloc s sign >>= λ s1.
          add_separator alloc (record s1 { indent_level = suc s1.indent_level }))
        (simp append_assoc)
        (and_then alloc enough ind level (text ++ sign) (suc level)
          ((text ++ sign) ++ separator ind (suc level)) (puts alloc s sign)
          (λ s1. add_separator alloc (record s1 { indent_level = suc s1.indent_level }))
          (puts-Holds alloc enough ind level text s sign h)
          (λ s1 h1.
            add_separator-Holds alloc enough ind (suc level) (text ++ sign)
              (record s1 { indent_level = suc s1.indent_level })
              (raised ind level (text ++ sign) s1 h1)))

  pub close_list-Holds :
      (level : ℕ) (text : Str) (is_array : Bool) (s : Strbuf)
      → Holds ind (suc level) text s
      → Yields
          (Holds ind level (text ++ (separator ind level ++ ((if is_array then 93 else 125) ∷ []))))
          (close_list alloc is_array s)
  unfolding close_list
  close_list-Holds level text is_array s h =
      let sign : Str = (if is_array then 93 else 125) ∷ [] in
      let low : Strbuf = record s { indent_level = s.indent_level - 1 } in
      retext ind level ((text ++ separator ind level) ++ sign)
        (text ++ (separator ind level ++ sign))
        (add_separator alloc low >>= λ s1. puts alloc s1 sign) (simp append_assoc)
        (and_then alloc enough ind level (text ++ separator ind level) level
          ((text ++ separator ind level) ++ sign) (add_separator alloc low)
          (λ s1. puts alloc s1 sign)
          (add_separator-Holds alloc enough ind level text low (lowered ind level text s h))
          (λ s1 h1. puts-Holds alloc enough ind level (text ++ separator ind level) s1 sign h1))

  pub format_name-Holds :
      (custom : Custom) (level : ℕ) (text : Str) (is_array : Bool) (name : Str) (s : Strbuf)
      → Holds ind level text s
      → Yields
          (Holds ind level (text ++ print_name custom ind is_array name))
          (format_name alloc is_array name s)
  unfolding format_name
  format_name-Holds custom level text is_array name s h =
      elim (Bool-cases (is_array || length name == 0)) [
        | inl none_such ↦
            simp (format_name, none_such)
              (retext ind level text (text ++ []) (some s) (rw append-nil refl) h)
        | inr named ↦
            let colon : Str = if ind then 58 ∷ 32 ∷ [] else 58 ∷ [] in
            simp (format_name, named)
              (retext ind level ((text ++ print_string name) ++ colon)
                (text ++ (print_string name ++ colon))
                (format_string alloc name s >>= λ s1.
                  puts alloc s1 (if s1.indent then 58 ∷ 32 ∷ [] else 58 ∷ []))
                (simp append_assoc)
                (and_then alloc enough ind level (text ++ print_string name) level
                  ((text ++ print_string name) ++ colon) (format_string alloc name s)
                  (λ s1. puts alloc s1 (if s1.indent then 58 ∷ 32 ∷ [] else 58 ∷ []))
                  (format_string-Holds alloc enough ind level text name s h)
                  (λ s1 h1.
                    retext ind level
                      ((text ++ print_string name) ++ (if s1.indent then 58 ∷ 32 ∷ [] else 58 ∷ []))
                      ((text ++ print_string name) ++ colon)
                      (puts alloc s1 (if s1.indent then 58 ∷ 32 ∷ [] else 58 ∷ []))
                      (rw h1.indented refl)
                      (puts-Holds alloc enough ind level (text ++ print_string name) s1
                        (if s1.indent then 58 ∷ 32 ∷ [] else 58 ∷ []) h1))))
      ]

  pub format_comma-Holds :
      (level : ℕ) (text : Str) (first : Bool) (s : Strbuf)
      → Holds ind level text s
      → Yields
          (Holds ind level (text ++ (if first then [] else 44 ∷ separator ind level)))
          (format_comma alloc first s)
  unfolding format_comma
  format_comma-Holds level text true s h =
      retext ind level text (text ++ []) (some s) (rw append-nil refl) h
  format_comma-Holds level text false s h =
      retext ind level ((text ++ (44 ∷ [])) ++ separator ind level)
        (text ++ (44 ∷ separator ind level))
        (puts alloc s (44 ∷ []) >>= λ s1. add_separator alloc s1) (simp append_assoc)
        (and_then alloc enough ind level (text ++ (44 ∷ [])) level
          ((text ++ (44 ∷ [])) ++ separator ind level) (puts alloc s (44 ∷ []))
          (λ s1. add_separator alloc s1) (puts-Holds alloc enough ind level text s (44 ∷ []) h)
          (λ s1 h1. add_separator-Holds alloc enough ind level (text ++ (44 ∷ [])) s1 h1))

  -- A list, where its elements are written.
  pub list-Holds :
      (custom : Custom) (level : ℕ) (text : Str) (is_array : Bool) (inner : Str)
      (loop : Strbuf → Option Strbuf) (s : Strbuf)
      → ((text : Str) (s : Strbuf)
          → Holds ind (suc level) text s
          → Yields (Holds ind (suc level) (text ++ inner)) (loop s))
      → Holds ind level text s
      → Yields
          (Holds ind level (text ++ brackets custom ind is_array level inner))
          (open_list alloc is_array s >>= λ s1. loop s1 >>= λ s2. close_list alloc is_array s2)
  list-Holds custom level text is_array inner loop s writes h =
      let t1 = text ++ ((if is_array then 91 else 123) ∷ separator ind (suc level)) in
      let t2 = t1 ++ inner in
      let t3 = t2 ++ (separator ind level ++ ((if is_array then 93 else 125) ∷ [])) in
      retext ind level t3 (text ++ brackets custom ind is_array level inner)
        (open_list alloc is_array s >>= λ s1. loop s1 >>= λ s2. close_list alloc is_array s2)
        (simp append_assoc)
        (and_then alloc enough ind (suc level) t1 level t3 (open_list alloc is_array s)
          (λ s1. loop s1 >>= λ s2. close_list alloc is_array s2)
          (open_list-Holds level text is_array s h)
          (λ s1 h1.
            and_then alloc enough ind (suc level) t2 level t3 (loop s1)
              (λ s2. close_list alloc is_array s2) (writes t1 s1 h1)
              (λ s2 h2. close_list-Holds level t2 is_array s2 h2)))
