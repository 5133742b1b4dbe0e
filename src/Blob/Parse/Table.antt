-- ===== src/Blob/Parse/Table.antt =====
-- The table that `blob_parse` fills (blob.c).
use libubox.Base.{
  ℕ, zero, suc, ◌+◌, ◌-◌, ◌%◌, ◌≤◌, ◌<◌, ◌≡◌, inl, inr, refl, sym, ap, ◌∙◌, Bool, true, false, ◌&&◌,
  Option, none, some, List, [], ◌∷◌, arith, ltb, leb, ◌==◌, if◌then◌else◌, ==→eq, eq→==, Yields,
  Bool-cases, Option-cases, length, All, length-drop,
}
use libubox.Blob.{id_len, blob_data, blob_id, blob_len, blob_pad_len, blob_pad_len-bounds}
use libubox.Blob.Iterate.{for_each_attr, Inside, for_each_attr-Inside}
use libubox.Blob.Parse.{AttrInfo, accept_for, Entries, is_null, parse_loop, blob_parse}
use libubox.Blob.Parse.Checks.{accept_for-some}

-- Whether `blob_parse` takes `cur` for the id `i`.
abbrev pub takes : Option (ℕ → AttrInfo) → ℕ → List ℕ → Bool
takes info i cur = elim (id_len cur) [
  | none ↦ false
  | some w ↦
      if blob_id w == i
      then (elim (accept_for info i cur (blob_len w)) [ none ↦ false | some ok ↦ ok ])
      else false
]

-- The last attribute that is taken for the id `i`, or what was there before.
abbrev pub last_taken :
    Option (ℕ → AttrInfo) → ℕ → List (List ℕ) → Option (List ℕ) → Option (List ℕ)
last_taken info i [] old = old
last_taken info i (cur ∷ r) old = last_taken info i r (if takes info i cur then some cur else old)

-- How many of the first `max` entries are not NULL.
abbrev pub entries : Entries → ℕ → ℕ
entries tb zero = 0
entries tb (suc n) = entries tb n + (1 - is_null (tb n))

-- What the parser does with the attributes that it visits.
pub record Parsed (info : Option (ℕ → AttrInfo)) (max : ℕ) (l : List (List ℕ)) (tb : Entries)
    (before : ℕ) (res : Entries × ℕ) : Type 0 where
  pub filled : (i : ℕ) → i < max → res.0 i ≡ last_taken info i l (tb i)
  pub kept : (i : ℕ) → max ≤ i → res.0 i ≡ tb i
  pub found : res.1 + entries tb max ≡ before + entries res.0 max

-- An attribute whose header and data lie in the memory.
pub record Readable (cur : List ℕ) : Type 0 where
  pub word : ℕ
  pub header : id_len cur ≡ some word
  pub sized : 4 ≤ word % 16777216
  pub room : word % 16777216 ≤ length cur

is_null-le : (o : Option (List ℕ)) → is_null o ≤ 1
is_null-le none = omega arith
is_null-le (some p) = omega arith

-- Setting an entry counts if it was NULL.
entries-above :
    (tb : Entries) (id : ℕ) (cur : List ℕ) (n : ℕ)
    → n ≤ id
    → entries (λ i. if i == id then some cur else tb i) n ≡ entries tb n
entries-above tb id cur zero h = refl
entries-above tb id cur (suc n) h = ground (arith, entries-above tb id cur n)

entries-update :
    (tb : Entries) (id : ℕ) (cur : List ℕ) (n : ℕ)
    → id < n
    → entries (λ i. if i == id then some cur else tb i) n ≡ entries tb n + is_null (tb id)
entries-update tb id cur zero h = absurd (omega arith)
entries-update tb id cur (suc n) h = elim (Bool-cases (n == id)) [
  | inl this ↦
      let e : n ≡ id = ==→eq n id this in
      let above = entries-above tb id cur n (omega (arith, e)) in
      let same : is_null (tb id) ≡ is_null (tb n) = ap (λ k. is_null (tb k)) (sym e) in
      let one = is_null-le (tb n) in rw this (omega (arith, above, same, one))
  | inr other ↦
      let rest = entries-update tb id cur n (ground arith) in rw other (omega (arith, rest))
]

module _ (info : Option (ℕ → AttrInfo)) (max : ℕ) where
  -- The round of an attribute that is not taken, and the round of one that is.
  Parsed-skip :
      (cur : List ℕ) (r : List (List ℕ)) (tb : Entries) (found : ℕ) (o : Option (Entries × ℕ))
      → ((i : ℕ) → i < max → takes info i cur ≡ false)
      → Yields (Parsed info max r tb found) o
      → Yields (Parsed info max (cur ∷ r) tb found) o
  Parsed-skip cur r tb found none untaken y = y
  Parsed-skip cur r tb found (some res) untaken y = record {
    filled = λ i lt. rw (untaken i lt) (y.filled i lt);
    kept = y.kept;
    found = y.found;
  }

  Parsed-take :
      (cur : List ℕ) (r : List (List ℕ)) (tb : Entries) (found id : ℕ) (o : Option (Entries × ℕ))
      → id < max
      → ((i : ℕ) → takes info i cur ≡ (i == id))
      → Yields
          (Parsed info max r (λ i. if i == id then some cur else tb i) (found + is_null (tb id)))
          o
      → Yields (Parsed info max (cur ∷ r) tb found) o
  Parsed-take cur r tb found id none lt is y = y
  Parsed-take cur r tb found id (some res) lt is y = record {
    filled = λ i below. rw (is i) (y.filled i below);
    kept = λ i above. y.kept i above ∙ ground arith;
    found = omega (arith, y.found, entries-update tb id cur max lt);
  }

  takes-id :
      (cur : List ℕ) (w : ℕ) (ok : Bool) (i : ℕ)
      → id_len cur ≡ some w
      → accept_for info (blob_id w) cur (blob_len w) ≡ some ok
      → takes info i cur ≡ ((i == blob_id w) && ok)
  takes-id cur w ok i header a = elim (Bool-cases (i == blob_id w)) [
    | inl this ↦
        let e : i ≡ blob_id w = ==→eq i (blob_id w) this in
        let same : (blob_id w == blob_id w) ≡ true = eq→== (blob_id w) (blob_id w) refl in
        rw e (simp (takes, header, same, a))
    | inr other ↦
        let swapped : (blob_id w == i) ≡ false = ground arith in
        simp (takes, header, other, swapped)
  ]

  parse_loop-Parsed :
      (l : List (List ℕ)) (tb : Entries) (found : ℕ)
      → All Readable l
      → Yields (Parsed info max l tb found) (parse_loop info max l tb found)
  unfolding parse_loop
  parse_loop-Parsed [] tb found rs = record {
    filled = λ i lt. refl;
    kept = λ i le. refl;
    found = refl;
  }
  parse_loop-Parsed (cur ∷ r) tb found (v, rs) =
      let w = v.word in
      let header : id_len cur ≡ some w = v.header in
      let id = blob_id w in
      let enough : blob_len w ≤ length (blob_data cur) =
        omega (arith, v.sized, v.room, length-drop 4 cur) in
      let (ok, a) = accept_for-some info id cur (blob_len w) enough in
      elim (Bool-cases (leb max id)) [
        | inl beyond ↦
            simp (parse_loop, Yields, header, beyond)
              (Parsed-skip cur r tb found _ (λ i lt. takes-id cur w ok i header a ∙ ground arith)
                (parse_loop-Parsed r tb found rs))
        | inr inside ↦ elim (Bool-cases ok) [
          | inl taken ↦
              let a' : accept_for info id cur (blob_len w) ≡ some true = a ∙ ap some taken in
              simp (parse_loop, Yields, header, inside, a')
                (Parsed-take cur r tb found id _ (ground arith)
                  (λ i. takes-id cur w true i header a' ∙ ground arith)
                  (parse_loop-Parsed r (λ i. if i == id then some cur else tb i)
                    (found + is_null (tb id)) rs))
          | inr refused ↦
              let a' : accept_for info id cur (blob_len w) ≡ some false = a ∙ ap some refused in
              simp (parse_loop, Yields, header, inside, a')
                (Parsed-skip cur r tb found _
                  (λ i lt. takes-id cur w false i header a' ∙ ground arith)
                  (parse_loop-Parsed r tb found rs))
        ]
      ]

-- An attribute whose length is that of a header at least.
pub record Sized (cur : List ℕ) : Type 0 where
  pub word : ℕ
  pub header : id_len cur ≡ some word
  pub sized : 4 ≤ word % 16777216

lie_in_memory :
    (mem : List ℕ) (rem : ℕ) (l : List (List ℕ))
    → rem ≤ length mem
    → All (Inside mem rem) l
    → All Sized l
    → All Readable l
lie_in_memory mem rem [] le vs ws = tt
lie_in_memory mem rem (cur ∷ l) le (v, vs) (z, zs) =
    let same : z.word ≡ v.word =
      ap (λ o. elim o [ none ↦ 0 | some x ↦ x ]) (sym z.header ∙ v.header) in
    let left : length cur ≡ length mem - v.offset = ap length v.at ∙ length-drop v.offset mem in
    let p = blob_pad_len-bounds v.word in
    (
      record {
        word = z.word;
        header = z.header;
        sized = z.sized;
        room = rw same (omega (arith, v.ends, left, v.has_header));
      },
      lie_in_memory mem rem l le vs zs,
    )

-- What `blob_parse` promises of the attribute `attr` and the table `tb`.
pub record ParseOf (attr : List ℕ) (tb : Entries) (info : Option (ℕ → AttrInfo)) (max : ℕ)
    : Type 0 where
  pub visited : List (List ℕ)
  pub visits : for_each_attr attr ≡ some visited
  pub table : Entries
  pub found : ℕ
  pub ran : blob_parse attr tb info max ≡ some (table, found)
  pub filled : (i : ℕ) → i < max → table i ≡ last_taken info i visited none
  pub kept : (i : ℕ) → max ≤ i → table i ≡ tb i
  pub counted : found ≡ entries table max

entries-clear :
    (tb : Entries) (max n : ℕ) → n ≤ max → entries (λ i. if ltb i max then none else tb i) n ≡ 0
entries-clear tb max zero h = refl
entries-clear tb max (suc n) h = ground (arith, entries-clear tb max n)

-- `blob_parse` of an attribute that lies in the memory with its padding, and whose nested attributes
-- all have the length of a header at least, reads nothing outside of the memory. It enters the last
-- attribute of each id below `max` that passes the tests of `info`, or NULL, writes no other entry, and
-- returns the number of entries that are not NULL.
pub blob_parse-ParseOf :
    (attr : List ℕ) (w : ℕ) (tb : Entries) (info : Option (ℕ → AttrInfo)) (max : ℕ)
    → id_len attr ≡ some w
    → blob_pad_len w ≤ length attr
    → Yields (All Sized) (for_each_attr attr)
    → ParseOf attr tb info max
unfolding blob_parse
blob_parse-ParseOf attr w tb info max header room sized =
    let inside = for_each_attr-Inside attr w header room in
    elim (Option-cases (for_each_attr attr)) [
      | inl fault ↦ absurd (rw fault at inside)
      | inr (l, visits) ↦
          let vs : All (Inside (blob_data attr) (w % 16777216 - 4)) l = rw visits at inside in
          let zs : All Sized l = rw visits at sized in
          let p = blob_pad_len-bounds w in
          let rs =
            lie_in_memory (blob_data attr) (w % 16777216 - 4) l (omega (arith, length-drop 4 attr))
              vs zs in
          let clear : Entries = λ i. if ltb i max then none else tb i in
          let done = parse_loop-Parsed info max l clear 0 rs in
          elim (Option-cases (parse_loop info max l clear 0)) [
            | inl fault ↦ absurd (rw fault at done)
            | inr (res, ran) ↦
                let y : Parsed info max l clear 0 res = rw ran at done in
                record {
                  visited = l;
                  visits = visits;
                  table = res.0;
                  found = res.1;
                  ran = simp (blob_parse, visits, ran);
                  filled = λ i lt. y.filled i lt ∙ ap (last_taken info i l) (ground arith);
                  kept = λ i le. y.kept i le ∙ ground arith;
                  counted = omega (arith, y.found, entries-clear tb max max);
                }
          ]
    ]
