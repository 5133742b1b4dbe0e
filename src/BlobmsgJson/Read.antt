-- ===== src/BlobmsgJson/Read.antt =====
-- A reader of JSON text, and the value that fields stand for.
use libubox.Base.{
  ℕ, zero, suc, ◌+◌, ◌-◌, ◌*◌, ◌≡◌, Bool, true, false, not, ◌&&◌, ◌||◌, Option, none, some, [], ◌∷◌,
  ltb, leb, ◌==◌, if◌then◌else◌, ◌>>=◌, length,
}
use libubox.BlobmsgJson.{Str}
use libubox.BlobmsgJson.Format.{
  field, refused, Value, unspec, int8, int16, int32, int64, string, array, table, Fields, end, item,
}

-- A reader of JSON strings: between two characters, after a backslash, or before so many hexadecimal digits.
pub data State : Type 0 where
  plain : State
  backslash : State
  hex : ℕ → ℕ → State

-- The character of an escape of two.
unfoldable pub unescape : ℕ → Option ℕ
unescape c =
    if c == b'b'
    then some 8
    else if c == b'n'
    then some 10
    else if c == b't'
    then some 9
    else if c == b'r'
    then some 13
    else if c == b'f'
    then some 12
    else if c == 34 || c == 92 || c == 47
    then some c
    else none

unfoldable pub un_hex : ℕ → Option ℕ
un_hex c =
    if ltb 47 c && ltb c 58
    then some (c - 48)
    else if ltb 96 c && ltb c 103
    then some (c - 87)
    else none

-- The string before the quote, and what is after it.
abbrev pub cons : ℕ → Option (Str × Str) → Option (Str × Str)
cons c none = none
cons c (some (s, r)) = some (c ∷ s, r)

unfoldable pub read_string : State → Str → Option (Str × Str)
read_string state [] = none
read_string plain (c ∷ r) =
    let ended = some ([], r) in
    elim (c == 34) [
      | true ↦ ended
      | false ↦ elim (c == 92) [
        | true ↦ read_string backslash r
        | false ↦ elim (ltb c 32) [ true ↦ none | false ↦ cons c (read_string plain r) ]
      ]
    ]
read_string backslash (c ∷ r) = elim (c == b'u') [
  | true ↦ read_string (hex 3 0) r
  | false ↦ elim (unescape c) [ none ↦ none | some x ↦ cons x (read_string plain r) ]
]
read_string (hex k acc) (c ∷ r) = elim (un_hex c) [
  | none ↦ none
  | some d ↦ elim k [
    | zero ↦ cons (acc * 16 + d) (read_string plain r)
    | suc k' ↦ read_string (hex k' (acc * 16 + d)) r
  ]
]

-- The values: a number is its sign and size, and an element of a list has the name [].
mutual
  pub data Json : Type 0 where
    null : Json
    boolean : Bool → Json
    number : Bool → ℕ → Json
    text : Str → Json
    list : Elements → Json
    object : Elements → Json

  pub data Elements : Type 0 where
    done : Elements
    element : Str → Json → Elements → Elements

abbrev pub is_blank : ℕ → Bool
is_blank c = c == 10 || c == 9 || c == 32

-- Past blanks.
unfoldable pub skip : Str → Str
skip [] = []
skip (c ∷ r) = let rest = skip r in if is_blank c then rest else c ∷ r

unfoldable pub expect : ℕ → Str → Option Str
expect x [] = none
expect x (c ∷ r) = if c == x then some r else none

unfoldable pub expect_all : Str → Str → Option Str
expect_all [] s = some s
expect_all (x ∷ xs) [] = none
expect_all (x ∷ xs) (c ∷ r) = let rest = expect_all xs r in if c == x then rest else none

unfoldable pub is_digit : ℕ → Bool
is_digit c = leb 48 c && leb c 57

-- The number that goes on with these characters.
unfoldable pub read_digits : ℕ → Str → ℕ × Str
read_digits acc [] = (acc, [])
read_digits acc (c ∷ r) = elim (is_digit c) [
  | true ↦ read_digits (acc * 10 + (c - 48)) r
  | false ↦ (acc, c ∷ r)
]

unfoldable pub read_number : Bool → Str → Option (Json × Str)
read_number negative [] = none
read_number negative (c ∷ r) =
    let (n, rest) = read_digits 0 (c ∷ r) in
    if is_digit c then some (number negative n, rest) else none

abbrev pub literal : Json → Str → Str → Option (Json × Str)
literal j rest s = expect_all rest s >>= λ r. some (j, r)

abbrev pub made : Bool → Elements → Json
made is_array es = if is_array then list es else object es

abbrev pub enclosed : Bool → (Str → Option (Elements × Str)) → Str → Option (Json × Str)
enclosed is_array items s = elim (expect (if is_array then 93 else 125) (skip s)) [
  | some r ↦ some (made is_array done, r)
  | none ↦ items s >>= λ p. some (made is_array p.0, p.1)
]

-- A value that begins at once, where `items` reads the elements of an array or of an object.
unfoldable pub value_at : (Bool → Str → Option (Elements × Str)) → Str → Option (Json × Str)
value_at items [] = none
value_at items (c ∷ r) =
    if c == 34
    then (read_string plain r >>= λ p. some (text p.0, p.1))
    else if c == 91
    then enclosed true (items true) r
    else if c == 123
    then enclosed false (items false) r
    else if c == b'n'
    then literal null (b'u' ∷ b'l' ∷ b'l' ∷ []) r
    else if c == b't'
    then literal (boolean true) (b'r' ∷ b'u' ∷ b'e' ∷ []) r
    else if c == b'f'
    then literal (boolean false) (b'a' ∷ b'l' ∷ b's' ∷ b'e' ∷ []) r
    else if c == 45
    then read_number true r
    else read_number false (c ∷ r)

-- The name of an element and its colon.
unfoldable pub label_at : Bool → Str → Option (Str × Str)
label_at true s = some ([], s)
label_at false s = expect 34 (skip s) >>= λ r.
    read_string plain r >>= λ p. expect 58 (skip p.1) >>= λ r'. some (p.0, r')

-- What follows an element.
abbrev pub more_at :
    (Str → Option (Elements × Str)) → Bool → Str → Json → Str → Option (Elements × Str)
more_at items is_array name j r = elim (expect 44 (skip r)) [
  | some r' ↦ items r' >>= λ p. some (element name j p.0, p.1)
  | none ↦ expect (if is_array then 93 else 125) (skip r) >>= λ r'. some (element name j done, r')
]

unfoldable pub items_at :
    (Str → Option (Json × Str))
    → (Str → Option (Elements × Str))
    → Bool
    → Str
    → Option (Elements × Str)
items_at value items is_array s =
    label_at is_array s >>= λ p. value p.1 >>= λ q. more_at items is_array p.0 q.0 q.1

-- A value, and the elements of an array or of an object with what closes it, on fuel.
unfoldable mutual
  pub read_value : ℕ → Str → Option (Json × Str)
  read_value zero s = none
  read_value (suc n) s = value_at (read_items n) (skip s)

  pub read_items : ℕ → Bool → Str → Option (Elements × Str)
  read_items zero is_array s = none
  read_items (suc n) is_array s = items_at (read_value n) (read_items n is_array) is_array s

-- A number of a signed type of `2 * half` values.
abbrev pub signed_number : ℕ → ℕ → Json
signed_number half n = if ltb n half then number false n else number true (2 * half - n)

-- The value of a field, and its size.
unfoldable mutual
  pub json_of : Value → Json
  json_of unspec = null
  json_of (int8 b) = boolean (not (b == 0))
  json_of (int16 w) = number false w
  json_of (int32 w) = signed_number 2147483648 w
  json_of (int64 w) = signed_number 9223372036854775808 w
  json_of (string s) = text s
  json_of (array fs) = list (elements_of true fs)
  json_of (table fs) = object (elements_of false fs)

  pub elements_of : Bool → Fields → Elements
  elements_of is_array end = done
  elements_of is_array (item refused r) = elements_of is_array r
  elements_of is_array (item (field name v) r) =
      element (if is_array then [] else name) (json_of v) (elements_of is_array r)

unfoldable mutual
  pub size_of : Value → ℕ
  size_of unspec = 1
  size_of (int8 b) = 1
  size_of (int16 w) = 1
  size_of (int32 w) = 1
  size_of (int64 w) = 1
  size_of (string s) = 1
  size_of (array fs) = suc (size_of_fields fs)
  size_of (table fs) = suc (size_of_fields fs)

  pub size_of_fields : Fields → ℕ
  size_of_fields end = 0
  size_of_fields (item refused r) = suc (size_of_fields r)
  size_of_fields (item (field name v) r) = suc (size_of v + size_of_fields r)

-- No attribute is refused, and the fields of a table have names.
unfoldable mutual
  pub IsNamed : Value → Type 0
  IsNamed unspec = Unit {0}
  IsNamed (int8 b) = Unit {0}
  IsNamed (int16 w) = Unit {0}
  IsNamed (int32 w) = Unit {0}
  IsNamed (int64 w) = Unit {0}
  IsNamed (string s) = Unit {0}
  IsNamed (array fs) = AreNamed true fs
  IsNamed (table fs) = AreNamed false fs

  pub AreNamed : Bool → Fields → Type 0
  AreNamed is_array end = Unit {0}
  AreNamed is_array (item refused r) = ⊥
  AreNamed is_array (item (field name v) r) =
      ((is_array || ltb 0 (length name)) ≡ true) × IsNamed v × AreNamed is_array r
