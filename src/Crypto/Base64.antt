-- ===== src/Crypto/Base64.antt =====
-- `encode_b64` and `decode_b64`. A text of ASCII characters is the list of their codes.
use claude_struct.Prelude.{
  ℕ, zero, suc, ◌+◌, ◌-◌, ◌*◌, ◌/◌, ◌%◌, Bool, true, false, ◌&&◌, ◌||◌, Option, none, some, List,
  [], ◌∷◌, ◌++◌, ◌==◌, ltb, leb, if◌then◌else◌, length,
}

-- The character of a digit below 64, in the alphabet for URLs.
unfoldable pub char_of : ℕ → ℕ
char_of d =
    if ltb d 26
    then b'A' + d
    else if ltb d 52
    then b'a' + d - 26
    else if ltb d 62
    then b'0' + d - 52
    else if d == 62
    then b'-'
    else b'_'

-- The digit of a character: `urlsafe_b64decode` turns "-" and "_" into "+" and "/".
unfoldable pub digit_of : ℕ → Option ℕ
digit_of c =
    if leb b'A' c && leb c b'Z'
    then some (c - b'A')
    else if leb b'a' c && leb c b'z'
    then some (c - b'a' + 26)
    else if leb b'0' c && leb c b'9'
    then some (c - b'0' + 52)
    else if (c == b'+') || (c == b'-')
    then some 62
    else if (c == b'/') || (c == b'_')
    then some 63
    else none

-- `urlsafe_b64encode`.
unfoldable pub b64encode : List ℕ → List ℕ
unfolding char_of
b64encode [] = []
b64encode (a ∷ []) = char_of (a / 4) ∷ char_of (a % 4 * 16) ∷ b'=' ∷ b'=' ∷ []
b64encode (a ∷ b ∷ []) =
    char_of (a / 4) ∷ char_of (a % 4 * 16 + b / 16) ∷ char_of (b % 16 * 4) ∷ b'=' ∷ []
b64encode (a ∷ b ∷ c ∷ rest) =
    char_of (a / 4)
    ∷ char_of (a % 4 * 16 + b / 16)
    ∷ char_of (b % 16 * 4 + c / 64)
    ∷ char_of (c % 64)
    ∷ b64encode rest

abbrev is_empty : List ℕ → Bool
is_empty [] = true
is_empty (_ ∷ _) = false

-- `rstrip(b"=")`.
unfoldable pub rstrip_pad : List ℕ → List ℕ
rstrip_pad [] = []
rstrip_pad (c ∷ s) =
    let rest = rstrip_pad s in if is_empty rest && (c == b'=') then [] else c ∷ rest

unfoldable pub encode_b64 : List ℕ → List ℕ
unfolding b64encode rstrip_pad
encode_b64 bytes = rstrip_pad (b64encode bytes)

-- Where `binascii.a2b_base64` stands: the position in a group of four, the bits left over, and the
-- padding characters in a row.
pub record Reading : Type 0 where
  pub quad_pos : ℕ
  pub left : ℕ
  pub pads : ℕ

pub data Move : Type 0 where
  stop : Move
  next : List ℕ → Reading → Move

abbrev pub take_digit : Reading → ℕ → Move
take_digit r v =
    if r.quad_pos == 0
    then next [] (record { quad_pos = 1; left = v; pads = 0 })
    else if r.quad_pos == 1
    then next ((r.left * 4 + v / 16) ∷ []) (record { quad_pos = 2; left = v % 16; pads = 0 })
    else if r.quad_pos == 2
    then next ((r.left * 16 + v / 4) ∷ []) (record { quad_pos = 3; left = v % 4; pads = 0 })
    else next ((r.left * 64 + v) ∷ []) (record { quad_pos = 0; left = 0; pads = 0 })

-- One character: padding that fills a group ends the text, other padding and characters outside
-- the alphabet are passed over.
unfoldable pub move : Reading → ℕ → Move
unfolding digit_of
move r c =
    if c == b'='
    then (if leb 2 r.quad_pos
        then (if leb 4 (r.quad_pos + (r.pads + 1))
            then stop
            else next [] (record r { pads = r.pads + 1 }))
        else next [] r)
    else elim (digit_of c) [ none ↦ next [] r | some v ↦ take_digit r v ]

abbrev pub put : List ℕ → Option (List ℕ) → Option (List ℕ)
put bs none = none
put bs (some rest) = some (bs ++ rest)

-- `a2b_base64`; `none` is the `binascii.Error` for a group that is not filled.
unfoldable pub a2b_base64 : List ℕ → Reading → Option (List ℕ)
unfolding move
a2b_base64 [] r = if r.quad_pos == 0 then some [] else none
a2b_base64 (c ∷ s) r = elim (move r c) [ stop ↦ some [] | next bs r' ↦ put bs (a2b_base64 s r') ]

abbrev pub pads : ℕ → List ℕ
pads zero = []
pads (suc n) = b'=' ∷ pads n

abbrev pub start : Reading
start = record { quad_pos = 0; left = 0; pads = 0 }

-- The padding is `-len(s) % 4` characters long.
unfoldable pub decode_b64 : List ℕ → Option (List ℕ)
unfolding a2b_base64
decode_b64 s = a2b_base64 (s ++ pads ((4 - length s % 4) % 4)) start
