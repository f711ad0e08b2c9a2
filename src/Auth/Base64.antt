-- ===== src/Auth/Base64.antt =====
-- auth.py: `_b64url_encode` and `_b64url_decode`, with the codec of Python's base64 module: bytes and
-- ASCII texts are lists of numbers. The decoder skips what is not in the alphabet, as `a2b_base64`
-- does, and fails where a group of four is not complete.
use fastapi_taskflow.Base.{
  ℕ, zero, suc, ◌+◌, ◌-◌, ◌*◌, ◌/◌, ◌%◌, Bool, true, false, ◌&&◌, List, [], ◌∷◌, ◌++◌, Option, none,
  some, if◌then◌else◌, ltb, leb, eqb, length,
}

abbrev pub pad : ℕ
pad = 61

-- The character of six bits, in the URL-safe alphabet.
unfoldable pub char_of : ℕ → ℕ
char_of v =
    if ltb v 26
    then v + 65
    else if ltb v 52
    then v + 71
    else if ltb v 62
    then v - 4
    else if eqb v 62
    then 45
    else 95

-- The six bits of a character, `-` and `_` being read as `+` and `/`.
unfoldable pub bits_of : ℕ → Option ℕ
bits_of c =
    if leb 65 c && leb c 90
    then some (c - 65)
    else if leb 97 c && leb c 122
    then some (c - 71)
    else if leb 48 c && leb c 57
    then some (c + 4)
    else if eqb c 45
    then some 62
    else if eqb c 43
    then some 62
    else if eqb c 95
    then some 63
    else if eqb c 47
    then some 63
    else none

-- `urlsafe_b64encode`
unfoldable pub encode : List ℕ → List ℕ
encode [] = []
encode (a ∷ []) = char_of (a / 4) ∷ char_of (a % 4 * 16) ∷ pad ∷ pad ∷ []
encode (a ∷ b ∷ []) =
    char_of (a / 4) ∷ char_of (a % 4 * 16 + b / 16) ∷ char_of (b % 16 * 4) ∷ pad ∷ []
encode (a ∷ b ∷ c ∷ rest) =
    char_of (a / 4)
    ∷ char_of (a % 4 * 16 + b / 16)
    ∷ char_of (b % 16 * 4 + c / 64)
    ∷ char_of (c % 64)
    ∷ encode rest

-- `.rstrip(b"=")`
abbrev pub strip_one : ℕ → List ℕ → List ℕ
strip_one c [] = if eqb c pad then [] else c ∷ []
strip_one c (x ∷ xs) = c ∷ x ∷ xs

unfoldable pub rstrip : List ℕ → List ℕ
rstrip [] = []
rstrip (c ∷ cs) = strip_one c (rstrip cs)

unfoldable pub b64url_encode : List ℕ → List ℕ
b64url_encode bs = rstrip (encode bs)

-- Where `a2b_base64` stands in a group of four, with the bits that are left over.
pub record Quad : Type 0 where
  pub position : ℕ
  pub left : ℕ
  pub pads : ℕ

abbrev pub put : Option ℕ → Option (List ℕ) → Option (List ℕ)
put none o = o
put (some b) none = none
put (some b) (some bs) = some (b ∷ bs)

-- The byte that the next six bits complete, and what comes after.
unfoldable pub quad_byte : Quad → ℕ → Option ℕ
quad_byte q v =
    if eqb q.position 0
    then none
    else if eqb q.position 1
    then some (q.left * 4 + v / 16)
    else if eqb q.position 2
    then some (q.left * 16 + v / 4)
    else some (q.left * 64 + v)

unfoldable pub quad_next : Quad → ℕ → Quad
quad_next q v =
    if eqb q.position 0
    then record { position = 1; left = v; pads = 0 }
    else if eqb q.position 1
    then record { position = 2; left = v % 16; pads = 0 }
    else if eqb q.position 2
    then record { position = 3; left = v % 4; pads = 0 }
    else record { position = 0; left = 0; pads = 0 }

-- A pad sequence that completes the group ends the text.
abbrev pub is_end : Quad → Bool
is_end q = leb 2 q.position && leb 4 (q.position + q.pads + 1)

unfoldable pub decode : Quad → List ℕ → Option (List ℕ)
unfolding quad_byte quad_next bits_of
decode q [] = if eqb q.position 0 then some [] else none
decode q (c ∷ cs) =
    if eqb c pad
    then elim (is_end q) [
      | true ↦ some []
      | false ↦ decode (record q { pads = if leb 2 q.position then q.pads + 1 else q.pads }) cs
    ]
    else elim (bits_of c) [
      | none ↦ decode q cs
      | some v ↦ put (quad_byte q v) (decode (quad_next q v) cs)
    ]

abbrev pub pads : ℕ → List ℕ
pads zero = []
pads (suc n) = pad ∷ pads n

abbrev pub start : Quad
start = record { position = 0; left = 0; pads = 0 }

-- `padding = 4 - len(s) % 4; urlsafe_b64decode(s + "=" * (padding % 4))`
unfoldable pub b64url_decode : List ℕ → Option (List ℕ)
b64url_decode s = decode start (s ++ pads ((4 - length s % 4) % 4))
