-- ===== src/Auth/Codec.antt =====
-- auth.py: what `_b64url_decode` makes of the texts of `_b64url_encode`.
use fastapi_taskflow.Base.{
  ℕ, zero, suc, ◌+◌, ◌-◌, ◌*◌, ◌/◌, ◌%◌, ◌<◌, ◌≡◌, refl, ap, ◌∙◌, false, List, [], ◌∷◌, ◌++◌, some,
  arith, length, All, eqb,
}
use fastapi_taskflow.Auth.Base64.{
  pad, char_of, bits_of, encode, strip_one, rstrip, b64url_encode, Quad, put, quad_byte, quad_next,
  decode, pads, start, b64url_decode,
}

abbrev pub IsByte : ℕ → Type 0
IsByte b = b < 256

-- A character of the alphabet.
abbrev pub Letter : ℕ → Type 0
Letter c = (v : ℕ) × (v < 64) × (c ≡ char_of v)

bits-char : (v : ℕ) → v < 64 → bits_of (char_of v) ≡ some v
unfolding bits_of char_of
bits-char v h = ground arith

char-ne-pad : (v : ℕ) → v < 64 → eqb (char_of v) pad ≡ false
unfolding char_of
char-ne-pad v h = ground arith

pub char-ne-dot : (v : ℕ) → v < 64 → eqb (char_of v) 46 ≡ false
unfolding char_of
char-ne-dot v h = ground arith

pub char-lt-128 : (v : ℕ) → v < 64 → char_of v < 128
unfolding char_of
char-lt-128 v h = ground arith

decode-char :
    (q : Quad) (v : ℕ) (cs : List ℕ)
    → v < 64
    → decode q (char_of v ∷ cs) ≡ put (quad_byte q v) (decode (quad_next q v) cs)
unfolding decode
decode-char q v cs h = rw (char-ne-pad v h, decode) (rw (bits-char v h, decode) refl)

-- The text without its padding.
body : List ℕ → List ℕ
body [] = []
body (a ∷ []) = char_of (a / 4) ∷ char_of (a % 4 * 16) ∷ []
body (a ∷ b ∷ []) = char_of (a / 4) ∷ char_of (a % 4 * 16 + b / 16) ∷ char_of (b % 16 * 4) ∷ []
body (a ∷ b ∷ c ∷ rest) =
    char_of (a / 4)
    ∷ char_of (a % 4 * 16 + b / 16)
    ∷ char_of (b % 16 * 4 + c / 64)
    ∷ char_of (c % 64)
    ∷ body rest

body-Letters : (bs : List ℕ) → All IsByte bs → All Letter (body bs)
unfolding body
body-Letters [] h = tt
body-Letters (a ∷ []) h = ((_, omega arith, refl), ((_, omega arith, refl), tt))
body-Letters (a ∷ b ∷ []) h =
    ((_, omega arith, refl), ((_, omega arith, refl), ((_, omega arith, refl), tt)))
body-Letters (a ∷ b ∷ c ∷ rest) h =
    let e : All Letter (body rest) = body-Letters rest h.1.1.1 in
    (
      (_, omega arith, refl),
      ((_, omega arith, refl), ((_, omega arith, refl), ((_, omega arith, refl), e))),
    )

strip-pads : (n : ℕ) → rstrip (pads n) ≡ []
unfolding rstrip
strip-pads zero = refl
strip-pads (suc n) = rw (strip-pads n) refl

strip-Letter : (c : ℕ) (xs : List ℕ) → Letter c → strip_one c xs ≡ c ∷ xs
strip-Letter c [] (v, h, e) = ground (arith, e, char-ne-pad v h)
strip-Letter c (x ∷ xs) l = refl

strip-Letters : (n : ℕ) (xs : List ℕ) → All Letter xs → rstrip (xs ++ pads n) ≡ xs
unfolding rstrip
strip-Letters n [] h = strip-pads n
strip-Letters n (c ∷ xs) h = rw (strip-Letters n xs h.1) (strip-Letter c xs h.0)

encode-body : (bs : List ℕ) → (n : ℕ) × (encode bs ≡ body bs ++ pads n)
unfolding encode body
encode-body [] = (0, refl)
encode-body (a ∷ []) = (2, refl)
encode-body (a ∷ b ∷ []) = (1, refl)
encode-body (a ∷ b ∷ c ∷ rest) = let (n, e) = encode-body rest in (n, cc e)

b64url-body : (bs : List ℕ) → All IsByte bs → b64url_encode bs ≡ body bs
unfolding b64url_encode
b64url-body bs h =
    let (n, e) = encode-body bs in ap rstrip e ∙ strip-Letters n (body bs) (body-Letters bs h)

pub b64url_encode-Letters : (bs : List ℕ) → All IsByte bs → All Letter (b64url_encode bs)
b64url_encode-Letters bs h = rw (b64url-body bs h) (body-Letters bs h)

-- The second, third and fourth character of a group.
decode-second :
    (l v b : ℕ) (cs : List ℕ)
    → v < 64
    → l * 4 + v / 16 ≡ b
    → decode (record { position = 1; left = l; pads = 0 }) (char_of v ∷ cs)
      ≡ put (some b) (decode (record { position = 2; left = v % 16; pads = 0 }) cs)
unfolding quad_byte quad_next
decode-second l v b cs h e =
    decode-char _ v cs h
    ∙ ap (λ x. put (some x) (decode (record { position = 2; left = v % 16; pads = 0 }) cs)) e

decode-third :
    (l v b : ℕ) (cs : List ℕ)
    → v < 64
    → l * 16 + v / 4 ≡ b
    → decode (record { position = 2; left = l; pads = 0 }) (char_of v ∷ cs)
      ≡ put (some b) (decode (record { position = 3; left = v % 4; pads = 0 }) cs)
unfolding quad_byte quad_next
decode-third l v b cs h e =
    decode-char _ v cs h
    ∙ ap (λ x. put (some x) (decode (record { position = 3; left = v % 4; pads = 0 }) cs)) e

decode-fourth :
    (l v b : ℕ) (cs : List ℕ)
    → v < 64
    → l * 64 + v ≡ b
    → decode (record { position = 3; left = l; pads = 0 }) (char_of v ∷ cs)
      ≡ put (some b) (decode start cs)
unfolding quad_byte quad_next
decode-fourth l v b cs h e = decode-char _ v cs h ∙ ap (λ x. put (some x) (decode (start) cs)) e

-- The first two characters give the first byte, and leave four bits of the second.
decode-two :
    (a v u : ℕ) (cs : List ℕ)
    → a < 256
    → v < 16
    → u ≡ a % 4 * 16 + v
    → decode start (char_of (a / 4) ∷ char_of u ∷ cs)
      ≡ put (some a) (decode (record { position = 2; left = v; pads = 0 }) cs)
unfolding quad_byte quad_next
decode-two a v u cs ha hv e =
    decode-char start (a / 4) _ (omega arith)
    ∙ decode-second (a / 4) u a cs (omega arith) (omega arith)
    ∙ ap (λ x. put (some a) (decode (record { position = 2; left = x; pads = 0 }) cs)) (omega arith)

-- Four characters give three bytes.
decode-four :
    (a b c : ℕ) (cs : List ℕ)
    → a < 256
    → b < 256
    → c < 256
    → decode start (
        char_of (a / 4)
        ∷ char_of (a % 4 * 16 + b / 16)
        ∷ char_of (b % 16 * 4 + c / 64)
        ∷ char_of (c % 64)
        ∷ cs)
      ≡ put (some a) (put (some b) (put (some c) (decode start cs)))
decode-four a b c cs ha hb hc =
    decode-two a (b / 16) (a % 4 * 16 + b / 16) _ ha (omega arith) refl
    ∙ ap (put (some a)) (
        decode-third (b / 16) (b % 16 * 4 + c / 64) b _ (omega arith) (omega arith)
        ∙ ap (put (some b))
            (decode-fourth ((b % 16 * 4 + c / 64) % 4) (c % 64) c cs (omega arith) (omega arith)))

decode-none : decode start [] ≡ some []
unfolding decode
decode-none = refl

-- The padding ends the text.
decode-pads : (l : ℕ) → decode (record { position = 2; left = l; pads = 0 }) (pads 2) ≡ some []
unfolding decode
decode-pads l = refl

decode-pad : (l : ℕ) → decode (record { position = 3; left = l; pads = 0 }) (pads 1) ≡ some []
unfolding decode
decode-pad l = refl

decode-body :
    (bs : List ℕ)
    → All IsByte bs
    → decode start (body bs ++ pads ((4 - length (body bs) % 4) % 4)) ≡ some bs
unfolding body
decode-body [] h = decode-none
decode-body (a ∷ []) h =
    decode-two a 0 (a % 4 * 16) _ h.0 (omega arith) (omega arith)
    ∙ ap (put (some a)) (decode-pads 0)
decode-body (a ∷ b ∷ []) h =
    decode-two a (b / 16) (a % 4 * 16 + b / 16) _ h.0 (omega arith) refl
    ∙ ap (put (some a)) (
        decode-third (b / 16) (b % 16 * 4) b _ (omega arith) (omega arith)
        ∙ ap (put (some b)) (decode-pad (b % 16 * 4 % 4)))
decode-body (a ∷ b ∷ c ∷ rest) h =
    decode-four a b c _ h.0 h.1.0 h.1.1.0
    ∙ ap (λ n. put (some a) (put (some b) (put (some c) (decode start (body rest ++ pads n)))))
        (omega arith)
    ∙ ap (λ o. put (some a) (put (some b) (put (some c) o))) (decode-body rest h.1.1.1)

-- `_b64url_decode` gives back the bytes that `_b64url_encode` was given, though the padding is
-- stripped: what it adds again is what was there.
pub b64url_decode-encode :
    (bs : List ℕ) → All IsByte bs → b64url_decode (b64url_encode bs) ≡ some bs
unfolding b64url_decode
b64url_decode-encode bs h =
    ap (λ s. decode start (s ++ pads ((4 - length s % 4) % 4))) (b64url-body bs h)
    ∙ decode-body bs h
