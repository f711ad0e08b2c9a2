-- ===== src/Auth/Token.antt =====
-- auth.py: `create_token`, `verify_token` and `decode_token` against one another.
use fastapi_taskflow.Base.{
  ℕ, ◌+◌, ◌<◌, ◌≡◌, refl, sym, ap, ◌∙◌, Bool, true, false, List, [], ◌∷◌, ◌++◌, Option, none, some,
  String, if◌then◌else◌, ltb, ltb→lt, eqb, eqb_iff, or_default, Result, ok, raise, arith, All,
  Bool-cases, inl, inr, ◌==◌, string_key,
}
use mathlib.Core.List.{append_assoc}
use fastapi_taskflow.Auth.Base64.{b64url_encode, b64url_decode}
use fastapi_taskflow.Auth.Codec.{
  IsByte, Letter, char-ne-dot, char-lt-128, b64url_encode-Letters, b64url_decode-encode,
}
use fastapi_taskflow.Auth.{
  is_ascii, same_codes, compare_digest, dot, cons_head, split, Claims, claims_of, subject, is_live,
  header, signing_input, create_token, payload, decode_parts, decode_token, if_signed, verify_parts,
  verify_token,
}

abbrev pub NoDot : ℕ → Type 0
NoDot c = eqb c dot ≡ false

Letters-NoDot : (cs : List ℕ) → All Letter cs → All NoDot cs
Letters-NoDot [] h = tt
Letters-NoDot (c ∷ cs) h = let (v, l, e) = h.0 in (rw e (char-ne-dot v l), Letters-NoDot cs h.1)

Letters-is_ascii : (cs : List ℕ) → All Letter cs → is_ascii cs ≡ true
Letters-is_ascii [] h = refl
Letters-is_ascii (c ∷ cs) h =
    let (v, l, e) = h.0 in ground (arith, e, char-lt-128 v l, Letters-is_ascii cs h.1)

same_codes_refl : (cs : List ℕ) → same_codes cs cs ≡ true
same_codes_refl [] = refl
same_codes_refl (c ∷ cs) = ground (arith, same_codes_refl cs)

same_codes-eq : (cs ds : List ℕ) → same_codes cs ds ≡ true → cs ≡ ds
same_codes-eq [] [] h = refl
same_codes-eq [] (d ∷ ds) h = cc h
same_codes-eq (c ∷ cs) [] h = cc h
same_codes-eq (c ∷ cs) (d ∷ ds) h = ground (arith, same_codes-eq cs ds)

pub split-last : (w : List ℕ) → All NoDot w → split w ≡ w ∷ []
unfolding split
split-last [] h = refl
split-last (c ∷ cs) h = rw h.0 (rw (split-last cs h.1) refl)

split-dot : (w rest : List ℕ) → All NoDot w → split (w ++ dot ∷ rest) ≡ w ∷ split rest
unfolding split
split-dot [] rest h = refl
split-dot (c ∷ cs) rest h = rw h.0 (rw (split-dot cs rest h.1) refl)

-- A split joins again.
join : List (List ℕ) → List ℕ
join [] = []
join (w ∷ []) = w
join (w ∷ v ∷ ws) = w ++ dot ∷ join (v ∷ ws)

header-IsByte : All IsByte header
header-IsByte = omega arith

join-cons_head : (c : ℕ) (ws : List (List ℕ)) → join (cons_head c ws) ≡ c ∷ join ws
unfolding join
join-cons_head c [] = refl
join-cons_head c (w ∷ []) = refl
join-cons_head c (w ∷ v ∷ ws) = refl

-- The words after the first exist.
abbrev HasWord : List (List ℕ) → Type 0
HasWord [] = ⊥
HasWord (w ∷ ws) = Unit

split-HasWord : (t : List ℕ) → HasWord (split t)
unfolding split
split-HasWord [] = tt
split-HasWord (c ∷ cs) = elim (Bool-cases (eqb c dot)) [
  | inl e ↦ rw e tt
  | inr e ↦ rw e (by_words (split cs))
]
  where
    by_words : (ws : List (List ℕ)) → HasWord (cons_head c ws)
    by_words [] = tt
    by_words (w ∷ ws) = tt

join-nil : (ws : List (List ℕ)) → HasWord ws → join ([] ∷ ws) ≡ dot ∷ join ws
unfolding join
join-nil [] h = absurd h
join-nil (w ∷ ws) h = refl

join-split : (t : List ℕ) → join (split t) ≡ t
unfolding split join
join-split [] = refl
join-split (c ∷ cs) = elim (Bool-cases (eqb c dot)) [
  | inl e ↦
      rw (e, split)
        (join-nil (split cs) (split-HasWord cs)
          ∙ ap (λ t. dot ∷ t) (join-split cs)
          ∙ ap (λ d. d ∷ cs) (sym ((eqb_iff c dot).0 e)))
  | inr e ↦ rw (e, split) (join-cons_head c (split cs) ∙ ap (λ t. c ∷ t) (join-split cs))
]

split-three :
    (h b s : List ℕ)
    → All NoDot h
    → All NoDot b
    → All NoDot s
    → split ((h ++ dot ∷ b) ++ dot ∷ s) ≡ h ∷ b ∷ s ∷ []
split-three h b s nh nb ns =
    ap split (append_assoc h (dot ∷ b) (dot ∷ s))
    ∙ split-dot h (b ++ dot ∷ s) nh
    ∙ ap (λ ws. h ∷ ws) (split-dot b s nb ∙ ap (λ ws. b ∷ ws) (split-last s ns))

digest-eq : (a b : List ℕ) → compare_digest a b ≡ ok true → a ≡ b
unfolding compare_digest
digest-eq a b h = ground (arith, same_codes-eq a b)

live-true :
    (o : Option Claims) (now : ℕ)
    → is_live o now ≡ true
    → (p : Claims) × (o ≡ some p) × (now < or_default p.exp 0)
live-true none now h = cc h
live-true (some p) now h = (p, refl, ltb→lt now (or_default p.exp 0) h)

encoded-NoDot : (bs : List ℕ) → All IsByte bs → All NoDot (b64url_encode bs)
encoded-NoDot bs h = Letters-NoDot (b64url_encode bs) (b64url_encode-Letters bs h)

-- A text in the alphabet against itself.
digest_refl :
    (bs : List ℕ) → All IsByte bs → compare_digest (b64url_encode bs) (b64url_encode bs) ≡ ok true
unfolding compare_digest
digest_refl bs h = ground (
  arith,
  Letters-is_ascii (b64url_encode bs) (b64url_encode-Letters bs h),
  same_codes_refl (b64url_encode bs),
)

module _ (dumps : Claims → List ℕ) (loads : List ℕ → Option Claims)
    (hmac : String → List ℕ → List ℕ) where
  -- The JSON codec reads the claims that it wrote, and what it and HMAC give are bytes.
  pub record IsCodec (secret_key : String) (p : Claims) : Type 0 where
    pub claims_bytes : All IsByte (dumps p)
    pub digest_bytes : (m : List ℕ) → All IsByte (hmac secret_key m)
    pub reads : loads (dumps p) ≡ some p

  module _ (secret_key : String) (now expiry : ℕ) (username : String)
      (c : IsCodec secret_key (claims_of (now + expiry) username)) where
    abbrev claims : Claims
    claims = claims_of (now + expiry) username

    abbrev input : List ℕ
    input = signing_input dumps loads hmac claims

    split-create_token :
        split (create_token dumps loads hmac secret_key expiry username now)
        ≡ b64url_encode header
          ∷ b64url_encode (dumps claims)
          ∷ b64url_encode (hmac secret_key input)
          ∷ []
    unfolding create_token
    split-create_token =
        split-three (b64url_encode header) (b64url_encode (dumps claims))
          (b64url_encode (hmac secret_key input)) (encoded-NoDot header header-IsByte)
          (encoded-NoDot (dumps claims) c.claims_bytes)
          (encoded-NoDot (hmac secret_key input) (c.digest_bytes input))

    payload-create_token :
        payload dumps loads hmac (b64url_decode (b64url_encode (dumps claims))) ≡ some claims
    payload-create_token =
        ap (payload dumps loads hmac) (b64url_decode-encode (dumps claims) c.claims_bytes) ∙ c.reads

    pub verify_token-create_token :
        (t : ℕ)
        → verify_token dumps loads hmac secret_key
            (create_token dumps loads hmac secret_key expiry username now)
            t
          ≡ ltb t (now + expiry)
    unfolding verify_token
    verify_token-create_token t =
        ap (λ ws. verify_parts dumps loads hmac secret_key ws t) split-create_token
        ∙ ap
            (λ r.
              if_signed dumps loads hmac r (
                is_live (payload dumps loads hmac (b64url_decode (b64url_encode (dumps claims))))
                  t))
            (digest_refl (hmac secret_key input) (c.digest_bytes input))
        ∙ ap (λ o. is_live o t) payload-create_token

    pub decode_token-create_token :
        decode_token dumps loads hmac (create_token dumps loads hmac secret_key expiry username now)
        ≡ (if username == "" then "anonymous" else username)
    unfolding decode_token
    decode_token-create_token =
        ap (decode_parts dumps loads hmac) split-create_token
        ∙ ap subject payload-create_token
        ∙ ground arith

  signed-true :
      (r : Result Bool) (live : Bool)
      → if_signed dumps loads hmac r live ≡ true
      → (r ≡ ok true) × (live ≡ true)
  signed-true (raise x) live e = cc e
  signed-true (ok false) live e = cc e
  signed-true (ok true) live e = (refl, e)

  -- What `verify_token` accepts was signed with the key and has not expired: the third part of the
  -- token is the encoded digest of the first two, and the second holds claims with a later expiry.
  pub verify_token_sound :
      (secret_key : String) (token : List ℕ) (now : ℕ)
      → verify_token dumps loads hmac secret_key token now ≡ true
      → (h : List ℕ) × (b : List ℕ) × (p : Claims) × (token
          ≡ h ++ dot ∷ (b ++ dot ∷ b64url_encode (hmac secret_key (h ++ dot ∷ b))))
        × (payload dumps loads hmac (b64url_decode b) ≡ some p)
        × (now < or_default p.exp 0)
  unfolding verify_token join
  verify_token_sound secret_key token now e = by_words (split token) refl e
    where
      Sound : Type 0
      Sound =
          (h : List ℕ) × (b : List ℕ) × (p : Claims) × (token
            ≡ h ++ dot ∷ (b ++ dot ∷ b64url_encode (hmac secret_key (h ++ dot ∷ b))))
          × (payload dumps loads hmac (b64url_decode b) ≡ some p)
          × (now < or_default p.exp 0)

      three :
          (h b s : List ℕ)
          → split token ≡ h ∷ b ∷ s ∷ []
          → verify_parts dumps loads hmac secret_key (h ∷ b ∷ s ∷ []) now ≡ true
          → Sound
      three h b s q v =
          let (r, l) = signed-true _ _ v in
          let (p, o, x) = live-true (payload dumps loads hmac (b64url_decode b)) now l in
          let d = digest-eq (b64url_encode (hmac secret_key (h ++ dot ∷ b))) s r in
          (
            h,
            b,
            p,
            sym (join-split token) ∙ ap join q ∙ ap (λ t. h ++ dot ∷ (b ++ dot ∷ t)) (sym d),
            o,
            x,
          )

      by_words :
          (ws : List (List ℕ))
          → split token ≡ ws
          → verify_parts dumps loads hmac secret_key ws now ≡ true
          → Sound
      by_words [] q v = cc v
      by_words (h ∷ []) q v = cc v
      by_words (h ∷ b ∷ []) q v = cc v
      by_words (h ∷ b ∷ s ∷ []) q v = three h b s q v
      by_words (h ∷ b ∷ s ∷ x ∷ xs) q v = cc v
