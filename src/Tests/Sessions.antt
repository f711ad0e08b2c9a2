-- ===== src/Tests/Sessions.antt =====
-- The session tokens and the login at fixed inputs.
use fastapi_taskflow.Base.{
  ℕ, ◌<◌, ◌≡◌, refl, List, [], ◌∷◌, ◌++◌, Option, some, String, or_default, arith,
}
use fastapi_taskflow.Auth.{dot, simple_backend, Claims, claims_of, payload, create_token}
use fastapi_taskflow.Auth.Base64.{b64url_encode, b64url_decode}
use fastapi_taskflow.Auth.Codec.{b64url_decode-encode}
use fastapi_taskflow.Auth.Token.{IsCodec, verify_token-create_token, verify_token_sound}
use fastapi_taskflow.Auth.Session.{Answers, login-Answers}

-- A codec that writes one byte and reads the claims of the test back.
abbrev admin_claims : Claims
admin_claims = claims_of 20 "admin"

abbrev dumps : Claims → List ℕ
dumps p = 200 ∷ []

abbrev loads : List ℕ → Option Claims
loads bs = some admin_claims

abbrev hmac : String → List ℕ → List ℕ
hmac key message = 7 ∷ 255 ∷ []

is_codec : IsCodec dumps loads hmac "key" admin_claims
is_codec = record { claims_bytes = omega arith; digest_bytes = λ m. omega arith; reads = refl }

abbrev users : List (String × String)
users = ("admin", "secret") ∷ []

b64url_decode-encode_example :
    b64url_decode (b64url_encode (1 ∷ 200 ∷ 3 ∷ 255 ∷ [])) ≡ some (1 ∷ 200 ∷ 3 ∷ 255 ∷ [])
b64url_decode-encode_example = b64url_decode-encode (1 ∷ 200 ∷ 3 ∷ 255 ∷ []) (omega arith)

abbrev token : List ℕ
unfolding create_token
token = create_token dumps loads hmac "key" 8 "admin" 12

verify_token_sound_example :
    (h : List ℕ) × (b : List ℕ) × (p : Claims) × (token
      ≡ h ++ dot ∷ (b ++ dot ∷ b64url_encode (hmac "key" (h ++ dot ∷ b))))
    × (payload dumps loads hmac (b64url_decode b) ≡ some p)
    × (15 < or_default p.exp 0)
unfolding token
verify_token_sound_example =
    verify_token_sound dumps loads hmac "key" token 15
      (verify_token-create_token dumps loads hmac "key" 12 8 "admin" is_codec 15)

login-Answers_example :
    Answers dumps loads hmac
      (simple_backend users)
      "key"
      8
      "/tasks"
      "admin"
      "secret"
      12
      (simple_backend users "admin" "secret")
login-Answers_example =
    login-Answers dumps loads hmac (simple_backend users) "key" 8 "/tasks" "admin" "secret" 12
      is_codec
