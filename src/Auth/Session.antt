-- ===== src/Auth/Session.antt =====
-- auth.py and router.py: a session, from the login to the guard of the routes and the audit log.
use fastapi_taskflow.Base.{
  ℕ, ◌+◌, ◌≡◌, refl, ap, Bool, true, false, List, [], Option, some, String, if◌then◌else◌, ltb,
  type_error, http, Result, ok, raise, arith, ◌==◌, string_key,
}
use fastapi_taskflow.Dict.{lookup}
use fastapi_taskflow.Auth.{
  codes, is_ascii, compare_digest, TaskAuthBackend, simple_backend, credential_store, Claims,
  claims_of, Response, create_token, api_guard, actor, login, answer_login, cookie_after,
}
use fastapi_taskflow.Auth.Token.{IsCodec, verify_token-create_token, decode_token-create_token}

module _ (dumps : Claims → List ℕ) (loads : List ℕ → Option Claims)
    (hmac : String → List ℕ → List ℕ) where
  module _ (backend : TaskAuthBackend) (secret_key : String) (token_expiry : ℕ)
      (dashboard_path username password : String) (now : ℕ) where
    -- The answer of the login by what the backend says of the credentials: refused with 401 and the
    -- browser's cookie as it was, or a redirect with a cookie that the guard lets through until the
    -- expiry and not from then on, under which the audit log names the user.
    abbrev pub Answers : Result Bool → Type 0
    Answers (raise e) =
        login dumps loads hmac backend secret_key token_expiry dashboard_path username password now
        ≡ raise e
    Answers (ok false) =
        (r : Response) × (login dumps loads hmac backend secret_key token_expiry dashboard_path
            username password now
          ≡ ok r)
        × (r.status_code ≡ 401)
        × ((old : Option (List ℕ)) → cookie_after r old ≡ old)
    Answers (ok true) =
        (r : Response) × (cookie : List ℕ) × (login dumps loads hmac backend secret_key token_expiry
            dashboard_path username password now
          ≡ ok r)
        × (r.status_code ≡ 302)
        × ((old : Option (List ℕ)) → cookie_after r old ≡ some cookie)
        × ((t : ℕ)
            → api_guard dumps loads hmac secret_key (some cookie) t
              ≡ (if ltb t (now + token_expiry) then ok tt else raise (http 401)))
        × (actor dumps loads hmac (some secret_key) (some cookie)
            ≡ (if username == "" then "anonymous" else username))

    answered :
        (r : Result Bool)
        → backend username password ≡ r
        → login dumps loads hmac backend secret_key token_expiry dashboard_path username password
            now
          ≡ answer_login dumps loads hmac secret_key token_expiry dashboard_path username now r
    unfolding login
    answered r e =
        ap (answer_login dumps loads hmac secret_key token_expiry dashboard_path username now) e

    -- The login on every answer of the backend: an exception goes through; wrong credentials get a 401
    -- and no cookie; right ones a cookie that the guard accepts before the expiry and refuses with 401
    -- from then on, and that names the user in the audit log.
    pub login-Answers :
        IsCodec dumps loads hmac secret_key (claims_of (now + token_expiry) username)
        → Answers (backend username password)
    unfolding api_guard actor
    login-Answers c = by_answer (backend username password) refl
      where
        cookie : List ℕ
        cookie = create_token dumps loads hmac secret_key token_expiry username now

        by_answer : (r : Result Bool) → backend username password ≡ r → Answers r
        by_answer (raise e) q = answered (raise e) q
        by_answer (ok false) q = (_, answered (ok false) q, refl, λ old. refl)
        by_answer (ok true) q = (
          _,
          cookie,
          answered (ok true) q,
          refl,
          λ old. refl,
          λ t.
              ap (λ b. if b then ok tt else raise (http 401))
                (verify_token-create_token dumps loads hmac secret_key now token_expiry username c
                  t),
          decode_token-create_token dumps loads hmac secret_key now token_expiry username c,
        )

-- A password that is not ASCII makes the login of a known user raise `TypeError`, the right password
-- included: the answer is no 401.
pub login-raises :
    (dumps : Claims → List ℕ) (loads : List ℕ → Option Claims) (hmac : String → List ℕ → List ℕ)
    (credentials : List (String × String)) (user expected password secret_key : String)
    (dashboard_path : String) (token_expiry now : ℕ)
    → lookup user (credential_store credentials []) ≡ some expected
    → is_ascii (codes password) ≡ false
    → login dumps loads hmac
        (simple_backend credentials)
        secret_key
        token_expiry
        dashboard_path
        user
        password
        now
      ≡ raise type_error
unfolding login simple_backend compare_digest
login-raises dumps loads hmac credentials user expected password secret_key dashboard_path
      token_expiry now l h =
    ground (arith, l, h)
