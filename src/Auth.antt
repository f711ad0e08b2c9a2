-- ===== src/Auth.antt =====
-- auth.py: `_SimpleAuthBackend`, `resolve_backend`, the session tokens, the guard of the routes and
-- the login routes; `_actor` of router.py.
--   Texts of a token are lists of ASCII codes, other texts are strings. HMAC-SHA256 and the JSON
--   codec of the claims are parameters: `hmac secret message` and `dumps`, `loads`, where `loads`
--   fails on what is no object. The pages are not modelled, only their status.
pub mod Base64
pub mod Codec
pub mod Token
pub mod Session
use Prim.Native.Char.{code}
use fastapi_taskflow.Base.{
  ℕ, ◌+◌, ◌≡◌, Bool, true, false, ◌&&◌, List, [], ◌∷◌, ◌++◌, Option, none, some, String,
  if◌then◌else◌, ltb, eqb, or_default, Exn, type_error, http, Result, ok, raise, ◌==◌, string_key,
}
use fastapi_taskflow.Dict.{Dict, lookup, insert}
use fastapi_taskflow.Auth.Base64.{b64url_encode, b64url_decode}

abbrev pub codes : String → List ℕ
codes String.[] = []
codes (String.◌∷◌ c s) = code c ∷ codes s

abbrev pub is_ascii : List ℕ → Bool
is_ascii [] = true
is_ascii (c ∷ cs) = ltb c 128 && is_ascii cs

abbrev pub same_codes : List ℕ → List ℕ → Bool
same_codes [] [] = true
same_codes [] (d ∷ ds) = false
same_codes (c ∷ cs) [] = false
same_codes (c ∷ cs) (d ∷ ds) = eqb c d && same_codes cs ds

-- `hmac.compare_digest` on texts raises `TypeError` unless both are ASCII.
unfoldable pub compare_digest : List ℕ → List ℕ → Result Bool
compare_digest a b = if is_ascii a && is_ascii b then ok (same_codes a b) else raise type_error

-- A backend is its `authenticate_user`.
abbrev pub TaskAuthBackend : Type 0
TaskAuthBackend = String → String → Result Bool

-- `{u: p for u, p in credentials}`
abbrev pub credential_store : List (String × String) → Dict String String → Dict String String
credential_store [] m = m
credential_store (c ∷ cs) m = credential_store cs (insert c.0 c.1 m)

abbrev pub check_password : Option String → String → Result Bool
check_password none password = ok false
check_password (some expected) password = compare_digest (codes expected) (codes password)

-- `_SimpleAuthBackend(credentials).authenticate_user`
unfoldable pub simple_backend : List (String × String) → TaskAuthBackend
simple_backend credentials username password =
    check_password (lookup username (credential_store credentials [])) password

-- What `TaskAdmin(auth=...)` may be given.
pub data AuthArg : Type 0 where
  nothing : AuthArg
  custom : TaskAuthBackend → AuthArg
  pair : String → String → AuthArg
  pairs : List (String × String) → AuthArg
  unknown : AuthArg

unfoldable pub resolve_backend : AuthArg → Result (Option TaskAuthBackend)
unfolding simple_backend
resolve_backend nothing = ok none
resolve_backend (custom b) = ok (some b)
resolve_backend (pair u p) = ok (some (simple_backend ((u, p) ∷ [])))
resolve_backend (pairs l) = ok (some (simple_backend l))
resolve_backend unknown = raise type_error

abbrev pub dot : ℕ
dot = 46

abbrev pub cons_head : ℕ → List (List ℕ) → List (List ℕ)
cons_head c [] = (c ∷ []) ∷ []
cons_head c (w ∷ ws) = (c ∷ w) ∷ ws

-- `token.split(".")`
unfoldable pub split : List ℕ → List (List ℕ)
split [] = [] ∷ []
split (c ∷ cs) = if eqb c dot then [] ∷ split cs else cons_head c (split cs)

-- The payload of a token.
pub record Claims : Type 0 where
  pub exp : Option ℕ
  pub sub : Option String

-- `if username: payload["sub"] = username`
abbrev pub claims_of : ℕ → String → Claims
claims_of exp username = record {
  exp = some exp;
  sub = if username == "" then none else some username;
}

-- `payload.get("sub", "") or "anonymous"`
abbrev pub subject : Option Claims → String
subject none = "anonymous"
subject (some p) = elim p.sub [ none ↦ "anonymous" | some s ↦ if s == "" then "anonymous" else s ]

abbrev pub is_live : Option Claims → ℕ → Bool
is_live none now = false
is_live (some p) now = ltb now (or_default p.exp 0)

abbrev pub header : List ℕ
header = codes "{\"alg\":\"HS256\",\"typ\":\"JWT\"}"

-- What a browser gets from the login routes.
pub record Response : Type 0 where
  pub status_code : ℕ
  pub location : Option String
  -- The new value of the cookie and its `max_age`; `delete_cookie` sets nothing and drops it.
  pub set_cookie : Option (List ℕ × ℕ)
  pub delete_cookie : Bool

module _ (dumps : Claims → List ℕ) (loads : List ℕ → Option Claims)
    (hmac : String → List ℕ → List ℕ) where
  abbrev pub signing_input : Claims → List ℕ
  signing_input p = b64url_encode header ++ dot ∷ b64url_encode (dumps p)

  unfoldable pub create_token : String → ℕ → String → ℕ → List ℕ
  create_token secret_key expiry username now =
      let input = signing_input (claims_of (now + expiry) username) in
      input ++ dot ∷ b64url_encode (hmac secret_key input)

  abbrev pub payload : Option (List ℕ) → Option Claims
  payload none = none
  payload (some bs) = loads bs

  abbrev pub decode_parts : List (List ℕ) → String
  decode_parts [] = "anonymous"
  decode_parts (h ∷ []) = "anonymous"
  decode_parts (h ∷ b ∷ []) = "anonymous"
  decode_parts (h ∷ b ∷ s ∷ []) = subject (payload (b64url_decode b))
  decode_parts (h ∷ b ∷ s ∷ x ∷ xs) = "anonymous"

  unfoldable pub decode_token : List ℕ → String
  unfolding split
  decode_token token = decode_parts (split token)

  -- An exception inside `verify_token` counts as a refusal.
  abbrev pub if_signed : Result Bool → Bool → Bool
  if_signed (raise e) live = false
  if_signed (ok false) live = false
  if_signed (ok true) live = live

  abbrev pub verify_parts : String → List (List ℕ) → ℕ → Bool
  verify_parts secret_key [] now = false
  verify_parts secret_key (h ∷ []) now = false
  verify_parts secret_key (h ∷ b ∷ []) now = false
  verify_parts secret_key (h ∷ b ∷ s ∷ []) now =
      if_signed (compare_digest (b64url_encode (hmac secret_key (h ++ dot ∷ b))) s)
        (is_live (payload (b64url_decode b)) now)
  verify_parts secret_key (h ∷ b ∷ s ∷ x ∷ xs) now = false

  unfoldable pub verify_token : String → List ℕ → ℕ → Bool
  unfolding split compare_digest
  verify_token secret_key token now = verify_parts secret_key (split token) now

  -- `make_api_guard`: the cookie of the request, if it has one.
  unfoldable pub api_guard : String → Option (List ℕ) → ℕ → Result (Unit {0})
  unfolding verify_token
  api_guard secret_key cookie now =
      if verify_token secret_key (or_default cookie []) now then ok tt else raise (http 401)

  -- `_actor` of router.py
  unfoldable pub actor : Option String → Option (List ℕ) → String
  unfolding decode_token
  actor none cookie = "anonymous"
  actor (some secret_key) cookie = decode_token (or_default cookie [])

  abbrev pub answer_login : String → ℕ → String → String → ℕ → Result Bool → Result Response
  answer_login secret_key token_expiry prefix username now (raise e) = raise e
  answer_login secret_key token_expiry prefix username now (ok true) = ok (record {
    status_code = 302;
    location = some prefix;
    set_cookie = some (create_token secret_key token_expiry username now, token_expiry);
    delete_cookie = false;
  })
  answer_login secret_key token_expiry prefix username now (ok false) =
      ok (record { status_code = 401; location = none; set_cookie = none; delete_cookie = false })

  -- `POST {prefix}/auth/login`, which redirects to the dashboard.
  unfoldable pub login :
      TaskAuthBackend → String → ℕ → String → String → String → ℕ → Result Response
  unfolding create_token
  login backend secret_key token_expiry dashboard_path username password now =
      answer_login secret_key token_expiry dashboard_path username now (backend username password)

-- `GET {prefix}/auth/logout`
unfoldable pub logout : String → Response
logout login_path = record {
  status_code = 302;
  location = some login_path;
  set_cookie = none;
  delete_cookie = true;
}

-- The cookie that the browser keeps after a response.
abbrev pub cookie_after : Response → Option (List ℕ) → Option (List ℕ)
cookie_after r old = elim r.set_cookie [
  | some c ↦ some c.0
  | none ↦ if r.delete_cookie then none else old
]
