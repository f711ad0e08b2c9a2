-- ===== src/Cluster/FanOut.antt =====
-- fan_out.py and `peer_tasks` of router.py: the records of the peers.
--   The network is a parameter: what a GET of a URL gives.
use fastapi_taskflow.Base.{
  ℕ, ◌≡◌, refl, ap, ◌∙◌, Bool, true, false, List, [], ◌∷◌, ◌++◌, map, Option, none, some, String,
  if◌then◌else◌, eqb, or_else, Result, ok, raise, All,
}
use fastapi_taskflow.Dict.{Dict}
use fastapi_taskflow.Models.{TaskRecord}
use fastapi_taskflow.Models.Json.{Json, to_dict, from_dict}
use fastapi_taskflow.Models.RoundTrip.{displayed, from_dict-to_dict}
use fastapi_taskflow.Store.{TaskStore, records, get}
use fastapi_taskflow.Store.Records.{IsValid}
use fastapi_taskflow.Manager.Merged.{Cache, merged_list, find_task, last_with, merged_list-find}
use fastapi_taskflow.Auth.{codes}
use fastapi_taskflow.Cluster.{Peer}

-- `GET /__peer/tasks`
unfoldable pub peer_tasks : TaskStore → List (Dict String Json)
unfolding records
peer_tasks s = map to_dict (records s)

-- What comes of a request: no response, a body that is no JSON, one that is no list of objects, or a
-- list of objects.
pub data Reply : Type 0 where
  unreachable invalid_json no_list : Reply
  body : List (Dict String Json) → Reply

abbrev pub slash : ℕ
slash = 47

abbrev pub strip_slash : ℕ → List ℕ → List ℕ
strip_slash c [] = if eqb c slash then [] else c ∷ []
strip_slash c (x ∷ xs) = c ∷ x ∷ xs

-- `.rstrip("/")`
unfoldable pub rstrip : List ℕ → List ℕ
rstrip [] = []
rstrip (c ∷ cs) = strip_slash c (rstrip cs)

abbrev pub add_parsed : Result TaskRecord → List TaskRecord → List TaskRecord
add_parsed (ok r) rs = r ∷ rs
add_parsed (raise e) rs = rs

-- The loop over the items: one that `from_dict` refuses is skipped.
unfoldable pub parse_records : List (Dict String Json) → List TaskRecord
parse_records [] = []
parse_records (d ∷ ds) = add_parsed (from_dict d) (parse_records ds)

abbrev pub of_reply : Reply → Option (List TaskRecord)
of_reply unreachable = some []
of_reply invalid_json = some []
of_reply no_list = none
of_reply (body ds) = some (parse_records ds)

abbrev pub extend : Option (List TaskRecord) → List TaskRecord → List TaskRecord
extend none rs = rs
extend (some xs) rs = xs ++ rs

module _ (http_get : List ℕ → Reply) where
  abbrev pub peer_url : Peer → List ℕ
  peer_url p = rstrip p.url ++ rstrip p.tasks_prefix ++ codes "/__peer/tasks"

  -- `fetch_peer_tasks`; `none` is an exception, which `gather` gives back as a value.
  unfoldable pub fetch_peer_tasks : Peer → Option (List TaskRecord)
  unfolding parse_records rstrip
  fetch_peer_tasks p = of_reply (http_get (peer_url p))

  unfoldable pub gather_peer_records : List Peer → List TaskRecord
  unfolding fetch_peer_tasks
  gather_peer_records [] = []
  gather_peer_records (p ∷ ps) = extend (fetch_peer_tasks p) (gather_peer_records ps)

abbrev pub is_body : Reply → Bool
is_body (body ds) = true
is_body _ = false

-- A peer and the store of its instance, or none if it gives no list of records.
abbrev pub Asked : Type 0
Asked = Peer × Option TaskStore

abbrev pub Answers : Option TaskStore → Reply → Type 0
Answers none r = is_body r ≡ false
Answers (some s) r = r ≡ body (peer_tasks s)

-- The live records of those that answer, as `to_dict` shows them.
abbrev pub shown : List Asked → List TaskRecord
shown [] = []
shown (q ∷ qs) = elim q.1 [ none ↦ shown qs | some s ↦ map displayed (records s) ++ shown qs ]

parse_records-to_dict : (rs : List TaskRecord) → parse_records (map to_dict rs) ≡ map displayed rs
unfolding parse_records
parse_records-to_dict [] = refl
parse_records-to_dict (r ∷ rs) =
    ap (λ o. add_parsed o (parse_records (map to_dict rs))) (from_dict-to_dict r)
    ∙ ap (λ xs. displayed r ∷ xs) (parse_records-to_dict rs)

extended :
    (r : Reply) (s : Option TaskStore) (p : Peer) (qs : List Asked)
    → Answers s r
    → extend (of_reply r) (shown qs) ≡ shown ((p, s) ∷ qs)
unfolding peer_tasks
extended unreachable none p qs h = refl
extended invalid_json none p qs h = refl
extended no_list none p qs h = refl
extended (body ds) none p qs h = cc h
extended r (some s) p qs h =
    ap (λ x. extend (of_reply x) (shown qs)) h
    ∙ ap (λ xs. xs ++ shown qs) (parse_records-to_dict (records s))

module _ (http_get : List ℕ → Reply) where
  abbrev pub AllAnswer : List Asked → Type 0
  AllAnswer qs = All (λ q. Answers q.1 (http_get (peer_url http_get q.0))) qs

  gather-shown :
      (qs : List Asked) → AllAnswer qs → gather_peer_records http_get (map (λ q. q.0) qs) ≡ shown qs
  unfolding gather_peer_records fetch_peer_tasks
  gather-shown [] h = refl
  gather-shown (q ∷ qs) h =
      ap (extend (of_reply (http_get (peer_url http_get q.0)))) (gather-shown qs h.1)
      ∙ extended (http_get (peer_url http_get q.0)) q.1 q.0 qs h.0

  -- What a task list over several instances has for an id: the live record of this instance, else
  -- the live record of the last peer that has one, as its JSON shows it, else the backend's. Peers
  -- that fail in any way take nothing from the others.
  pub merged_list-peers :
      (c : Cache) (qs : List Asked) (s : TaskStore) (id : String)
      → IsValid s
      → AllAnswer qs
      → find_task id (merged_list true c (gather_peer_records http_get (map (λ q. q.0) qs)) s)
        ≡ or_else (get id s) (or_else (last_with id (shown qs)) (last_with id c.backend))
  merged_list-peers c qs s id v h =
      ap (λ ps. find_task id (merged_list true c ps s)) (gather-shown qs h)
      ∙ merged_list-find true c (shown qs) s id v
