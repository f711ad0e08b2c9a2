-- ===== src/TaskQueue/Order.antt =====
-- manager.py: `_TaskQueue` hands out tasks by priority, and in arrival order within one priority.
use mathlib.Core.List.{Perm}
use mathlib.Core.List.Perm
use fastapi_taskflow.Base.{
  ℕ, zero, suc, ◌+◌, ◌<◌, ◌≤◌, ◌≡◌, refl, ◌⊎◌, inl, inr, Bool, true, false, List, [], ◌∷◌, ◌++◌,
  Option, none, some, String, if◌then◌else◌, ltb, arith, All, length, Bool-cases,
}
use fastapi_taskflow.Base.Int.{ℤ, neg, ◌<ℤ◌}
use fastapi_taskflow.Models.{QueueConfig}
use fastapi_taskflow.TaskQueue.{
  Item, less, heappush, TaskQueue, Drainer, idle, blocked, stale, enqueue, is_full,
  acquire_then_start, drain, drain_round, finish, update_queue_config, Event, enqueues, drains,
  finishes, updates, step, run, init,
}

-- The priority that an item was enqueued with.
abbrev pub priority_of : Item → ℤ
priority_of x = neg x.key

-- `x` runs before `y`: a higher priority, or the same and an earlier arrival.
abbrev pub Precedes : Item → Item → Type 0
Precedes x y =
    (priority_of y <ℤ priority_of x) ⊎ ((priority_of x ≡ priority_of y) × (x.seq < y.seq))

abbrev pub IsSorted : List Item → Type 0
IsSorted [] = Unit
IsSorted (x ∷ xs) = All (λ y. less x y ≡ true) xs × IsSorted xs

-- The heap is sorted, and its sequence numbers are those given out.
pub record IsOrdered (q : TaskQueue) : Type 0 where
  pub sorted : IsSorted q.heap
  pub issued : All (λ x. x.seq ≤ q.seq) q.heap

less_trans : (x y z : Item) → less x y ≡ true → less y z ≡ true → less x z ≡ true
unfolding less
less_trans x y z h k = ground arith

less_of_newer : (x y : Item) → y.seq < x.seq → less x y ≡ false → less y x ≡ true
unfolding less
less_of_newer x y n h = ground arith

All-less_trans :
    (x y : Item) (zs : List Item)
    → less x y ≡ true
    → All (λ z. less y z ≡ true) zs
    → All (λ z. less x z ≡ true) zs
All-less_trans x y [] h a = tt
All-less_trans x y (z ∷ zs) h a = (less_trans x y z h a.0, All-less_trans x y zs h a.1)

All-heappush {κ} :
    (P : Item → Type κ) (x : Item) (ys : List Item) → P x → All P ys → All P (heappush x ys)
unfolding heappush
All-heappush P x [] h a = (h, tt)
All-heappush P x (y ∷ ys) h a = elim (Bool-cases (less x y)) [
  | inl e ↦ rw e (h, a)
  | inr e ↦ rw e (a.0, All-heappush P x ys h a.1)
]

heappush-IsSorted :
    (x : Item) (ys : List Item)
    → All (λ y. y.seq < x.seq) ys
    → IsSorted ys
    → IsSorted (heappush x ys)
unfolding heappush
heappush-IsSorted x [] n s = (tt, tt)
heappush-IsSorted x (y ∷ ys) n s = elim (Bool-cases (less x y)) [
  | inl e ↦ rw e ((e, All-less_trans x y ys e s.0), s)
  | inr e ↦ rw e (
    All-heappush (λ z. less y z ≡ true) x ys (less_of_newer x y n.0 e) s.0,
    heappush-IsSorted x ys n.1 s.1,
  )
]

pub heappush-perm : (x : Item) (ys : List Item) → Perm (heappush x ys) (x ∷ ys)
unfolding heappush
heappush-perm x [] = Perm.refl _
heappush-perm x (y ∷ ys) = elim (Bool-cases (less x y)) [
  | inl e ↦ rw e (Perm.refl _)
  | inr e ↦ rw e (Perm.trans (Perm.cons y (heappush-perm x ys)) (Perm.swap x y ys))
]

All-older : (n : ℕ) (xs : List Item) → All (λ x. x.seq ≤ n) xs → All (λ x. x.seq < n + 1) xs
All-older n [] a = tt
All-older n (x ∷ xs) a = (omega arith, All-older n xs a.1)

All-issued : (n : ℕ) (xs : List Item) → All (λ x. x.seq ≤ n) xs → All (λ x. x.seq ≤ n + 1) xs
All-issued n [] a = tt
All-issued n (x ∷ xs) a = (omega arith, All-issued n xs a.1)

module _ (q : TaskQueue) (v : IsOrdered q) where
  enqueue-IsOrdered : (t : String) (p : Option ℤ) (w : ℕ) → IsOrdered (enqueue t p w q).0
  unfolding enqueue
  enqueue-IsOrdered t p w = elim (Bool-cases (is_full q.config.max_size (length q.heap))) [
    | inl e ↦ rw e (record { sorted = v.sorted; issued = v.issued })
    | inr e ↦ rw e (record {
      sorted = heappush-IsSorted _ q.heap (All-older q.seq q.heap v.issued) v.sorted;
      issued =
          All-heappush (λ x. x.seq ≤ q.seq + 1) _ q.heap (omega arith)
            (All-issued q.seq q.heap v.issued);
    })
  ]

  finish-IsOrdered : (i : ℕ) → IsOrdered (finish i q)
  unfolding finish
  finish-IsOrdered i = elim (Bool-cases (ltb i (length q.running))) [
    | inl e ↦ rw e (record { sorted = v.sorted; issued = v.issued })
    | inr e ↦ rw e v
  ]

  update-IsOrdered : (c m : Option ℕ) → IsOrdered (update_queue_config c m q)
  unfolding update_queue_config
  update-IsOrdered none m = record { sorted = v.sorted; issued = v.issued }
  update-IsOrdered (some c) m = record { sorted = v.sorted; issued = v.issued }

IsOrdered-same : (q r : TaskQueue) → r.heap ≡ q.heap → r.seq ≡ q.seq → IsOrdered q → IsOrdered r
IsOrdered-same q r h n v = record { sorted = rw h v.sorted; issued = rw (h, n) v.issued }

-- An acquisition leaves the heap and the counter alone.
acquire-heap :
    (x : Item) (q : TaskQueue)
    → ((acquire_then_start x q).heap ≡ q.heap) × ((acquire_then_start x q).seq ≡ q.seq)
acquire-heap x q = ground arith

acquire-IsOrdered : (x : Item) (q : TaskQueue) → IsOrdered q → IsOrdered (acquire_then_start x q)
acquire-IsOrdered x q =
    let (h, n) = acquire-heap x q in IsOrdered-same q (acquire_then_start x q) h n

drain_round-IsOrdered :
    (hs : List Item) (q : TaskQueue) → q.heap ≡ hs → IsOrdered q → IsOrdered (drain_round q)
unfolding drain_round
drain_round-IsOrdered [] q e v =
    rw (e, drain_round) (record { sorted = v.sorted; issued = v.issued })
drain_round-IsOrdered (x ∷ rest) q e v =
    let s : IsSorted (x ∷ rest) = rw e at v.sorted in
    let i : All (λ y. y.seq ≤ q.seq) (x ∷ rest) = rw e at v.issued in
    rw (e, drain_round)
      (acquire-IsOrdered x (record q { heap = rest }) (record { sorted = s.1; issued = i.1 }))

if-IsOrdered :
    (b : Bool) (q r : TaskQueue) → IsOrdered q → IsOrdered r → IsOrdered (if b then q else r)
if-IsOrdered true q r u v = u
if-IsOrdered false q r u v = v

drain-IsOrdered : (d : Drainer) (q : TaskQueue) → q.drainer ≡ d → IsOrdered q → IsOrdered (drain q)
unfolding drain
drain-IsOrdered idle q e v =
    rw (e, drain)
      (if-IsOrdered q.has_work (drain_round q) q (drain_round-IsOrdered q.heap q refl v) v)
drain-IsOrdered (blocked x) q e v = rw (e, drain) (acquire-IsOrdered x q v)
drain-IsOrdered (stale x zero) q e v = rw (e, drain) v
drain-IsOrdered (stale x (suc free)) q e v =
    rw (e, drain) (record { sorted = v.sorted; issued = v.issued })

step-IsOrdered : (e : Event) (q : TaskQueue) → IsOrdered q → IsOrdered (step e q)
unfolding step
step-IsOrdered (enqueues t p w) q v = enqueue-IsOrdered q v t p w
step-IsOrdered drains q v = drain-IsOrdered q.drainer q refl v
step-IsOrdered (finishes i) q v = finish-IsOrdered q v i
step-IsOrdered (updates c m) q v = update-IsOrdered q v c m

run-IsOrdered : (es : List Event) (q : TaskQueue) → IsOrdered q → IsOrdered (run es q)
unfolding run
run-IsOrdered [] q v = v
run-IsOrdered (e ∷ es) q v = run-IsOrdered es (step e q) (step-IsOrdered e q v)

-- Whatever happened to a queue since it was set up, its heap is in order and its sequence numbers
-- were given out by it.
pub run-init-IsOrdered :
    (name : String) (c : QueueConfig) (es : List Event) → IsOrdered (run es (init name c))
unfolding init
run-init-IsOrdered name c es = run-IsOrdered es (init name c) (record { sorted = tt; issued = tt })

less-Precedes : (x y : Item) → less x y ≡ true → Precedes x y
unfolding less neg
less-Precedes x y h = ground arith

All-Precedes : (x : Item) (ys : List Item) → All (λ y. less x y ≡ true) ys → All (Precedes x) ys
All-Precedes x [] a = tt
All-Precedes x (y ∷ ys) a = (less-Precedes x y a.0, All-Precedes x ys a.1)

-- The item in the drainer's hand.
abbrev pub in_hand : Drainer → List Item
in_hand idle = []
in_hand (blocked x) = x ∷ []
in_hand (stale x free) = x ∷ []

-- After any history of a queue, when its drainer takes an item, the item is started or held for a
-- permit, all others stay in the heap, and the item precedes each of them: its priority is higher,
-- or equal and it arrived earlier.
pub drain-takes-first :
    (name : String) (c : QueueConfig) (es : List Event) {q : TaskQueue}
    → run es (init name c) ≡ q
    → (x : Item) (rest : List Item) → q.heap ≡ x ∷ rest
    → q.drainer ≡ idle
    → q.has_work ≡ true
    → (in_hand (drain q).drainer ++ (drain q).running ≡ x ∷ q.running)
      × ((drain q).heap ≡ rest)
      × All (Precedes x) rest
unfolding drain
drain-takes-first name c es {q} r x rest e d h =
    let v : IsOrdered q = rw r at (run-init-IsOrdered name c es) in
    let s : IsSorted (x ∷ rest) = rw e at v.sorted in
    (ground arith, ground arith, All-Precedes x rest s.0)
