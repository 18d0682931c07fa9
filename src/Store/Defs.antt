-- ===== src/Store/Defs.antt =====
-- The queue database (src/mergetrain/persistence/schema.py, transactions.py). A connection is a
-- state passed through; a raised exception keeps the state that the statements before it made.
use mergetrain.Prelude.{
  ◌⊎◌, inl, inr, ℕ, ◌+◌, ◌*◌, ◌≡◌, refl, Bool, if◌then◌else◌, true, false, Option, none, some, List,
  arith, String, nat_column,
}
use mergetrain.Model.{Job, RunnerLock, RunEvent, OperationEvent, Liveness, Stamp}

-- `jobs` is `deploy_queue` in the order of its AUTOINCREMENT key, `next_id` the key of the next row.
pub record Store : Type 0 where
  pub jobs : List Job
  pub next_id : ℕ
  pub lock : Option RunnerLock
  pub events : List RunEvent
  pub next_event_id : ℕ
  pub operations : List OperationEvent
  pub next_operation_id : ℕ

-- The exceptions, without their texts.
pub data Error : Type 0 where
  queue_error lock_held queue_busy lost_lease cancellation_requested : Error
  deploy_plan_changed assertion_error sqlite_error remote_unreachable : Error
  duplicate_active_branch : ℕ → Error

-- What SQLite answers to BEGIN IMMEDIATE or COMMIT.
pub data Answer : Type 0 where
  granted busy broken : Answer

-- What a call reads from outside: the clock, the liveness of a process, a fresh identifier, the
-- name of this process, and the answers of SQLite.
pub record Env : Type 0 where
  pub now : ℕ
  pub owner_liveness : String → Liveness
  pub uuid : String
  pub default_owner : String
  pub begin : Answer
  pub commit : Answer

pub data Outcome {ℓ} (A : Type ℓ) : Type ℓ where
  ok : A → Store → Outcome A
  err : Error → Store → Outcome A

abbrev pub M {ℓ} : Type ℓ → Type ℓ
M A = Store → Outcome A

infixl 5 ◌>>=◌ ◌>>◌
abbrev pub ◌>>=◌ {ℓ κ} : {A : Type ℓ} {B : Type κ} → M A → (A → M B) → M B
◌>>=◌ m f s = elim (m s) [ ok a t ↦ f a t | err e t ↦ err e t ]

abbrev pub ◌>>◌ {ℓ} : {B : Type ℓ} → M (Unit {0}) → M B → M B
m >> k = m >>= λ _. k

abbrev pub return {ℓ} : {A : Type ℓ} → A → M A
return a s = ok a s

abbrev pub raise {ℓ} : {A : Type ℓ} → Error → M A
raise e s = err e s

abbrev pub reads {ℓ} : {A : Type ℓ} → (Store → A) → M A
reads f s = ok (f s) s

abbrev pub modify : (Store → Store) → M (Unit {0})
modify f s = ok tt (f s)

-- `if not test: raise error`
abbrev pub require : Bool → Error → M (Unit {0})
require true e s = ok tt s
require false e s = err e s

abbrev pub or_raise {ℓ} : {A : Type ℓ} → Error → Option A → M A
or_raise e none s = err e s
or_raise e (some a) s = ok a s

-- `conn.commit()`, and the rollback where it fails.
abbrev commit_answer {ℓ} : {A : Type ℓ} → Answer → A → Store → Store → Outcome A
commit_answer granted a t s = ok a t
commit_answer busy a t s = err queue_busy s
commit_answer broken a t s = err sqlite_error s

abbrev begin_answer {ℓ} : {A : Type ℓ} → Answer → Answer → M A → M A
begin_answer granted commit body s = elim (body s) [
  | ok a t ↦ commit_answer commit a t s
  | err e t ↦ err e s
]
begin_answer busy commit body s = err queue_busy s
begin_answer broken commit body s = err sqlite_error s

-- `with immediate(conn):` — one write transaction.
unfoldable pub immediate {ℓ} : {A : Type ℓ} → Env → M A → M A
immediate env body s = begin_answer env.begin env.commit body s

-- A transaction that raises leaves the database as it was, whatever its statements did.
pub immediate_rolls_back {ℓ} :
    {A : Type ℓ} (env : Env) (body : M A) (s : Store) {e : Error} {t : Store}
    → immediate env body s ≡ err e t
    → t ≡ s
unfolding immediate
immediate_rolls_back env body s h = ground arith

-- A transaction that returns has run its body to the end and committed it.
pub immediate-ok {ℓ} :
    {A : Type ℓ} (env : Env) (body : M A) (s : Store) {a : A} {t : Store}
    → immediate env body s ≡ ok a t
    → body s ≡ ok a t
unfolding immediate
immediate-ok env body s h = ground arith

-- With the database free, a body that returns is committed.
pub immediate_commits {ℓ} :
    {A : Type ℓ} (env : Env) (body : M A) (s : Store) {a : A} {t : Store}
    → env.begin ≡ granted
    → env.commit ≡ granted
    → body s ≡ ok a t
    → immediate env body s ≡ ok a t
unfolding immediate
immediate_commits env body s b c h = ground arith

pub >>=-eq-ok {ℓ κ} :
    {A : Type ℓ} {B : Type κ} (m : M A) (f : A → M B) (s : Store) {b : B} {t : Store}
    → (m >>= f) s ≡ ok b t
    → (a : A) × (u : Store) × (m s ≡ ok a u) × (f a u ≡ ok b t)
>>=-eq-ok m f s h = ground arith

-- transactions.utc_now, _parse_utc, _plus_minutes
abbrev pub utc_now : Env → Stamp
utc_now env = some env.now

abbrev pub parse_utc : Stamp → ℕ
parse_utc none = 0
parse_utc (some t) = t

abbrev pub plus_minutes : Env → ℕ → Stamp
plus_minutes env minutes = some (env.now + minutes * 60)

answer_cases {ℓ} :
    {A : Type ℓ} (begin commit : Answer) (body : M A) (s : Store) (o : Outcome A)
    → body s ≡ o
    → ((e : Error) × (begin_answer begin commit body s ≡ err e s))
      ⊎ ((a : A) × (t : Store) × (begin_answer begin commit body s ≡ ok a t) × (body s ≡ ok a t))
answer_cases granted granted body s (ok a t) h = inr (a, t, rw (begin_answer, h) refl, h)
answer_cases granted busy body s (ok a t) h = inl (queue_busy, rw (begin_answer, h) refl)
answer_cases granted broken body s (ok a t) h = inl (sqlite_error, rw (begin_answer, h) refl)
answer_cases granted commit body s (err e t) h = inl (e, rw (begin_answer, h) refl)
answer_cases busy commit body s o h = inl (queue_busy, refl)
answer_cases broken commit body s o h = inl (sqlite_error, refl)

-- A transaction either raises with nothing written, or answers as its body.
pub immediate_cases {ℓ} :
    {A : Type ℓ} (env : Env) (body : M A) (s : Store)
    → ((e : Error) × (immediate env body s ≡ err e s))
      ⊎ ((a : A) × (t : Store) × (immediate env body s ≡ ok a t) × (body s ≡ ok a t))
unfolding immediate
immediate_cases env body s = answer_cases env.begin env.commit body s (body s) refl

-- A branch that returned is the branch that was taken.
pub if-ok {ℓ} :
    {A : Type ℓ} (test : Bool) (m n : M A) (s : Store) {a : A} {t : Store}
    → (if test then m else n) s ≡ ok a t
    → ((test ≡ true) × (m s ≡ ok a t)) ⊎ ((test ≡ false) × (n s ≡ ok a t))
if-ok true m n s h = inl (refl, h)
if-ok false m n s h = inr (refl, h)

-- A check that was passed.
pub require_then {ℓ} :
    {A : Type ℓ} (test : Bool) (e : Error) (m : M A) (s : Store) {a : A} {t : Store}
    → (require test e >> m) s ≡ ok a t
    → (test ≡ true) × (m s ≡ ok a t)
require_then true e m s h = (refl, h)
require_then false e m s h = absurd (ground arith)

-- A value that was there.
pub or_raise_then {ℓ κ} :
    {A : Type ℓ} {B : Type κ} (e : Error) (o : Option A) (f : A → M B) (s : Store) {b : B}
    {t : Store}
    → (or_raise e o >>= f) s ≡ ok b t
    → (a : A) × (o ≡ some a) × (f a s ≡ ok b t)
or_raise_then e none f s h = absurd (ground arith)
or_raise_then e (some a) f s h = (a, refl, h)
