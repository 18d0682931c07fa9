-- ===== src/Store/Kept.antt =====
-- What every statement, and so every composition of statements, keeps of the database.
use mergetrain.Prelude.{
  ℕ, ◌≡◌, Bool, true, false, Option, none, some, List, [], ◌∷◌, ◌⊎◌, inl, inr, arith,
}
use mergetrain.Model.{Job}
use mergetrain.Store.Defs.{
  Store, Error, Env, Outcome, ok, err, M, ◌>>=◌, return, raise, reads, modify, require, or_raise,
  immediate, queue_error,
}
use mergetrain.Store.Table.{get_job, get_jobs, find_job, update_counted, update_jobs}

-- The database after a call, also after one that raised.
abbrev pub final {ℓ} : {A : Type ℓ} → Outcome A → Store
final (ok a t) = t
final (err e t) = t

-- From a database with the property a call leaves one with the property, whatever its outcome.
pub record Keeps {ℓ} {A : Type ℓ} (P : Store → Type 0) (m : M A) : Type 0 where
  pub after : (s : Store) → P s → P (final (m s))

module _ {ℓ} {A : Type ℓ} (P : Store → Type 0) where
  pub Keeps-return : (a : A) → Keeps P (return a)
  Keeps-return a = record { after = λ s h. h }

  pub Keeps-raise : (e : Error) → Keeps P (raise {A = A} e)
  Keeps-raise e = record { after = λ s h. h }

  pub Keeps-reads : (f : Store → A) → Keeps P (reads f)
  Keeps-reads f = record { after = λ s h. h }

  pub Keeps-or_raise : (e : Error) (o : Option A) → Keeps P (or_raise e o)
  Keeps-or_raise e none = record { after = λ s h. h }
  Keeps-or_raise e (some a) = record { after = λ s h. h }

  immediate-final :
      (env : Env) (m : M A) (s : Store)
      → (final (immediate env m s) ≡ s) ⊎ (final (immediate env m s) ≡ final (m s))
  unfolding immediate
  immediate-final env m s = ground arith

  -- A rolled back transaction keeps everything.
  pub Keeps-immediate : (env : Env) (m : M A) → Keeps P m → Keeps P (immediate env m)
  Keeps-immediate env m k = record {
    after = λ s h. elim (immediate-final env m s) [ inl e ↦ rw e h | inr e ↦ rw e (k.after s h) ];
  }

module _ (P : Store → Type 0) where
  pub Keeps-modify : (f : Store → Store) → ((s : Store) → P s → P (f s)) → Keeps P (modify f)
  Keeps-modify f k = record { after = k }

  pub Keeps-require : (test : Bool) (e : Error) → Keeps P (require test e)
  Keeps-require true e = record { after = λ s h. h }
  Keeps-require false e = record { after = λ s h. h }

module _ {ℓ κ} {A : Type ℓ} {B : Type κ} (P : Store → Type 0) where
  bind_final :
      (o : Outcome A) (f : A → M B)
      → P (final o)
      → ((a : A) → Keeps P (f a))
      → P (final (elim o as (λ _. Outcome B) [ ok a t ↦ f a t | err e t ↦ err e t ]))
  bind_final (ok a t) f h k = (k a).after t h
  bind_final (err e t) f h k = h

  pub Keeps-bind :
      (m : M A) (f : A → M B) → Keeps P m → ((a : A) → Keeps P (f a)) → Keeps P (m >>= f)
  Keeps-bind m f k l = record { after = λ s h. bind_final (m s) f (k.after s h) l }

module _ (P : Store → Type 0) where
  pub Keeps-get_job : (k : ℕ) → Keeps P (get_job k)
  unfolding get_job
  Keeps-get_job k =
      Keeps-bind P (reads (find_job k)) (or_raise queue_error) (Keeps-reads P (find_job k))
        (Keeps-or_raise P queue_error)

  pub Keeps-get_jobs : (ks : List ℕ) → Keeps P (get_jobs ks)
  unfolding get_jobs
  Keeps-get_jobs [] = Keeps-return P []
  Keeps-get_jobs (k ∷ ks) =
      Keeps-bind P (get_job k) _ (Keeps-get_job k)
        (λ j. Keeps-bind P (get_jobs ks) _ (Keeps-get_jobs ks) (λ js. Keeps-return P (j ∷ js)))

  -- An update keeps what it keeps of the rows, and so does the count of its rows.
  pub Keeps-update_counted :
      (p : Job → Bool) (f : Job → Job)
      → ((s : Store) → P s → P (update_jobs p f s))
      → Keeps P (update_counted p f)
  Keeps-update_counted p f k = record { after = k }
