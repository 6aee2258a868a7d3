-- ===== src/Action/Runs.antt =====
-- What an action returned, step by step: a run that returned went through each step.
use specbook.Base.{◌≡◌, refl, sym, ap, ◌∙◌, ◌⊎◌, inl, inr, Bool, true, false}
use mathlib.Core.Path.{subst}
use specbook.Result.{Error, Result, ok, err}
use specbook.Action.{Db, Action, check, resume, ◌>>=◌, ◌>>◌, raise_if, when}

module _ {A B : Type 0} where
  pub check_ok :
      (f : Db → Result A) (g : A → Action B) (db : Db) {b : B}
      → ((check f >>= g) db).0 ≡ ok b
      → (a : A) × (f db ≡ ok a) × ((check f >>= g) db ≡ g a db)
  unfolding ◌>>=◌ check
  check_ok f g db {b} h = split (f db) refl h
    where
      split :
          (r : Result A)
          → f db ≡ r
          → (resume g (r, db)).0 ≡ ok b
          → (a : A) × (f db ≡ ok a) × (resume g (f db, db) ≡ g a db)
      split (ok a) e h = (a, e, ap (λ r. resume g (r, db)) e)
      split (err x) e h = cc

  -- A check throws and nothing is written, or the rest runs on what it has found.
  pub check_cases :
      (f : Db → Result A) (g : A → Action B) (db : Db)
      → ((x : Error) × (f db ≡ err x) × ((check f >>= g) db ≡ (err x, db)))
        ⊎ ((a : A) × (f db ≡ ok a) × ((check f >>= g) db ≡ g a db))
  unfolding ◌>>=◌ check resume
  check_cases f g db = split (f db) refl
    where
      split :
          (r : Result A)
          → f db ≡ r
          → ((x : Error) × (f db ≡ err x) × (resume g (f db, db) ≡ (err x, db)))
            ⊎ ((a : A) × (f db ≡ ok a) × (resume g (f db, db) ≡ g a db))
      split (ok a) e = inr (a, e, ap (λ r. resume g (r, db)) e)
      split (err x) e = inl (x, e, ap (λ r. resume g (r, db)) e)

-- A guard of an action that returned did not hold.
pub guard_ok :
    {B : Type 0} (b : Bool) (e : Error) (k : Action B) (db : Db) {r : B}
    → ((raise_if b e >> k) db).0 ≡ ok r
    → (b ≡ false) × ((raise_if b e >> k) db ≡ k db)
unfolding ◌>>◌ ◌>>=◌ raise_if resume
guard_ok true e k db h = cc
guard_ok false e k db h = (refl, refl)

module _ {B : Type 0} (m : Action (Unit {0})) (k : Action B) (db : Db) where
  -- A run that returned went on after its first part.
  pub then_ok : {b : B} → ((m >> k) db).0 ≡ ok b → ((m db).0 ≡ ok tt) × ((m >> k) db ≡ k (m db).1)
  unfolding ◌>>◌ ◌>>=◌ resume
  then_ok {b} h = split (m db) refl h
    where
      split :
          (r : Result (Unit {0}) × Db)
          → m db ≡ r
          → (resume (λ _. k) r).0 ≡ ok b
          → ((m db).0 ≡ ok tt) × (resume (λ _. k) (m db) ≡ k (m db).1)
      split (ok tt, after) e h = (
        ap (λ (r : Result (Unit {0}) × Db). r.0) e,
        ap (resume (λ _. k)) e ∙ ap (λ (r : Result (Unit {0}) × Db). k r.1) (sym e),
      )
      split (err x, after) e h = cc

  pub rest_ok : {b : B} → ((m >> k) db).0 ≡ ok b → (k (m db).1).0 ≡ ok b
  rest_ok h = sym (ap (λ (r : Result B × Db). r.0) (then_ok h).1) ∙ h

  -- What holds after the rest holds after both.
  pub then_at :
      (P : Db → Type 0) {b : B} → ((m >> k) db).0 ≡ ok b → P (k (m db).1).1 → P ((m >> k) db).1
  then_at P h after = subst (λ (r : Result B × Db). P r.1) (sym (then_ok h).1) after

module _ {B : Type 0} (P : Db → Type 0) (k : Action B) (m : Action (Unit {0})) (db : Db) where
  pub when_false_at : P (k db).1 → P ((when false m >> k) db).1
  unfolding ◌>>◌ ◌>>=◌ resume when
  when_false_at h = h
