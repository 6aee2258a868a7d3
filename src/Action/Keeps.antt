-- ===== src/Action/Keeps.antt =====
-- Invariants of the database under an action, one rule for each way to build an action. A handler
-- keeps an invariant if its steps do, whether it returns or throws.
use specbook.Base.{◌≡◌, refl, Bool, true, false, Option, List, [], ◌∷◌}
use specbook.Result.{Error, Result, ok, err}
use specbook.Action.{
  Db, Action, pure, raise, gets, check, or_raise, raise_if, modify, resume, ◌>>=◌, ◌>>◌, attempt,
  when, for_each,
}

pub record Keeps {A : Type 0} (P : Db → Type 0) (m : Action A) : Type 0 where
  pub at : (db : Db) → P db → P (m db).1

module _ {A : Type 0} (P : Db → Type 0) where
  pub Keeps-pure : (a : A) → Keeps P (pure a)
  unfolding pure
  Keeps-pure a = record { at = λ db h. h }

  pub Keeps-raise : (e : Error) → Keeps P (raise {A = A} e)
  unfolding raise
  Keeps-raise e = record { at = λ db h. h }

  pub Keeps-gets : (f : Db → A) → Keeps P (gets f)
  unfolding gets
  Keeps-gets f = record { at = λ db h. h }

  pub Keeps-check : (f : Db → Result A) → Keeps P (check f)
  unfolding check
  Keeps-check f = record { at = λ db h. h }

  pub Keeps-or_raise : (e : Error) (o : Option A) → Keeps P (or_raise e o)
  unfolding or_raise
  Keeps-or_raise e o = record { at = λ db h. h }

module _ {A B : Type 0} (P : Db → Type 0) where
  pub resume-Keeps :
      (f : A → Action B)
      → ((a : A) → Keeps P (f a))
      → (s : Result A × Db) → P s.1
      → P (resume f s).1
  unfolding resume
  resume-Keeps f k (ok a, db) h = (k a).at db h
  resume-Keeps f k (err e, db) h = h

  pub Keeps-bind :
      (m : Action A) (f : A → Action B) → Keeps P m → ((a : A) → Keeps P (f a)) → Keeps P (m >>= f)
  unfolding ◌>>=◌
  Keeps-bind m f km kf = record { at = λ db h. resume-Keeps f kf (m db) (km.at db h) }

  -- The rule at one database.
  pub bind_at :
      (m : Action A) (f : A → Action B) (db : Db)
      → P (m db).1
      → ((a : A) → Keeps P (f a))
      → P ((m >>= f) db).1
  unfolding ◌>>=◌
  bind_at m f db h kf = resume-Keeps f kf (m db) h

  -- The writes may use what the checks have established of the same database.
  pub Keeps-check_bind :
      (f : Db → Result A) (g : A → Action B)
      → ((db : Db) (a : A) → P db → f db ≡ ok a → P (g a db).1)
      → Keeps P (check f >>= g)
  unfolding ◌>>=◌ check
  Keeps-check_bind f g k = record { at = λ db h. split db h (f db) refl }
    where
      split : (db : Db) → P db → (r : Result A) → f db ≡ r → P (resume g (r, db)).1
      split db h (ok a) e = k db a h e
      split db h (err x) e = h

module _ {B : Type 0} (P : Db → Type 0) where
  -- A check at one database: it may throw, and it writes nothing.
  pub check_at :
      (f : Db → Result (Unit {0})) (k : Action B) (db : Db)
      → P db
      → (f db ≡ ok tt → P (k db).1)
      → P ((check f >> k) db).1
  unfolding ◌>>◌ ◌>>=◌ check resume
  check_at f k db h after = split (f db) refl
    where
      split : (r : Result (Unit {0})) → f db ≡ r → P (resume (λ _. k) (r, db)).1
      split (ok a) e = after e
      split (err x) e = h

module _ (P : Db → Type 0) where
  pub Keeps-then :
      {B : Type 0} (m : Action (Unit {0})) (k : Action B) → Keeps P m → Keeps P k → Keeps P (m >> k)
  unfolding ◌>>◌
  Keeps-then m k km kk = Keeps-bind P m (λ _. k) km (λ _. kk)

  pub Keeps-raise_if : (b : Bool) (e : Error) → Keeps P (raise_if b e)
  unfolding raise_if
  Keeps-raise_if b e = record { at = λ db h. h }

  pub Keeps-modify : (f : Db → Db) → ((db : Db) → P db → P (f db)) → Keeps P (modify f)
  unfolding modify
  Keeps-modify f keep = record { at = keep }

  pub Keeps-attempt : (m : Action (Unit {0})) → Keeps P m → Keeps P (attempt m)
  unfolding attempt
  Keeps-attempt m k = record { at = λ db h. k.at db h }

  pub Keeps-when : (b : Bool) (m : Action (Unit {0})) → (b ≡ true → Keeps P m) → Keeps P (when b m)
  unfolding when
  Keeps-when true m k = record { at = λ db h. (k refl).at db h }
  Keeps-when false m k = record { at = λ db h. h }

  pub Keeps-for_each :
      {A : Type 0} (xs : List A) (f : A → Action (Unit {0}))
      → ((a : A) → Keeps P (f a))
      → Keeps P (for_each xs f)
  unfolding for_each
  Keeps-for_each [] f k = record { at = λ db h. h }
  Keeps-for_each (x ∷ xs) f k = record {
    at = λ db h.
        resume-Keeps P (λ _. for_each xs f) (λ _. Keeps-for_each xs f k) (f x db) ((k x).at db h);
  }
