-- ===== src/Action/Throws.antt =====
-- Which errors an action throws, one rule for each way to build an action.
use specbook.Base.{◌≡◌, refl, ap, ◌∙◌, Bool, true, false, List, [], ◌∷◌}
use mathlib.Core.Path.{subst}
use specbook.Result.{Error, Result, ok, err}
use specbook.Action.{
  Db, Action, pure, gets, raise_if, modify, resume, ◌>>=◌, ◌>>◌, attempt, when, for_each,
}

no_throw : {A : Type 0} {a : A} {e : Error} → ¬ (ok a ≡ err e)
no_throw h = cc

-- Every error that the action throws is one of `Q`.
pub record Throws {A : Type 0} (Q : Error → Type 0) (m : Action A) : Type 0 where
  pub at : (db : Db) (e : Error) → (m db).0 ≡ err e → Q e

module _ (Q : Error → Type 0) where
  pub Throws-pure : {A : Type 0} (a : A) → Throws Q (pure a)
  unfolding pure
  Throws-pure a = record { at = λ db e h. absurd (no_throw h) }

  pub Throws-modify : (f : Db → Db) → Throws Q (modify f)
  unfolding modify
  Throws-modify f = record { at = λ db e h. absurd (no_throw h) }

  pub Throws-attempt : (m : Action (Unit {0})) → Throws Q (attempt m)
  unfolding attempt
  Throws-attempt m = record { at = λ db e h. absurd (no_throw h) }

  pub Throws-raise_if : (b : Bool) (x : Error) → Q x → Throws Q (raise_if b x)
  unfolding raise_if
  Throws-raise_if true x q = record { at = λ db e h. let same : x ≡ e = cc in subst Q same q }
  Throws-raise_if false x q = record { at = λ db e h. absurd (no_throw h) }

  pub Throws-bind :
      {A B : Type 0} (m : Action A) (f : A → Action B)
      → Throws Q m
      → ((a : A) → Throws Q (f a))
      → Throws Q (m >>= f)
  unfolding ◌>>=◌ resume
  Throws-bind {A} {B} m f km kf = record { at = λ db e h. split (m db) refl e h }
    where
      split : {db : Db} (r : Result A × Db) → m db ≡ r → (e : Error) → (resume f r).0 ≡ err e → Q e
      split (ok a, after) same e h = (kf a).at after e h
      split {db} (err x, after) same e h =
          let one : x ≡ e = cc in km.at db e (ap (λ (r : Result A × Db). r.0) same ∙ ap err one)

  pub Throws-gets :
      {A B : Type 0} (f : Db → A) (g : A → Action B)
      → ((a : A) → Throws Q (g a))
      → Throws Q (gets f >>= g)
  unfolding ◌>>=◌ gets resume
  Throws-gets f g k = record { at = λ db e h. (k (f db)).at db e h }

  pub Throws-then :
      {B : Type 0} (m : Action (Unit {0})) (k : Action B)
      → Throws Q m
      → Throws Q k
      → Throws Q (m >> k)
  unfolding ◌>>◌
  Throws-then m k km kk = Throws-bind m (λ _. k) km (λ _. kk)

  pub Throws-when : (b : Bool) (m : Action (Unit {0})) → Throws Q m → Throws Q (when b m)
  unfolding when
  Throws-when true m k = record { at = λ db e h. k.at db e h }
  Throws-when false m k = record { at = λ db e h. absurd (no_throw h) }

  pub Throws-for_each :
      {A : Type 0} (xs : List A) (f : A → Action (Unit {0}))
      → ((a : A) → Throws Q (f a))
      → Throws Q (for_each xs f)
  unfolding for_each ◌>>◌ ◌>>=◌
  Throws-for_each [] f k = record { at = λ db e h. absurd (no_throw h) }
  Throws-for_each (x ∷ xs) f k =
      let both = Throws-then (f x) (for_each xs f) (k x) (Throws-for_each xs f k) in
      record { at = λ db e h. both.at db e h }
