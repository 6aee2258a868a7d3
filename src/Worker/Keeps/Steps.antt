-- ===== src/Worker/Keeps/Steps.antt =====
-- Rules for what a job does with the values that it reads and with the rows that it updates.
use specbook.Base.{ℕ, ◌≡◌, refl, sym, ap, ◌∙◌, Bool, List, [], ◌∷◌, map, filter, Memᴰ, All}
use mathlib.Core.Path.{subst}
use specbook.Rows.{Task}
use specbook.Result.{Result, ok, err}
use specbook.Action.{Db, Action, ◌>>=◌, resume, gets, pure, for_each}
use specbook.Action.Keeps.{Keeps, resume-Keeps}
use specbook.TaskRepository.{update_where, stamp}
use specbook.Worker.Events.{ids_of}

module _ (P : Db → Type 0) where
  -- A read: the rest of the job may use that the value was read in a database of the property.
  pub gets_bind :
      {A B : Type 0} (f : Db → A) (g : A → Action B)
      → ((db : Db) → P db → Keeps P (g (f db)))
      → Keeps P (gets f >>= g)
  unfolding ◌>>=◌ gets resume
  gets_bind f g k = record { at = λ db h. (k db h).at db h }

  -- An update: each row that it returns has the identifier of a row that it hit.
  pub update_bind :
      {B : Type 0} (now : ℕ) (p : Db → Task → Bool) (f : Task → Task) (g : List Task → Action B)
      → Keeps P (update_where now p f)
      → ((db : Db) → P db → Keeps P (g (map (stamp now f) (filter (p db) db.tasks))))
      → Keeps P (update_where now p f >>= g)
  unfolding ◌>>=◌ update_where resume
  update_bind now p f g ku k = record { at = λ db h. (k db h).at _ (ku.at db h) }

  pub Keeps-for_all :
      {A : Type 0} (Q : A → Type 0) (xs : List A) (f : A → Action (Unit {0}))
      → All Q xs
      → ((a : A) → Q a → Keeps P (f a))
      → Keeps P (for_each xs f)
  unfolding for_each
  Keeps-for_all Q [] f all k = record { at = λ db h. h }
  Keeps-for_all Q (x ∷ xs) f all k = record {
    at = λ db h.
        resume-Keeps P (λ _. for_each xs f) (λ _. Keeps-for_all Q xs f all.1 k) (f x db)
          ((k x all.0).at db h);
  }

-- The property after an action, and one of its result if it returns.
module _ (P : Db → Type 0) where
  abbrev pub Holds : {A : Type 0} → (A → Type 0) → Result A × Db → Type 0
  Holds Q (ok a, db) = Q a × P db
  Holds Q (err e, db) = P db

  pub record Gives {A : Type 0} (Q : A → Type 0) (m : Action A) : Type 0 where
    pub gives : (db : Db) → P db → Holds Q (m db)

module _ (P : Db → Type 0) {A : Type 0} (Q : A → Type 0) where
  pub Gives-pure : (a : A) → Q a → Gives P Q (pure a)
  unfolding pure
  Gives-pure a q = record { gives = λ db h. (q, h) }

  pub Gives-then :
      {B : Type 0} (m : Action B) (g : B → Action A)
      → Keeps P m
      → ((b : B) → Gives P Q (g b))
      → Gives P Q (m >>= g)
  unfolding ◌>>=◌
  Gives-then {B} m g km kg = record { gives = λ db h. go (m db) (km.at db h) }
    where
      go : (s : Result B × Db) → P s.1 → Holds P Q (resume g s)
      go (ok b, db) h = (kg b).gives db h
      go (err e, db) h = h

  pub Gives-bind :
      {B : Type 0} (R : B → Type 0) (m : Action B) (g : B → Action A)
      → Gives P R m
      → ((b : B) → R b → Gives P Q (g b))
      → Gives P Q (m >>= g)
  unfolding ◌>>=◌
  Gives-bind {B} R m g km kg = record { gives = λ db h. go (m db) (km.gives db h) }
    where
      go : (s : Result B × Db) → Holds P R s → Holds P Q (resume g s)
      go (ok b, db) h = (kg b h.0).gives db h.1
      go (err e, db) h = h

  pub Keeps-given :
      {B : Type 0} (m : Action A) (g : A → Action B)
      → Gives P Q m
      → ((a : A) → Q a → Keeps P (g a))
      → Keeps P (m >>= g)
  unfolding ◌>>=◌
  Keeps-given {B} m g km kg = record { at = λ db h. go (m db) (km.gives db h) }
    where
      go : (s : Result A × Db) → Holds P Q s → P (resume g s).1
      go (ok a, db) h = (kg a h.0).at db h.1
      go (err e, db) h = h

pub ids_of-All :
    (Q : ℕ → Type 0) (rows : List Task) → ((t : Task) → Memᴰ t rows → Q t.id) → All Q (ids_of rows)
ids_of-All Q [] each = tt
ids_of-All Q (t ∷ rows) each =
    (each t (Memᴰ.head refl), ids_of-All Q rows (λ u m. each u (Memᴰ.tail m)))

-- The rows that an update returns have the identifiers of the rows that it hit.
pub updated_id :
    (Q : ℕ → Type 0) (now : ℕ) (f : Task → Task) (same : (t : Task) → (f t).id ≡ t.id)
    (rows : List Task)
    → ((t : Task) → Memᴰ t rows → Q t.id)
    → (t : Task) → Memᴰ t (map (stamp now f) rows)
    → Q t.id
unfolding stamp
updated_id Q now f same [] each t m = elim m [ ]
updated_id Q now f same (u ∷ rows) each t (Memᴰ.head e) =
    subst Q (sym (same u) ∙ ap (λ (x : Task). x.id) (sym e)) (each u (Memᴰ.head refl))
updated_id Q now f same (u ∷ rows) each t (Memᴰ.tail m) =
    updated_id Q now f same rows (λ v n. each v (Memᴰ.tail n)) t m
