-- ===== src/Result/Steps.antt =====
-- A chain of checks that passed has passed each of them.
use specbook.Base.{◌≡◌, ◌⊎◌, inl, inr, if◌then◌else◌, refl, Bool, true, false, Option, none, some}
use specbook.Result.{Error, Result, ok, err, ◌>>=◌, ◌>>◌, fail_if, or_fail}

pub bind_ok :
    {A B : Type 0} (r : Result A) (f : A → Result B) {b : B}
    → (r >>= f) ≡ ok b
    → (a : A) × (r ≡ ok a) × (f a ≡ ok b)
bind_ok (ok a) f h = (a, refl, h)
bind_ok (err e) f h = cc

pub passed :
    {B : Type 0} (test : Bool) (e : Error) (k : Result B) {b : B}
    → (fail_if test e >> k) ≡ ok b
    → (test ≡ false) × (k ≡ ok b)
passed true e k h = cc
passed false e k h = (refl, h)

pub found :
    {A B : Type 0} (e : Error) (o : Option A) (f : A → Result B) {b : B}
    → (or_fail e o >>= f) ≡ ok b
    → (a : A) × (o ≡ some a) × (f a ≡ ok b)
found e none f h = cc
found e (some a) f h = (a, refl, h)

pub branch_ok :
    {A : Type 0} (test : Bool) (x y : Result A) {a : A}
    → (if test then x else y) ≡ ok a
    → ((test ≡ true) × (x ≡ ok a)) ⊎ ((test ≡ false) × (y ≡ ok a))
branch_ok true x y h = inl (refl, h)
branch_ok false x y h = inr (refl, h)
