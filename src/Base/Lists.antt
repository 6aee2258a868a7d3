-- ===== src/Base/Lists.antt =====
-- Lists as the rows of a table: tests, selection, and the update of the rows that pass a test.
use Prim.Native.Nat.{ℕ, zero, suc}
use mathlib.Core.Path.{◌≡◌, refl, sym, ap, subst}
use mathlib.Core.Logic.{◌↔◌, ◌⊎◌, inl, inr, ⊎_elim}
use mathlib.Core.Bool.{Bool, true, false, ◌&&◌, ◌||◌}
use mathlib.Core.Option.{Option, none, some}
use mathlib.Core.List.{List, [], ◌∷◌, ◌++◌, map, Memᴰ}
use mathlib.Core.List.Memᴰ
use native.Mathlib.Omega.{arith}
use specbook.Base.Tests.{◌==◌, if◌then◌else◌, Bool-cases}

module _ {ℓ} {A : Type ℓ} where
  abbrev pub length : List A → ℕ
  length [] = 0
  length (x ∷ xs) = suc (length xs)

  abbrev pub head? : List A → Option A
  head? [] = none
  head? (x ∷ xs) = some x

  abbrev pub take : ℕ → List A → List A
  take zero xs = []
  take (suc n) [] = []
  take (suc n) (x ∷ xs) = x ∷ take n xs

  abbrev pub drop : ℕ → List A → List A
  drop zero xs = xs
  drop (suc n) [] = []
  drop (suc n) (x ∷ xs) = drop n xs

  abbrev pub any : (A → Bool) → List A → Bool
  any p [] = false
  any p (x ∷ xs) = p x || any p xs

  abbrev pub all : (A → Bool) → List A → Bool
  all p [] = true
  all p (x ∷ xs) = p x && all p xs

  abbrev pub filter : (A → Bool) → List A → List A
  filter p [] = []
  filter p (x ∷ xs) = if p x then x ∷ filter p xs else filter p xs

  abbrev pub find? : (A → Bool) → List A → Option A
  find? p [] = none
  find? p (x ∷ xs) = if p x then some x else find? p xs

  -- `UPDATE … SET f WHERE p`
  abbrev pub set_where : (A → Bool) → (A → A) → List A → List A
  set_where p f [] = []
  set_where p f (x ∷ xs) = (if p x then f x else x) ∷ set_where p f xs

  abbrev pub count_where : (A → Bool) → List A → ℕ
  count_where p [] = 0
  count_where p (x ∷ xs) = if p x then suc (count_where p xs) else count_where p xs

-- A predicate of every row.
abbrev pub All {ℓ κ} : {A : Type ℓ} → (A → Type κ) → List A → Type κ
All P [] = Unit
All P (x ∷ xs) = P x × All P xs

module _ {ℓ} {A : Type ℓ} where
  pub Memᴰ-cons : (a x : A) (xs : List A) → Memᴰ a (x ∷ xs) ↔ ((a ≡ x) ⊎ Memᴰ a xs)
  Memᴰ-cons a x xs = (Memᴰ.cases_cons, ⊎_elim Memᴰ.head Memᴰ.tail)

  pub Memᴰ-append : (a : A) (xs ys : List A) → Memᴰ a (xs ++ ys) ↔ (Memᴰ a xs ⊎ Memᴰ a ys)
  Memᴰ-append a xs ys = (Memᴰ.append_cases xs, ⊎_elim (Memᴰ.append_left ys) (Memᴰ.append_right xs))

  pub Memᴰ-filter :
      (p : A → Bool) (a : A) (xs : List A) → Memᴰ a (filter p xs) ↔ (Memᴰ a xs × (p a ≡ true))
  Memᴰ-filter p a [] = (λ m. absurd (Memᴰ.not-nil m), λ m. absurd (Memᴰ.not-nil m.0))
  Memᴰ-filter p a (x ∷ xs) = elim (Bool-cases (p x)) [
    | inl keeps ↦ rw keeps (
      λ m. elim (Memᴰ.cases_cons m) [
        | inl e ↦ (Memᴰ.head e, rw e keeps)
        | inr later ↦ let both = (Memᴰ-filter p a xs).0 later in (Memᴰ.tail both.0, both.1)
      ],
      λ both. elim (Memᴰ.cases_cons both.0) [
        | inl e ↦ Memᴰ.head e
        | inr later ↦ Memᴰ.tail ((Memᴰ-filter p a xs).1 (later, both.1))
      ],
    )
    | inr drops ↦ rw drops (
      λ m. let both = (Memᴰ-filter p a xs).0 m in (Memᴰ.tail both.0, both.1),
      λ both. elim (Memᴰ.cases_cons both.0) [
        | inl e ↦ cc
        | inr later ↦ (Memᴰ-filter p a xs).1 (later, both.1)
      ],
    )
  ]

  pub find?-some :
      (p : A → Bool) (xs : List A) {a : A} → find? p xs ≡ some a → Memᴰ a xs × (p a ≡ true)
  find?-some p [] h = cc
  find?-some p (x ∷ xs) {a} h = elim (Bool-cases (p x)) [
    | inl here ↦ ground (arith, Memᴰ-cons a x xs)
    | inr skip ↦ ground (arith, Memᴰ-cons a x xs, find?-some p xs {a = a})
  ]

  pub any_elim : (p : A → Bool) (xs : List A) → any p xs ≡ true → (a : A) × Memᴰ a xs × (p a ≡ true)
  any_elim p [] h = cc
  any_elim p (x ∷ xs) h = elim (Bool-cases (p x)) [
    | inl here ↦ (x, Memᴰ.head refl, here)
    | inr skip ↦ let (a, m, hit) = any_elim p xs (ground (arith, skip)) in (a, Memᴰ.tail m, hit)
  ]

  pub any_intro : (p : A → Bool) (xs : List A) {a : A} → Memᴰ a xs → p a ≡ true → any p xs ≡ true
  any_intro p [] m h = elim m [ ]
  any_intro p (x ∷ xs) (Memᴰ.head e) h = rw (← e, h)
  any_intro p (x ∷ xs) (Memᴰ.tail m) h = ground (arith, any_intro p xs m h)

  pub any-false : (p : A → Bool) (xs : List A) {a : A} → any p xs ≡ false → Memᴰ a xs → p a ≡ false
  any-false p [] h m = elim m [ ]
  any-false p (x ∷ xs) h (Memᴰ.head e) = rw e (ground arith)
  any-false p (x ∷ xs) h (Memᴰ.tail m) = any-false p xs (ground arith) m

module _ {ℓ} {A : Type ℓ} where
  -- A row after an update is a row before it, changed if it passed the test.
  pub Memᴰ-set_where :
      (p : A → Bool) (f : A → A) (a : A) (xs : List A)
      → Memᴰ a (set_where p f xs)
      → (x : A) × Memᴰ x xs × (a ≡ (if p x then f x else x))
  Memᴰ-set_where p f a [] m = absurd (Memᴰ.not-nil m)
  Memᴰ-set_where p f a (x ∷ xs) m = elim (Memᴰ.cases_cons m) [
    | inl e ↦ (x, Memᴰ.head refl, e)
    | inr later ↦ let (y, at, e) = Memᴰ-set_where p f a xs later in (y, Memᴰ.tail at, e)
  ]

  pub Memᴰ-set_where_intro :
      (p : A → Bool) (f : A → A) (x : A) (xs : List A)
      → Memᴰ x xs
      → Memᴰ (if p x then f x else x) (set_where p f xs)
  Memᴰ-set_where_intro p f x [] m = absurd (Memᴰ.not-nil m)
  Memᴰ-set_where_intro p f x (y ∷ ys) m = elim (Memᴰ.cases_cons m) [
    | inl e ↦ Memᴰ.head (ap (λ z. if p z then f z else z) e)
    | inr later ↦ Memᴰ.tail (Memᴰ-set_where_intro p f x ys later)
  ]

module _ {ℓ κ} {A : Type ℓ} where
  pub All-append : (P : A → Type κ) (xs ys : List A) → All P xs → All P ys → All P (xs ++ ys)
  All-append P [] ys hx hy = hy
  All-append P (x ∷ xs) ys hx hy = (hx.0, All-append P xs ys hx.1 hy)

  pub All-filter : (P : A → Type κ) (p : A → Bool) (xs : List A) → All P xs → All P (filter p xs)
  All-filter P p [] h = h
  All-filter P p (x ∷ xs) h = elim (Bool-cases (p x)) [
    | inl keeps ↦ rw keeps (h.0, All-filter P p xs h.1)
    | inr drops ↦ rw drops (All-filter P p xs h.1)
  ]

  -- An update keeps a property of the rows if it keeps it at each row that it touches.
  pub All-set_where :
      (P : A → Type κ) (p : A → Bool) (f : A → A) (xs : List A)
      → ((a : A) → p a ≡ true → P a → P (f a))
      → All P xs
      → All P (set_where p f xs)
  All-set_where P p f [] keep h = h
  All-set_where P p f (x ∷ xs) keep h = elim (Bool-cases (p x)) [
    | inl hit ↦ rw hit (keep x hit h.0, All-set_where P p f xs keep h.1)
    | inr miss ↦ rw miss (h.0, All-set_where P p f xs keep h.1)
  ]

  pub All-Memᴰ : (P : A → Type κ) (xs : List A) {a : A} → All P xs → Memᴰ a xs → P a
  All-Memᴰ P [] h m = elim m [ ]
  All-Memᴰ P (x ∷ xs) h (Memᴰ.head e) = rw e h.0
  All-Memᴰ P (x ∷ xs) h (Memᴰ.tail m) = All-Memᴰ P xs h.1 m

  pub All-Memᴰ_intro : (P : A → Type κ) (xs : List A) → ((a : A) → Memᴰ a xs → P a) → All P xs
  All-Memᴰ_intro P [] h = tt
  All-Memᴰ_intro P (x ∷ xs) h =
      (h x (Memᴰ.head refl), All-Memᴰ_intro P xs (λ a m. h a (Memᴰ.tail m)))

pub Memᴰ-map : {A B : Type 0} (f : A → B) (xs : List A) {a : A} → Memᴰ a xs → Memᴰ (f a) (map f xs)
Memᴰ-map f [] m = absurd (Memᴰ.not-nil m)
Memᴰ-map f (x ∷ xs) (Memᴰ.head e) = Memᴰ.head (ap f e)
Memᴰ-map f (x ∷ xs) (Memᴰ.tail m) = Memᴰ.tail (Memᴰ-map f xs m)

abbrev pub elem : ℕ → List ℕ → Bool
elem n [] = false
elem n (x ∷ xs) = x == n || elem n xs

pub elem_iff : (n : ℕ) (xs : List ℕ) → (elem n xs ≡ true) ↔ Memᴰ n xs
elem_iff n [] = (λ h. cc, λ m. absurd (Memᴰ.not-nil m))
elem_iff n (x ∷ xs) = ground (arith, Memᴰ-cons n x xs, elem_iff n xs)

module _ {ℓ} {A : Type ℓ} where
  -- A selection that no updated row is in, before or after, is the same after the update.
  pub filter-set_where :
      (q p : A → Bool) (f : A → A) (xs : List A)
      → ((a : A) → Memᴰ a xs → p a ≡ true → (q a ≡ false) × (q (f a) ≡ false))
      → filter q (set_where p f xs) ≡ filter q xs
  filter-set_where q p f [] out = refl
  filter-set_where q p f (x ∷ xs) out =
      let same = filter-set_where q p f xs (λ a m. out a (Memᴰ.tail m)) in
      elim (Bool-cases (p x)) [
        | inl hit ↦ let (before, after) = out x (Memᴰ.head refl) hit in rw (hit, before, after) same
        | inr miss ↦ rw (miss, same) refl
      ]

  pub filter-filter :
      (q p : A → Bool) (xs : List A)
      → ((a : A) → p a ≡ false → q a ≡ false)
      → filter q (filter p xs) ≡ filter q xs
  filter-filter q p [] out = refl
  filter-filter q p (x ∷ xs) out = elim (Bool-cases (p x)) [
    | inl keeps ↦ rw (keeps, filter-filter q p xs out) refl
    | inr drops ↦ rw (drops, out x drops) (filter-filter q p xs out)
  ]

  pub filter-snoc :
      (q : A → Bool) (xs : List A) (x : A) → q x ≡ false → filter q (xs ++ x ∷ []) ≡ filter q xs
  filter-snoc q [] x out = rw out refl
  filter-snoc q (y ∷ ys) x out = rw (filter-snoc q ys x out) refl

  pub filter_ext :
      (p q : A → Bool) (xs : List A) → ((a : A) → p a ≡ q a) → filter p xs ≡ filter q xs
  filter_ext p q [] same = refl
  filter_ext p q (x ∷ xs) same = rw (same x, filter_ext p q xs same) refl

  pub any-set_where :
      (q p : A → Bool) (f : A → A) (xs : List A)
      → ((a : A) → q (f a) ≡ q a)
      → any q (set_where p f xs) ≡ any q xs
  any-set_where q p f [] same = refl
  any-set_where q p f (x ∷ xs) same = elim (Bool-cases (p x)) [
    | inl hit ↦ rw (hit, same x, any-set_where q p f xs same) refl
    | inr miss ↦ rw (miss, any-set_where q p f xs same) refl
  ]

pub Memᴰ-map_elim :
    {A B : Type 0} (f : A → B) (xs : List A) {b : B}
    → Memᴰ b (map f xs)
    → (a : A) × Memᴰ a xs × (b ≡ f a)
Memᴰ-map_elim f [] m = elim m [ ]
Memᴰ-map_elim f (x ∷ xs) (Memᴰ.head e) = (x, Memᴰ.head refl, e)
Memᴰ-map_elim f (x ∷ xs) (Memᴰ.tail m) =
    let (a, at, e) = Memᴰ-map_elim f xs m in (a, Memᴰ.tail at, e)

-- Two lists of the same length, related row by row.
abbrev pub Pairwise : {A B : Type 0} → (A → B → Type 0) → List A → List B → Type 0
Pairwise R [] [] = Unit
Pairwise R [] (y ∷ ys) = ⊥
Pairwise R (x ∷ xs) [] = ⊥
Pairwise R (x ∷ xs) (y ∷ ys) = R x y × Pairwise R xs ys

module _ {A B : Type 0} (R : A → B → Type 0) where
  pub Pairwise-set_where :
      (p : B → Bool) (f : B → B) (xs : List A) (ys : List B)
      → ((a : A) (b : B) → Memᴰ a xs → Memᴰ b ys → R a b → p b ≡ true → R a (f b))
      → Pairwise R xs ys
      → Pairwise R xs (set_where p f ys)
  Pairwise-set_where p f [] [] step h = tt
  Pairwise-set_where p f [] (y ∷ ys) step h = absurd h
  Pairwise-set_where p f (x ∷ xs) [] step h = absurd h
  Pairwise-set_where p f (x ∷ xs) (y ∷ ys) step h =
      let rest =
        Pairwise-set_where p f xs ys (λ a b ma mb. step a b (Memᴰ.tail ma) (Memᴰ.tail mb)) h.1 in
      elim (Bool-cases (p y)) [
        | inl hit ↦ rw hit (step x y (Memᴰ.head refl) (Memᴰ.head refl) h.0 hit, rest)
        | inr miss ↦ rw miss (h.0, rest)
      ]

  pub Pairwise-Memᴰ :
      (xs : List A) (ys : List B) {b : B}
      → Pairwise R xs ys
      → Memᴰ b ys
      → (a : A) × Memᴰ a xs × R a b
  Pairwise-Memᴰ xs [] h m = elim m [ ]
  Pairwise-Memᴰ [] (y ∷ ys) h m = absurd h
  Pairwise-Memᴰ (x ∷ xs) (y ∷ ys) h (Memᴰ.head e) = (x, Memᴰ.head refl, subst (R x) (sym e) h.0)
  Pairwise-Memᴰ (x ∷ xs) (y ∷ ys) h (Memᴰ.tail m) =
      let (a, at, r) = Pairwise-Memᴰ xs ys h.1 m in (a, Memᴰ.tail at, r)

pub Pairwise-refl :
    {A : Type 0} (R : A → A → Type 0) → ((a : A) → R a a) → (xs : List A) → Pairwise R xs xs
Pairwise-refl R r [] = tt
Pairwise-refl R r (x ∷ xs) = (r x, Pairwise-refl R r xs)
