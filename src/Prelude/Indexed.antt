-- ===== src/Prelude/Indexed.antt =====
-- Lists read and written by index, and sums over them. A sum of ones is the length, and a sum of a
-- test is the number of elements that meet it.
use capstone_monitor.Prelude.{
  ℕ, zero, suc, ◌+◌, ◌≡◌, ◌≢◌, ◌<◌, ap, refl, List, [], ◌∷◌, ◌++◌, some, arith, length, take, set,
  get_elem?, ◌≤◌, ◌⊎◌, inl, inr,
}

module _ {A : Type 0} where
  abbrev pub sum_of : (A → ℕ) → List A → ℕ
  sum_of f [] = 0
  sum_of f (x ∷ xs) = f x + sum_of f xs

  pub sum_of-append : (f : A → ℕ) (xs ys : List A) → sum_of f (xs ++ ys) ≡ sum_of f xs + sum_of f ys
  sum_of-append f [] ys = omega arith
  sum_of-append f (x ∷ xs) ys = omega (arith, sum_of-append f xs ys)

  pub sum_of-set :
      (f : A → ℕ) (i : ℕ) (xs : List A) (v : A) {x : A}
      → get_elem? xs i ≡ some x
      → sum_of f (set xs i v) + f x ≡ sum_of f xs + f v
  sum_of-set f i [] v h = absurd (ground arith)
  sum_of-set f zero (y ∷ xs) v {x} h = let e : f y ≡ f x = ap f (cc) in omega arith
  sum_of-set f (suc i) (y ∷ xs) v h = omega (arith, sum_of-set f i xs v h)

  pub sum_of-take :
      (f : A → ℕ) (n : ℕ) (xs : List A) {x : A}
      → length xs ≡ suc n
      → get_elem? xs n ≡ some x
      → sum_of f (take n xs) + f x ≡ sum_of f xs
  sum_of-take f n [] l h = absurd (omega arith)
  sum_of-take f zero (y ∷ []) {x} l h = let e : f y ≡ f x = ap f (cc) in omega arith
  sum_of-take f zero (y ∷ z ∷ xs) l h = absurd (omega arith)
  sum_of-take f (suc n) (y ∷ xs) l h = omega (arith, sum_of-take f n xs (omega arith) h)

  pub length-set : (i : ℕ) (xs : List A) (v : A) → length (set xs i v) ≡ length xs
  length-set i [] v = refl
  length-set zero (x ∷ xs) v = refl
  length-set (suc i) (x ∷ xs) v = ap suc (length-set i xs v)

  pub get-set_self :
      (i : ℕ) (xs : List A) (v : A) {x : A}
      → get_elem? xs i ≡ some x
      → get_elem? (set xs i v) i ≡ some v
  get-set_self i [] v h = absurd (ground arith)
  get-set_self zero (x ∷ xs) v h = refl
  get-set_self (suc i) (x ∷ xs) v h = get-set_self i xs v h

  pub get-set-ne :
      (i j : ℕ) (xs : List A) (v : A) → i ≢ j → get_elem? (set xs i v) j ≡ get_elem? xs j
  get-set-ne i j [] v h = refl
  get-set-ne zero zero (x ∷ xs) v h = absurd (h refl)
  get-set-ne zero (suc j) (x ∷ xs) v h = refl
  get-set-ne (suc i) zero (x ∷ xs) v h = refl
  get-set-ne (suc i) (suc j) (x ∷ xs) v h = get-set-ne i j xs v (λ e. h (ap suc e))

  pub get-take : (n j : ℕ) (xs : List A) → j < n → get_elem? (take n xs) j ≡ get_elem? xs j
  get-take zero j xs h = absurd (omega arith)
  get-take (suc n) j [] h = refl
  get-take (suc n) zero (x ∷ xs) h = refl
  get-take (suc n) (suc j) (x ∷ xs) h = get-take n j xs (omega arith)

  pub get-lt-length : (i : ℕ) (xs : List A) {x : A} → get_elem? xs i ≡ some x → i < length xs
  get-lt-length i [] h = absurd (ground arith)
  get-lt-length zero (x ∷ xs) h = omega arith
  get-lt-length (suc i) (x ∷ xs) h = omega (arith, get-lt-length i xs h)

  pub get_below : (i : ℕ) (xs : List A) → i < length xs → (x : A) × (get_elem? xs i ≡ some x)
  get_below i [] h = absurd (omega arith)
  get_below zero (x ∷ xs) h = (x, refl)
  get_below (suc i) (x ∷ xs) h = get_below i xs (omega arith)

  pub sum_of_ones : (xs : List A) → sum_of (λ _. 1) xs ≡ length xs
  sum_of_ones [] = refl
  sum_of_ones (x ∷ xs) = omega (arith, sum_of_ones xs)

  pub get-append_left :
      (m : ℕ) (xs ys : List A) {x : A} → get_elem? xs m ≡ some x → get_elem? (xs ++ ys) m ≡ some x
  get-append_left m [] ys h = absurd (ground arith)
  get-append_left zero (x ∷ xs) ys h = h
  get-append_left (suc m) (x ∷ xs) ys h = get-append_left m xs ys h

  pub get-append_last : (xs : List A) (x : A) → get_elem? (xs ++ x ∷ []) (length xs) ≡ some x
  get-append_last [] x = refl
  get-append_last (y ∷ xs) x = get-append_last xs x

  pub get-append_cases :
      (m : ℕ) (xs : List A) (x : A) {y : A}
      → get_elem? (xs ++ x ∷ []) m ≡ some y
      → (get_elem? xs m ≡ some y) ⊎ (x ≡ y)
  get-append_cases zero [] x h = inr (cc)
  get-append_cases (suc m) [] x h = absurd (ground arith)
  get-append_cases zero (z ∷ xs) x h = inl h
  get-append_cases (suc m) (z ∷ xs) x h = get-append_cases m xs x h

  -- An element counts in every sum.
  pub get-le-sum_of :
      (f : A → ℕ) (m : ℕ) (xs : List A) {x : A} → get_elem? xs m ≡ some x → f x ≤ sum_of f xs
  get-le-sum_of f m [] h = absurd (ground arith)
  get-le-sum_of f zero (y ∷ xs) {x} h = let e : f y ≡ f x = ap f (cc) in omega arith
  get-le-sum_of f (suc m) (y ∷ xs) h = omega (arith, get-le-sum_of f m xs h)
