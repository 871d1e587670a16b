-- ===== src/Base/Lists.antt =====
-- Lists measured by native numbers, and the predicates on lists that the components share.
use Prim.Native.Nat.{ℕ, zero, suc, ◌+◌, ◌-◌, ◌≤◌, ◌<◌}
use mathlib.Core.Path.{◌≡◌, refl, ap}
use mathlib.Core.Logic.{◌≢◌}
use mathlib.Core.List.{List, [], ◌∷◌, ◌++◌}
use mathlib.Core.Option.{Option, none, some}
use native.Mathlib.Omega.{arith}

module _ {ℓ} {A : Type ℓ} where
  abbrev pub length : List A → ℕ
  length [] = 0
  length (x ∷ xs) = suc (length xs)

  abbrev pub get_elem? : List A → ℕ → Option A
  get_elem? [] i = none
  get_elem? (x ∷ xs) zero = some x
  get_elem? (x ∷ xs) (suc i) = get_elem? xs i

  abbrev pub set : List A → ℕ → A → List A
  set [] i v = []
  set (x ∷ xs) zero v = v ∷ xs
  set (x ∷ xs) (suc i) v = x ∷ set xs i v

  abbrev pub take : ℕ → List A → List A
  take zero xs = []
  take (suc n) [] = []
  take (suc n) (x ∷ xs) = x ∷ take n xs

  abbrev pub drop : ℕ → List A → List A
  drop zero xs = xs
  drop (suc n) [] = []
  drop (suc n) (x ∷ xs) = drop n xs

  abbrev pub replicate : ℕ → A → List A
  replicate zero x = []
  replicate (suc n) x = x ∷ replicate n x

  pub length-append : (xs ys : List A) → length (xs ++ ys) ≡ length xs + length ys
  length-append [] ys = omega arith
  length-append (x ∷ xs) ys = omega (arith, length-append xs ys)

  pub length-set : (xs : List A) (i : ℕ) (v : A) → length (set xs i v) ≡ length xs
  length-set [] i v = refl
  length-set (x ∷ xs) zero v = refl
  length-set (x ∷ xs) (suc i) v = ap suc (length-set xs i v)

module _ {ℓ} {A : Type ℓ} where
  pub take-append : (xs ys : List A) → take (length xs) (xs ++ ys) ≡ xs
  take-append [] ys = refl
  take-append (x ∷ xs) ys = ap (λ l. x ∷ l) (take-append xs ys)

  pub drop-append : (xs ys : List A) → drop (length xs) (xs ++ ys) ≡ ys
  drop-append [] ys = refl
  drop-append (x ∷ xs) ys = drop-append xs ys

  pub take_all : (n : ℕ) (xs : List A) → length xs ≤ n → take n xs ≡ xs
  take_all zero [] h = refl
  take_all zero (x ∷ xs) h = absurd (omega arith)
  take_all (suc n) [] h = refl
  take_all (suc n) (x ∷ xs) h = ap (λ l. x ∷ l) (take_all n xs (omega arith))

  pub drop_all : (n : ℕ) (xs : List A) → length xs ≤ n → drop n xs ≡ []
  drop_all zero [] h = refl
  drop_all zero (x ∷ xs) h = absurd (omega arith)
  drop_all (suc n) [] h = refl
  drop_all (suc n) (x ∷ xs) h = drop_all n xs (omega arith)

  pub length-take : (n : ℕ) (xs : List A) → n ≤ length xs → length (take n xs) ≡ n
  length-take zero xs h = refl
  length-take (suc n) [] h = absurd (omega arith)
  length-take (suc n) (x ∷ xs) h = ap suc (length-take n xs (omega arith))

  pub length-drop : (n : ℕ) (xs : List A) → length (drop n xs) ≡ length xs - n
  length-drop zero xs = omega arith
  length-drop (suc n) [] = omega arith
  length-drop (suc n) (x ∷ xs) = omega (arith, length-drop n xs)

  pub length-replicate : (n : ℕ) (x : A) → length (replicate n x) ≡ n
  length-replicate zero x = refl
  length-replicate (suc n) x = ap suc (length-replicate n x)

-- A predicate on every element, by recursion, so that it computes to a tuple.
abbrev pub All {ℓ κ} : {A : Type ℓ} → (A → Type κ) → List A → Type κ
All P [] = Unit
All P (x ∷ xs) = P x × All P xs

pub All-append {ℓ κ} :
    {A : Type ℓ} (P : A → Type κ) (xs ys : List A) → All P xs → All P ys → All P (xs ++ ys)
All-append P [] ys hx hy = hy
All-append P (x ∷ xs) ys hx hy = (hx.0, All-append P xs ys hx.1 hy)

pub All-map {ℓ κ μ} :
    {A : Type ℓ} {P : A → Type κ} {Q : A → Type μ} (xs : List A)
    → ((a : A) → P a → Q a)
    → All P xs
    → All Q xs
All-map [] f h = tt
All-map (x ∷ xs) f h = (f x h.0, All-map xs f h.1)

pub get_elem?-set_same {ℓ} :
    {A : Type ℓ} (l : List A) (p : ℕ) {x : A} (v : A)
    → get_elem? l p ≡ some x
    → get_elem? (set l p v) p ≡ some v
get_elem?-set_same [] p v h = cc
get_elem?-set_same (a ∷ l) zero v h = refl
get_elem?-set_same (a ∷ l) (suc p) v h = get_elem?-set_same l p v h

pub get_elem?-set_other {ℓ} :
    {A : Type ℓ} (l : List A) (p q : ℕ) (v : A) → q ≢ p → get_elem? (set l p v) q ≡ get_elem? l q
get_elem?-set_other [] p q v n = refl
get_elem?-set_other (a ∷ l) zero zero v n = absurd (n refl)
get_elem?-set_other (a ∷ l) zero (suc q) v n = refl
get_elem?-set_other (a ∷ l) (suc p) zero v n = refl
get_elem?-set_other (a ∷ l) (suc p) (suc q) v n = get_elem?-set_other l p q v (λ e. n (ap suc e))

pub get_elem?-append {ℓ} :
    {A : Type ℓ} (l : List A) (q : ℕ) (x : A)
    → q < length l
    → get_elem? (l ++ (x ∷ [])) q ≡ get_elem? l q
get_elem?-append [] q x h = absurd (omega arith)
get_elem?-append (a ∷ l) zero x h = refl
get_elem?-append (a ∷ l) (suc q) x h = get_elem?-append l q x (omega arith)

pub get_elem?-append_last {ℓ} :
    {A : Type ℓ} (l : List A) (x : A) → get_elem? (l ++ (x ∷ [])) (length l) ≡ some x
get_elem?-append_last [] x = refl
get_elem?-append_last (a ∷ l) x = get_elem?-append_last l x

pub lt_of_get_elem? {ℓ} :
    {A : Type ℓ} (l : List A) (p : ℕ) {x : A} → get_elem? l p ≡ some x → p < length l
lt_of_get_elem? [] p h = cc
lt_of_get_elem? (a ∷ l) zero h = omega arith
lt_of_get_elem? (a ∷ l) (suc p) h = let r = lt_of_get_elem? l p h in omega arith
