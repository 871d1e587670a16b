-- ===== src/Pool/Order.antt =====
-- Lemmas on the order of times and on places of a list, for pkg/did/consensus/mempool.go.
use didem.Base.{
  ℕ, zero, suc, ◌+◌, ◌≤◌, ◌<◌, Bool, true, false, Option, none, some, List, [], ◌∷◌, nat_eqb,
  if◌then◌else◌, get_elem?, set, length, length-set, ok, ◌≡◌, ◌≢◌, refl, arith,
}
use didem.Tx.{Int64, pos, negsuc, Tx}
use didem.Pool.{int_less, at, less, swap}

abbrev pub above_zero : Int64 → ℕ
above_zero (pos n) = n
above_zero (negsuc n) = 0

abbrev pub below_zero : Int64 → ℕ
below_zero (pos n) = 0
below_zero (negsuc n) = n + 1

-- `a` is not after `b`
abbrev pub IsBefore : Int64 → Int64 → Type 0
IsBefore a b = above_zero a + below_zero b ≤ above_zero b + below_zero a

pub IsBefore-trans : (a b c : Int64) → IsBefore a b → IsBefore b c → IsBefore a c
IsBefore-trans a b c h k = omega arith

pub int_less-true : (a b : Int64) → int_less a b ≡ true → IsBefore a b
int_less-true (pos a) (pos b) h = ground arith
int_less-true (pos a) (negsuc b) h = cc
int_less-true (negsuc a) (pos b) h = ground arith
int_less-true (negsuc a) (negsuc b) h = ground arith

pub int_less-false : (a b : Int64) → int_less a b ≡ false → IsBefore b a
int_less-false (pos a) (pos b) h = ground arith
int_less-false (pos a) (negsuc b) h = ground arith
int_less-false (negsuc a) (pos b) h = cc
int_less-false (negsuc a) (negsuc b) h = ground arith

pub not_less : (a b : Int64) → IsBefore a b → int_less b a ≡ false
not_less (pos a) (pos b) h = ground arith
not_less (pos a) (negsuc b) h = absurd (omega arith)
not_less (negsuc a) (pos b) h = refl
not_less (negsuc a) (negsuc b) h = ground arith

-- the time at a place, 0 behind the end
abbrev pub ts_of : Option Tx → Int64
ts_of none = pos 0
ts_of (some t) = t.ts

abbrev pub ts_at : List Tx → ℕ → Int64
ts_at l i = ts_of (get_elem? l i)

pub in_range : (l : List Tx) (i : ℕ) → i < length l → (t : Tx) × (get_elem? l i ≡ some t)
in_range [] i h = absurd (omega arith)
in_range (t ∷ l) zero h = (t, refl)
in_range (t ∷ l) (suc i) h = in_range l i (omega arith)

pub get_elem?-set :
    (l : List Tx) (i j : ℕ) (t : Tx)
    → i < length l
    → get_elem? (set l i t) j ≡ (if nat_eqb j i then some t else get_elem? l j)
get_elem?-set [] i j t h = absurd (omega arith)
get_elem?-set (a ∷ l) zero zero t h = refl
get_elem?-set (a ∷ l) zero (suc j) t h = ground arith
get_elem?-set (a ∷ l) (suc i) zero t h = ground arith
get_elem?-set (a ∷ l) (suc i) (suc j) t h = ground (arith, get_elem?-set l i j t)

pub at-eq : (l : List Tx) (i : ℕ) {t : Tx} → get_elem? l i ≡ some t → at l i ≡ ok t
at-eq l i h = ground arith

pub less-eq :
    (l : List Tx) (i j : ℕ)
    → i < length l
    → j < length l
    → less l i j ≡ ok (int_less (ts_at l i) (ts_at l j))
unfolding less
less-eq l i j hi hj =
    let (a, p) = in_range l i hi in
    let (b, q) = in_range l j hj in rw (at-eq l i p, at-eq l j q, p, q) refl

-- how many transactions a test takes
abbrev pub count : (Tx → Bool) → List Tx → ℕ
count p [] = 0
count p (t ∷ l) = (if p t then 1 else 0) + count p l

-- the same transactions, each as often
abbrev pub SameContents : List Tx → List Tx → Type 0
SameContents l l' = (p : Tx → Bool) → count p l ≡ count p l'

count-set :
    (p : Tx → Bool) (l : List Tx) (i : ℕ) (a t : Tx)
    → get_elem? l i ≡ some a
    → count p (set l i t) + (if p a then 1 else 0) ≡ count p l + (if p t then 1 else 0)
count-set p [] i a t h = cc
count-set p (b ∷ l) zero a t h = ground arith
count-set p (b ∷ l) (suc i) a t h = omega (arith, count-set p l i a t h)

-- `l'` is `l` with two places exchanged
pub record IsSwapped (l l' : List Tx) (i j : ℕ) : Type 0 where
  pub same_length : length l' ≡ length l
  pub same_contents : SameContents l l'
  pub at_left : ts_at l' i ≡ ts_at l j
  pub at_right : ts_at l' j ≡ ts_at l i
  pub elsewhere : (k : ℕ) → k ≢ i → k ≢ j → ts_at l' k ≡ ts_at l k
  pub moved : get_elem? l' j ≡ get_elem? l i
  pub kept : (k : ℕ) → k ≢ i → k ≢ j → get_elem? l' k ≡ get_elem? l k

pub swap-IsSwapped :
    (l : List Tx) (i j : ℕ)
    → i < length l
    → j < length l
    → (l' : List Tx) × (swap l i j ≡ ok l') × IsSwapped l l' i j
unfolding swap
swap-IsSwapped l i j hi hj =
    let (a, p) = in_range l i hi in
    let (b, q) = in_range l j hj in
    let l1 = set l i b in
    let l2 = set l1 j a in
    let h1 : length l1 ≡ length l = length-set l i b in
    let h2 : length l2 ≡ length l1 = length-set l1 j a in
    let hj1 : j < length l1 = omega arith in
    let found : get_elem? l1 j ≡ some b = ground (arith, get_elem?-set l i j b) in
    (
      l2,
      rw (at-eq l i p, at-eq l j q) refl,
      record {
        same_length = omega arith;
        same_contents = λ p'. omega (arith, count-set p' l i a b p, count-set p' l1 j b a found);
        at_left = ground (arith, get_elem?-set l1 j i a, get_elem?-set l i i b);
        at_right = ground (arith, get_elem?-set l1 j j a);
        elsewhere = λ k ki kj. ground (arith, get_elem?-set l1 j k a, get_elem?-set l i k b);
        moved = ground (arith, get_elem?-set l1 j j a);
        kept = λ k ki kj. ground (arith, get_elem?-set l1 j k a, get_elem?-set l i k b);
      },
    )
