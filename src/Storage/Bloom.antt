-- ===== src/Storage/Bloom.antt =====
-- pkg/storage/bloom.go: the filter that a block has of its transactions, over the library's filter.
use didem.Base.{ℕ, zero, suc, Bool, true, Option, none, some, List, [], ◌∷◌, get_elem?, ◌≡◌, ap}
use didem.Tx.{Cid}
use didem.Tx.{Bytes}

-- The filter with its size and its rate of false positives; `none` is an error.
pub record Filter (F : Type 0) : Type 0 where
  pub new_with_estimates : F
  pub add : Cid → F → F
  pub test : Cid → F → Bool
  pub gob_encode : F → Option Bytes
  pub gob_decode : Bytes → Option F

-- What the library promises: what was added tests true, also after more is added, and a filter that
-- is encoded is read back.
pub record Promises {F : Type 0} (lib : Filter F) : Type 0 where
  pub added : (c : Cid) (f : F) → lib.test c (lib.add c f) ≡ true
  pub kept : (c d : Cid) (f : F) → lib.test c f ≡ true → lib.test c (lib.add d f) ≡ true
  pub read_back : (f : F) {b : Bytes} → lib.gob_encode f ≡ some b → lib.gob_decode b ≡ some f

module _ {F : Type 0} (lib : Filter F) where
  unfoldable pub add_all : List Cid → F → F
  add_all [] f = f
  add_all (c ∷ cs) f = add_all cs (lib.add c f)

  -- `MakeBloom`
  unfoldable pub make_bloom : List Cid → Option Bytes
  unfolding add_all
  make_bloom txs = lib.gob_encode (add_all txs lib.new_with_estimates)

  abbrev pub tested : Cid → Option F → Option Bool
  tested c none = none
  tested c (some f) = some (lib.test c f)

  -- `BloomContains`
  unfoldable pub bloom_contains : Bytes → Cid → Option Bool
  bloom_contains b c = tested c (lib.gob_decode b)

module _ {F : Type 0} (lib : Filter F) (promises : Promises lib) where
  add_all-test :
      (cs : List Cid) (c : Cid) (f : F) → lib.test c f ≡ true → lib.test c (add_all lib cs f) ≡ true
  unfolding add_all
  add_all-test [] c f h = h
  add_all-test (d ∷ cs) c f h = add_all-test cs c (lib.add d f) (promises.kept c d f h)

  add_all-has :
      (cs : List Cid) (i : ℕ) (f : F) {c : Cid}
      → get_elem? cs i ≡ some c
      → lib.test c (add_all lib cs f) ≡ true
  unfolding add_all
  add_all-has [] i f h = cc
  add_all-has (d ∷ cs) zero f {c} h =
      let same : d ≡ c = cc in add_all-test cs c (lib.add d f) (rw same (promises.added c f))
  add_all-has (d ∷ cs) (suc i) f h = add_all-has cs i (lib.add d f) h

  -- The filter of a block has no false negatives: every transaction that it was made of tests true.
  pub bloom_contains-make_bloom :
      (txs : List Cid) (i : ℕ) (c : Cid) (b : Bytes)
      → make_bloom lib txs ≡ some b
      → get_elem? txs i ≡ some c
      → bloom_contains lib b c ≡ some true
  unfolding make_bloom bloom_contains
  bloom_contains-make_bloom txs i c b made at_i =
      rw (promises.read_back (add_all lib txs lib.new_with_estimates) made)
        (ap some (add_all-has txs i lib.new_with_estimates at_i))
