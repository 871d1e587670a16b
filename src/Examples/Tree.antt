-- ===== src/Examples/Tree.antt =====
-- A block's tree in a store whose CIDs are numbers that contents of any length do not share.
use didem.Base.{
  ℕ, zero, suc, ◌+◌, ◌*◌, ◌<◌, ◌≤◌, Option, none, some, List, [], ◌∷◌, length, lookup, nat_eq, ok,
  ◌≡◌, ◌≢◌, ◌↔◌, refl, sym, ap, arith,
}
use didem.Tx.{Cid, Bytes, Tx, TxId, unmarshal}
use didem.Storage.Chain.{TxSet, max_block_tx_count}
use didem.Storage.Codec.{Codec}
use didem.Storage.TxSet.{new_tx_set}
use didem.Storage.Tree.Members.{In}
use didem.Storage.MemStore.{MemStore, new_mem_store, put_set, get_tx, get_obj}
use didem.Storage.MemStore.Walk.{all_tx}
use didem.Storage.MemStore.Objects.{IsAddressed}
use didem.Storage.MemStore.RoundTrip.{IsFaithful, all_tx-new_tx_set}
use didem.Examples.Engine.{small_chain}
use didem.Examples.Objects.{small_codec, a_tx, a_block}

-- `y` times 2 to the power of `n`
abbrev dbl : ℕ → ℕ → ℕ
dbl zero y = y
dbl (suc n) y = 2 * dbl n y

abbrev number : Bytes → ℕ
number [] = 0
number (a ∷ l) = dbl a (2 * number l + 1)

abbrev number_cid : Option Bytes → Cid
number_cid none = 0
number_cid (some d) = suc (number d)

dbl-positive : (a m : ℕ) → dbl a (2 * m + 1) ≢ 0
dbl-positive zero m h = omega arith
dbl-positive (suc a) m h = dbl-positive a m (omega arith)

abbrev SamePair : ℕ → ℕ → ℕ → ℕ → Type 0
SamePair a b m n = (a ≡ b) × (m ≡ n)

dbl-injective : (a b m n : ℕ) → dbl a (2 * m + 1) ≡ dbl b (2 * n + 1) → SamePair a b m n
dbl-injective zero zero m n h = (refl, omega arith)
dbl-injective zero (suc b) m n h = absurd (omega arith)
dbl-injective (suc a) zero m n h = absurd (omega arith)
dbl-injective (suc a) (suc b) m n h =
    let (p, q) = dbl-injective a b m n (omega arith) in (omega arith, q)

number-injective : (d e : Bytes) → number d ≡ number e → d ≡ e
number-injective [] [] h = refl
number-injective [] (b ∷ e) h = absurd (dbl-positive b (number e) (sym h))
number-injective (a ∷ d) [] h = absurd (dbl-positive a (number d) h)
number-injective (a ∷ d) (b ∷ e) h =
    let (p, q) = dbl-injective a b (number d) (number e) h in
    let rest : d ≡ e = number-injective d e q in cc

number_cid-distinct :
    (d : Option Bytes) (x : Bytes) → number_cid d ≡ number_cid (some x) → d ≡ some x
number_cid-distinct none x h = absurd (omega arith)
number_cid-distinct (some d) x h = ap some (number-injective d x (omega arith))

abbrev set_bytes : Option Cid → List Cid → Bytes
set_bytes none children = 0 ∷ children
set_bytes (some id) children = 1 ∷ id ∷ children

abbrev set_of : Bytes → Option TxSet
set_of (zero ∷ children) = some (record { children = children; tx = none; cid = 0 })
set_of (suc zero ∷ id ∷ children) = some (record { children = children; tx = some id; cid = 0 })
set_of _ = none

abbrev tx_of : Bytes → Option Tx
tx_of (suc (suc zero) ∷ _) = some a_tx
tx_of _ = none

abbrev number_codec : Codec
number_codec = record small_codec {
  marshal_set = λ t. some (set_bytes t.tx t.children);
  unmarshal_set = set_of;
  decoder = record { into_raw = tx_of; into_did = tx_of; into_node = λ d. none; into_any = tx_of };
  cid_of = number_cid;
}

set_of-set_bytes :
    (o : Option Cid) (children : List Cid)
    → set_of (set_bytes o children) ≡ some (record { children = children; tx = o; cid = 0 })
set_of-set_bytes none children = refl
set_of-set_bytes (some id) children = refl

number-IsFaithful : IsFaithful number_codec
number-IsFaithful = record {
  distinct = number_cid-distinct;
  sets = λ t. (set_bytes t.tx t.children, refl, set_of-set_bytes t.tx t.children);
}

-- two transactions
abbrev number_mem : MemStore
number_mem = record new_mem_store {
  objects = (261, some (2 ∷ 5 ∷ [])) ∷ (517, some (2 ∷ 6 ∷ [])) ∷ [];
}

abbrev two_ids : List Cid
two_ids = 261 ∷ 517 ∷ []

number_mem-IsAddressed : IsAddressed number_codec number_mem number_mem
number_mem-IsAddressed = (refl, (refl, tt))

first_known : get_tx number_codec number_mem 261 ≡ ok a_tx
unfolding get_tx get_obj unmarshal
first_known = refl

second_known : get_tx number_codec number_mem 517 ≡ ok a_tx
unfolding get_tx get_obj unmarshal
second_known = refl

some_ids : 0 < length two_ids
some_ids = ground arith

few_ids : length two_ids ≤ max_block_tx_count
few_ids = ground arith

all_tx-new_tx_set_example :
    (root : TxSet) × (m' : MemStore) × (new_tx_set
        (put_set number_codec)
        small_chain
        two_ids
        number_mem
      ≡ (ok root, m'))
    × ((r : List (TxId × Tx)) × (all_tx number_codec m' (record a_block { tx_root = root.cid })
          ≡ ok r)
        × ((x : Cid) → ((t : Tx) × (lookup x r ≡ some t)) ↔ In x two_ids))
all_tx-new_tx_set_example =
    all_tx-new_tx_set number_codec number-IsFaithful small_chain two_ids number_mem a_block
      number_mem-IsAddressed some_ids few_ids ((a_tx, first_known), ((a_tx, second_known), tt))
