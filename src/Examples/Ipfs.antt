-- ===== src/Examples/Ipfs.antt =====
-- The store over IPFS on a network that has every object of one byte, with a database as a list.
use didem.Base.{
  ◌<◌, ◌≤◌, true, false, Option, none, some, List, [], ◌∷◌, ◌++◌, String, ok, err, panic, ◌≡◌, ◌≢◌,
  refl, arith, nat_eq, if◌then◌else◌, string_eq, ltb, inl, inr, pebble_not_found, invalid_id, Error,
  is_not_found, Bool-cases, ◌then?◌, nat_eqb,
}
use didem.Tx.{Cid, Bytes, unmarshal}
use didem.Storage.Chain.{unvalidated, accepted, validated}
use didem.Storage.Tree.{walk, add_tx}
use didem.Storage.Validator.{check_txs, is_block_valid}
use didem.Consensus.Handlers.{bytes_equal}
use didem.Examples.Engine.{small_chain}
use didem.Examples.Objects.{small_codec, small_judge, a_tx, a_block, first_byte}
use didem.Ipfs.{
  Reading, found, failed, Pebble, NodeApi, IpfsEnv, IpfsStorage, flip, metadata_get, metadata_set,
  metadata_iter,
}
use didem.Ipfs.Keys.{typed_key, did_history as did_history_table, put_uint32, uint32, block_state}
use didem.Ipfs.KeyLaws.{IsPlain, typed_key-injective}
use didem.Ipfs.Objects.{get_tx, get_raw, get_block, get_set, all_tx}
use didem.Ipfs.Index.{
  mark_block, accept_block, index_block, index_found, index_and_commit, index_txs, apply_to,
  index_tx, index_tx_did, maybe_pin,
}
use didem.Ipfs.Genesis.{update_last_applied, get_last_applied}
use didem.Ipfs.History.{all_tx_n_workers, cast_values, history_entries}
use didem.Ipfs.HistoryLaws.{in_channel, did_history-blocked}
use didem.Ipfs.Workers.{Workers, start_workers, WorkerRun, starts, next, takes, fails, failures}
use didem.Ipfs.Impl.{ipfs_store}
use didem.Ipfs.Refused.{HasOwnErrors, new_block_refused}
use didem.Ipfs.Trial.{IsTrialOf, IsPinnedTrial, trial_isolated}
use didem.Ipfs.Atomic.{IsAtomic, index_block-IsAtomic}
use didem.Ipfs.Applied.{ReadsBack, get_last_applied-accepted}

abbrev Entries : Type 0
Entries = List (Bytes × Bytes)

-- a batch is the entries to come
abbrev read : Entries → Bytes → Reading
read [] k = failed pebble_not_found
read ((j, v) ∷ d) k = if bytes_equal j k then found v else read d k

abbrev small_pebble : Pebble Entries Entries
small_pebble = record {
  get = read;
  set = λ k v d. (ok tt, (k, v) ∷ d);
  iter = λ d lower upper. d;
  new_batch = λ d. [];
  new_indexed_batch = λ d. [];
  batch_get = λ d b k. read (b ++ d) k;
  batch_set = λ k v b. (ok tt, (k, v) ∷ b);
  batch_delete = λ k b. (ok tt, b);
  batch_iter = λ d b lower upper. b ++ d;
  batch_close = λ b. (ok tt, b);
  close_nil = panic;
  commit = λ b d. (ok tt, b ++ d);
}

abbrev small_api : NodeApi Unit
small_api = record {
  put = λ d i. (ok (first_byte (some d)), i);
  get = λ i c. ok (c ∷ []);
  pin = λ c i. (ok tt, i);
  intn = λ i. (0, i);
}

abbrev cast_one : Bytes → Option Cid
cast_one (c ∷ []) = if ltb c 90 then some c else none
cast_one _ = none

abbrev small_ipfs : IpfsEnv Unit Entries Entries
small_ipfs = record {
  kv = small_pebble;
  api = small_api;
  cids = record {
    to_string = λ c. "z";
    to_bytes = λ c. c ∷ [];
    cast = cast_one;
    parse = cast_one;
    text = λ b. "";
    key_order = λ l. l;
    arrival = λ l. l;
  };
  codec = small_codec;
}

-- no object can be fetched
abbrev offline_ipfs : IpfsEnv Unit Entries Entries
offline_ipfs = record small_ipfs { api = record small_api { get = λ i c. err invalid_id } }

-- block 7 was validated
abbrev idle_store : IpfsStorage Unit Entries Entries
idle_store = record {
  ipfs_node = tt;
  metadata = (typed_key block_state ("z" ∷ []), 1 ∷ 0 ∷ 0 ∷ 0 ∷ []) ∷ [];
  pf_tip_apply = none;
}

abbrev trial_store : IpfsStorage Unit Entries Entries
trial_store = record idle_store { pf_tip_apply = some [] }

abbrev history_store : IpfsStorage Unit Entries Entries
history_store = record idle_store { metadata = ([], 1 ∷ []) ∷ ([], 31 ∷ []) ∷ [] }

abbrev lost_store : IpfsStorage Unit Entries Entries
lost_store = record idle_store {
  metadata = ([], 1 ∷ []) ∷ ([], 2 ∷ []) ∷ ([], 3 ∷ []) ∷ ([], 4 ∷ []) ∷ [];
}

bytes_equal-same : (k : Bytes) → bytes_equal k k ≡ true
bytes_equal-same [] = refl
bytes_equal-same (a ∷ k) = ground (arith, bytes_equal-same k)

small-ReadsBack : ReadsBack small_ipfs
small-ReadsBack d k v h = rw (bytes_equal-same k) refl

read-own : (d : Entries) (k : Bytes) (e : Error) → read d k ≡ failed e → is_not_found e ≡ false
read-own [] k e h = ground arith
read-own ((j, v) ∷ d) k e h = elim (Bool-cases (bytes_equal j k)) [
  | inl same ↦ absurd (ground arith)
  | inr other ↦ read-own d k e (rw (read, other) at h)
]

small-HasOwnErrors : HasOwnErrors small_ipfs
small-HasOwnErrors = record {
  of_get = read-own;
  of_batch = λ d b. read-own (b ++ d);
  of_node = λ i c e h. cc;
}

z-IsPlain : IsPlain (122 ∷ [])
z-IsPlain = ((λ p. ground arith), tt)

abbrev two_colons : String
two_colons = "did:a:b"

abbrev a_cid : String
a_cid = "z"

typed_key-injective_example :
    (did_history_table ≡ did_history_table) × (two_colons ≡ two_colons) × (a_cid ≡ a_cid)
typed_key-injective_example =
    typed_key-injective did_history_table did_history_table two_colons two_colons a_cid a_cid
      z-IsPlain z-IsPlain refl

fetch_returns : (c : Cid) → get_tx small_ipfs history_store c ≢ panic
unfolding get_tx get_raw unmarshal
fetch_returns c h = elim (Bool-cases (nat_eqb c 31)) [
  | inl same ↦ absurd (ground arith)
  | inr other ↦ absurd (ground arith)
]

offline_returns : (c : Cid) → get_tx offline_ipfs lost_store c ≢ panic
unfolding get_tx get_raw
offline_returns c h = cc

one_fails : failures (get_tx small_ipfs history_store) (in_channel small_ipfs history_store) < 3
unfolding get_tx get_raw unmarshal cast_values history_entries metadata_iter
one_fails = ground arith

all_fail : 3 ≤ failures (get_tx offline_ipfs lost_store) (1 ∷ 2 ∷ 3 ∷ [])
unfolding get_tx get_raw
all_fail = ground arith

lost_channel : in_channel offline_ipfs lost_store ≡ (1 ∷ 2 ∷ 3 ∷ []) ++ (4 ∷ [])
unfolding cast_values history_entries metadata_iter
lost_channel = refl

-- three workers have taken a CID each, and the first one has failed
abbrev under_way : Workers
under_way = record {
  waiting = 4 ∷ [];
  free = 0;
  busy = 3 ∷ 2 ∷ [];
  stuck = 1;
  left = 3;
  txs = [];
  returned = false;
}

under_way-WorkerRun :
    WorkerRun
      (get_tx offline_ipfs lost_store)
      (start_workers all_tx_n_workers (in_channel offline_ipfs lost_store))
      under_way
unfolding start_workers cast_values history_entries metadata_iter get_tx get_raw
under_way-WorkerRun =
    next
      (next
        (next (next starts (takes 1 (2 ∷ 3 ∷ 4 ∷ []) 2 refl refl refl))
          (takes 2 (3 ∷ 4 ∷ []) 1 refl refl refl))
        (takes 3 (4 ∷ []) 0 refl refl refl))
      (fails (3 ∷ 2 ∷ []) [] 1 _ refl refl refl)

did_history-blocked_example : under_way.returned ≡ false
did_history-blocked_example =
    did_history-blocked offline_ipfs lost_store (1 ∷ 2 ∷ 3 ∷ []) [] 4 under_way lost_channel
      all_fail under_way-WorkerRun

walked_after_mark :
    all_tx small_ipfs 4 (mark_block small_ipfs 4 a_block.id unvalidated idle_store).1 a_block
    ≡ ok ((31, a_tx) ∷ [])
unfolding all_tx walk add_tx get_set get_tx get_raw unmarshal mark_block
walked_after_mark = refl

new_block_refused_example :
    (is_block_valid (ipfs_store small_ipfs small_chain 4) small_judge a_block true idle_store).0
    ≢ ok tt
new_block_refused_example =
    new_block_refused small_ipfs small-HasOwnErrors small_chain 4 small_judge a_block idle_store
      walked_after_mark refl

trial_isolated_example :
    IsPinnedTrial small_ipfs idle_store.metadata tt 7
      (mark_block small_ipfs 4 7 accepted trial_store).1
    × IsTrialOf idle_store.metadata tt
        (check_txs
          (ipfs_store small_ipfs small_chain 4)
          small_judge
          false
          ((31, a_tx) ∷ [])
          trial_store).1
trial_isolated_example =
    trial_isolated small_ipfs 4 idle_store.metadata tt 7 small_chain small_judge accepted false
      ((31, a_tx) ∷ []) trial_store (refl, refl, ([], refl))

indexed_pair : (index_txs small_ipfs false 7 ((31, a_tx) ∷ []) (tt, [])).0 ≡ ok tt
unfolding index_txs apply_to index_tx index_tx_did maybe_pin flip
indexed_pair = refl

index_block-IsAtomic_example :
    IsAtomic small_ipfs 4 7 idle_store (index_block small_ipfs 4 7 idle_store)
index_block-IsAtomic_example = index_block-IsAtomic small_ipfs 4 7 idle_store refl

updates : (update_last_applied small_ipfs 7 idle_store).0 ≡ ok tt
unfolding update_last_applied metadata_set
updates = refl

validates_block : (mark_block small_ipfs 4 7 validated idle_store).0 ≡ ok tt
unfolding mark_block metadata_get metadata_set typed_key uint32
validates_block = refl

accepts_block :
    (mark_block small_ipfs 4 7 accepted (mark_block small_ipfs 4 7 validated idle_store).1).0
    ≡ ok tt
unfolding mark_block accept_block index_block index_found index_and_commit index_txs apply_to
    index_tx index_tx_did maybe_pin flip all_tx walk add_tx get_set get_tx get_block get_raw
    unmarshal metadata_get metadata_set typed_key uint32 put_uint32
accepts_block = refl

get_last_applied-accepted_example :
    get_last_applied small_ipfs
      (mark_block small_ipfs 4 7 accepted (mark_block small_ipfs 4 7 validated idle_store).1).1
    ≡ (get_block small_ipfs
          (mark_block small_ipfs 4 7 accepted (mark_block small_ipfs 4 7 validated idle_store).1).1
          7
        then? λ b. ok (some b))
get_last_applied-accepted_example =
    get_last_applied-accepted small_ipfs 4 7 idle_store small-ReadsBack refl refl validates_block
      accepts_block
