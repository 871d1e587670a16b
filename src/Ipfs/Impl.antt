-- ===== src/Ipfs/Impl.antt =====
-- The store over IPFS implements the `Store` interface.
use didem.Base.{ℕ}
use didem.Storage.Store.{Store}
use didem.Storage.TxSet.{ChainEnv}
use didem.Ipfs
use didem.Ipfs.{IpfsEnv, IpfsStorage}
use didem.Ipfs.Objects
use didem.Ipfs.Index
use didem.Ipfs.Genesis
use didem.Ipfs.Lookup
use didem.Ipfs.History

-- `fuel` is for the walk over a block's tree, which an IPFS network could make as long as it likes.
abbrev pub ipfs_store : {I D B : Type 0} → IpfsEnv I D B → ChainEnv → ℕ → Store (IpfsStorage I D B)
ipfs_store env chain_env fuel = record {
  lookup_did = Lookup.lookup_did env;
  did_history = History.did_history env;
  claims = Lookup.claims env;
  nodes = Lookup.nodes env;
  node = Lookup.node env;
  has_genesis_applied = Genesis.has_genesis_applied env;
  apply_genesis = Genesis.apply_genesis env chain_env;
  apply_tx = Index.apply_tx env;
  start_test = Ipfs.start_test env;
  complete_test = Ipfs.complete_test env;
  put_tx = Objects.put_tx env;
  get_tx = Objects.get_tx env;
  put_block = Objects.put_block env;
  get_block = Objects.get_block env;
  all_tx = Objects.all_tx env fuel;
  put_set = Objects.put_set env;
  get_set = Objects.get_set env;
  get_tx_block = Lookup.get_tx_block env;
  mark_block = Index.mark_block env fuel;
  update_last_applied = Genesis.update_last_applied env;
  get_last_applied = Genesis.get_last_applied env;
}
