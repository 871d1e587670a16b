-- ===== src/Storage/MemStore/Impl.antt =====
-- The in-memory store implements the `Store` interface.
use didem.Base.{some, ok, ◌then?◌}
use didem.Storage.Codec.{Codec}
use didem.Storage.Store.{Store}
use didem.Storage.MemStore
use didem.Storage.MemStore.{MemStore}
use didem.Storage.MemStore.Apply
use didem.Storage.MemStore.Walk

abbrev pub mem_store : Codec → Store MemStore
mem_store c = record {
  lookup_did = λ m id. MemStore.lookup_did c m id then? λ d. ok (some d);
  did_history = MemStore.did_history;
  claims = MemStore.claims_of c;
  nodes = MemStore.node_ids;
  node = λ m id. MemStore.node c m id then? λ n. ok (some n);
  has_genesis_applied = MemStore.has_genesis_applied;
  apply_genesis = Apply.apply_genesis c;
  apply_tx = Apply.apply_tx c;
  start_test = MemStore.start_test;
  complete_test = MemStore.complete_test;
  put_tx = MemStore.put_tx c;
  get_tx = MemStore.get_tx c;
  put_block = MemStore.put_block c;
  get_block = MemStore.get_block c;
  all_tx = Walk.all_tx c;
  put_set = MemStore.put_set c;
  get_set = MemStore.get_set c;
  get_tx_block = MemStore.get_tx_block c;
  mark_block = Apply.mark_block c;
  update_last_applied = MemStore.update_last_applied;
  get_last_applied = MemStore.get_last_applied c;
}
