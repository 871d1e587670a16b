-- ===== src/Ipfs/Keys.antt =====
-- The keys of the metadata of internal/storage/ipfs.go (`typedKey`) and the four bytes of a block's
-- state.
use didem.Base.{ℕ, ◌+◌, ◌*◌, ◌/◌, ◌%◌, List, [], ◌∷◌, ◌++◌, String, Result, ok, panic}
use didem.W3cdid.Url.{text_bytes}
use didem.Tx.{Bytes}
use didem.Storage.Chain.{BlockState, unvalidated, validated, accepted}

-- `metadataKeyType`
pub data KeyType : Type 0 where
  tx_block block_state did_table did_history active_claim nodes_table latest_block genesis : KeyType

abbrev pub prefix : KeyType → ℕ
prefix tx_block = 1
prefix block_state = 2
prefix did_table = 3
prefix did_history = 4
prefix active_claim = 5
prefix nodes_table = 6
prefix latest_block = 7
prefix genesis = 8

-- `tableSep`, a colon
abbrev pub table_sep : ℕ
table_sep = 58

-- the loop over the parts: each one has a separator behind it
abbrev pub with_seps : List String → Bytes
with_seps [] = []
with_seps (p ∷ ps) = text_bytes p ++ (table_sep ∷ with_seps ps)

-- `k[:len(k)-1]`
abbrev pub drop_last {ℓ} : {A : Type ℓ} → List A → List A
drop_last [] = []
drop_last (a ∷ []) = []
drop_last (a ∷ b ∷ l) = a ∷ drop_last (b ∷ l)

-- `typedKey`
unfoldable pub typed_key : KeyType → List String → Bytes
typed_key t [] = prefix t ∷ []
typed_key t (p ∷ ps) = drop_last (prefix t ∷ with_seps (p ∷ ps))

abbrev pub state_code : BlockState → ℕ
state_code unvalidated = 0
state_code validated = 1
state_code accepted = 2

-- `binary.LittleEndian.PutUint32` into four bytes
unfoldable pub put_uint32 : ℕ → Bytes
put_uint32 n = n % 256 ∷ (n / 256) % 256 ∷ (n / 65536) % 256 ∷ (n / 16777216) % 256 ∷ []

-- `binary.LittleEndian.Uint32`, which reads the first four bytes
unfoldable pub uint32 : Bytes → Result ℕ
uint32 (a ∷ b ∷ c ∷ d ∷ rest) = ok (a + b * 256 + c * 65536 + d * 16777216)
uint32 _ = panic
