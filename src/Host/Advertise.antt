-- ===== src/Host/Advertise.antt =====
-- How a recipient is to be found: the identifiers of pkg/did/privateIdentity.go, their advertisement by
-- internal/node/p2p.go and identity.go, and the name under which internal/comm/clientHandler.go looks.
pub mod Naming
use didem.Base.{
  Option, none, some, List, [], ◌∷◌, ◌++◌, String, Error, Result, ok, err, panic, wrapped, ◌then?◌,
  Exec, continue, invalid_id,
}
use didem.W3cdid.Url.{text_bytes}
use didem.Tx.{Bytes, Cid}

-- multihash, base 58 and CIDs; `none` is an error
pub record Names : Type 0 where
  pub sum384 : Bytes → Bytes
  -- `multihash.Sum` and `multihash.Encode`, for SHA3-384
  pub multihash_sum : Bytes → Option Bytes
  pub multihash_encode : Bytes → Option Bytes
  pub base58 : Bytes → String
  pub from_base58 : String → Option Bytes
  -- `cid.NewCidV1(cid.Raw, …)`
  pub raw_cid : Bytes → Cid

-- The private identities by the bytes of their public keys, which a BLS key may fail to give.
pub data Identity : Type 0 where
  ed25519_identity : Bytes → Identity
  bls_identity : Option Bytes → Identity

-- the identifier and the key of a `PublicIdentity`
pub record Published : Type 0 where
  pub id : String
  pub key : Bytes

abbrev pub or_invalid : {A : Type 0} → Option A → Result A
or_invalid none = err invalid_id
or_invalid (some a) = ok a

module _ (h : Names) where
  abbrev pub published : Bytes → Result Published
  published pk =
      or_invalid (h.multihash_sum pk) then? λ mh. ok (record { id = h.base58 mh; key = pk })

  -- `PublicIdentity` of the two kinds
  unfoldable pub public_identity : Identity → Result Published
  public_identity (ed25519_identity pk) = published pk
  public_identity (bls_identity raw) = or_invalid raw then? published

  -- `provideIdentity`, up to the call of the routing table
  unfoldable pub provided_cid : Identity → Result Cid
  unfolding public_identity
  provided_cid i =
      public_identity i then? λ pid. or_invalid (h.from_base58 pid.id) then? λ mh. ok (h.raw_cid mh)

  -- `findProviders`, up to the call of the routing table
  unfoldable pub lookup_cid : String → Result Cid
  lookup_cid id =
      or_invalid (h.multihash_encode (h.sum384 (text_bytes id))) then? λ mh. ok (h.raw_cid mh)

  module _ {R : Type 0} (provide : Cid → Exec R Unit) where
    -- an error is logged
    abbrev pub provide_identity : Identity → Exec R Unit
    provide_identity i r = continue (provided_cid i) provide r

    abbrev pub go_on : Result Unit × R → (R → Result Unit × R) → Result Unit × R
    go_on (panic, r) f = (panic, r)
    go_on (_, r) f = f r

    unfoldable pub provide_all : List Identity → Exec R Unit
    unfolding provided_cid
    provide_all [] r = (ok tt, r)
    provide_all (i ∷ is) r = go_on (provide_identity i r) (provide_all is)

    -- `doAdvertise`, for what `advertisableIdentities` gives: a node without an identity store calls
    -- the method of a nil interface
    abbrev pub advertisable : Option (Result (List Identity)) → Result (List Identity)
    advertisable none = panic
    advertisable (some l) = wrapped l

    abbrev pub advertise : Result (List Identity) → Exec R Unit
    advertise (ok ids) r = provide_all ids r
    advertise (err e) r = (ok tt, r)
    advertise panic r = (panic, r)

    unfoldable pub do_advertise : Option (Result (List Identity)) → Exec R Unit
    unfolding provide_all
    do_advertise store r = advertise (advertisable store) r
