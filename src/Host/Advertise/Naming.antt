-- ===== src/Host/Advertise/Naming.antt =====
-- The name under which an identity is advertised, and the one under which it is looked for.
use didem.Base.{
  ◌<◌, Option, none, some, length, ok, then?-eq-ok, ◌≡◌, ◌≢◌, ap, arith, ok-injective, sym, ◌∙◌,
}
use didem.W3cdid.Url.{text_bytes}
use didem.Tx.{Bytes, Cid}
use didem.Host.Advertise.{
  Identity, ed25519_identity, Published, or_invalid, public_identity, provided_cid, lookup_cid,
}
use didem.Host.Advertise

-- What the libraries do with one public key: a multihash is the encoding of the digest, base 58 is
-- read back, and equal CIDs, encodings and digests come from equal ones here; the text of a multihash
-- is longer than the key.
pub record Documented (h : Advertise.Names) (pk mh : Bytes) : Type 0 where
  pub summed : h.multihash_sum pk ≡ some mh
  pub encoded : h.multihash_encode (h.sum384 pk) ≡ some mh
  pub read_back : h.from_base58 (h.base58 mh) ≡ some mh
  pub cids : (m : Bytes) → h.raw_cid m ≡ h.raw_cid mh → m ≡ mh
  pub encodings :
      (d : Bytes) → h.multihash_encode d ≡ h.multihash_encode (h.sum384 pk) → d ≡ h.sum384 pk
  pub no_collision :
      h.sum384 (text_bytes (h.base58 mh)) ≡ h.sum384 pk → text_bytes (h.base58 mh) ≡ pk
  pub longer : length pk < length (text_bytes (h.base58 mh))

or_invalid-eq-ok : {A : Type 0} (o : Option A) {a : A} → or_invalid o ≡ ok a → o ≡ some a
or_invalid-eq-ok none h = cc
or_invalid-eq-ok (some a) h = cc

module _ (h : Advertise.Names) (pk mh : Bytes) (doc : Documented h pk mh) where
  -- A node advertises an identity under a CID, and a sender that knows its identifier looks under
  -- another one: the first has the hash of the key, the second the hash of the identifier's text.
  pub lookup-ne-provided :
      (pid : Published) (c c' : Cid)
      → public_identity h (ed25519_identity pk) ≡ ok pid
      → provided_cid h (ed25519_identity pk) ≡ ok c
      → lookup_cid h pid.id ≡ ok c'
      → c' ≢ c
  unfolding public_identity provided_cid lookup_cid
  lookup-ne-provided pid c c' is_pid provided looked same =
      let pid_is : record { id = h.base58 mh; key = pk } ≡ pid =
        ok-injective (rw doc.summed at is_pid) in
      let c_is : h.raw_cid mh ≡ c = ok-injective (rw (doc.summed, doc.read_back) at provided) in
      let (m, encoded, c'_is) =
        then?-eq-ok (or_invalid (h.multihash_encode (h.sum384 (text_bytes pid.id)))) _ looked in
      let m_is : m ≡ mh = doc.cids m (ok-injective c'_is ∙ same ∙ sym c_is) in
      let id_is : pid.id ≡ h.base58 mh = ap (λ p. p.id) (sym pid_is) in
      let digest : h.multihash_encode (h.sum384 (text_bytes pid.id))
          ≡ h.multihash_encode (h.sum384 pk) =
        or_invalid-eq-ok _ encoded ∙ ap some m_is ∙ sym doc.encoded in
      let text : text_bytes (h.base58 mh) ≡ pk =
        doc.no_collision (rw (← id_is) (doc.encodings (h.sum384 (text_bytes pid.id)) digest)) in
      let longer = doc.longer in omega (arith, ap (λ l. length l) text)
