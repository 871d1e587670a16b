-- ===== src/Resolver.antt =====
-- pkg/did/resolver: resolver.go and dns.go, over the answers of a DNS server.
pub mod Ends
use didem.Base.{
  ℕ, suc, zero, ◌+◌, Bool, true, false, List, [], ◌∷◌, ◌++◌, String, ltb, if◌then◌else◌, same_bytes,
  starts_with, ends_with, Error, Result, ok, err, panic, wrapped, wrap, ◌then?◌, out_of_fuel,
  dns_not_found, unknown_method, dns_config,
}
use didem.W3cdid.Url.{Url, text_bytes, method, id, fragment}
use didem.W3cdid.Document.{Document}

pub data Answer : Type 0 where
  uri : Url → Answer
  other_answer : Answer

-- The configuration of the host, the server, the judgement of `url.Parse` on the part of a URL behind
-- `//`, and the text of bytes.
pub record Dns : Type 0 where
  pub has_config : Bool
  pub exchange : Url → Result (List Answer)
  pub authority : Url → Bool
  pub text : Url → String

-- the loop over the answers: the first URI that is a DID, or nothing
unfoldable pub reference : List Answer → Url
reference [] = []
reference (other_answer ∷ l) = reference l
reference (uri u ∷ l) =
    let rest = reference l in if starts_with (text_bytes "did:") u then u else rest

abbrev pub or_not_found : Url → Result Url
or_not_found [] = err dns_not_found
or_not_found (b ∷ u) = ok (b ∷ u)

abbrev pub is_dns : Url → Bool
is_dns u = starts_with (text_bytes "did:dns:") u

module _ (dns : Dns) where
  -- `DNSDIDResolver.Resolve`
  unfoldable pub resolve_name : Url → Result Url
  unfolding reference
  resolve_name name =
      wrapped (dns.exchange (if ends_with b'.' name then name else name ++ text_bytes "."))
      then? λ l. or_not_found (reference l)

  abbrev pub with_fragment : Url → Url → Url
  with_fragment [] name = name
  with_fragment (b ∷ f) name = text_bytes "_" ++ ((b ∷ f) ++ (text_bytes "." ++ name))

  unfoldable pub record_name : Url → Result Url
  unfolding id fragment
  record_name did = id dns.authority did then? λ i.
      fragment dns.authority did then? λ f. ok (with_fragment f (text_bytes "_did." ++ i))

  -- `ResolveContext`, for the call of `resolveDNS` at depth 0
  unfoldable pub resolve_by : (Url → Result Document) → Url → Result Document
  unfolding method
  resolve_by resolve u = method dns.authority u then? λ m.
      if same_bytes m (text_bytes "dns") then resolve u else err unknown_method

  abbrev pub set_id : Url → Document → Result Document
  set_id did doc = id dns.authority did then? λ i. ok (record doc { id = dns.text i })

  -- where the DNS sends on to
  unfoldable pub refer : Url → Result Url
  unfolding resolve_name record_name
  refer did = (if dns.has_config then ok tt else err (wrap dns_config)) then? λ _.
      record_name did then? λ name. resolve_name name

  -- `resolveDNS`, on fuel: the depth starts over where a record does not begin with "did:dns:" and
  -- is of the method all the same
  unfoldable pub resolve_dns : ℕ → Url → ℕ → Result Document
  unfolding refer resolve_by
  resolve_dns zero did depth = err out_of_fuel
  resolve_dns (suc fuel) did depth =
      if ltb 5 depth
      then err dns_not_found
      else (refer did then? λ u. elim (is_dns u) [
        | true ↦ resolve_dns fuel u (depth + 1)
        | false ↦ resolve_by (λ v. resolve_dns fuel v 0) u
      ])
        then? λ doc. set_id did doc

  -- `Resolve`
  unfoldable pub resolve : ℕ → Url → Result Document
  unfolding resolve_dns
  resolve fuel u = resolve_by (λ v. resolve_dns fuel v 0) u
