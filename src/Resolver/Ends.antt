-- ===== src/Resolver/Ends.antt =====
-- What pkg/did/resolver comes to.
use didem.Base.{
  ℕ, suc, zero, ◌+◌, ◌≤◌, Bool, true, false, ltb, if◌then◌else◌, same_bytes, Error, Result, ok, err,
  panic, wrapped, wrap, ◌then?◌, then?-eq-ok, then?-ne, out_of_fuel, Bool-cases, Option-cases, [],
  ◌∷◌, dns_config, inl, inr, ◌≡◌, ◌≢◌, arith, unknown_method, dns_not_found,
}
use didem.W3cdid.Url.{Url, text_bytes, cut, or_empty, parse, method, id, fragment}
use didem.W3cdid.Document.{Document}
use didem.Resolver.{
  Dns, reference, is_dns, refer, resolve_name, record_name, set_id, resolve_by, resolve_dns,
  resolve, or_not_found,
}

module _ (dns : Dns) where
  resolve_by-fails :
      (f : Url → Result Document) (u : Url)
      → ((v : Url) (doc : Document) → f v ≢ ok doc)
      → (doc : Document) → resolve_by dns f u ≢ ok doc
  unfolding resolve_by
  resolve_by-fails f u fails doc h =
      let (m, _, h1) = then?-eq-ok (method dns.authority u) _ h in
      elim (Bool-cases (same_bytes m (text_bytes "dns"))) [
        | inl t ↦ fails u doc (rw t at h1)
        | inr n ↦ let no : err unknown_method ≡ ok doc = rw n at h1 in cc
      ]

  abbrev next : ℕ → ℕ → Url → Result Document
  next fuel depth u = elim (is_dns u) [
    | true ↦ resolve_dns dns fuel u (depth + 1)
    | false ↦ resolve_by dns (λ v. resolve_dns dns fuel v 0) u
  ]

  next-fails :
      (fuel depth : ℕ) (u : Url) (doc : Document)
      → ((v : Url) (n : ℕ) (d : Document) → resolve_dns dns fuel v n ≢ ok d)
      → next fuel depth u ≢ ok doc
  next-fails fuel depth u doc fails h = elim (Bool-cases (is_dns u)) [
    | inl t ↦ fails u (depth + 1) doc (rw t at h)
    | inr n ↦ resolve_by-fails (λ v. resolve_dns dns fuel v 0) u (λ v. fails v 0) doc (rw n at h)
  ]

  resolve_dns-fails :
      (fuel : ℕ) (did : Url) (depth : ℕ) (doc : Document) → resolve_dns dns fuel did depth ≢ ok doc
  unfolding resolve_dns
  resolve_dns-fails zero did depth doc h = cc
  resolve_dns-fails (suc fuel) did depth doc h = elim (Bool-cases (ltb 5 depth)) [
    | inl deep ↦ let no : err dns_not_found ≡ ok doc = rw deep at h in cc
    | inr near ↦
        let (d, h1, _) =
          then?-eq-ok (refer dns did then? next fuel depth) (set_id dns did) (rw near at h) in
        let (u, _, h2) = then?-eq-ok (refer dns did) (next fuel depth) h1 in
        next-fails fuel depth u d (resolve_dns-fails fuel) h2
  ]

  -- No DID is ever resolved, whatever the DNS server answers: every way through the resolver ends in
  -- another record or in an error, and none makes a document.
  pub resolve-fails : (fuel : ℕ) (u : Url) (doc : Document) → resolve dns fuel u ≢ ok doc
  unfolding resolve
  resolve-fails fuel u =
      resolve_by-fails (λ v. resolve_dns dns fuel v 0) u (λ v. resolve_dns-fails fuel v 0)

-- No lookup runs out of fuel, which is the model's own, and a record that is of the method "dns" begins
-- with "did:dns:".
pub record IsPlain (dns : Dns) : Type 0 where
  pub answers : (name : Url) → dns.exchange name ≢ err out_of_fuel
  pub spelled :
      (name u m : Url)
      → resolve_name dns name ≡ ok u
      → is_dns u ≡ false
      → method dns.authority u ≡ ok m
      → same_bytes m (text_bytes "dns") ≡ false

module _ (authority : Url → Bool) (u : Url) where
  method-ne : (e : Error) → method authority u ≢ err e
  unfolding method
  method-ne e h = elim (Option-cases (parse authority u)) [
    | inl none' ↦ let no : ◌≡◌ {A = Result Url} panic (err e) = rw none' at h in cc
    | inr (p, some') ↦ let no : ok (cut b':' p.opaque).0 ≡ err e = rw some' at h in cc
  ]

  id-ne : (e : Error) → id authority u ≢ err e
  unfolding id
  id-ne e h = elim (Option-cases (parse authority u)) [
    | inl none' ↦ let no : ◌≡◌ {A = Result Url} panic (err e) = rw none' at h in cc
    | inr (p, some') ↦ let no : ok (or_empty (cut b':' p.opaque).1) ≡ err e = rw some' at h in cc
  ]

  fragment-ne : (e : Error) → fragment authority u ≢ err e
  unfolding fragment
  fragment-ne e h = elim (Option-cases (parse authority u)) [
    | inl none' ↦ let no : ◌≡◌ {A = Result Url} panic (err e) = rw none' at h in cc
    | inr (p, some') ↦ let no : ok p.fragment ≡ err e = rw some' at h in cc
  ]

not_deep : (depth : ℕ) → ltb 5 depth ≡ false → depth + 1 ≤ 6
not_deep depth h = ground arith

or_not_found-ne : (u : Url) → or_not_found u ≢ err out_of_fuel
or_not_found-ne [] h = cc
or_not_found-ne (b ∷ u) h = cc

wrapped-ne : {A : Type 0} (r : Result A) → wrapped r ≢ err out_of_fuel
wrapped-ne (ok a) h = cc
wrapped-ne (err e) h = cc
wrapped-ne panic h = cc

module _ (dns : Dns) (plain : IsPlain dns) where
  refer-ends : (did : Url) → refer dns did ≢ err out_of_fuel
  unfolding refer resolve_name record_name
  refer-ends did h = elim (Bool-cases dns.has_config) [
    | inl t ↦ then?-ne (record_name dns did) (resolve_name dns) names lookups (rw t at h)
    | inr f ↦
        let no : ◌≡◌ {A = Result Url} (err (wrap dns_config)) (err out_of_fuel) = rw f at h in cc
  ]
    where
      names : record_name dns did ≢ err out_of_fuel
      names = then?-ne (id dns.authority did) _ (id-ne dns.authority did out_of_fuel) (λ i _.
          then?-ne (fragment dns.authority did) _ (fragment-ne dns.authority did out_of_fuel)
            (λ f _ p. cc))

      lookups :
          (name : Url) → record_name dns did ≡ ok name → resolve_name dns name ≢ err out_of_fuel
      lookups name _ =
          then?-ne (wrapped (dns.exchange _)) _ (wrapped-ne _)
            (λ l _. or_not_found-ne (reference l))

  resolve_by-ends :
      (f : Url → Result Document) (name u : Url)
      → resolve_name dns name ≡ ok u
      → is_dns u ≡ false
      → resolve_by dns f u ≢ err out_of_fuel
  unfolding resolve_by
  resolve_by-ends f name u found other =
      then?-ne (method dns.authority u) _ (method-ne dns.authority u out_of_fuel)
        (λ m e. let no = plain.spelled name u m found other e in rw no (λ p. cc))

  -- how deep the records can still send on
  next-ends :
      (fuel depth : ℕ) (did u : Url)
      → refer dns did ≡ ok u
      → resolve_dns dns fuel u (depth + 1) ≢ err out_of_fuel
      → next dns fuel depth u ≢ err out_of_fuel
  unfolding refer
  next-ends fuel depth did u found ends h =
      let (_, _, h1) =
        then?-eq-ok (if dns.has_config then ok tt else err (wrap dns_config)) _ found in
      let (name, _, h2) = then?-eq-ok (record_name dns did) _ h1 in
      elim (Bool-cases (is_dns u)) [
        | inl t ↦ ends (rw t at h)
        | inr f ↦ resolve_by-ends (λ v. resolve_dns dns fuel v 0) name u h2 f (rw f at h)
      ]

  resolve_dns-ends :
      (fuel depth : ℕ) (did : Url)
      → 7 ≤ fuel + depth
      → depth ≤ 6
      → resolve_dns dns fuel did depth ≢ err out_of_fuel
  unfolding resolve_dns
  resolve_dns-ends zero depth did enough low h = absurd (omega arith)
  resolve_dns-ends (suc fuel) depth did enough low h = elim (Bool-cases (ltb 5 depth)) [
    | inl deep ↦
        let no : ◌≡◌ {A = Result Document} (err dns_not_found) (err out_of_fuel) = rw deep at h in
        cc
    | inr near ↦
        then?-ne (refer dns did then? next dns fuel depth) (set_id dns did)
          (then?-ne (refer dns did) (next dns fuel depth) (refer-ends did) (λ u found.
            next-ends fuel depth did u found
              (resolve_dns-ends fuel (depth + 1) u (omega arith) (not_deep depth near))))
          (λ doc _.
            then?-ne (id dns.authority did) _ (id-ne dns.authority did out_of_fuel) (λ i _ p. cc))
          (rw near at h)
  ]

  by_method :
      (u m : Url)
      → (if same_bytes m (text_bytes "dns") then resolve_dns dns 7 u 0 else err unknown_method)
        ≢ err out_of_fuel
  by_method u m h = elim (Bool-cases (same_bytes m (text_bytes "dns"))) [
    | inl t ↦ resolve_dns-ends 7 0 u (omega arith) (omega arith) (rw t at h)
    | inr f ↦
        let no : ◌≡◌ {A = Result Document} (err unknown_method) (err out_of_fuel) = rw f at h in cc
  ]

  -- Where every record of the method "dns" that the server gives begins with "did:dns:", the resolver
  -- ends after at most six records.
  pub resolve-ends : (u : Url) → resolve dns 7 u ≢ err out_of_fuel
  unfolding resolve resolve_by
  resolve-ends u =
      then?-ne (method dns.authority u) _ (method-ne dns.authority u out_of_fuel)
        (λ m _. by_method u m)
