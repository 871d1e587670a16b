-- ===== src/W3cdid/Valid/Laws.antt =====
-- Lemmas on `Document.IsValid` of pkg/did/w3cdid/validation.go.
use didem.Base.{
  Bool, true, false, List, [], ◌∷◌, ◌==◌, string_eq, if◌then◌else◌, Result, ok, err, All, invalid,
  then?-eq-ok, ◌≡◌, ◌≢◌, arith, refl, Bool-cases, inl, inr, ne_of_beq,
}
use didem.W3cdid.Document.{VerificationMethod, Service, Document}
use didem.W3cdid.Url.{Url, text_bytes, method, id}
use didem.W3cdid.Valid.{
  url_valid, method_valid, methods_valid, services_valid, is_valid, all_methods, is_blank,
}

-- The text is a DID with a method and an identifier.
pub record IsDid (authority : Url → Bool) (u : Url) : Type 0 where
  pub name : Url
  pub rest : Url
  pub has_method : (method authority u ≡ ok name) × (is_blank name ≡ false)
  pub has_id : (id authority u ≡ ok rest) × (is_blank rest ≡ false)

pub record IsComplete (s : Service) : Type 0 where
  pub id : s.id ≢ ""
  pub type : s.type ≢ ""
  pub endpoint : s.service_endpoint ≢ ""

unless :
    (b : Bool) (r : Result Unit)
    → (if b then err invalid else r) ≡ ok tt
    → (b ≡ false) × (r ≡ ok tt)
unless true r h = cc
unless false r h = (refl, h)

module _ (authority : Url → Bool) where
  pub record IsMethod (v : VerificationMethod) : Type 0 where
    pub type : v.type ≢ ""
    pub id : IsDid authority (text_bytes v.id)
    pub controller : IsDid authority (text_bytes v.controller)

  url_valid-IsDid : (u : Url) → url_valid authority u ≡ ok tt → IsDid authority u
  unfolding url_valid
  url_valid-IsDid u h =
      let (i, got, h1) = then?-eq-ok (id authority u) _ h in
      let (filled, h2) = unless (is_blank i) _ h1 in
      let (n, got', h3) = then?-eq-ok (method authority u) _ h2 in
      record {
        name = n;
        rest = i;
        has_method = (got', (unless (is_blank n) (ok tt) h3).0);
        has_id = (got, filled);
      }

  method_valid-IsMethod : (v : VerificationMethod) → method_valid authority v ≡ ok tt → IsMethod v
  unfolding method_valid
  method_valid-IsMethod v h = elim (Bool-cases (v.type == "")) [
    | inl blank ↦ absurd (ground arith)
    | inr typed ↦
        let (_, first, second) =
          then?-eq-ok (url_valid authority (text_bytes v.id)) _ (rw typed at h) in
        record {
          type = ne_of_beq v.type "" typed;
          id = url_valid-IsDid (text_bytes v.id) first;
          controller = url_valid-IsDid (text_bytes v.controller) second;
        }
  ]

  methods_valid-All :
      (l : List VerificationMethod) → methods_valid authority l ≡ ok tt → All IsMethod l
  unfolding methods_valid
  methods_valid-All [] h = tt
  methods_valid-All (v ∷ l) h =
      let (_, first, rest) = then?-eq-ok (method_valid authority v) _ h in
      (method_valid-IsMethod v first, methods_valid-All l rest)

  services_valid-All : (l : List Service) → services_valid authority l ≡ ok tt → All IsComplete l
  services_valid-All [] h = tt
  services_valid-All (s ∷ l) h = (
    record {
      id = λ e. ground (arith, string_eq.same_iff s.id "");
      type = λ e. ground (arith, string_eq.same_iff s.type "");
      endpoint = λ e. ground (arith, string_eq.same_iff s.service_endpoint "");
    },
    services_valid-All l (ground arith),
  )

  -- A document that is valid has an identifier that is a DID with a method and an identifier of its
  -- own; every verification method in any of its six lists has a type, and such DIDs for itself and
  -- its controller; and every service has an identifier, a type and an endpoint.
  pub is_valid_sound :
      (d : Document)
      → is_valid authority d ≡ ok tt
      → IsDid authority (text_bytes d.id)
        × All IsMethod (all_methods authority d)
        × All IsComplete d.service
  unfolding is_valid
  is_valid_sound d h = elim (Bool-cases (d.id == "")) [
    | inl blank ↦ absurd (ground arith)
    | inr named ↦
        let (_, first, h1) =
          then?-eq-ok (url_valid authority (text_bytes d.id)) _ (rw named at h) in
        let (_, second, third) =
          then?-eq-ok (methods_valid authority (all_methods authority d)) _ h1 in
        (
          url_valid-IsDid (text_bytes d.id) first,
          methods_valid-All (all_methods authority d) second,
          services_valid-All d.service third,
        )
  ]
