-- ===== src/Base/Outcome.antt =====
-- What a Go call gives: a value, an error, or a panic.
use mathlib.Core.Path.{◌≡◌, refl}
use mathlib.Core.Logic.{◌≢◌, ◌⊎◌, inl, inr}
use native.Mathlib.Omega.{arith}
use mathlib.Core.Bool.{Bool, true, false}

-- The error values that the code tells apart; `wrap` is `errors.Wrap`, its text left out.
pub data Error : Type 0 where
  not_found : Error
  did_already_exists did_invalid did_invalid_signature : Error
  op_not_supported tx_version_not_supported tx_missing_timestamp tx_missing_from : Error
  tx_unsupported_type tx_missing_data : Error
  invalid no_valid_signatures no_verification_method : Error
  too_many_tx tx_in_previous_block not_implemented not_subscribed : Error
  unmarshalling unknown_tx_data invalid_key invalid_cid invalid_id signing marshalling : Error
  pebble_not_found no_batch apply_failed unsupported_action unexpected_tx_type : Error
  root_mismatch test_already_started unexpected_peer : Error
  identity_not_found no_resolver no_identity_store no_sender unexpected_body
        unexpected_attachments :
      Error
  identity_mismatch invalid_signature unknown_key_type no_matching_signature : Error
  unknown_identity hello_too_old empty_nonce no_identity unexpected_recipient unexpected_sender :
      Error
  dns_not_found unknown_method dns_config dns_query no_sender_identity no_recipient
        no_public_resolver no_providers no_provider_connected :
      Error
  eof ctx_timeout chain_id_mismatch tip_cid_parse unsupported_request : Error
  -- the model's own: a call that waits for ever
  never_returns : Error
  -- the model's own: a loop was given too little fuel, which the theorems exclude
  out_of_fuel : Error
  wrap : Error → Error

-- `errors.Is(err, ErrNotFound)`
abbrev pub is_not_found : Error → Bool
is_not_found not_found = true
is_not_found (wrap e) = is_not_found e
is_not_found _ = false

pub data Result (A : Type 0) : Type 0 where
  ok : A → Result A
  err : Error → Result A
  panic : Result A

-- A method that mutates its receiver keeps what it wrote before an error.
abbrev pub Exec : Type 0 → Type 0 → Type 0
Exec S A = S → Result A × S

module _ {S : Type 0} where
  abbrev pub pure : {A : Type 0} → A → Exec S A
  pure a s = (ok a, s)

  abbrev pub fail : {A : Type 0} → Error → Exec S A
  fail e s = (err e, s)

  abbrev pub lift : {A : Type 0} → Result A → Exec S A
  lift r s = (r, s)

  abbrev pub continue : {A B : Type 0} → Result A → (A → Exec S B) → Exec S B
  continue (ok a) f s = f a s
  continue (err e) f s = (err e, s)
  continue panic f s = (panic, s)

  infixl 5 ◌>>=◌ ◌>>◌
  abbrev pub ◌>>=◌ : {A B : Type 0} → Exec S A → (A → Exec S B) → Exec S B
  ◌>>=◌ m f s = let (r, t) = m s in continue r f t

  abbrev pub ◌>>◌ : {B : Type 0} → Exec S Unit → Exec S B → Exec S B
  m >> k = m >>= λ _. k

-- `errors.Wrap(err, …)` on the error of a call
abbrev pub wrapped : {A : Type 0} → Result A → Result A
wrapped (ok a) = ok a
wrapped (err e) = err (wrap e)
wrapped panic = panic

infixl 5 ◌then?◌
abbrev pub ◌then?◌ : {A B : Type 0} → Result A → (A → Result B) → Result B
ok a then? f = f a
err e then? f = err e
panic then? f = panic

pub ok-injective : {A : Type 0} {a b : A} → Result.ok a ≡ ok b → a ≡ b
ok-injective h = cc

pub then?-ne :
    {A B : Type 0} {x : Error} (r : Result A) (f : A → Result B)
    → r ≢ err x
    → ((a : A) → r ≡ ok a → f a ≢ err x)
    → (r then? f) ≢ err x
then?-ne (ok a) f h k = k a refl
then?-ne (err e) f h k = λ p. h (ground arith)
then?-ne panic f h k = λ p. cc

pub then?-eq-ok :
    {A B : Type 0} (r : Result A) (f : A → Result B) {b : B}
    → (r then? f) ≡ ok b
    → (a : A) × (r ≡ ok a) × (f a ≡ ok b)
then?-eq-ok (ok a) f h = (a, refl, h)
then?-eq-ok (err e) f h = cc
then?-eq-ok panic f h = cc

pub wrapped-eq-ok : {A : Type 0} (r : Result A) {a : A} → wrapped r ≡ ok a → r ≡ ok a
wrapped-eq-ok (ok a) h = h
wrapped-eq-ok (err e) h = cc
wrapped-eq-ok panic h = cc

-- Inversion of a successful bind.
module _ {S A B : Type 0} where
  pub continue-eq-ok :
      (r : Result A) (f : A → Exec S B) (s : S) {b : B}
      → (continue r f s).0 ≡ ok b
      → (a : A) × (r ≡ ok a) × ((f a s).0 ≡ ok b)
  continue-eq-ok (ok a) f s h = (a, refl, h)
  continue-eq-ok (err e) f s h = cc
  continue-eq-ok panic f s h = cc

  pub >>=-eq-ok :
      (m : Exec S A) (f : A → Exec S B) (s : S) {b : B}
      → ((m >>= f) s).0 ≡ ok b
      → (a : A) × ((m s).0 ≡ ok a) × ((f a (m s).1).0 ≡ ok b)
  >>=-eq-ok m f s h = continue-eq-ok (m s).0 f (m s).1 h

pub Result-cases :
    {A : Type 0} (r : Result A)
    → ((a : A) × (r ≡ ok a)) ⊎ (((e : Error) × (r ≡ err e)) ⊎ (r ≡ panic))
Result-cases (ok a) = inl (a, refl)
Result-cases (err e) = inr (inl (e, refl))
Result-cases panic = inr (inr refl)
