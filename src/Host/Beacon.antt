-- ===== src/Host/Beacon.antt =====
-- RandomSource of internal/node/drand.go: the rounds of drand that reach the consensus engine.
use didem.Base.{
  ℕ, ◌+◌, ◌*◌, ◌%◌, ◌^◌, ◌<◌, Bool, true, false, ◌&&◌, List, [], ◌∷◌, length, nat_eqb,
  if◌then◌else◌, Result, ok, panic, ◌then?◌, then?-eq-ok, All, ◌≡◌, arith, ok-injective, subst,
  Bool-cases, inl, inr,
}
use didem.Tx.{Bytes}

-- `client.Result`, and whether the receiver waits at that moment
pub record Tick : Type 0 where
  pub round : ℕ
  pub randomness : Bytes
  pub awaited : Bool

-- `nthTick`
abbrev pub nth_tick : ℕ
nth_tick = 10

abbrev pub big_endian : ℕ → Bytes → ℕ
big_endian acc [] = acc
big_endian acc (b ∷ bs) = big_endian (acc * 256 + b) bs

-- `binary.BigEndian.Uint64`, which reads the first eight bytes
unfoldable pub uint64 : Bytes → Result ℕ
uint64 (a ∷ b ∷ c ∷ d ∷ e ∷ f ∷ g ∷ h ∷ _) = ok (big_endian 0 (a ∷ b ∷ c ∷ d ∷ e ∷ f ∷ g ∷ h ∷ []))
uint64 _ = panic

abbrev pub offered : Bool → ℕ → List ℕ → List ℕ
offered true v l = v ∷ l
offered false v l = l

-- The loop of `RandomSource`: the values that the receiver gets. One that is not awaited is dropped.
unfoldable pub random_source : List Tick → Result (List ℕ)
unfolding uint64
random_source [] = ok []
random_source (t ∷ ts) =
    let rest = random_source ts in
    if nat_eqb (t.round % nth_tick) 0
    then (uint64 t.randomness then? λ v. rest then? λ l. ok (offered t.awaited v l))
    else rest

-- how many of the ticks are every tenth round and are awaited
unfoldable pub due : List Tick → ℕ
due [] = 0
due (t ∷ ts) = (if nat_eqb (t.round % nth_tick) 0 && t.awaited then 1 else 0) + due ts

abbrev pub IsByte : ℕ → Type 0
IsByte b = b < 256

uint64-lt : (bs : Bytes) {v : ℕ} → All IsByte bs → uint64 bs ≡ ok v → v < 2 ^ 64
unfolding uint64
uint64-lt (a ∷ b ∷ c ∷ d ∷ e ∷ f ∷ g ∷ h ∷ l) bytes eq =
    let value = ok-injective eq in omega (arith, value)
uint64-lt [] bytes eq = cc
uint64-lt (a ∷ []) bytes eq = cc
uint64-lt (a ∷ b ∷ []) bytes eq = cc
uint64-lt (a ∷ b ∷ c ∷ []) bytes eq = cc
uint64-lt (a ∷ b ∷ c ∷ d ∷ []) bytes eq = cc
uint64-lt (a ∷ b ∷ c ∷ d ∷ e ∷ []) bytes eq = cc
uint64-lt (a ∷ b ∷ c ∷ d ∷ e ∷ f ∷ []) bytes eq = cc
uint64-lt (a ∷ b ∷ c ∷ d ∷ e ∷ f ∷ g ∷ []) bytes eq = cc

offered_bounds :
    (w : Bool) (v : ℕ) (l : List ℕ)
    → v < 2 ^ 64
    → All (λ x. x < 2 ^ 64) l
    → All (λ x. x < 2 ^ 64) (offered w v l)
      × (length (offered w v l) ≡ (if w then 1 else 0) + length l)
offered_bounds true v l h hl = ((h, hl), omega arith)
offered_bounds false v l h hl = (hl, omega arith)

abbrev InBounds : List Tick → List ℕ → Type 0
InBounds ts l = (length l ≡ due ts) × All (λ v. v < 2 ^ 64) l

-- The engine gets as many values as there are tenth rounds that it waits for, each of 64 bits.
pub random_source_bounds :
    (ts : List Tick) {l : List ℕ}
    → All (λ t. All IsByte t.randomness) ts
    → random_source ts ≡ ok l
    → (length l ≡ due ts) × All (λ v. v < 2 ^ 64) l
unfolding random_source due
random_source_bounds [] bytes h = subst (InBounds []) (ok-injective h) (omega arith, tt)
random_source_bounds (t ∷ ts) bytes h = elim (Bool-cases (nat_eqb (t.round % nth_tick) 0)) [
  | inl tenth ↦
      let (v, got, h1) = then?-eq-ok (uint64 t.randomness) _ (rw tenth at h) in
      let (l', rest, h2) = then?-eq-ok (random_source ts) _ h1 in
      let (count, low) = random_source_bounds ts bytes.1 rest in
      let (fits, more) = offered_bounds t.awaited v l' (uint64-lt t.randomness bytes.0 got) low in
      subst (InBounds (t ∷ ts)) (ok-injective h2) (rw tenth (omega (arith, more, count)), fits)
  | inr other ↦
      let (count, low) = random_source_bounds ts bytes.1 (rw other at h) in
      (rw other (omega (arith, count)), low)
]
