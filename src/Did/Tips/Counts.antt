-- ===== src/Did/Tips/Counts.antt =====
-- What `askForTip` of internal/did/handler.go makes of the answers.
use didem.Base.{
  ℕ, ◌+◌, ◌&&◌, Bool, not, List, [], ◌∷◌, String, string_eq, ◌==◌, length, nat_eqb, if◌then◌else◌,
  Result, ok, err, panic, lookup, insert, lookup-insert, ctx_timeout, ◌≡◌, ◌≢◌, refl, arith, ◌∙◌,
  inl, inr, Result-cases, eq_of_beq, Bool-cases,
}
use didem.Consensus.Msg.{PeerId}
use didem.Did.Tips.{Asked, or_zero, ask_each, ask_for_tip}

abbrev pub or_nothing : Result String → List String → List String
or_nothing (ok t) l = t ∷ l
or_nothing _ l = l

-- the tips of the peers that answered
unfoldable pub answered : (PeerId → Result String) → List PeerId → List String
answered ask [] = []
answered ask (p ∷ ps) = or_nothing (ask p) (answered ask ps)

unfoldable pub count : String → List String → ℕ
count t [] = 0
count t (u ∷ l) = (if u == t then 1 else 0) + count t l

-- what the loop adds to what was answered before it
record Counted (a a' : Asked) (l : List String) : Type 0 where
  all_done : a'.finished ≡ a.finished + length l
  each : (t : String) → or_zero (lookup t a'.tips) ≡ or_zero (lookup t a.tips) + count t l

or_zero-insert :
    (u t : String) (m : List (String × ℕ)) (n : ℕ)
    → or_zero (lookup t m) + ((if u == t then 1 else 0) + n)
      ≡ or_zero (lookup t (insert u (or_zero (lookup u m) + 1) m)) + n
or_zero-insert u t m n = elim (Bool-cases (u == t)) [
  | inl same ↦
      let e : u ≡ t = eq_of_beq u t same in
      rw (lookup-insert u t (or_zero (lookup u m) + 1) m, same) (rw e (omega arith))
  | inr apart ↦ rw (lookup-insert u t (or_zero (lookup u m) + 1) m, apart) (omega arith)
]

module _ (ask : PeerId → Result String) (steady : (p : PeerId) → ask p ≢ panic) where
  ask_each-Counted :
      (ps : List PeerId) (a : Asked)
      → (a' : Asked) × (ask_each ask ps a ≡ ok a') × Counted a a' (answered ask ps)
  unfolding ask_each answered count
  ask_each-Counted [] a = (a, refl, record { all_done = omega arith; each = λ t. omega arith })
  ask_each-Counted (p ∷ ps) a = elim (Result-cases (ask p)) [
    | inl (u, e) ↦
        let next : Asked = record {
          tips = insert u (or_zero (lookup u a.tips) + 1) a.tips;
          finished = a.finished + 1;
        } in
        let (a', run, c) = ask_each-Counted ps next in
        rw e (
          a',
          run,
          record {
            all_done = omega (arith, c.all_done);
            each =
                λ t. omega (arith, c.each t, or_zero-insert u t a.tips (count t (answered ask ps)));
          },
        )
    | inr (inl (x, e)) ↦ rw e (ask_each-Counted ps a)
    | inr (inr e) ↦ absurd (steady p e)
  ]

  -- Where no request panics: the peers' tips are given, each with the number of peers that answered
  -- it, if all of them answered before the context ended, and otherwise nothing but the error of the
  -- context, however many did answer.
  pub ask_for_tip-counts :
      (late : Bool) (ps : List PeerId)
      → (tips : List (String × ℕ)) × (ask_for_tip ask late ps ≡ (
          if nat_eqb (length (answered ask ps)) (length ps) && not late
          then ok tips
          else err ctx_timeout))
        × ((t : String) → or_zero (lookup t tips) ≡ count t (answered ask ps))
  unfolding ask_for_tip
  ask_for_tip-counts late ps =
      let (a', run, c) = ask_each-Counted ps (record { tips = []; finished = 0 }) in
      (a'.tips, rw run (ground (arith, c.all_done)), λ t. c.each t ∙ (omega arith))
