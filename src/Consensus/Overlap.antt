-- ===== src/Consensus/Overlap.antt =====
-- What the threshold of pkg/did/consensus/consensus.go means for the votes of two nodes.
use didem.Base.{
  ◌+◌, ◌/◌, ◌≤◌, ◌<◌, Bool, true, false, none, some, List, [], ◌∷◌, ◌==◌, string_eq, length, lookup,
  Distinct, All, if◌then◌else◌, ◌≡◌, ◌≢◌, ◌⊎◌, ◌↔◌, refl, arith, Option-cases, inl, inr, Bool-cases,
}
use didem.Consensus.Msg.{PeerId, Msg}
use didem.Consensus.State.{State}
use didem.Consensus.Votes.{enough_commits}
use didem.Consensus.Round.{threshold}

abbrev Votes : Type 0
Votes = List (PeerId × Msg)

abbrev is_among : List PeerId → PeerId → Bool
is_among [] k = false
is_among (a ∷ peers) k = if a == k then true else is_among peers k

-- every vote is one of these peers'
abbrev pub AreFrom : List PeerId → Votes → Type 0
AreFrom peers = All (λ (k, m). is_among peers k ≡ true)

-- the votes of `xs` whose peers have one in `ys` too
abbrev pub shared : Votes → Votes → Votes
shared [] ys = []
shared ((k, m) ∷ xs) ys =
    let rest = shared xs ys in elim (lookup k ys) [ none ↦ rest | some _ ↦ (k, m) ∷ rest ]

-- those of both lists, one for a peer
abbrev merged : Votes → Votes → Votes
merged [] ys = ys
merged ((k, m) ∷ xs) ys =
    let rest = merged xs ys in elim (lookup k ys) [ none ↦ (k, m) ∷ rest | some _ ↦ rest ]

length-merged :
    (xs ys : Votes) → length (merged xs ys) + length (shared xs ys) ≡ length xs + length ys
length-merged [] ys = omega arith
length-merged ((k, m) ∷ xs) ys = ground (arith, length-merged xs ys)

lookup-merged :
    (j : PeerId) (xs ys : Votes)
    → lookup j xs ≡ none
    → lookup j ys ≡ none
    → lookup j (merged xs ys) ≡ none
lookup-merged j [] ys h h' = h'
lookup-merged j ((k, m) ∷ xs) ys h h' = ground (arith, lookup-merged j xs ys)

lookup-shared : (j : PeerId) (xs ys : Votes) → lookup j xs ≡ none → lookup j (shared xs ys) ≡ none
lookup-shared j [] ys h = refl
lookup-shared j ((k, m) ∷ xs) ys h = ground (arith, lookup-shared j xs ys)

merged-Distinct : (xs ys : Votes) → Distinct xs → Distinct ys → Distinct (merged xs ys)
merged-Distinct [] ys d d' = d'
merged-Distinct ((k, m) ∷ xs) ys d d' = elim (Option-cases (lookup k ys)) [
  | inl new ↦ rw (merged, new) (lookup-merged k xs ys d.0 new, merged-Distinct xs ys d.1 d')
  | inr (w, old) ↦ rw (merged, old) (merged-Distinct xs ys d.1 d')
]

shared-Distinct : (xs ys : Votes) → Distinct xs → Distinct (shared xs ys)
shared-Distinct [] ys d = tt
shared-Distinct ((k, m) ∷ xs) ys d = elim (Option-cases (lookup k ys)) [
  | inl new ↦ rw (shared, new) (shared-Distinct xs ys d.1)
  | inr (w, old) ↦ rw (shared, old) (lookup-shared k xs ys d.0, shared-Distinct xs ys d.1)
]

AreFrom-merged :
    (peers : List PeerId) (xs ys : Votes)
    → AreFrom peers xs
    → AreFrom peers ys
    → AreFrom peers (merged xs ys)
AreFrom-merged peers [] ys h h' = h'
AreFrom-merged peers ((k, m) ∷ xs) ys h h' = elim (Option-cases (lookup k ys)) [
  | inl new ↦ rw (merged, new) (h.0, AreFrom-merged peers xs ys h.1 h')
  | inr (w, old) ↦ rw (merged, old) (AreFrom-merged peers xs ys h.1 h')
]

abbrev without : PeerId → List PeerId → List PeerId
without k [] = []
without k (a ∷ peers) = if a == k then peers else a ∷ without k peers

length-without :
    (k : PeerId) (peers : List PeerId)
    → is_among peers k ≡ true
    → length (without k peers) + 1 ≡ length peers
length-without k [] h = absurd (ground arith)
length-without k (a ∷ peers) h = ground (arith, length-without k peers)

is_among-without :
    (k j : PeerId) (peers : List PeerId)
    → (j == k) ≡ false
    → is_among peers j ≡ true
    → is_among (without k peers) j ≡ true
is_among-without k j [] n h = absurd (ground arith)
is_among-without k j (a ∷ peers) n h = ground (
  arith,
  string_eq.same_iff a k,
  string_eq.same_iff a j,
  string_eq.same_iff j k,
  is_among-without k j peers,
)

AreFrom-without :
    (k : PeerId) (peers : List PeerId) (xs : Votes)
    → lookup k xs ≡ none
    → AreFrom peers xs
    → AreFrom (without k peers) xs
AreFrom-without k peers [] n h = tt
AreFrom-without k peers ((j, m) ∷ xs) n h = elim (Bool-cases (j == k)) [
  | inl same ↦ absurd (ground arith)
  | inr other ↦
      (is_among-without k j peers other h.0, AreFrom-without k peers xs (rw other at n) h.1)
]

-- There are no more votes than peers that they are from.
length-le :
    (peers : List PeerId) (xs : Votes) → Distinct xs → AreFrom peers xs → length xs ≤ length peers
length-le peers [] d h = omega arith
length-le peers ((k, m) ∷ xs) d h =
    let size = length-without k peers h.0 in
    let rest = length-le (without k peers) xs d.1 (AreFrom-without k peers xs d.0 h.1) in
    omega arith

-- a peer with a vote in both lists
abbrev pub IsBoth : Votes → Votes → PeerId × Msg → Type 0
IsBoth xs ys (k, m) = (lookup k xs ≢ none) × (lookup k ys ≢ none)

shared-IsBoth :
    (zs xs ys : Votes)
    → ((k : PeerId) → lookup k xs ≢ none → lookup k zs ≢ none)
    → All (IsBoth zs ys) (shared xs ys)
shared-IsBoth zs [] ys sub = tt
shared-IsBoth zs ((k, m) ∷ xs) ys sub =
    let later =
      shared-IsBoth zs xs ys (λ j h. sub j (λ n. ground (arith, string_eq.same_iff k j))) in
    elim (Option-cases (lookup k ys)) [
      | inl new ↦ rw (shared, new) later
      | inr (w, old) ↦
          rw (shared, old)
            ((sub k (λ n. ground (arith, string_eq.same_iff k k)), λ n. ground (arith, old)), later)
    ]

-- Of `others`, the peers whose number a threshold was counted from, take two nodes with precommits of
-- those peers past that threshold, one for a peer. Then more than a third of those peers have a
-- precommit at both nodes. And a node with precommits of as many peers as there are gets past the
-- threshold exactly where those are two, or four and more.
pub quorums_overlap :
    (others : List PeerId) (s t u : State)
    → s.f ≡ threshold (length others)
    → t.f ≡ threshold (length others)
    → u.f ≡ threshold (length others)
    → Distinct s.pre_commits
    → Distinct t.pre_commits
    → AreFrom others s.pre_commits
    → AreFrom others t.pre_commits
    → enough_commits s ≡ true
    → enough_commits t ≡ true
    → length u.pre_commits ≡ length others
    → (length others / 3 < length (shared s.pre_commits t.pre_commits))
      × Distinct (shared s.pre_commits t.pre_commits)
      × All (IsBoth s.pre_commits t.pre_commits) (shared s.pre_commits t.pre_commits)
      × ((enough_commits u ≡ true) ↔ ((length others ≡ 2) ⊎ (4 ≤ length others)))
unfolding threshold
quorums_overlap others s t u fs ft fu ds dt hs ht es et full =
    let xs = s.pre_commits in
    let ys = t.pre_commits in
    let all =
      length-le others (merged xs ys) (merged-Distinct xs ys ds dt)
        (AreFrom-merged others xs ys hs ht) in
    let size = length-merged xs ys in
    (
      ground arith,
      shared-Distinct xs ys ds,
      shared-IsBoth xs xs ys (λ k h. h),
      (λ h. ground arith, λ h. ground arith),
    )
