-- ===== src/Storage/PeerAttestations/Chain.antt =====
-- The attestation chains as an invariant of the rows, and writes against it.
use mathlib.Core.List.{append-nil}
use cloister.Prelude.{
  ℕ, ◌+◌, ◌<◌, ◌≤◌, ◌≡◌, refl, sym, subst, ◌∙◌, String, Option, none, some, List, [], ◌∷◌, ◌++◌,
  arith, All-map, head?, if◌then◌else◌, All, Bool-cases, inl, inr,
}
use cloister.Prelude.Keys.{◌==◌, nat_eq, string_eq, pair_eq, option_eq, ==_iff}
use cloister.Prelude.Results.{Result, ok}
use cloister.Prelude.Sort.{sort, insert, sort-All}
use cloister.Prelude.Text.{◌&◌}
use cloister.Table.{find, select}
use cloister.Table.Laws.{select-append}
use cloister.Storage.PeerAttestations.{
  PeerAttestation, Attestations, attestation_key, SqlError, ApplyAttestationResult, applied,
  prev_self_ref_mismatch, AttestationArgs, of_peer, latest_first, last_attestation_for_peer,
  head_ref, head_seq, attested_row, shown_ref, apply_attestation,
}

-- The rows are numbered from `seq` + 1 on, and each refers to the content before it.
abbrev pub Linked : Option String → ℕ → List PeerAttestation → Type 0
Linked ref seq [] = Unit
Linked ref seq (r ∷ rows) =
    (r.prev_self_ref ≡ ref) × (r.seq ≡ seq + 1) × Linked (some r.content_hash) (seq + 1) rows

-- Every peer's rows are one chain from the genesis.
abbrev pub IsChained : Attestations → Type 0
IsChained sql = (peer_fp : String) → Linked none 0 (select (of_peer peer_fp) sql)

-- The last row in the order of insertion.
abbrev pub last_row : Option PeerAttestation → List PeerAttestation → Option PeerAttestation
last_row before [] = before
last_row before (r ∷ rows) = last_row (some r) rows

Linked-above :
    (ref : Option String) (seq k : ℕ) (rows : List PeerAttestation)
    → Linked ref seq rows
    → k ≤ seq
    → All (λ r. k < r.seq) rows
Linked-above ref seq k [] h le = tt
Linked-above ref seq k (r ∷ rows) h le =
    (omega arith, Linked-above (some r.content_hash) (seq + 1) k rows h.2 (omega arith))

abbrev first_or : Option PeerAttestation → List PeerAttestation → Option PeerAttestation
first_or before [] = before
first_or before (r ∷ rows) = some r

first_or-insert :
    (x : PeerAttestation) (before : Option PeerAttestation) (rows : List PeerAttestation)
    → All (λ r. x.seq < r.seq) rows
    → first_or before (insert latest_first x rows) ≡ first_or (some x) rows
unfolding insert
first_or-insert x before [] h = refl
first_or-insert x before (r ∷ rows) h = ground arith

-- The greatest sequence number is that of the last row.
first_or-sort :
    (ref : Option String) (seq : ℕ) (before : Option PeerAttestation) (rows : List PeerAttestation)
    → Linked ref seq rows
    → first_or before (sort latest_first rows) ≡ last_row before rows
unfolding sort
first_or-sort ref seq before [] h = refl
first_or-sort ref seq before (r ∷ rows) h =
    first_or-insert r before (sort latest_first rows) (
      sort-All latest_first (λ s. r.seq < s.seq) rows
        (Linked-above (some r.content_hash) (seq + 1) r.seq rows h.2 (omega arith)))
    ∙ first_or-sort (some r.content_hash) (seq + 1) (some r) rows h.2

pub last_attestation_lem :
    (sql : Attestations) (peer_fp : String)
    → IsChained sql
    → last_attestation_for_peer sql peer_fp ≡ last_row none (select (of_peer peer_fp) sql)
unfolding last_attestation_for_peer
last_attestation_lem sql peer_fp h =
    head-first (sort latest_first (select (of_peer peer_fp) sql))
    ∙ first_or-sort none 0 none (select (of_peer peer_fp) sql) (h peer_fp)
  where
    head-first : (rows : List PeerAttestation) → head? rows ≡ first_or none rows
    head-first [] = refl
    head-first (r ∷ rows) = refl

-- The place in the chain that `before` stands for.
abbrev At : Option String → ℕ → Option PeerAttestation → Type 0
At ref seq before = (head_ref before ≡ ref) × (head_seq before ≡ seq)

last_row-le :
    (ref : Option String) (seq : ℕ) (before : Option PeerAttestation) (rows : List PeerAttestation)
    → At ref seq before
    → Linked ref seq rows
    → (seq ≤ head_seq (last_row before rows))
      × All (λ r. r.seq ≤ head_seq (last_row before rows)) rows
last_row-le ref seq before [] a h = (omega (arith, a.1), tt)
last_row-le ref seq before (r ∷ rows) a h =
    let (le, rest) = last_row-le (some r.content_hash) (seq + 1) (some r) rows (refl, h.1) h.2 in
    (omega arith, (omega arith, rest))

Linked-append :
    (ref : Option String) (seq : ℕ) (before : Option PeerAttestation) (rows : List PeerAttestation)
    (row : PeerAttestation)
    → At ref seq before
    → Linked ref seq rows
    → row.prev_self_ref ≡ head_ref (last_row before rows)
    → row.seq ≡ head_seq (last_row before rows) + 1
    → Linked ref seq (rows ++ row ∷ [])
Linked-append ref seq before [] row a h e n = (e ∙ a.0, omega (arith, a.1), tt)
Linked-append ref seq before (r ∷ rows) row a h e n =
    (h.0, h.1, Linked-append (some r.content_hash) (seq + 1) (some r) rows row (refl, h.1) h.2 e n)

find-eq-none :
    (sql : Attestations) (peer_fp : String) (n : ℕ)
    → All (λ r. r.seq < n) (select (of_peer peer_fp) sql)
    → find attestation_key (peer_fp, n) sql ≡ none
unfolding find select
find-eq-none [] peer_fp n h = refl
find-eq-none (r ∷ sql) peer_fp n h = elim (Bool-cases (of_peer peer_fp r)) [
  | inl mine ↦ let k = rw mine at h in rw mine (ground (arith, k.0, find-eq-none sql peer_fp n k.1))
  | inr other ↦ let k = rw other at h in rw other (find-eq-none sql peer_fp n k)
]

-- The head of a peer's chain.
abbrev pub chain_head : Attestations → String → Option PeerAttestation
chain_head sql peer_fp = last_row none (select (of_peer peer_fp) sql)

next_seq_free :
    (sql : Attestations) (peer_fp : String)
    → IsChained sql
    → find attestation_key (peer_fp, head_seq (chain_head sql peer_fp) + 1) sql ≡ none
next_seq_free sql peer_fp h =
    let rows = select (of_peer peer_fp) sql in
    let (le, all) = last_row-le none 0 none rows (refl, refl) (h peer_fp) in
    find-eq-none sql peer_fp (head_seq (chain_head sql peer_fp) + 1) (
      All-map (λ r. r.seq ≤ head_seq (chain_head sql peer_fp))
        (λ r. r.seq < head_seq (chain_head sql peer_fp) + 1) rows (λ r p. omega arith) all)

-- What a write answers, from the head of the chain.
abbrev pub attested : Attestations → AttestationArgs → Attestations × ApplyAttestationResult
attested sql args =
    let head = chain_head sql args.peer_fingerprint in
    let row = attested_row args (head_seq head + 1) in
    if args.prev_self_ref == head_ref head
    then (sql ++ row ∷ [], applied (head_seq head + 1) row)
    else (
      sql,
      prev_self_ref_mismatch
          ("prev_self_ref mismatch for peer "
            & args.peer_fingerprint
            & ": "
            & "expected "
            & shown_ref (head_ref head)
            & ", got "
            & shown_ref args.prev_self_ref)
          (head_ref head) args.prev_self_ref,
    )

-- On chained rows a write never meets a taken primary key. It appends one row after the head of the
-- peer's chain if it names the content of that head, and else reports the head and writes nothing.
pub apply_attestation_lem :
    (sql : Attestations) (args : AttestationArgs)
    → IsChained sql
    → apply_attestation sql args ≡ ok (attested sql args)
unfolding apply_attestation
apply_attestation_lem sql args h =
    rw (last_attestation_lem sql args.peer_fingerprint h, next_seq_free sql args.peer_fingerprint h)
      (elim (Bool-cases (args.prev_self_ref == head_ref (chain_head sql args.peer_fingerprint))) [
        | inl e ↦ rw e
        | inr e ↦ rw e
      ])

pub append-IsChained :
    (sql : Attestations) (row : PeerAttestation)
    → IsChained sql
    → row.prev_self_ref ≡ head_ref (chain_head sql row.peer_fingerprint)
    → row.seq ≡ head_seq (chain_head sql row.peer_fingerprint) + 1
    → IsChained (sql ++ row ∷ [])
unfolding select
append-IsChained sql row h e n p = rw select-append (elim (Bool-cases (of_peer p row)) [
  | inl mine ↦
      let same : row.peer_fingerprint ≡ p = (==_iff _ p).0 mine in
      rw mine (
        Linked-append none 0 none (select (of_peer p) sql) row (refl, refl) (h p)
          (subst (λ q. row.prev_self_ref ≡ head_ref (chain_head sql q)) same e)
          (subst (λ q. row.seq ≡ head_seq (chain_head sql q) + 1) same n))
  | inr other ↦ rw (other, append-nil) (h p)
])

pub attested-IsChained :
    (sql : Attestations) (args : AttestationArgs) → IsChained sql → IsChained (attested sql args).0
attested-IsChained sql args h =
    elim (Bool-cases (args.prev_self_ref == head_ref (chain_head sql args.peer_fingerprint))) [
      | inl e ↦ rw e (
          append-IsChained sql
            (attested_row args (head_seq (chain_head sql args.peer_fingerprint) + 1)) h
            ((==_iff _ _).0 e) refl)
      | inr e ↦ rw e h
    ]

-- Where every peer's rows are one chain, with no fork and no gap, they still are after any write.
pub apply_attestation-IsChained :
    (sql sql' : Attestations) (args : AttestationArgs) (result : ApplyAttestationResult)
    → IsChained sql
    → apply_attestation sql args ≡ ok (sql', result)
    → IsChained sql'
apply_attestation-IsChained sql sql' args result h e =
    let same : (attested sql args).0 ≡ sql' =
      written (sym (apply_attestation_lem sql args h) ∙ e) in
    subst IsChained same (attested-IsChained sql args h)
  where
    written :
        {p q : Attestations × ApplyAttestationResult}
        → ◌≡◌ {A = Result SqlError (Attestations × ApplyAttestationResult)} (ok p) (ok q)
        → p.0 ≡ q.0
    written e = cc
