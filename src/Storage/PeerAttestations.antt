-- ===== src/Storage/PeerAttestations.antt =====
-- src/storage/peer-attestations.ts: each peer's chain of attested writes.
pub mod Chain
use cloister.Prelude.{
  ℕ, ◌+◌, String, Bool, true, false, ◌&&◌, Option, none, some, List, [], ◌∷◌, ◌++◌, leb, take,
  head?, if◌then◌else◌, is_some, or_else,
}
use cloister.Prelude.Keys.{◌==◌, nat_eq, string_eq, pair_eq, option_eq}
use cloister.Prelude.Results.{Result, ok, err, ◌>>=◌, ◌>>◌, guard}
use cloister.Prelude.Sort.{sort}
use cloister.Prelude.Text.{◌&◌}
use cloister.Table.{find, select}

pub record PeerAttestation : Type 0 where
  pub peer_fingerprint : String
  pub seq : ℕ
  pub prev_self_ref : Option String
  pub prev_peer_ref : Option String
  pub content_hash : String
  pub content_type : String
  pub scope : String
  pub cert : List ℕ
  pub sig : List ℕ
  pub created_at : ℕ
  pub bead_id : Option String
  pub origins : Option String

abbrev pub Attestations : Type 0
Attestations = List PeerAttestation

abbrev pub AttestationKey : Type 0
AttestationKey = String × ℕ

-- PRIMARY KEY (peer_fingerprint, seq)
abbrev pub attestation_key : PeerAttestation → AttestationKey
attestation_key r = (r.peer_fingerprint, r.seq)

-- What an INSERT throws when its primary key is taken.
pub data SqlError : Type 0 where
  unique_constraint : SqlError

pub data ApplyAttestationResult : Type 0 where
  applied : ℕ → PeerAttestation → ApplyAttestationResult
  prev_self_ref_mismatch :
      (message : String) (expected got : Option String) → ApplyAttestationResult

pub record AttestationArgs : Type 0 where
  pub peer_fingerprint : String
  pub content_hash : String
  pub content_type : String
  pub scope : String
  pub cert : List ℕ
  pub sig : List ℕ
  pub prev_self_ref : Option String
  pub prev_peer_ref : Option String
  pub now_ms : ℕ
  pub bead_id : Option String
  pub origins : Option String

abbrev pub of_peer : String → PeerAttestation → Bool
of_peer peer_fp r = r.peer_fingerprint == peer_fp

-- ORDER BY seq DESC
abbrev pub latest_first : PeerAttestation → PeerAttestation → Bool
latest_first a b = leb b.seq a.seq

unfoldable pub last_attestation_for_peer : Attestations → String → Option PeerAttestation
last_attestation_for_peer sql peer_fp = head? (sort latest_first (select (of_peer peer_fp) sql))

-- ORDER BY created_at ASC
unfoldable pub attestations_for_bead : Attestations → String → List PeerAttestation
attestations_for_bead sql bead_id =
    sort (λ a b. leb a.created_at b.created_at) (select (λ r. r.bead_id == some bead_id) sql)

-- `last?.content_hash ?? null` and `last?.seq ?? 0`
abbrev pub head_ref : Option PeerAttestation → Option String
head_ref none = none
head_ref (some r) = some r.content_hash

abbrev pub head_seq : Option PeerAttestation → ℕ
head_seq none = 0
head_seq (some r) = r.seq

-- The row that is written for the arguments at a sequence number.
abbrev pub attested_row : AttestationArgs → ℕ → PeerAttestation
attested_row args seq = record {
  peer_fingerprint = args.peer_fingerprint;
  seq = seq;
  prev_self_ref = args.prev_self_ref;
  prev_peer_ref = args.prev_peer_ref;
  content_hash = args.content_hash;
  content_type = args.content_type;
  scope = args.scope;
  cert = args.cert;
  sig = args.sig;
  created_at = args.now_ms;
  bead_id = args.bead_id;
  origins = args.origins;
}

-- INSERT with no conflict clause
unfoldable pub insert_row : Attestations → PeerAttestation → Result SqlError Attestations
insert_row sql row = do
  guard (elim (find attestation_key (attestation_key row) sql) [ none ↦ true | some _ ↦ false ])
      unique_constraint
  ok (sql ++ row ∷ [])

-- `ref ?? "(genesis)"`
abbrev pub shown_ref : Option String → String
shown_ref ref = or_else ref "(genesis)"

unfoldable pub apply_attestation :
    Attestations → AttestationArgs → Result SqlError (Attestations × ApplyAttestationResult)
unfolding insert_row
apply_attestation sql args =
    let last = last_attestation_for_peer sql args.peer_fingerprint in
    let expected = head_ref last in
    let seq = head_seq last + 1 in
    if args.prev_self_ref == expected
    then (do
      written ← insert_row sql (attested_row args seq)
      ok (written, applied seq (attested_row args seq)))
    else ok (
      sql,
      prev_self_ref_mismatch
          ("prev_self_ref mismatch for peer "
            & args.peer_fingerprint
            & ": "
            & "expected "
            & shown_ref expected
            & ", got "
            & shown_ref args.prev_self_ref)
          expected args.prev_self_ref,
    )

-- WHERE seq >= from_seq ORDER BY seq ASC LIMIT limit
unfoldable pub list_attestations_for_peer : Attestations → String → ℕ → ℕ → List PeerAttestation
list_attestations_for_peer sql peer_fp from_seq limit =
    take limit
      (sort (λ a b. leb a.seq b.seq) (select (λ r. of_peer peer_fp r && leb from_seq r.seq) sql))

unfoldable pub find_attestation_by_content : Attestations → String → String → Option PeerAttestation
find_attestation_by_content sql peer_fp content_hash =
    head?
      (sort latest_first (select (λ r. of_peer peer_fp r && r.content_hash == content_hash) sql))
