-- ===== src/Routes/BeadCreate/Audit.antt =====
-- src/routes/bead-create-orchestrator.ts: what a finished creation leaves in the stores.
use mathlib.Core.Bool.{true≢false}
use cloister.Prelude.{
  ℕ, ◌+◌, ◌≡◌, refl, sym, ap, subst, ◌⊎◌, inl, inr, String, Bool, true, false, ◌&&◌, some, List, [],
  ◌∷◌, ◌++◌, arith, is_some, or_else, if◌then◌else◌,
}
use cloister.Prelude.Keys.{◌==◌, ==_refl, string_eq, pair_eq, option_eq}
use cloister.Prelude.Results.{Result, ok, err, ok≢err, ok-injective}
use cloister.Table.{exists, find}
use cloister.Table.Laws.{find-insert_or_ignore}
use cloister.Storage.PeerAttestations.{
  PeerAttestation, Attestations, AttestationArgs, ApplyAttestationResult, applied,
  prev_self_ref_mismatch, SqlError, head_seq, attested_row, insert_row, apply_attestation,
  last_attestation_for_peer,
}
use cloister.Storage.PendingAttestations.{pending_key, enqueue_pending, EnqueueArgs}
use cloister.TrustStore.{TrustStore}
use cloister.TrustStore.Rpc.{rpc_apply_attestation, enqueue_pending_attestation}
use cloister.Storage.Workerd.{blob_chunk_size, has}
use cloister.Storage.Workerd.Written.{has-write}
use cloister.Wire.Origin.{OriginSet}
use cloister.Routes.BeadCreate.Origins.{build_content_origins}
use cloister.Routes.BeadCreate.{
  BeadCreateContext, ToolArgs, BeadResult, Created, BeadFailure, Hop, reached, lost, reply_lost,
  Network, build_bead, Cluster, World, put, store_blob, enqueue_args, applied_to, try_apply,
  try_enqueue, enqueue_unless, attest, finish, after_row, after_blob, after_origins,
  run_bead_create_orchestrator,
}

-- A row of the peer's chain for the content, linked to the bead.
abbrev pub IsAttested : TrustStore → String → String → String → Type 0
IsAttested trust peer_fp digest id =
    exists (λ r. r.peer_fingerprint == peer_fp && r.content_hash == digest && r.bead_id == some id)
      trust.peer_attestations
    ≡ true

-- The peer's content waits in the retry queue.
abbrev pub IsPending : TrustStore → String → String → Type 0
IsPending trust peer_fp digest =
    is_some (find pending_key (peer_fp, digest) trust.pending_attestations) ≡ true

exists-append_last :
    {R : Type 0} (p : R → Bool) (rows : List R) (row : R)
    → p row ≡ true
    → exists p (rows ++ row ∷ []) ≡ true
unfolding exists
exists-append_last p [] row h = rw h refl
exists-append_last p (r ∷ rows) row h = ground (arith, exists-append_last p rows row h)

row_matches :
    (args : AttestationArgs) (seq : ℕ) (id : String)
    → args.bead_id ≡ some id
    → ((attested_row args seq).peer_fingerprint == args.peer_fingerprint
        && (attested_row args seq).content_hash == args.content_hash
        && (attested_row args seq).bead_id == some id)
      ≡ true
row_matches args seq id e =
    rw (e, ==_refl args.peer_fingerprint, ==_refl args.content_hash, ==_refl id) refl

-- A write that is reported as done has appended its row.
apply_written :
    (sql sql' : Attestations) (args : AttestationArgs) (seq : ℕ) (row : PeerAttestation)
    → apply_attestation sql args ≡ ok (sql', applied seq row)
    → (n : ℕ) × (sql' ≡ sql ++ attested_row args n ∷ [])
unfolding apply_attestation insert_row
apply_written sql sql' args seq row h =
    (head_seq (last_attestation_for_peer sql args.peer_fingerprint) + 1, ground arith)

rpc_err :
    (trust : TrustStore) (args : AttestationArgs) (e : SqlError)
    → apply_attestation trust.peer_attestations args ≡ err e
    → rpc_apply_attestation trust false args ≡ err e
unfolding rpc_apply_attestation
rpc_err trust args e ran = rw ran refl

rpc_ok :
    (trust : TrustStore) (args : AttestationArgs) (sql : Attestations)
    (result : ApplyAttestationResult)
    → apply_attestation trust.peer_attestations args ≡ ok (sql, result)
    → rpc_apply_attestation trust false args ≡ ok (record trust { peer_attestations = sql }, result)
unfolding rpc_apply_attestation
rpc_ok trust args sql result ran = rw ran refl

-- A state and an answer: if the answer is `true`, the row is there.
abbrev Attests : AttestationArgs → String → TrustStore × Bool → Type 0
Attests args id after =
    after.1 ≡ true → IsAttested after.0 args.peer_fingerprint args.content_hash id

outcome-Attests :
    (trust trust₀ : TrustStore) (args : AttestationArgs) (id : String)
    (r : Result SqlError (Attestations × ApplyAttestationResult))
    → args.bead_id ≡ some id
    → apply_attestation trust.peer_attestations args ≡ r
    → Attests args id (applied_to trust₀ (rpc_apply_attestation trust false args))
outcome-Attests trust trust₀ args id (err e) linked ran =
    subst (λ r. Attests args id (applied_to trust₀ r)) (sym (rpc_err trust args e ran))
      (λ done. absurd (true≢false (sym done)))
outcome-Attests trust trust₀ args id (ok (sql, prev_self_ref_mismatch m x y)) linked ran =
    subst (λ r. Attests args id (applied_to trust₀ r))
      (sym (rpc_ok trust args sql (prev_self_ref_mismatch m x y) ran))
      (λ done. absurd (true≢false (sym done)))
outcome-Attests trust trust₀ args id (ok (sql, applied seq row)) linked ran =
    subst (λ r. Attests args id (applied_to trust₀ r))
      (sym (rpc_ok trust args sql (applied seq row) ran))
      (λ done.
        let (n, written) = apply_written trust.peer_attestations sql args seq row ran in
        rw written (
          exists-append_last _ trust.peer_attestations (attested_row args n)
            (row_matches args n id linked)))

try_apply-Attests :
    (hop : Hop) (fault : Bool) (trust : TrustStore) (args : AttestationArgs) (id : String)
    → args.bead_id ≡ some id
    → Attests args id (try_apply hop fault trust args)
unfolding rpc_apply_attestation
try_apply-Attests (lost m) fault trust args id linked done = absurd (true≢false (sym done))
try_apply-Attests (reply_lost m) fault trust args id linked done = absurd (true≢false (sym done))
try_apply-Attests reached true trust args id linked done = absurd (true≢false (sym done))
try_apply-Attests reached false trust args id linked done =
    outcome-Attests trust trust args id (apply_attestation trust.peer_attestations args) linked refl
      done

IsPending-enqueue :
    (trust : TrustStore) (args : EnqueueArgs)
    → IsPending (enqueue_pending_attestation trust args).0 args.peer_fp args.content_hash
unfolding enqueue_pending_attestation enqueue_pending
IsPending-enqueue trust args =
    rw
      (find-insert_or_ignore pending_key _ (args.peer_fp, args.content_hash)
        trust.pending_attestations)
      (rw (==_refl args.peer_fp, ==_refl args.content_hash) (ground arith))

module _ (Rows : Type 0) (world : World Rows) (network : Network) (context : BeadCreateContext)
    (now_ms : ℕ) where
  abbrev pub IsAudited : TrustStore → String → String → Type 0
  IsAudited trust digest id =
      IsAttested trust context.peer_fp digest id ⊎ IsPending trust context.peer_fp digest

  enqueue-IsAudited :
      (hop : Hop) (trust : TrustStore) (digest : String) (bead : BeadResult)
      → let after = try_enqueue Rows world network context now_ms hop trust digest bead in
        after.1 ≡ ok tt → IsAudited after.0 digest bead.id
  enqueue-IsAudited (lost m) trust digest bead h = absurd (ok≢err (sym h))
  enqueue-IsAudited (reply_lost m) trust digest bead h = absurd (ok≢err (sym h))
  enqueue-IsAudited reached trust digest bead h =
      inr (IsPending-enqueue trust (enqueue_args Rows world network context now_ms digest))

  enqueue_unless-IsAudited :
      (digest : String) (bead : BeadResult) (tried : TrustStore × Bool)
      → (tried.1 ≡ true → IsAttested tried.0 context.peer_fp digest bead.id)
      → let after = enqueue_unless Rows world network context now_ms digest bead tried in
        after.1 ≡ ok tt → IsAudited after.0 digest bead.id
  enqueue_unless-IsAudited digest bead (trust, true) attests h = inl (attests refl)
  enqueue_unless-IsAudited digest bead (trust, false) attests h =
      enqueue-IsAudited network.enqueue trust digest bead h

  attest-IsAudited :
      (hop : Hop) (origins : OriginSet) (digest : String) (bead : BeadResult) (trust : TrustStore)
      → let after = attest Rows world network context now_ms hop origins digest bead trust in
        after.1 ≡ ok tt → IsAudited after.0 digest bead.id
  unfolding attest
  attest-IsAudited (lost m) origins digest bead trust h = absurd (ok≢err (sym h))
  attest-IsAudited (reply_lost m) origins digest bead trust h = absurd (ok≢err (sym h))
  attest-IsAudited reached origins digest bead trust h =
      enqueue_unless-IsAudited digest bead _
        (try_apply-Attests network.apply network.apply_fault (world.meanwhile trust) _ bead.id refl)
        h

  abbrev IsStored : Cluster Rows → String → Type 0
  IsStored cluster digest = has digest cluster.blobs ≡ true

  -- What a successful end promises.
  abbrev pub IsCreated : Cluster Rows → Created → Type 0
  IsCreated cluster created =
      IsStored cluster created.content_hash
      × IsAudited cluster.trust created.content_hash created.id

  -- An outcome: a success keeps the promise.
  abbrev Promises : Cluster Rows × Result BeadFailure Created → Type 0
  Promises after = (created : Created) → after.1 ≡ ok created → IsCreated after.0 created

  finish-Promises :
      (cluster : Cluster Rows) (digest : String) (bead : BeadResult)
      (after : TrustStore × Result BeadFailure (Unit {0}))
      → IsStored cluster digest
      → (after.1 ≡ ok tt → IsAudited after.0 digest bead.id)
      → Promises (finish Rows world network context now_ms cluster digest bead after)
  finish-Promises cluster digest bead (trust, err e) stored audited created h =
      absurd (ok≢err (sym h))
  finish-Promises cluster digest bead (trust, ok tt) stored audited created h =
      subst (λ c. IsCreated (record cluster { trust = trust }) c) (ok-injective h)
        (stored, audited refl)

  after_row-Promises :
      (origins : OriginSet) (digest : String) (cluster : Cluster Rows)
      (written : Rows × Result BeadFailure BeadResult)
      → IsStored cluster digest
      → Promises (after_row Rows world network context now_ms origins digest cluster written)
  after_row-Promises origins digest cluster (rows, err e) stored created h = absurd (ok≢err (sym h))
  after_row-Promises origins digest cluster (rows, ok bead) stored created h =
      finish-Promises (record cluster { rows = rows }) digest bead _ stored
        (attest-IsAudited network.head origins digest bead cluster.trust) created h

  IsStored-put :
      (cluster : Cluster Rows) (bytes : List ℕ)
      → IsStored (put Rows world cluster bytes) (world.digest bytes)
  IsStored-put cluster bytes = has-write blob_chunk_size (world.digest bytes) bytes cluster.blobs

  blob-Promises :
      (hop : Hop) (sentinel : Bool) (origins : OriginSet) (a : ToolArgs) (id : String)
      (cluster : Cluster Rows) (bytes : List ℕ)
      → Promises (
          after_blob Rows world network context now_ms origins a id
            (store_blob Rows world hop sentinel cluster bytes))
  blob-Promises (lost m) sentinel origins a id cluster bytes created h = absurd (ok≢err (sym h))
  blob-Promises (reply_lost m) sentinel origins a id cluster bytes created h =
      absurd (ok≢err (sym h))
  blob-Promises reached true origins a id cluster bytes created h = absurd (ok≢err (sym h))
  blob-Promises reached false origins a id cluster bytes created h =
      after_row-Promises origins (world.digest bytes) (put Rows world cluster bytes) _
        (IsStored-put cluster bytes) created h

  if-Promises :
      (test : Bool) (x y : Cluster Rows × Result BeadFailure Created)
      → Promises x
      → Promises y
      → Promises (if test then x else y)
  if-Promises true x y hx hy = hx
  if-Promises false x y hx hy = hy

  origins-Promises :
      (a : ToolArgs) (id timestamp : String) (cluster : Cluster Rows)
      (built : Result String OriginSet)
      → Promises (after_origins Rows world network context now_ms a id timestamp cluster built)
  origins-Promises a id timestamp cluster (err m) = λ created h. absurd (ok≢err (sym h))
  origins-Promises a id timestamp cluster (ok origins) =
      let bead = build_bead a (or_else a.repo "") id timestamp in
      if-Promises (or_else a.repo "" == "") _ _ (λ created h. absurd (ok≢err (sym h)))
        (blob-Promises network.put network.put_sentinel origins a id cluster
          (world.canonical_bytes bead))

  -- Whatever is lost between the objects, and whatever other calls do to the TrustStore between the read
  -- of the chain's head and the write: for a creation that reports success, the blob store holds a content
  -- under the digest that is reported, and the TrustStore holds the caller's attestation of that digest
  -- for that bead or has the caller's digest in the retry queue.
  pub created-IsCreated :
      (a : ToolArgs) (id timestamp : String) (cluster cluster' : Cluster Rows) (created : Created)
      → run_bead_create_orchestrator Rows world network context now_ms a id timestamp cluster
        ≡ (cluster', ok created)
      → IsCreated cluster' created
  unfolding run_bead_create_orchestrator
  created-IsCreated a id timestamp cluster cluster' created h =
      subst (λ c. IsCreated c created) (ap (λ p. p.0) h)
        (origins-Promises a id timestamp cluster (build_content_origins a.origins context.peer_fp)
          created (ap (λ p. p.1) h))
