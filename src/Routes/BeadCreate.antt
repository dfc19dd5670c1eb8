-- ===== src/Routes/BeadCreate.antt =====
-- src/routes/bead-create-orchestrator.ts: the creation of a bead across the blob store, the store of the
-- bead rows and the TrustStore. Each call to another object may be lost on its way or on its way
-- back. The canonical bytes of src/storage/bead-canonical.ts and the writer of the row are arguments.
pub mod Content
pub mod Origins
pub mod Rsry
pub mod Audit
pub mod Order
pub mod Honesty
mod Tests
use cloister.Prelude.{
  ℕ, String, Bool, true, false, not, Option, none, some, List, or_else, if◌then◌else◌,
}
use cloister.Prelude.Keys.{◌==◌, string_eq}
use cloister.Prelude.Results.{Result, ok, err}
use cloister.Prelude.Text.{◌&◌}
use cloister.Storage.Workerd.{Blobs, blob_chunk_size, write}
use cloister.Storage.PeerAttestations.{
  AttestationArgs, ApplyAttestationResult, applied, prev_self_ref_mismatch, SqlError, head_ref,
}
use cloister.Storage.PendingAttestations.{EnqueueArgs}
use cloister.TrustStore.{TrustStore}
use cloister.TrustStore.Rpc.{
  rpc_apply_attestation, rpc_last_attestation_for_peer, enqueue_pending_attestation,
}
use cloister.Wire.Origin.{OriginSet, serialize_origins}
pub use cloister.Routes.Hop.{Hop, reached, lost, reply_lost}
use cloister.Routes.BeadCreate.Content.{Declared}
use cloister.Routes.BeadCreate.Origins.{build_content_origins}

-- From the verified lease.
pub record BeadCreateContext : Type 0 where
  pub peer_fp : String
  pub scope : String
  pub cert_der : List ℕ
  pub sig : List ℕ

pub record ToolArgs : Type 0 where
  pub repo : Option String
  pub title : Option String
  pub description : Option String
  pub priority : Option ℕ
  pub labels : List String
  pub created_by : Option String
  pub origins : Option (List Declared)

pub record Bead : Type 0 where
  pub id : String
  pub title : String
  pub description : String
  pub state : String
  pub priority : ℕ
  pub labels : List String
  pub created_at : String
  pub updated_at : String
  pub created_by : Option String
  pub repo : String

-- `{ ...a, id, repo, content_hash: digest }`, which the row's store is asked to write. The times of the
-- row are the store's own.
pub record RowParams : Type 0 where
  pub args : ToolArgs
  pub id : String
  pub repo : String
  pub content_hash : String

-- The row as its store reports it.
pub record BeadResult : Type 0 where
  pub id : String
  pub title : String
  pub state : String

pub record Created : Type 0 where
  pub id : String
  pub title : String
  pub state : String
  pub content_hash : String

-- The arguments' own repository is replaced.
abbrev pub row_params : ToolArgs → String → String → RowParams
row_params a id digest = record {
  args = record a { repo = some (or_else a.repo "") };
  id = id;
  repo = or_else a.repo "";
  content_hash = digest;
}

-- The codes of JsonRpcInvocationError, which are negative, without their sign; and what else is thrown.
pub data BeadFailure : Type 0 where
  rpc_error : (code : ℕ) (message : String) → BeadFailure
  origin_bounds : (message : String) → BeadFailure
  thrown : (message : String) → BeadFailure

-- What happens to each call, and the two test-only faults, which are false in production.
pub record Network : Type 0 where
  pub put : Hop
  pub put_sentinel : Bool
  pub head : Hop
  pub apply : Hop
  pub apply_fault : Bool
  pub enqueue : Hop

-- `timestamp` is the text of the time of the call.
abbrev pub build_bead : ToolArgs → String → String → String → Bead
build_bead a repo id timestamp = record {
  id = id;
  title = or_else a.title "";
  description = or_else a.description "";
  state = "open";
  priority = or_else a.priority 0;
  labels = a.labels;
  created_at = timestamp;
  updated_at = timestamp;
  created_by = a.created_by;
  repo = repo;
}

-- The state after the RPC ran, and `result.ok`; it throws for the database's error.
abbrev pub applied_to :
    TrustStore → Result SqlError (TrustStore × ApplyAttestationResult) → TrustStore × Bool
applied_to trust (err e) = (trust, false)
applied_to trust (ok (trust', applied seq row)) = (trust', true)
applied_to trust (ok (trust', prev_self_ref_mismatch message expected got)) = (trust', false)

-- Step 3 after the head was read: `applyOk`.
abbrev pub try_apply : Hop → Bool → TrustStore → AttestationArgs → TrustStore × Bool
try_apply (lost message) fault trust args = (trust, false)
try_apply (reply_lost message) fault trust args =
    ((applied_to trust (rpc_apply_attestation trust fault args)).0, false)
try_apply reached fault trust args = applied_to trust (rpc_apply_attestation trust fault args)

abbrev pub gap : String → BeadResult → String → BeadFailure
gap digest bead message = rpc_error 32603 (
    "bead_create: TrustStore.applyAttestation failed AND pending enqueue failed for bead " & bead.id
    & " (content_hash=" & digest & "): " & message)

-- `Rows` is the state of the row's store, `write_row` the step 2 of either backend on its
-- parameters, and `meanwhile` what other calls do to the TrustStore between its two calls of step 3.
module _ (Rows : Type 0) where
  pub record Cluster : Type 0 where
    pub blobs : Blobs
    pub rows : Rows
    pub trust : TrustStore

  pub record World : Type 0 where
    pub digest : List ℕ → String
    pub json_string : String → String
    pub canonical_bytes : Bead → List ℕ
    pub write_row : RowParams → Rows → Rows × Result BeadFailure BeadResult
    pub meanwhile : TrustStore → TrustStore

  module _ (world : World) where
    abbrev pub put : Cluster → List ℕ → Cluster
    put cluster bytes = record cluster {
      blobs = write blob_chunk_size (world.digest bytes) bytes cluster.blobs;
    }

    -- Step 1.
    abbrev pub store_blob : Hop → Bool → Cluster → List ℕ → Cluster × Result BeadFailure String
    store_blob (lost message) sentinel cluster bytes =
        (cluster, err (rpc_error 32603 ("bead_create: BlobStore.put failed: " & message)))
    store_blob (reply_lost message) sentinel cluster bytes =
        (put cluster bytes, err (rpc_error 32603 ("bead_create: BlobStore.put failed: " & message)))
    store_blob reached true cluster bytes =
        (cluster, err (rpc_error 32603 "bead_create: BlobStore.put faulted (test-only sentinel)"))
    store_blob reached false cluster bytes = (put cluster bytes, ok (world.digest bytes))

    module _ (network : Network) (context : BeadCreateContext) (now_ms : ℕ) where
      abbrev pub attestation_args :
          OriginSet → String → BeadResult → Option String → AttestationArgs
      attestation_args origins digest bead prev_self_ref = record {
        peer_fingerprint = context.peer_fp;
        content_hash = digest;
        content_type = "bead/v1";
        scope = context.scope;
        cert = context.cert_der;
        sig = context.sig;
        prev_self_ref = prev_self_ref;
        prev_peer_ref = none;
        now_ms = now_ms;
        bead_id = some bead.id;
        origins = some (serialize_origins world.json_string origins);
      }

      abbrev pub enqueue_args : String → EnqueueArgs
      enqueue_args digest = record {
        peer_fp = context.peer_fp;
        content_hash = digest;
        scope = context.scope;
        cert = context.cert_der;
        sig = context.sig;
        now_ms = now_ms;
      }

      -- Step 4.
      abbrev pub try_enqueue :
          Hop → TrustStore → String → BeadResult → TrustStore × Result BeadFailure (Unit {0})
      try_enqueue (lost message) trust digest bead = (trust, err (gap digest bead message))
      try_enqueue (reply_lost message) trust digest bead = (
        (enqueue_pending_attestation trust (enqueue_args digest)).0,
        err (gap digest bead message),
      )
      try_enqueue reached trust digest bead =
          ((enqueue_pending_attestation trust (enqueue_args digest)).0, ok tt)

      abbrev pub enqueue_unless :
          String → BeadResult → TrustStore × Bool → TrustStore × Result BeadFailure (Unit {0})
      enqueue_unless digest bead (trust, true) = (trust, ok tt)
      enqueue_unless digest bead (trust, false) = try_enqueue network.enqueue trust digest bead

      -- Steps 3 and 4.
      unfoldable pub attest :
          Hop
          → OriginSet
          → String
          → BeadResult
          → TrustStore
          → TrustStore × Result BeadFailure (Unit {0})
      attest (lost message) origins digest bead trust = (trust, err (thrown message))
      attest (reply_lost message) origins digest bead trust = (trust, err (thrown message))
      attest reached origins digest bead trust =
          let prev_self_ref = head_ref (rpc_last_attestation_for_peer trust context.peer_fp) in
          enqueue_unless digest bead (
            try_apply network.apply network.apply_fault (world.meanwhile trust)
              (attestation_args origins digest bead prev_self_ref))

      abbrev pub finish :
          Cluster
          → String
          → BeadResult
          → TrustStore × Result BeadFailure (Unit {0})
          → Cluster × Result BeadFailure Created
      finish cluster digest bead (trust, err e) = (record cluster { trust = trust }, err e)
      finish cluster digest bead (trust, ok tt) = (
        record cluster { trust = trust },
        ok (record { id = bead.id; title = bead.title; state = bead.state; content_hash = digest }),
      )

      abbrev pub after_row :
          OriginSet
          → String
          → Cluster
          → Rows × Result BeadFailure BeadResult
          → Cluster × Result BeadFailure Created
      after_row origins digest cluster (rows, err e) = (record cluster { rows = rows }, err e)
      after_row origins digest cluster (rows, ok bead) =
          finish (record cluster { rows = rows }) digest bead
            (attest network.head origins digest bead cluster.trust)

      abbrev pub after_blob :
          OriginSet
          → ToolArgs
          → String
          → Cluster × Result BeadFailure String
          → Cluster × Result BeadFailure Created
      after_blob origins a id (cluster, err e) = (cluster, err e)
      after_blob origins a id (cluster, ok digest) =
          after_row origins digest cluster (world.write_row (row_params a id digest) cluster.rows)

      abbrev pub after_origins :
          ToolArgs
          → String
          → String
          → Cluster
          → Result String OriginSet
          → Cluster × Result BeadFailure Created
      after_origins a id timestamp cluster (err message) = (cluster, err (origin_bounds message))
      after_origins a id timestamp cluster (ok origins) =
          let repo = or_else a.repo "" in
          let bead = build_bead a repo id timestamp in
          let stored =
            store_blob network.put network.put_sentinel cluster (world.canonical_bytes bead) in
          if repo == ""
          then (
            cluster,
            err (rpc_error 32602 "bead_create: repo is required (key for BeadStore DO instance)"),
          )
          else after_blob origins a id stored

      -- `id` is what generateBeadId draws.
      unfoldable pub run_bead_create_orchestrator :
          ToolArgs → String → String → Cluster → Cluster × Result BeadFailure Created
      run_bead_create_orchestrator a id timestamp cluster =
          after_origins a id timestamp cluster (build_content_origins a.origins context.peer_fp)
