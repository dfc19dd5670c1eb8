-- ===== src/Routes/BeadCreate/Order.antt =====
-- src/routes/bead-create-orchestrator.ts: the order of the writes.
use cloister.Prelude.{
  ℕ, ◌≡◌, refl, ◌⊎◌, inl, inr, String, Bool, true, false, or_else, if◌then◌else◌,
}
use cloister.Prelude.Keys.{◌==◌, string_eq, pair_eq, option_eq}
use cloister.Prelude.Results.{Result, ok, err}
use cloister.TrustStore.{TrustStore}
use cloister.Storage.Workerd.{blob_chunk_size, has}
use cloister.Storage.Workerd.Written.{has-write}
use cloister.Wire.Origin.{OriginSet}
use cloister.Routes.BeadCreate.Origins.{build_content_origins}
use cloister.Routes.BeadCreate.{
  BeadCreateContext, ToolArgs, Bead, BeadResult, Created, BeadFailure, Hop, reached, lost,
  reply_lost, Network, build_bead, row_params, Cluster, World, put, store_blob, finish, after_row,
  after_blob, after_origins, run_bead_create_orchestrator,
}

module _ (Rows : Type 0) (world : World Rows) (network : Network) (context : BeadCreateContext)
    (now_ms : ℕ) where
  abbrev digest_of_bead : Bead → String
  digest_of_bead bead = world.digest (world.canonical_bytes bead)

  -- The bead's blob is stored, and the row's store reported the row of its parameters.
  abbrev IsWritten :
      ToolArgs → String → Bead → Cluster Rows → Cluster Rows × Result BeadFailure Created → Type 0
  IsWritten a id bead cluster after =
      (result : BeadResult) × (has (digest_of_bead bead) after.0.blobs ≡ true)
      × (world.write_row (row_params a id (digest_of_bead bead)) cluster.rows
          ≡ (after.0.rows, ok result))

  abbrev IsRowFirst :
      ToolArgs → String → Bead → Cluster Rows → Cluster Rows × Result BeadFailure Created → Type 0
  IsRowFirst a id bead cluster after =
      (after.0.trust ≡ cluster.trust) ⊎ IsWritten a id bead cluster after

  -- The TrustStore is as it was, or the declaration was accepted, the repository is named, and the bead
  -- of the arguments was written.
  abbrev pub IsOrdered :
      ToolArgs → String → String → Cluster Rows → Cluster Rows × Result BeadFailure Created → Type 0
  IsOrdered a id timestamp cluster after =
      (after.0.trust ≡ cluster.trust)
      ⊎ ((set : OriginSet) × (build_content_origins a.origins context.peer_fp ≡ ok set)
          × ((or_else a.repo "" == "") ≡ false)
          × IsWritten a id (build_bead a (or_else a.repo "") id timestamp) cluster after)

  IsWritten-finish :
      (a : ToolArgs) (id : String) (cluster cluster' : Cluster Rows) (bead : Bead)
      (result : BeadResult) (after : TrustStore × Result BeadFailure (Unit {0}))
      → has (digest_of_bead bead) cluster'.blobs ≡ true
      → world.write_row (row_params a id (digest_of_bead bead)) cluster.rows
        ≡ (cluster'.rows, ok result)
      → IsWritten a id bead cluster
          (finish Rows world network context now_ms cluster' (digest_of_bead bead) result after)
  IsWritten-finish a id cluster cluster' bead result (trust, err e) stored ran =
      (result, stored, ran)
  IsWritten-finish a id cluster cluster' bead result (trust, ok tt) stored ran =
      (result, stored, ran)

  row-IsRowFirst :
      (a : ToolArgs) (id : String) (origins : OriginSet) (cluster : Cluster Rows) (bead : Bead)
      (written : Rows × Result BeadFailure BeadResult)
      → has (digest_of_bead bead) cluster.blobs ≡ true
      → world.write_row (row_params a id (digest_of_bead bead)) cluster.rows ≡ written
      → IsRowFirst a id bead cluster (
          after_row Rows world network context now_ms origins (digest_of_bead bead) cluster written)
  row-IsRowFirst a id origins cluster bead (rows, err e) stored ran = inl refl
  row-IsRowFirst a id origins cluster bead (rows, ok result) stored ran =
      inr (IsWritten-finish a id cluster (record cluster { rows = rows }) bead result _ stored ran)

  blob-IsRowFirst :
      (a : ToolArgs) (id : String) (hop : Hop) (sentinel : Bool) (origins : OriginSet) (bead : Bead)
      (cluster : Cluster Rows)
      → IsRowFirst a id bead cluster (
          after_blob Rows world network context now_ms origins a id
            (store_blob Rows world hop sentinel cluster (world.canonical_bytes bead)))
  blob-IsRowFirst a id (lost m) sentinel origins bead cluster = inl refl
  blob-IsRowFirst a id (reply_lost m) sentinel origins bead cluster = inl refl
  blob-IsRowFirst a id reached true origins bead cluster = inl refl
  blob-IsRowFirst a id reached false origins bead cluster =
      row-IsRowFirst a id origins (put Rows world cluster (world.canonical_bytes bead)) bead _
        (has-write blob_chunk_size (digest_of_bead bead) (world.canonical_bytes bead) cluster.blobs)
        refl

  guarded :
      (a : ToolArgs) (id : String) (bead : Bead) (cluster : Cluster Rows) (test : Bool)
      (x y : Cluster Rows × Result BeadFailure Created)
      → x.0.trust ≡ cluster.trust
      → IsRowFirst a id bead cluster y
      → let after = if test then x else y in
        (after.0.trust ≡ cluster.trust) ⊎ ((test ≡ false) × IsWritten a id bead cluster after)
  guarded a id bead cluster true x y quiet h = inl quiet
  guarded a id bead cluster false x y quiet (inl e) = inl e
  guarded a id bead cluster false x y quiet (inr w) = inr (refl, w)

  origins-IsOrdered :
      (a : ToolArgs) (id timestamp : String) (cluster : Cluster Rows)
      (built : Result String OriginSet)
      → build_content_origins a.origins context.peer_fp ≡ built
      → IsOrdered a id timestamp cluster
          (after_origins Rows world network context now_ms a id timestamp cluster built)
  origins-IsOrdered a id timestamp cluster (err m) made = inl refl
  origins-IsOrdered a id timestamp cluster (ok origins) made =
      let bead = build_bead a (or_else a.repo "") id timestamp in
      elim (guarded a id bead cluster (or_else a.repo "" == "") _ _ refl
        (blob-IsRowFirst a id network.put network.put_sentinel origins bead cluster)) [
          | inl quiet ↦ inl quiet
          | inr (named, written) ↦ inr (origins, made, named, written)
        ]

  -- However a creation ends, either the TrustStore is as it was, or the declared origins were accepted, the
  -- repository is named, the blob store holds a content under the digest of the bead's canonical bytes,
  -- and the row's store reported the row of the caller's arguments with the bead's identifier, repository
  -- and digest: what fails before the row leaves no trace in any chain.
  pub run-IsOrdered :
      (a : ToolArgs) (id timestamp : String) (cluster : Cluster Rows)
      → IsOrdered a id timestamp cluster
          (run_bead_create_orchestrator Rows world network context now_ms a id timestamp cluster)
  unfolding run_bead_create_orchestrator
  run-IsOrdered a id timestamp cluster =
      origins-IsOrdered a id timestamp cluster (build_content_origins a.origins context.peer_fp)
        refl
