-- ===== src/Routes/BeadCreate/Tests.antt =====
-- Creations in which everything is reached, an append is lost, or the head cannot be read.
use cloister.Prelude.{
  ◌≡◌, refl, String, Bool, true, false, none, some, List, [], ◌∷◌, ◌≤◌, All, or_else,
}
use cloister.Prelude.Keys.{string_eq, option_eq, pair_eq}
use cloister.Prelude.Results.{Result, ok, err}
use cloister.Prelude.Sort.{insert, sort}
use cloister.Table.{find, select, upsert, insert_or_ignore}
use cloister.Storage.PeerAttestations.{apply_attestation, last_attestation_for_peer, insert_row}
use cloister.TrustStore.{TrustStore}
use cloister.TrustStore.Rpc.{rpc_apply_attestation, rpc_last_attestation_for_peer}
use cloister.Storage.Workerd.{no_blobs, write}
use cloister.Wire.Origin.{
  declared_origin, collect, collect_all, union_origins, derive_confidence, may_attest_fully,
}
use cloister.Routes.BeadCreate.Content.{
  text, other_value, max_declared_origins, max_origin_uri_length, bed_storage_backend, rsry_backend,
  to_lower_case, utf16_length,
}
use cloister.Routes.BeadCreate.Origins.{declared_texts, check_lengths, build_content_origins}
use cloister.Prelude.Chars.{trim, trim_start, trim_end}
use cloister.Routes.BeadCreate.Rsry.{
  rsry_fetch, create_bead_via_rsry, row, unreachable, response, result_body,
}
use cloister.Routes.BeadCreate.{
  BeadCreateContext, ToolArgs, Created, BeadFailure, rpc_error, thrown, reached, lost, Network,
  Cluster, World, attest, run_bead_create_orchestrator,
}
use cloister.Routes.BeadCreate.Audit.{IsCreated, created-IsCreated}
use cloister.Routes.BeadCreate.Order.{IsOrdered, run-IsOrdered}
use cloister.Routes.BeadCreate.Honesty.{build_content_origins_lem}

abbrev empty : TrustStore
empty = record {
  lease_counters = [];
  seen_nonces = [];
  pending_attestations = [];
  peer_attestations = [];
  registry_tags = [];
  registry_blob_membership = [];
  peer_receipts = [];
  actor_ca_bundle = [];
  alarm_at = none;
}

abbrev start : Cluster (List String)
start = record { blobs = no_blobs; rows = []; trust = empty }

abbrev world : World (List String)
world = record {
  digest = λ bytes. "d";
  json_string = λ s. s;
  canonical_bytes = λ bead. 1 ∷ [];
  write_row = λ row rows. (
    row.id ∷ rows,
    ok (record { id = row.id; title = or_else row.args.title ""; state = "open" }),
  );
  meanwhile = λ trust. trust;
}

abbrev all_reached : Network
all_reached = record {
  put = reached;
  put_sentinel = false;
  head = reached;
  apply = reached;
  apply_fault = false;
  enqueue = reached;
}

abbrev append_lost : Network
append_lost = record all_reached { apply = lost "gone" }

abbrev head_lost : Network
head_lost = record all_reached { head = lost "gone" }

abbrev context : BeadCreateContext
context = record { peer_fp = "p"; scope = "bead"; cert_der = []; sig = [] }

abbrev args : ToolArgs
args = record {
  repo = some "r";
  title = some "t";
  description = none;
  priority = none;
  labels = [];
  created_by = none;
  origins = some (text "u" ∷ other_value ∷ []);
}

abbrev created : Created
created = record { id = "r-1"; title = "t"; state = "open"; content_hash = "d" }

abbrev run : Network → Cluster (List String) × Result BeadFailure Created
run network =
    run_bead_create_orchestrator (List String) world network context 5 args "r-1" "now" start

reached_end : (run all_reached).1 ≡ ok created
unfolding run_bead_create_orchestrator attest build_content_origins check_lengths declared_texts
    rpc_apply_attestation apply_attestation rpc_last_attestation_for_peer last_attestation_for_peer
    insert_row utf16_length sort select find
reached_end = refl

-- The bead's row stays, and the TrustStore knows nothing of it.
head_unread : run head_lost ≡ (
  record {
    blobs = record no_blobs { blobs = record { digest = "d"; bytes = 1 ∷ [] } ∷ [] };
    rows = "r-1" ∷ [];
    trust = empty;
  },
  err (thrown "gone"),
)
unfolding run_bead_create_orchestrator attest build_content_origins check_lengths declared_texts
    insert_or_ignore find utf16_length write
head_unread = refl

created-IsCreated_example :
    IsCreated (List String) world append_lost context 5 (run append_lost).0 created
unfolding run_bead_create_orchestrator attest build_content_origins check_lengths declared_texts
    rpc_apply_attestation apply_attestation rpc_last_attestation_for_peer last_attestation_for_peer
    insert_row utf16_length sort select find
created-IsCreated_example =
    created-IsCreated (List String) world append_lost context 5 args "r-1" "now" start
      (run append_lost).0 created refl

run-IsOrdered_example :
    IsOrdered (List String) world all_reached context 5 args "r-1" "now" start (run all_reached)
run-IsOrdered_example =
    run-IsOrdered (List String) world all_reached context 5 args "r-1" "now" start

abbrev distrust : String → Bool
distrust authority = false

-- The text that is empty and the item that is no text are dropped.
filtered : declared_texts (text "" ∷ other_value ∷ text "u" ∷ []) ≡ "u" ∷ []
unfolding declared_texts
filtered = refl

build_content_origins_example :
    (1 ≤ max_declared_origins)
    × All (λ uri. utf16_length uri ≤ max_origin_uri_length) ("u" ∷ [])
    × (may_attest_fully (derive_confidence (declared_origin "u" "p" ∷ []) distrust) ≡ false)
unfolding build_content_origins check_lengths declared_texts utf16_length union_origins collect_all
    collect upsert sort insert
build_content_origins_example =
    build_content_origins_lem (some (text "u" ∷ [])) "p" distrust (declared_origin "u" "p" ∷ [])
      refl ((refl, tt), tt) refl

chosen : bed_storage_backend (some " RSRY ") ≡ rsry_backend
unfolding bed_storage_backend to_lower_case trim trim_start trim_end
chosen = refl

not_wired :
    create_bead_via_rsry
      (λ s. err "")
      (record { has_rosary_bundle = false; rosary_mcp_url = "" })
      (unreachable "")
      (λ url. unreachable "")
      "t"
    ≡ err (
        rpc_error 32603
          "bead_create rsry-mode: neither ROSARY_BUNDLE service binding nor ROSARY_MCP_URL is wired")
unfolding create_bead_via_rsry rsry_fetch
not_wired = refl

title_kept :
    create_bead_via_rsry
      (λ s. ok (row (some "x-1") none none))
      (record { has_rosary_bundle = true; rosary_mcp_url = "" })
      (response true 200 "" (result_body (some "{}")))
      (λ url. unreachable "")
      "t"
    ≡ ok (record { id = "x-1"; title = "t"; state = "open" })
unfolding create_bead_via_rsry rsry_fetch
title_kept = refl
