-- ===== src/Routes/Disclosure/Hidden.antt =====
-- src/routes/disclosure.ts: what a response says about a peer.
use cloister.Prelude.{
  ℕ, ◌≡◌, ◌⊎◌, refl, sym, subst, ◌∙◌, String, Bool, true, false, Option, none, some, Bool-cases,
  inl, inr,
}
use cloister.Prelude.Keys.{◌==◌, ==_iff, string_eq}
use cloister.Prelude.Results.{Result, ok, err, ok-injective}
use cloister.Storage.CaBundleCache.{Cache}
use cloister.Storage.DisclosureCursor.{
  CursorPayload, CursorRuntime, verify_cursor, import_hmac_key, constant_time_error_body_len,
}
use cloister.Storage.DisclosureCursor.Signed.{IsSigned, verify_cursor-IsSigned}
use cloister.TrustStore.{TrustStore, peer_has_chain}
use cloister.TrustStore.Rpc.{rpc_list_pending_for_peer}
use cloister.Routes.LeaseMiddleware.Types.{Runtime, Failure}
use cloister.Routes.LeaseMiddleware.{GateVerdict, off, pass, reject}
use cloister.Routes.Disclosure.Records.{Disclosed, constant_time_error}
use cloister.Routes.Disclosure.{
  DisclosureRequest, DisclosureEnv, RejectReason, is_reject, read_env_string, early_reason,
  fetched_rows, scoped, from_seq_of, stream_page, found, decided, keyed, with_key, judged, peer_of,
  disclosure_verdict, handle,
}

module _ (hmac_key_binding master_key_binding : String) (rt : Runtime) (CryptoKey : Type 0)
    (crypto : CursorRuntime CryptoKey) (env : DisclosureEnv) where
  -- A start other than the first row was signed, for this very peer.
  abbrev pub IsStart : CryptoKey → String → ℕ → Type 0
  IsStart key peer_fp n =
      (n ≡ 0)
      ⊎ ((payload : CursorPayload) × IsSigned CryptoKey crypto key payload
          × (payload.peer_fp ≡ peer_fp)
          × (payload.from_seq ≡ n))

  scoped-IsStart :
      (key : CryptoKey) (peer_fp cursor : String) (decoded : Result (Unit {0}) CursorPayload)
      (n : ℕ)
      → verify_cursor CryptoKey crypto cursor key ≡ decoded
      → scoped hmac_key_binding master_key_binding rt CryptoKey crypto env peer_fp decoded ≡ ok n
      → IsStart key peer_fp n
  scoped-IsStart key peer_fp cursor (err why) n e h = cc
  scoped-IsStart key peer_fp cursor (ok payload) n e h =
      elim (Bool-cases (payload.peer_fp == peer_fp)) [
        | inl same ↦ inr (
          payload,
          verify_cursor-IsSigned CryptoKey crypto key cursor payload e,
          (==_iff payload.peer_fp peer_fp).0 same,
          ok-injective (rw same at h),
        )
        | inr other ↦
            let refused : ◌≡◌ {A = Result RejectReason ℕ} (err RejectReason.bad_cursor) (ok n) =
              rw other at h in
            cc
      ]

  from_seq_of-IsStart :
      (key : CryptoKey) (peer_fp : String) (since : Option String) (n : ℕ)
      → from_seq_of hmac_key_binding master_key_binding rt CryptoKey crypto env key peer_fp since
        ≡ ok n
      → IsStart key peer_fp n
  from_seq_of-IsStart key peer_fp none n h = inl (sym (ok-injective h))
  from_seq_of-IsStart key peer_fp (some cursor) n h = elim (Bool-cases (cursor == "")) [
    | inl empty ↦ inl (sym (ok-injective (rw empty at h)))
    | inr full ↦
        scoped-IsStart key peer_fp cursor (verify_cursor CryptoKey crypto cursor key) n refl
          (rw full at h)
  ]

  -- A page that is given: the chain is there, from a start that is as it must be.
  abbrev pub IsPage : TrustStore → CryptoKey → DisclosureRequest → String → Disclosed → Type 0
  IsPage trust key request peer_fp given =
      (peer_has_chain trust peer_fp ≡ true)
      × ((n : ℕ) × IsStart key peer_fp n
          × (given
              ≡ stream_page hmac_key_binding master_key_binding rt CryptoKey crypto env key request
                  peer_fp (fetched_rows trust peer_fp n) (rpc_list_pending_for_peer trust peer_fp)))

  abbrev pub IsRefusal : Disclosed → Type 0
  IsRefusal given = given ≡ constant_time_error constant_time_error_body_len

  found-cases :
      (trust : TrustStore) (key : CryptoKey) (request : DisclosureRequest) (peer_fp : String)
      (has_chain : Bool) (start : Result RejectReason ℕ)
      → peer_has_chain trust peer_fp ≡ has_chain
      → from_seq_of hmac_key_binding master_key_binding rt CryptoKey crypto env key peer_fp
          request.since
        ≡ start
      → IsRefusal (
          found hmac_key_binding master_key_binding rt CryptoKey crypto env trust key request
            peer_fp has_chain start)
        ⊎ IsPage trust key request peer_fp (
            found hmac_key_binding master_key_binding rt CryptoKey crypto env trust key request
              peer_fp has_chain start)
  found-cases trust key request peer_fp has_chain (err reason) there e = inl refl
  found-cases trust key request peer_fp false (ok n) there e = inl refl
  found-cases trust key request peer_fp true (ok n) there e =
      inr (there, (n, from_seq_of-IsStart key peer_fp request.since n e, refl))

  decided-cases :
      (trust : TrustStore) (key : CryptoKey) (request : DisclosureRequest) (peer_fp : String)
      (reason : Option RejectReason)
      → let given =
          decided hmac_key_binding master_key_binding rt CryptoKey crypto env trust key request
            peer_fp
            (peer_has_chain trust peer_fp)
            reason in
        IsRefusal given ⊎ ((reason ≡ none) × IsPage trust key request peer_fp given)
  decided-cases trust key request peer_fp (some reason) = inl refl
  decided-cases trust key request peer_fp none =
      elim (found-cases trust key request peer_fp (peer_has_chain trust peer_fp)
        (from_seq_of hmac_key_binding master_key_binding rt CryptoKey crypto env key peer_fp
          request.since)
        refl refl) [ inl refused ↦ inl refused | inr page ↦ inr (refl, page) ]

  -- What a response other than the refusal rests on.
  abbrev pub IsDisclosed :
      TrustStore
      → DisclosureRequest
      → String
      → Option RejectReason
      → Option String
      → Disclosed
      → Type 0
  IsDisclosed trust request peer_fp reason hmac_key_b64 given =
      (raw : String) × (key : CryptoKey) × (hmac_key_b64 ≡ some raw)
      × (import_hmac_key CryptoKey crypto raw ≡ some key)
      × (reason ≡ none)
      × IsPage trust key request peer_fp given

  keyed-cases :
      (trust : TrustStore) (request : DisclosureRequest) (peer_fp raw : String)
      (reason : Option RejectReason) (key : Option CryptoKey) (given : Disclosed)
      → import_hmac_key CryptoKey crypto raw ≡ key
      → keyed hmac_key_binding master_key_binding rt CryptoKey crypto env trust request peer_fp
          reason key
        ≡ ok given
      → IsRefusal given ⊎ IsDisclosed trust request peer_fp reason (some raw) given
  keyed-cases trust request peer_fp raw reason none given e h = cc
  keyed-cases trust request peer_fp raw reason (some key) given e h =
      elim (decided-cases trust key request peer_fp reason) [
        | inl refused ↦ inl (sym (ok-injective h) ∙ refused)
        | inr (clear, page) ↦ inr (
          raw,
          key,
          refl,
          e,
          clear,
          subst (IsPage trust key request peer_fp) (ok-injective h) page,
        )
      ]

  with_key-cases :
      (trust : TrustStore) (request : DisclosureRequest) (peer_fp : String)
      (reason : Option RejectReason) (hmac_key_b64 : Option String) (given : Disclosed)
      → with_key hmac_key_binding master_key_binding rt CryptoKey crypto env trust request peer_fp
          reason hmac_key_b64
        ≡ ok given
      → IsRefusal given ⊎ IsDisclosed trust request peer_fp reason hmac_key_b64 given
  with_key-cases trust request peer_fp reason none given h = inl (sym (ok-injective h))
  with_key-cases trust request peer_fp reason (some raw) given h =
      keyed-cases trust request peer_fp raw reason (import_hmac_key CryptoKey crypto raw) given refl
        h

  -- The gate's verdict lets a request through that has no reason against it.
  reason-clear :
      (peer_fp : String) (verdict : GateVerdict)
      → early_reason hmac_key_binding master_key_binding rt CryptoKey crypto env peer_fp verdict
        ≡ none
      → is_reject verdict ≡ false
  reason-clear peer_fp off h = refl
  reason-clear peer_fp (pass lease) h = refl
  reason-clear peer_fp (reject code message) h = elim (Bool-cases (peer_fp == "")) [
    | inl empty ↦ let no : some RejectReason.not_found ≡ none = rw empty at h in cc
    | inr named ↦ let no : some RejectReason.denied ≡ none = rw named at h in cc
  ]

  -- Of a request and what the gate answers to it.
  abbrev pub IsAllowed :
      DisclosureRequest
      → String
      → (Cache × TrustStore) × Result Failure GateVerdict
      → Disclosed
      → Type 0
  IsAllowed request peer_fp answered given =
      (verdict : GateVerdict) × (answered.1 ≡ ok verdict)
      × (is_reject verdict ≡ false)
      × ((raw : String) × (key : CryptoKey) × (read_env_string env hmac_key_binding ≡ some raw)
          × (import_hmac_key CryptoKey crypto raw ≡ some key)
          × IsPage answered.0.1 key request peer_fp given)

  judged-cases :
      (request : DisclosureRequest) (peer_fp : String)
      (answered : (Cache × TrustStore) × Result Failure GateVerdict) (given : Disclosed)
      → (judged hmac_key_binding master_key_binding rt CryptoKey crypto env request peer_fp
          answered).1
        ≡ ok given
      → IsRefusal given ⊎ IsAllowed request peer_fp answered given
  judged-cases request peer_fp ((cache, trust), err failure) given h = cc
  judged-cases request peer_fp ((cache, trust), ok verdict) given h =
      elim (with_key-cases trust request peer_fp
        (early_reason hmac_key_binding master_key_binding rt CryptoKey crypto env peer_fp verdict)
        (read_env_string env hmac_key_binding) given h) [
          | inl refused ↦ inl refused
          | inr (raw, key, bound, imported, clear, page) ↦
              inr (
                verdict,
                refl,
                reason-clear peer_fp verdict clear,
                (raw, key, bound, imported, page),
              )
        ]

  -- Every response is the one refusal, the same whatever the reason and whatever the store holds, or all of
  -- this is true: the gate let the request through under the scope of just this peer, the cursors' key
  -- is configured, the peer has a chain or pending writes, the start of the page is the first row or was
  -- signed with that key for just this peer, and the response is the page from there.
  pub handle-IsAllowed :
      (state : Cache × TrustStore) (request : DisclosureRequest) (given : Disclosed)
      → (handle hmac_key_binding master_key_binding rt CryptoKey crypto env state request).1
        ≡ ok given
      → IsRefusal given
        ⊎ IsAllowed request
            (peer_of hmac_key_binding master_key_binding rt CryptoKey crypto env request)
            (disclosure_verdict hmac_key_binding master_key_binding rt CryptoKey crypto env state
              request)
            given
  unfolding handle
  handle-IsAllowed state request given h =
      judged-cases request
        (peer_of hmac_key_binding master_key_binding rt CryptoKey crypto env request)
        (disclosure_verdict hmac_key_binding master_key_binding rt CryptoKey crypto env state
          request)
        given h
