-- ===== src/Routes/Disclosure/Rows.antt =====
-- The rows of a chain that a page has, and where the next one starts.
use cloister.Prelude.{
  ℕ, zero, suc, ◌+◌, ◌-◌, ◌≤◌, ◌<◌, ◌≡◌, refl, sym, ap, ◌∙◌, String, Bool, true, false, ◌&&◌,
  Option, none, some, List, [], ◌∷◌, arith, leb, ltb, length, take, drop, length-take, length-drop,
  take_all, drop_nil, take-take, leb→le, subst, Bool-cases, inl, inr, if◌then◌else◌,
}
use cloister.Prelude.Keys.{string_eq}
use cloister.Prelude.Sort.{sort, insert}
use cloister.Table.{select, exists}
use cloister.Storage.PeerAttestations.{
  PeerAttestation, Attestations, of_peer, list_attestations_for_peer,
}
use cloister.Storage.PeerAttestations.Chain.{Linked}
use cloister.Routes.Disclosure.{page_rows, last_seq, next_seq}

-- ORDER BY seq ASC
abbrev seq_asc : PeerAttestation → PeerAttestation → Bool
seq_asc a b = leb a.seq b.seq

select-and :
    (p q : PeerAttestation → Bool) (t : Attestations)
    → select (λ r. p r && q r) t ≡ select q (select p t)
unfolding select
select-and p q [] = refl
select-and p q (r ∷ t) = ground (arith, select-and p q t)

insert-Linked :
    (ref : Option String) (seq : ℕ) (r : PeerAttestation) (rows : List PeerAttestation)
    → r.seq ≤ seq
    → Linked ref seq rows
    → insert seq_asc r rows ≡ r ∷ rows
unfolding insert
insert-Linked ref seq r [] le h = refl
insert-Linked ref seq r (s ∷ rows) le h = ground (arith, le, h.1)

sort-Linked :
    (ref : Option String) (seq : ℕ) (rows : List PeerAttestation)
    → Linked ref seq rows
    → sort seq_asc rows ≡ rows
unfolding sort
sort-Linked ref seq [] h = refl
sort-Linked ref seq (r ∷ rows) h =
    ap (insert seq_asc r) (sort-Linked (some r.content_hash) (seq + 1) rows h.2)
    ∙ insert-Linked (some r.content_hash) (seq + 1) r rows (omega (arith, h.1)) h.2

-- What is left of a chain after its first rows is a chain.
drop-Linked :
    (k : ℕ) (ref : Option String) (seq : ℕ) (rows : List PeerAttestation)
    → Linked ref seq rows
    → k ≤ length rows
    → (ref' : Option String) × Linked ref' (seq + k) (drop k rows)
drop-Linked zero ref seq rows h le = (ref, subst (λ n. Linked ref n rows) (omega arith) h)
drop-Linked (suc k) ref seq [] h le = absurd (omega arith)
drop-Linked (suc k) ref seq (r ∷ rows) h le =
    let (ref', h') = drop-Linked k (some r.content_hash) (seq + 1) rows h.2 (omega (arith, le)) in
    (ref', subst (λ n. Linked ref' n (drop k rows)) (omega arith) h')

sort-drop :
    (k : ℕ) (ref : Option String) (seq : ℕ) (rows : List PeerAttestation)
    → Linked ref seq rows
    → sort seq_asc (drop k rows) ≡ drop k rows
unfolding sort
sort-drop zero ref seq rows h = sort-Linked ref seq rows h
sort-drop (suc k) ref seq [] h = refl
sort-drop (suc k) ref seq (r ∷ rows) h = sort-drop k (some r.content_hash) (seq + 1) rows h.2

select_from :
    (from_seq : ℕ) (ref : Option String) (seq : ℕ) (rows : List PeerAttestation)
    → Linked ref seq rows
    → select (λ r. leb from_seq r.seq) rows ≡ drop (from_seq - (seq + 1)) rows
unfolding select
select_from from_seq ref seq [] h = sym (drop_nil (from_seq - (seq + 1)))
select_from from_seq ref seq (r ∷ rows) h = elim (Bool-cases (leb from_seq r.seq)) [
  | inl after ↦
      let le = leb→le from_seq r.seq after in
      let none_left : 0 ≡ from_seq - (seq + 1) = omega (arith, h.1, le) in
      let none_later : from_seq - (seq + 1 + 1) ≡ 0 = omega (arith, h.1, le) in
      rw after (
        ap (λ t. r ∷ t)
          (select_from from_seq (some r.content_hash) (seq + 1) rows h.2
            ∙ ap (λ k. drop k rows) none_later)
        ∙ ap (λ k. drop k (r ∷ rows)) none_left)
  | inr before ↦
      let one_more : suc (from_seq - (seq + 1 + 1)) ≡ from_seq - (seq + 1) =
        ground (arith, h.1, before) in
      rw before (
        select_from from_seq (some r.content_hash) (seq + 1) rows h.2
        ∙ ap (λ k. drop k (r ∷ rows)) one_more)
]

last_seq-take :
    (limit : ℕ) (ref : Option String) (seq : ℕ) (rows : List PeerAttestation)
    → Linked ref seq rows
    → 1 ≤ limit
    → limit ≤ length rows
    → last_seq (take limit rows) ≡ seq + limit
last_seq-take zero ref seq rows h one le = absurd (omega arith)
last_seq-take (suc limit) ref seq [] h one le = absurd (omega arith)
last_seq-take (suc zero) ref seq (r ∷ rows) h one le = h.1
last_seq-take (suc (suc limit)) ref seq (r ∷ []) h one le = absurd (omega arith)
last_seq-take (suc (suc limit)) ref seq (r ∷ s ∷ rows) h one le =
    last_seq-take (suc limit) (some r.content_hash) (seq + 1) (s ∷ rows) h.2 (omega arith)
      (omega (arith, le))
    ∙ omega arith

module _ (sql : Attestations) (peer_fp : String)
    (chained : Linked none 0 (select (of_peer peer_fp) sql)) where
  abbrev pub chain : List PeerAttestation
  chain = select (of_peer peer_fp) sql

  -- A page is the rows from its start on, up to the limit.
  pub listed :
      (from_seq limit : ℕ)
      → list_attestations_for_peer sql peer_fp from_seq limit
        ≡ take limit (drop (from_seq - 1) chain)
  unfolding list_attestations_for_peer
  listed from_seq limit =
      ap (λ t. take limit (sort seq_asc t))
        (select-and (of_peer peer_fp) (λ r. leb from_seq r.seq) sql
          ∙ select_from from_seq none 0 chain chained)
      ∙ ap (take limit) (sort-drop (from_seq - 1) none 0 chain chained)

-- More rows than the limit: the page is cut, and the next one is announced.
full_page :
    (limit : ℕ) (rows : List PeerAttestation)
    → limit < length rows
    → (page_rows (take (limit + 1) rows) limit ≡ take limit rows)
      × (next_seq (take (limit + 1) rows) limit ≡ some (last_seq (take limit rows) + 1))
full_page limit rows more =
    let over : ltb limit (length (take (limit + 1) rows)) ≡ true =
      ground (arith, more, length-take (limit + 1) rows) in
    let page : page_rows (take (limit + 1) rows) limit ≡ take limit rows =
      rw over (take-take limit rows) in
    (page, rw over (ap (λ t. some (last_seq t + 1)) (take-take limit rows)))

last_page :
    (limit : ℕ) (rows : List PeerAttestation)
    → length rows ≤ limit
    → (page_rows (take (limit + 1) rows) limit ≡ rows)
      × (next_seq (take (limit + 1) rows) limit ≡ none)
last_page limit rows fits =
    let within : ltb limit (length (take (limit + 1) rows)) ≡ false =
      ground (arith, fits, length-take (limit + 1) rows) in
    (rw within (take_all (limit + 1) rows (omega arith)), rw within refl)

module _ (sql : Attestations) (peer_fp : String)
    (chained : Linked none 0 (select (of_peer peer_fp) sql)) (limit : ℕ) (one : 1 ≤ limit) where
  -- The next page starts after the rows of this one.
  next_start :
      (k : ℕ)
      → limit < length (drop k (chain sql peer_fp chained))
      → last_seq (take limit (drop k (chain sql peer_fp chained))) ≡ k + limit
  next_start k more =
      let (ref, h) =
        drop-Linked k none 0 (chain sql peer_fp chained) chained
          (omega (arith, more, length-drop k (chain sql peer_fp chained))) in
      last_seq-take limit ref (0 + k) (drop k (chain sql peer_fp chained)) h one
        (omega (arith, more))
      ∙ omega arith

  -- What the route makes of the rows that it reads, from the k-th on: the page and the next start.
  pub page_lem :
      (k : ℕ)
      → let left = drop k (chain sql peer_fp chained) in
        (page_rows (take (limit + 1) left) limit ≡ take limit left)
        × (next_seq (take (limit + 1) left) limit
            ≡ (if ltb limit (length left) then some (k + limit + 1) else none))
  page_lem k =
      let left = drop k (chain sql peer_fp chained) in
      elim (Bool-cases (ltb limit (length left))) [
        | inl more ↦
            let over : limit < length left = ground (arith, more) in
            let (page, next) = full_page limit left over in
            (page, rw more (next ∙ ap (λ n. some (n + 1)) (next_start k over)))
        | inr within ↦
            let fits : length left ≤ limit = ground (arith, within) in
            let (page, next) = last_page limit left fits in
            (page ∙ sym (take_all limit left fits), rw within next)
      ]

pub exists-select :
    (p : PeerAttestation → Bool) (t : Attestations) → 0 < length (select p t) → exists p t ≡ true
unfolding exists select
exists-select p [] h = absurd (omega (arith, h))
exists-select p (r ∷ t) h = ground (arith, h, exists-select p t)
