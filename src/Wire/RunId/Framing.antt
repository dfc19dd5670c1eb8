-- ===== src/Wire/RunId/Framing.antt =====
-- The framing of the fields in the preimage of a run identifier.
use cloister.Prelude.{ℕ, ◌^◌, ◌<◌, ◌≡◌, refl, List, [], ◌∷◌, ◌++◌, arith, length, All}
use cloister.Wire.RunId.{RunIdInputs, u64le, frame_all, run_id_domain, build_run_id_preimage}

∷-injective : {x y : ℕ} {xs ys : List ℕ} → x ∷ xs ≡ y ∷ ys → (x ≡ y) × (xs ≡ ys)
∷-injective e = (cc, cc)

append_cancel : (p : List ℕ) {q r : List ℕ} → p ++ q ≡ p ++ r → q ≡ r
append_cancel [] e = e
append_cancel (x ∷ p) e = append_cancel p (∷-injective e).1

append_inj :
    (p q : List ℕ) {r s : List ℕ} → length p ≡ length q → p ++ r ≡ q ++ s → (p ≡ q) × (r ≡ s)
append_inj [] [] l e = (refl, e)
append_inj [] (y ∷ q) l e = absurd (omega arith)
append_inj (x ∷ p) [] l e = absurd (omega arith)
append_inj (x ∷ p) (y ∷ q) l e =
    let (a, b) = ∷-injective e in let (c, d) = append_inj p q (omega arith) b in (cc, d)

u64le-injective :
    (n m : ℕ) (r s : List ℕ)
    → n < 2 ^ 64
    → m < 2 ^ 64
    → u64le n ++ r ≡ u64le m ++ s
    → (n ≡ m) × (r ≡ s)
unfolding u64le
u64le-injective n m r s ln lm e =
    let (b0, e1) = ∷-injective e in
    let (b1, e2) = ∷-injective e1 in
    let (b2, e3) = ∷-injective e2 in
    let (b3, e4) = ∷-injective e3 in
    let (b4, e5) = ∷-injective e4 in
    let (b5, e6) = ∷-injective e5 in
    let (b6, e7) = ∷-injective e6 in
    let (b7, e8) = ∷-injective e7 in (omega (arith, b0, b1, b2, b3, b4, b5, b6, b7), e8)

-- A length that a u64 holds.
abbrev pub HasU64Length : List ℕ → Type 0
HasU64Length field = length field < 2 ^ 64

frame_all-injective :
    (fields others : List (List ℕ))
    → All HasU64Length fields
    → All HasU64Length others
    → length fields ≡ length others
    → frame_all fields ≡ frame_all others
    → fields ≡ others
unfolding frame_all
frame_all-injective [] [] h k l e = refl
frame_all-injective [] (g ∷ gs) h k l e = absurd (omega arith)
frame_all-injective (f ∷ fs) [] h k l e = absurd (omega arith)
frame_all-injective (f ∷ fs) (g ∷ gs) h k l e =
    let (sizes, tails) =
      u64le-injective (length f) (length g) (f ++ frame_all fs) (g ++ frame_all gs) h.0 k.0 e in
    let (same, rest) = append_inj f g sizes tails in
    let others = frame_all-injective fs gs h.1 k.1 (omega arith) rest in cc

abbrev pub fields_of : RunIdInputs → List (List ℕ)
fields_of inputs = inputs.canonical_spec_digest ∷ inputs.grant_id ∷ inputs.replay_key ∷ []

-- Two runs whose fields have lengths that a u64 holds have the same preimage only if they have the same
-- specification, the same grant and the same replay key.
pub preimage_determines :
    (inputs inputs' : RunIdInputs)
    → All HasU64Length (fields_of inputs)
    → All HasU64Length (fields_of inputs')
    → build_run_id_preimage inputs ≡ build_run_id_preimage inputs'
    → (inputs.canonical_spec_digest ≡ inputs'.canonical_spec_digest)
      × (inputs.grant_id ≡ inputs'.grant_id)
      × (inputs.replay_key ≡ inputs'.replay_key)
unfolding build_run_id_preimage
preimage_determines inputs inputs' h k e =
    let framed : frame_all (fields_of inputs) ≡ frame_all (fields_of inputs') =
      (∷-injective (append_cancel run_id_domain e)).1 in
    let same : fields_of inputs ≡ fields_of inputs' =
      frame_all-injective (fields_of inputs) (fields_of inputs') h k refl framed in
    (cc, cc, cc)
