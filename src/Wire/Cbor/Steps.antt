-- ===== src/Wire/Cbor/Steps.antt =====
-- What a decoding step leaves of the bytes, and its errors.
use cloister.Prelude.{
  ℕ, ◌≤◌, ◌≡◌, refl, Bool, true, false, List, [], ◌∷◌, arith, length, ltb, length-drop,
  if◌then◌else◌,
}
use cloister.Prelude.Keys.{nat_eq}
use cloister.Prelude.Results.{ok, err, ◌>>=◌, ◌>>◌, guard}
use cloister.Wire.Cbor.{
  Value, uint, bytes, text, array, map, negative, fraction, non_finite, null, undefined,
  unsupported, Coded, CborError, out_of_fuel,
}
use cloister.Wire.Cbor.Decode.{read_byte, read_bytes, read_argument, as_text}

abbrev pub is_out_of_fuel : CborError → Bool
is_out_of_fuel out_of_fuel = true
is_out_of_fuel _ = false

-- A step that does not run out of fuel, and that leaves at most so many bytes if it succeeds.
pub data Steps {A : Type 0} (n : ℕ) : Coded (A × List ℕ) → Type 0 where
  finished : {a : A} {c : List ℕ} → length c ≤ n → Steps n (ok (a, c))
  refused : {e : CborError} → is_out_of_fuel e ≡ false → Steps n (err e)

module _ {A B : Type 0} {n m : ℕ} where
  pub Steps-bind :
      (r : Coded (A × List ℕ)) (f : A × List ℕ → Coded (B × List ℕ))
      → Steps n r
      → ((a : A) (c : List ℕ) → length c ≤ n → Steps m (f (a, c)))
      → Steps m (r >>= f)
  Steps-bind _ f (finished {a = a} {c = c} le) k = k a c le
  Steps-bind _ f (refused h) k = refused h

module _ {A : Type 0} {n : ℕ} where
  pub Steps-guard :
      (b : Bool) (e : CborError) (r : Coded (A × List ℕ))
      → is_out_of_fuel e ≡ false
      → Steps n r
      → Steps n (guard b e >> r)
  Steps-guard true e r h k = k
  Steps-guard false e r h k = refused h

  pub Steps-if :
      (b : Bool) (r s : Coded (A × List ℕ)) → Steps n r → Steps n s → Steps n (if b then r else s)
  Steps-if true r s h k = h
  Steps-if false r s h k = k

  pub Steps-byte :
      (c : List ℕ) (f : ℕ × List ℕ → Coded (A × List ℕ))
      → length c ≤ n
      → ((b : ℕ) (d : List ℕ) → length d ≤ n → Steps n (f (b, d)))
      → Steps n (read_byte c >>= f)
  unfolding read_byte
  Steps-byte [] f le h = refused refl
  Steps-byte (b ∷ d) f le h = h b d (omega arith)

pub Steps-read_bytes : (n : ℕ) (c : List ℕ) → Steps (length c) (read_bytes n c)
unfolding read_bytes
Steps-read_bytes n c =
    Steps-if (ltb (length c) n) _ _ (refused refl) (finished (omega (arith, length-drop n c)))

pub Steps-read_argument : (initial : ℕ) (c : List ℕ) → Steps (length c) (read_argument initial c)
unfolding read_argument
Steps-read_argument initial c =
    let le : length c ≤ length c = omega arith in
    search (Steps-if, Steps-byte, Steps-guard, finished, refused) depth 24

-- A step that starts with no more bytes than the bound, and what is done with its result.
pub Steps-then :
    {A B : Type 0} (m : ℕ) (d : List ℕ) (r : Coded (A × List ℕ))
    (f : A × List ℕ → Coded (B × List ℕ))
    → Steps (length d) r
    → length d ≤ m
    → ((a : A) (e : List ℕ) → length e ≤ m → Steps m (f (a, e)))
    → Steps m (r >>= f)
Steps-then m d _ f (finished {a = a} {c = c} le) h k = k a c (omega arith)
Steps-then m d _ f (refused e) h k = refused e

pub Steps-argument :
    {B : Type 0} (m initial : ℕ) (d : List ℕ) (f : ℕ × List ℕ → Coded (B × List ℕ))
    → length d ≤ m
    → ((n : ℕ) (e : List ℕ) → length e ≤ m → Steps m (f (n, e)))
    → Steps m (read_argument initial d >>= f)
Steps-argument m initial d f =
    Steps-then m d (read_argument initial d) f (Steps-read_argument initial d)

pub Steps-payload :
    {B : Type 0} (m n : ℕ) (d : List ℕ) (f : List ℕ × List ℕ → Coded (B × List ℕ))
    → length d ≤ m
    → ((v e : List ℕ) → length e ≤ m → Steps m (f (v, e)))
    → Steps m (read_bytes n d >>= f)
Steps-payload m n d f = Steps-then m d (read_bytes n d) f (Steps-read_bytes n d)

pub Steps-weaken : {A : Type 0} (n m : ℕ) (r : Coded (A × List ℕ)) → n ≤ m → Steps n r → Steps m r
Steps-weaken n m _ le (finished h) = finished (omega arith)
Steps-weaken n m _ le (refused h) = refused h

pub Steps-as_text :
    {A : Type 0} (n : ℕ) (key : Value) (f : List ℕ → Coded (A × List ℕ))
    → ((k : List ℕ) → Steps n (f k))
    → Steps n (as_text key >>= f)
Steps-as_text n (text k) f h = h k
Steps-as_text n (uint v) f h = refused refl
Steps-as_text n (bytes v) f h = refused refl
Steps-as_text n (array vs) f h = refused refl
Steps-as_text n (map m) f h = refused refl
Steps-as_text n negative f h = refused refl
Steps-as_text n fraction f h = refused refl
Steps-as_text n non_finite f h = refused refl
Steps-as_text n null f h = refused refl
Steps-as_text n undefined f h = refused refl
Steps-as_text n unsupported f h = refused refl
