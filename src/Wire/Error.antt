-- ===== src/Wire/Error.antt =====
-- The exceptions of the codec and of the sessions, and what the functions return or raise.
use mathlib.Core.Path.{subst}
use ddht.Prelude.{ℕ, Bool, true, false, ◌≡◌, if◌then◌else◌, ltb, ap, ◌≢◌, sym, refl, ◌⊎◌, inr, inl}
use ddht.Prelude.Bytes.{Bytes, to_bytes}

pub data Error : Type 0 where
  decoding_error decryption_error validation_error overflow_error key_error value_error
        struct_error :
      Error
  type_error index_error attribute_error handshake_failure rlp_error invalid_state invariant_error :
      Error

pub data Result {ℓ} (A : Type ℓ) : Type ℓ where
  ok : A → Result A
  raise : Error → Result A

infixl 5 ◌>>=◌ ◌>>◌
abbrev pub ◌>>=◌ {ℓ κ} : {A : Type ℓ} {B : Type κ} → Result A → (A → Result B) → Result B
ok a >>= f = f a
raise e >>= f = raise e

abbrev pub ◌>>◌ {ℓ} : {B : Type ℓ} → Result (Unit {0}) → Result B → Result B
m >> k = m >>= λ _. k

abbrev pub require : Bool → Error → Result (Unit {0})
require true e = ok tt
require false e = raise e

-- `UINT8_TO_BYTES[n]`: a dictionary with the keys 0 to 255
abbrev pub uint8_to_bytes : ℕ → Result Bytes
uint8_to_bytes n = if ltb n 256 then ok (to_bytes 1 n) else raise key_error

-- the value of a result, where it has one
value_of {ℓ} : {A : Type ℓ} → A → Result A → A
value_of default (ok a) = a
value_of default (raise e) = default

pub ok_inj {ℓ} : {A : Type ℓ} {a b : A} → ok a ≡ ok b → a ≡ b
unfolding value_of
ok_inj {a = a} h = ap (value_of a) h

IsOk {ℓ} : {A : Type ℓ} → Result A → Type 0
IsOk (ok a) = Unit
IsOk (raise e) = ⊥

pub ok≢raise {ℓ} : {A : Type ℓ} {a : A} {e : Error} → ok a ≢ raise e
unfolding IsOk
ok≢raise h = subst IsOk h tt

-- a chain that returns has a first step that returns
pub bind-ok {ℓ κ} :
    {A : Type ℓ} {B : Type κ} (m : Result A) (f : A → Result B) (b : B)
    → m >>= f ≡ ok b
    → (a : A) × (m ≡ ok a) × (f a ≡ ok b)
bind-ok (ok a) f b h = (a, refl, h)
bind-ok (raise e) f b h = absurd (ok≢raise (sym h))

pub Result-cases {ℓ} :
    {A : Type ℓ} (m : Result A) → ((e : Error) × (m ≡ raise e)) ⊎ ((a : A) × (m ≡ ok a))
Result-cases (ok a) = inr (a, refl)
Result-cases (raise e) = inl (e, refl)
