-- ===== src/Signing/Proofs/Declared.antt =====
-- What a user-signed signature depends on: the declared fields of the action, and nothing else.
use hyperliquid_go.Base.{
  ◌≡◌, refl, ap, Bool, ◌==◌, ==_iff, str_eq, if◌then◌else◌, Option, none, some, [], ◌∷◌, arith, ok,
  err, All, Any, ◌>>=◌, inl, inr, Result,
}
use hyperliquid_go.Base.Text.{Str}
use hyperliquid_go.Signing.Values.{Fields, no_fields, field, Value, get_field, set_field, Schema}
use hyperliquid_go.Signing.Lenient.{
  Numbers, FieldError, missing_field, declared_value, filter_fields,
}
use hyperliquid_go.Signing.{Crypto, hash_struct_lenient, with_chain, sign_user_signed, sign_raw}

pub get_field-set_field :
    (new key : Str) (v : Value) (m : Fields)
    → get_field key (set_field new v m) ≡ (if new == key then some v else get_field key m)
unfolding get_field set_field
get_field-set_field new key v no_fields = refl
get_field-set_field new key v (field old w m) =
    ground (arith, get_field-set_field new key v m, ==_iff new key, ==_iff old new, ==_iff old key)

-- The two maps have the same values under the names that the schema declares.
abbrev pub Agree : Schema → Fields → Fields → Type 0
Agree schema m n = All (λ t. get_field t.name m ≡ get_field t.name n) schema

Agree-set_field :
    (schema : Schema) (k : Str) (v : Value) (m n : Fields)
    → Agree schema m n
    → Agree schema (set_field k v m) (set_field k v n)
Agree-set_field [] k v m n h = tt
Agree-set_field (t ∷ ts) k v m n (p, h) = (
  rw (get_field-set_field k t.name v m, get_field-set_field k t.name v n, p) refl,
  Agree-set_field ts k v m n h,
)

next-eq :
    (r : Result FieldError Value) (f g : Value → Result FieldError Fields)
    → ((v : Value) → f v ≡ g v)
    → (r >>= f) ≡ (r >>= g)
next-eq (ok v) f g h = h v
next-eq (err e) f g h = refl

failed_next :
    (r : Result FieldError Value) (f : Value → Result FieldError Fields)
    → ((v : Value) → (e : FieldError) × (f v ≡ err e))
    → (e : FieldError) × ((r >>= f) ≡ err e)
failed_next (ok v) f h = h v
failed_next (err e) f h = (e, refl)

declared_value-eq :
    (numbers : Numbers) (name kind : Str) (m n : Fields)
    → get_field name m ≡ get_field name n
    → declared_value numbers name kind m ≡ declared_value numbers name kind n
unfolding declared_value
declared_value-eq numbers name kind m n p = rw (p, declared_value) refl

filter_fields-Agree :
    (numbers : Numbers) (schema : Schema) (m n acc : Fields)
    → Agree schema m n
    → filter_fields numbers schema m acc ≡ filter_fields numbers schema n acc
unfolding filter_fields
filter_fields-Agree numbers [] m n acc h = refl
filter_fields-Agree numbers (t ∷ ts) m n acc (p, h) =
    rw (declared_value-eq numbers t.name t.kind m n p) (
      next-eq (declared_value numbers t.name t.kind n) _ _
        (λ v. filter_fields-Agree numbers ts m n (set_field t.name v acc) h))

with_chain-Agree :
    (schema : Schema) (is_mainnet : Bool) (a b : Fields)
    → Agree schema a b
    → Agree schema (with_chain is_mainnet a) (with_chain is_mainnet b)
unfolding with_chain
with_chain-Agree schema is_mainnet a b h =
    Agree-set_field schema _ _ _ _ (Agree-set_field schema _ _ a b h)

hash_struct_lenient-Agree :
    (crypto : Crypto) (schema : Schema) (primary : Str) (m n : Fields)
    → Agree schema m n
    → hash_struct_lenient crypto schema primary m ≡ hash_struct_lenient crypto schema primary n
unfolding hash_struct_lenient
hash_struct_lenient-Agree crypto schema primary m n h =
    rw (filter_fields-Agree crypto.numbers schema m n no_fields h, hash_struct_lenient) refl

-- Two actions with the same declared fields have the same signature, whatever else they hold.
pub sign_user_signed-Agree :
    (crypto : Crypto) (a b : Fields) (schema : Schema) (primary : Str) (is_mainnet : Bool)
    → Agree schema a b
    → (sign_user_signed crypto a schema primary is_mainnet).1
      ≡ (sign_user_signed crypto b schema primary is_mainnet).1
unfolding sign_user_signed
sign_user_signed-Agree crypto a b schema primary is_mainnet h =
    ap
      (λ (hashed : Option Str). elim crypto.user_domain [
        | none ↦ none
        | some domain ↦ elim hashed [ none ↦ none | some hash ↦ sign_raw crypto domain hash ]
      ])
      (hash_struct_lenient-Agree crypto schema primary _ _
        (with_chain-Agree schema is_mainnet a b h))

filter_fields-missing :
    (numbers : Numbers) (schema : Schema) (msg acc : Fields)
    → Any (λ t. get_field t.name msg ≡ none) schema
    → (e : FieldError) × (filter_fields numbers schema msg acc ≡ err e)
unfolding filter_fields declared_value
filter_fields-missing numbers [] msg acc h = elim h [ ]
filter_fields-missing numbers (t ∷ ts) msg acc (inl p) =
    (missing_field t.name, rw (p, filter_fields, declared_value) refl)
filter_fields-missing numbers (t ∷ ts) msg acc (inr h) =
    failed_next (declared_value numbers t.name t.kind msg) _
      (λ v. filter_fields-missing numbers ts msg (set_field t.name v acc) h)

-- A declared field that the action lacks fails the hash.
pub hash_struct_lenient-missing :
    (crypto : Crypto) (schema : Schema) (primary : Str) (msg : Fields)
    → Any (λ t. get_field t.name msg ≡ none) schema
    → hash_struct_lenient crypto schema primary msg ≡ none
unfolding hash_struct_lenient
hash_struct_lenient-missing crypto schema primary msg h =
    let (e, p) = filter_fields-missing crypto.numbers schema msg no_fields h in
    rw (p, hash_struct_lenient) refl
