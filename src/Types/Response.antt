-- ===== src/Types/Response.antt =====
-- types/api_response.go: the envelope of the answers of /exchange.
use hyperliquid_go.Base.{
  ◌≡◌, ◌∙◌, refl, sym, ap, Bool-cases, Option-cases, inl, inr, Bool, true, false, Option, none,
  some, List, [], ◌∷◌, ◌==◌, str_eq, if◌then◌else◌, Result, ok, err,
}
use hyperliquid_go.Base.Text.{Str, codes}

-- What the code uses of package fastjson. `text_at` is empty where the path leads to no string.
pub record FastJson : Type 1 where
  pub Value : Type 0
  pub parse : Str → Option Value
  pub text_at : List Str → Value → Str
  pub get : List Str → Value → Option Value
  pub marshal : Value → Str

-- `APIResponse`
pub record ApiResponse (A : Type 0) : Type 0 where
  pub status : Str
  pub data_ : A
  pub response_type : Str
  pub error : Str
  pub is_ok : Bool

-- The errors of `UnmarshalJSON`.
pub data UnmarshalError : Type 0 where
  not_json bad_data bad_response missing_data : UnmarshalError

-- `decode` is `json.Unmarshal` into a value that is there: the new value, also after an error, and
-- whether the error is nil.
module _ {A : Type 0} (json : FastJson) (decode : Str → A → A × Bool) where
  open json use {Value, parse, text_at, get, marshal}

  abbrev Unmarshalled : Type 0
  Unmarshalled = ApiResponse A × Result UnmarshalError (Unit {0})

  -- The payload is decoded into the field `Data`.
  unfoldable pub store_data : UnmarshalError → Value → ApiResponse A → Unmarshalled
  store_data e v r =
      let (a, decoded) = decode (marshal v) r.data_ in
      (record r { data_ = a }, if decoded then ok tt else err e)

  -- The payload stands under `response.data`, or else under `response`.
  unfoldable pub read_payload : Value → ApiResponse A → Unmarshalled
  read_payload v r = elim (get (codes "response" ∷ codes "data" ∷ []) v) [
    | some d ↦ store_data bad_data d r
    | none ↦ elim (get (codes "response" ∷ []) v) [
      | some d ↦ store_data bad_response d r
      | none ↦ (r, err missing_data)
    ]
  ]

  -- The status, then the error text or the payload.
  unfoldable pub read_envelope : Value → ApiResponse A → Unmarshalled
  read_envelope v r =
      let status = text_at (codes "status" ∷ []) v in
      if status == codes "ok"
      then read_payload v (record r {
        status = status;
        is_ok = true;
        response_type = text_at (codes "response" ∷ codes "type" ∷ []) v;
      })
      else (
        record r { status = status; is_ok = false; error = text_at (codes "response" ∷ []) v },
        ok tt,
      )

  -- `UnmarshalJSON` with its receiver, which keeps what was written before an error.
  unfoldable pub unmarshal_json : Str → ApiResponse A → Unmarshalled
  unmarshal_json body r = elim (parse body) [
    | none ↦ (r, err not_json)
    | some v ↦ read_envelope v r
  ]

  store_data-status :
      (e : UnmarshalError) (v : Value) (r : ApiResponse A)
      → ((store_data e v r).0.is_ok ≡ r.is_ok) × ((store_data e v r).0.status ≡ r.status)
  unfolding store_data
  store_data-status e v r = (refl, refl)

  read_payload-status :
      (v : Value) (r : ApiResponse A)
      → ((read_payload v r).0.is_ok ≡ r.is_ok) × ((read_payload v r).0.status ≡ r.status)
  unfolding read_payload
  read_payload-status v r = elim (Option-cases (get (codes "response" ∷ codes "data" ∷ []) v)) [
    | inr (d, h) ↦ rw (h, read_payload) (store_data-status bad_data d r)
    | inl h ↦ elim (Option-cases (get (codes "response" ∷ []) v)) [
      | inr (d, h') ↦ rw (h, h', read_payload) (store_data-status bad_response d r)
      | inl h' ↦ rw (h, h', read_payload) (refl, refl)
    ]
  ]

  read_envelope-status :
      (v : Value) (r : ApiResponse A)
      → (read_envelope v r).0.is_ok ≡ ((read_envelope v r).0.status == codes "ok")
  unfolding read_envelope
  read_envelope-status v r = elim (Bool-cases (text_at (codes "status" ∷ []) v == codes "ok")) [
    | inr h ↦ rw (h, h) refl
    | inl h ↦
        let (a, b) = read_payload-status v (record r {
          status = text_at (codes "status" ∷ []) v;
          is_ok = true;
          response_type = text_at (codes "response" ∷ codes "type" ∷ []) v;
        }) in
        rw h (a ∙ sym h ∙ ap (λ x. x == codes "ok") (sym b))
  ]

  -- A decoding that read an envelope, also one that failed on the payload, leaves a response that is
  -- ok exactly when its status is "ok".
  unmarshal_json-status :
      (body : Str) (r : ApiResponse A)
      → ¬ ((unmarshal_json body r).1 ≡ err not_json)
      → (unmarshal_json body r).0.is_ok ≡ ((unmarshal_json body r).0.status == codes "ok")
  unfolding unmarshal_json
  unmarshal_json-status body r h = elim (Option-cases (parse body)) [
    | inl p ↦ absurd (h (rw (p, unmarshal_json) refl))
    | inr (v, p) ↦ rw (p, unmarshal_json) (read_envelope-status v r)
  ]
