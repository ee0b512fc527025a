-- ===== src/Api/Client/Tasks/Moves.antt =====
-- An abstract view of the life of one call, and the handlers of apps/web/src/api/client.ts against it.
use novel_platform.Common.{
  ℕ, Bool, true, false, ◌&&◌, ◌||◌, Option, none, ◌≡◌, refl, ◌≢◌, ◌⊎◌, inl, inr, arith, ltb, leb,
  ◌==◌, is_some, if◌then◌else◌, Bool-cases,
}
use novel_platform.Api.Types.{
  Token, Body, Thrown, Outcome, rejected, fulfilled, blob, Endpoint, Transport, json, binary, form,
}
use novel_platform.Api.Client.{
  Shared, expire, is_ok, refresh_access_token, can_refresh, token_eq, Phase, fetching, reading,
  waiting, resuming, begin, retry, finish, api_error_of,
}
use novel_platform.Api.Client.Tasks.{
  Arrival, headers, content, loaded, failure, continued, arrive, request_headers, request_content,
  request_blob_headers, request_blob_content, upload_load,
}

-- The token that a call in this phase has sent.
abbrev pub token_sent : Phase → Option Token
token_sent (fetching token_used _) = token_used
token_sent (reading token_used _) = token_used
token_sent _ = none

-- The phases in which a call waits for the network or for its turn.
abbrev pub is_active : Phase → Bool
is_active (fetching _ _) = true
is_active (reading _ _) = true
is_active (resuming _) = true
is_active _ = false

pub data Moves (e : Endpoint) (s : Shared) (p : Phase) (r : Shared × Phase) : Type 0 where
  stays : r ≡ (s, p) → Moves e s p r
  reads :
      (u : Option Token) (b : Bool) (status : ℕ)
      → p ≡ fetching u b
      → e.transport ≢ form
      → r ≡ (s, reading u status)
      → Moves e s p r
  ends : (o : Outcome) → is_active p ≡ true → r ≡ finish e.after o s → Moves e s p r
  expires :
      (thrown : Thrown)
      → is_some (token_sent p) ≡ true
      → r ≡ finish e.after (rejected thrown) (expire s)
      → Moves e s p r
  refreshes :
      (u : Option Token)
      → p ≡ fetching u true
      → is_some u ≡ true
      → (e.transport ≡ form) ⊎ (can_refresh e.path ≡ true)
      → token_eq s.access_token u ≡ true
      → r ≡ (refresh_access_token s, waiting)
      → Moves e s p r
  resends :
      (p ≡ fetching (token_sent p) true) ⊎ ((o : Outcome) × (p ≡ resuming o))
      → r ≡ begin e false s
      → Moves e s p r

module _ (e : Endpoint) (u : Option Token) (s : Shared) where
  retry-Moves :
      is_some u ≡ true
      → (e.transport ≡ form) ⊎ (can_refresh e.path ≡ true)
      → Moves e s (fetching u true) (retry e u s)
  unfolding retry
  retry-Moves h k = elim (Bool-cases (token_eq s.access_token u)) [
    | inl same ↦ refreshes u refl h k same (rw same refl)
    | inr other ↦ resends (inl refl) (rw other refl)
  ]

  expires_if :
      {p : Phase} (b : Bool) (thrown : Thrown)
      → is_active p ≡ true
      → (b ≡ true → is_some (token_sent p) ≡ true)
      → Moves e s p (finish e.after (rejected thrown) (if b then expire s else s))
  expires_if true thrown a h = expires thrown (h refl) refl
  expires_if false thrown a h = ends (rejected thrown) a refl

  guarded_retry :
      (ar : Bool) (b : Bool) (r : Shared × Phase)
      → (b ≡ true
          → (ar ≡ true) × (is_some u ≡ true) × ((e.transport ≡ form) ⊎ (can_refresh e.path ≡ true)))
      → Moves e s (fetching u ar) r
      → Moves e s (fetching u ar) (if b then retry e u s else r)
  guarded_retry ar false r h m = m
  guarded_retry true true r h m = retry-Moves (h refl).1 (h refl).2
  guarded_retry false true r h m = cc (h refl).0

  request_headers-Moves :
      (ar : Bool) (status : ℕ)
      → e.transport ≢ form
      → Moves e s (fetching u ar) (request_headers e u ar status s)
  unfolding request_headers
  request_headers-Moves ar status f =
      guarded_retry ar (status == 401 && ar && is_some u && can_refresh e.path) _
        (λ h. (ground arith, ground arith, ground arith))
        (elim (Bool-cases (status == 204)) [
          | inl k ↦ rw k (ends (fulfilled none) refl refl)
          | inr k ↦ rw k (reads u ar status refl f refl)
        ])

  request_blob_headers-Moves :
      (ar : Bool) (status : ℕ)
      → e.transport ≢ form
      → Moves e s (fetching u ar) (request_blob_headers e u ar status s)
  unfolding request_blob_headers
  request_blob_headers-Moves ar status f =
      guarded_retry ar (status == 401 && ar && is_some u && can_refresh e.path) _
        (λ h. (ground arith, ground arith, ground arith)) (reads u ar status refl f refl)

  request_content-Moves :
      (status : ℕ) (body : Option Body)
      → Moves e s (reading u status) (request_content e u status body s)
  unfolding request_content
  request_content-Moves status body = elim (Bool-cases (is_ok status)) [
    | inl k ↦ rw k (ends (fulfilled body) refl refl)
    | inr k ↦ rw k (expires_if _ (api_error_of body status) refl (λ h. ground arith))
  ]

  request_blob_content-Moves :
      (status : ℕ) (body : Option Body)
      → Moves e s (reading u status) (request_blob_content e u status body s)
  unfolding request_blob_content
  request_blob_content-Moves status body = elim (Bool-cases (is_ok status)) [
    | inl k ↦ rw k (ends blob refl refl)
    | inr k ↦ rw k (expires_if _ (api_error_of body status) refl (λ h. ground arith))
  ]

  upload_load-Moves :
      (ar : Bool) (status : ℕ) (body : Option Body)
      → e.transport ≡ form
      → Moves e s (fetching u ar) (upload_load e u ar status body s)
  unfolding upload_load
  upload_load-Moves ar status body f =
      guarded_retry ar (status == 401 && ar && is_some u) _
        (λ h. (ground arith, ground arith, inl f))
        (elim (Bool-cases (ltb status 200 || leb 300 status)) [
          | inl k ↦ rw k (expires_if _ (api_error_of body status) refl (λ h. ground arith))
          | inr k ↦ rw k (ends (fulfilled body) refl refl)
        ])

-- Whatever arrives at a call, its handler makes one of the moves: it ignores the arrival, reads the
-- body, settles the call, settles it after ending the authentication (only if it had sent a token),
-- joins or starts the refresh (only on its first attempt, with the token it sent still current, and
-- only for a path that may refresh, uploads apart), or sends the request a second time (only on its
-- first attempt or after the refresh).
pub arrive-Moves :
    (e : Endpoint) (t : Transport) (p : Phase) (a : Arrival) (s : Shared)
    → e.transport ≡ t
    → Moves e s p (arrive e t p a s)
unfolding arrive
arrive-Moves e json (fetching u ar) (headers status) s f =
    request_headers-Moves e u s ar status (λ g. cc)
arrive-Moves e json (fetching u ar) failure s f = ends _ refl refl
arrive-Moves e json (reading u status) (content body) s f = request_content-Moves e u s status body
arrive-Moves e binary (fetching u ar) (headers status) s f =
    request_blob_headers-Moves e u s ar status (λ g. cc)
arrive-Moves e binary (fetching u ar) failure s f = ends _ refl refl
arrive-Moves e binary (reading u status) (content body) s f =
    request_blob_content-Moves e u s status body
arrive-Moves e binary (reading u status) failure s f = elim (Bool-cases (is_ok status)) [
  | inl k ↦ rw k (ends _ refl refl)
  | inr k ↦ rw k (stays refl)
]
arrive-Moves e form (fetching u ar) (loaded status body) s f =
    upload_load-Moves e u s ar status body f
arrive-Moves e form (fetching u ar) failure s f = ends _ refl refl
arrive-Moves e t (resuming (rejected thrown)) continued s f = ends _ refl refl
arrive-Moves e t (resuming o) continued s f = resends (inr (o, refl)) refl
arrive-Moves e t p a s f = stays refl
