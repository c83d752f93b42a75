-- ===== src/Frame/Response.antt =====
-- `airdap_frame_validate_response` of firmware/components/airdap_frame/airdap_frame.c.
use air_dap.Frame.ErrorCode
use air_dap.Frame.MessageType
use air_dap.Frame.MessageType.{expected_response_type}
use air_dap.Frame.{
  Header, IsWellFormed, validate_header, validate_fields-IsWellFormed, IsWellFormed-validate_fields,
}
use air_dap.Prelude.{
  ℕ, ◌≡◌, ◌≢◌, ◌⊎◌, ◌↔◌, arith, Option, none, some, not, ◌&&◌, ◌||◌, ◌==◌, if◌then◌else◌,
}

-- Once both headers are accepted.
unfoldable pub match_response : Header → Header → ℕ
match_response request response =
    let expected_type = expected_response_type request.typ in
    if expected_type == 0
    then ErrorCode.response_mismatch
    else if not (response.session_id == request.session_id)
    then ErrorCode.session_mismatch
    else if not (response.sequence == request.sequence)
        || not (response.typ == expected_type) && not (response.typ == MessageType.error)
    then ErrorCode.response_mismatch
    else ErrorCode.none

unfoldable pub check_response : Header → Header → ℕ
check_response request response =
    let request_error = validate_header (some request) in
    let response_error = validate_header (some response) in
    if not (request_error == ErrorCode.none)
    then request_error
    else if not (response_error == ErrorCode.none)
    then response_error
    else match_response request response

-- A pointer that is `NULL` fails `validate_header`, the request's first.
unfoldable pub validate_response : Option Header → Option Header → ℕ
validate_response none response = validate_header none
validate_response (some request) none =
    let request_error = validate_header (some request) in
    if not (request_error == ErrorCode.none) then request_error else validate_header none
validate_response (some request) (some response) = check_response request response

-- Which type may answer which, by the numbers of the wire: HELLO, AUTH and KEEPALIVE are answered by
-- their own type, DAP_REQUEST (3) by DAP_RESPONSE (4), CONTROL_REQUEST (5) by CONTROL_RESPONSE (6), and
-- each of these also by ERROR (8). Nothing answers any other type.
abbrev pub Fits : ℕ → ℕ → Type 0
Fits request response =
    ((request ≡ 1) × ((response ≡ 1) ⊎ (response ≡ 8)))
    ⊎ ((request ≡ 2) × ((response ≡ 2) ⊎ (response ≡ 8)))
    ⊎ ((request ≡ 3) × ((response ≡ 4) ⊎ (response ≡ 8)))
    ⊎ ((request ≡ 5) × ((response ≡ 6) ⊎ (response ≡ 8)))
    ⊎ ((request ≡ 7) × ((response ≡ 7) ⊎ (response ≡ 8)))

-- What makes a response fit a request.
pub record Answers (request response : Header) : Type 0 where
  pub request_lem : IsWellFormed request
  pub response_lem : IsWellFormed response
  pub same_session : response.session_id ≡ request.session_id
  pub same_sequence : response.sequence ≡ request.sequence
  pub fitting : Fits request.typ response.typ

Fits-intro :
    (s t : ℕ)
    → expected_response_type s ≢ 0
    → (t ≡ expected_response_type s) ⊎ (t ≡ MessageType.error)
    → Fits s t
unfolding expected_response_type
Fits-intro s t h e = ground arith

Fits-expected :
    (s t : ℕ)
    → Fits s t
    → (expected_response_type s ≢ 0) × ((t ≡ expected_response_type s) ⊎ (t ≡ MessageType.error))
unfolding expected_response_type
Fits-expected s t h = ground arith

Answers-intro :
    (request response : Header)
    → validate_response (some request) (some response) ≡ ErrorCode.none
    → Answers request response
unfolding validate_response check_response match_response validate_header
Answers-intro request response e = ground (
  arith,
  validate_fields-IsWellFormed request,
  validate_fields-IsWellFormed response,
  Fits-intro request.typ response.typ,
)

Answers-accepted :
    (request response : Header)
    → Answers request response
    → validate_response (some request) (some response) ≡ ErrorCode.none
unfolding validate_response check_response match_response validate_header
Answers-accepted request response a = ground (
  arith,
  IsWellFormed-validate_fields request a.request_lem,
  IsWellFormed-validate_fields response a.response_lem,
  Fits-expected request.typ response.typ a.fitting,
)

-- A pointer that is given, to a header that `P` holds of.
abbrev pub Given : (Header → Type 0) → Option Header → Type 0
Given P none = ⊥
Given P (some h) = P h

absent_refused : (request : Option Header) → validate_response request none ≢ ErrorCode.none
unfolding validate_response validate_header
absent_refused none e = cc
absent_refused (some request) e = ground arith

no_request_refused : (response : Option Header) → validate_response none response ≢ ErrorCode.none
unfolding validate_response validate_header
no_request_refused response e = cc

-- A response is accepted exactly when both pointers are given, both headers are well formed, the second
-- one has the session and the sequence number of the first one, and its type is the one that answers
-- the first one's, or ERROR: HELLO, AUTH and KEEPALIVE are answered by themselves, DAP_REQUEST by
-- DAP_RESPONSE, CONTROL_REQUEST by CONTROL_RESPONSE, and a frame of any other type by nothing.
pub validate_response_iff :
    (request response : Option Header)
    → (validate_response request response ≡ ErrorCode.none)
      ↔ Given (λ q. Given (λ r. Answers q r) response) request
validate_response_iff none response = (λ e. no_request_refused response e, λ h. absurd h)
validate_response_iff (some request) none = (λ e. absent_refused (some request) e, λ h. absurd h)
validate_response_iff (some request) (some response) =
    (Answers-intro request response, Answers-accepted request response)

-- No type but ERROR answers two different types.
Fits-injective : (s s' t : ℕ) → Fits s t → Fits s' t → t ≢ MessageType.error → s ≡ s'
Fits-injective s s' t h h' no_error = ground arith

-- Two requests that accept the same response, which is not ERROR, agree in session, sequence number
-- and type: a response is never taken for the answer to another request.
pub validate_response_unique :
    (first second response : Header)
    → validate_response (some first) (some response) ≡ ErrorCode.none
    → validate_response (some second) (some response) ≡ ErrorCode.none
    → response.typ ≢ MessageType.error
    → (first.session_id ≡ second.session_id)
      × (first.sequence ≡ second.sequence)
      × (first.typ ≡ second.typ)
validate_response_unique first second response e f no_error = ground (
  arith,
  Answers-intro first response e,
  Answers-intro second response f,
  Fits-injective first.typ second.typ response.typ,
)
