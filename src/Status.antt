-- ===== src/Status.antt =====
-- etcdv3client/status.h: the status codes, and the `Status` helpers over maybecommon::Status.
use etcdv3client.Prelude.{ℕ, ◌≡◌, ◌↔◌, ◌⊎◌, Bool, [], ◌∷◌, arith, ◌==◌}
use etcdv3client.Bytes.{Bytes}

pub data StatusCode : Type 0 where
  ok grpc_error session_already_granted session_already_closed : StatusCode
  election_already_campaigned election_campaign_on_closed_session : StatusCode

-- The values of the enumerators.
unfoldable pub code_value : StatusCode → ℕ
code_value ok = 0
code_value grpc_error = 1000
code_value session_already_granted = 1000
code_value session_already_closed = 1001
code_value election_already_campaigned = 2000
code_value election_campaign_on_closed_session = 2001

-- grpc::Status: what the accessors `ok()`, `error_code()` and `error_message()` answer.
pub record GrpcStatus : Type 0 where
  pub is_ok : Bool
  pub error_code : ℕ
  pub error_message : Bytes

-- maybecommon::Status, which is not part of the repository: its constructors, `WithScope`, `WithValue`
-- and `ok()`, with what the client relies on. `cancelled` is maybecommon::StatusCode::Cancelled.
pub record StatusLibrary : Type 1 where
  pub Status : Type 0
  pub default_status : Status
  pub of_code : ℕ → Status
  pub of_code_message : ℕ → Bytes → Status
  pub with_scope : Status → Bytes → Status
  pub with_value : Status → GrpcStatus → Status
  pub code : Status → ℕ
  pub is_ok : Status → Bool
  pub cancelled : ℕ
  pub is_ok_lem : (s : Status) → is_ok s ≡ (code s == 0)
  pub code-default : code default_status ≡ 0
  pub code-of_code : (n : ℕ) → code (of_code n) ≡ n
  pub code-of_code_message : (n : ℕ) (m : Bytes) → code (of_code_message n m) ≡ n
  pub code-with_scope : (s : Status) (scope : Bytes) → code (with_scope s scope) ≡ code s
  pub code-with_value : (s : Status) (v : GrpcStatus) → code (with_value s v) ≡ code s

-- "brainaas::etcdv3client" in bytes.
abbrev pub status_scope_name : Bytes
status_scope_name =
    98 ∷ 114 ∷ 97 ∷ 105 ∷ 110 ∷ 97 ∷ 97 ∷ 115 ∷ 58 ∷ 58 ∷ 101 ∷ 116 ∷ 99 ∷ 100 ∷ 118 ∷ 51 ∷ 99 ∷ 108
    ∷ 105 ∷ 101 ∷ 110 ∷ 116 ∷ []

module _ (lib : StatusLibrary) where
  open lib use {Status, default_status, of_code, of_code_message, with_scope}

  -- Status(), Status(code) and Status(code, message).
  unfoldable pub make_default : Status
  make_default = with_scope default_status status_scope_name

  unfoldable pub make : ℕ → Status
  make n = with_scope (of_code n) status_scope_name

  unfoldable pub make_message : ℕ → Bytes → Status
  make_message n m = with_scope (of_code_message n m) status_scope_name

  pub code-make_default : lib.code make_default ≡ 0
  unfolding make_default
  code-make_default = rw (lib.code-with_scope, lib.code-default)

  pub code-make : (n : ℕ) → lib.code (make n) ≡ n
  unfolding make
  code-make n = rw (lib.code-with_scope, lib.code-of_code)

  pub code-make_message : (n : ℕ) (m : Bytes) → lib.code (make_message n m) ≡ n
  unfolding make_message
  code-make_message n m = rw (lib.code-with_scope, lib.code-of_code_message)

-- Two status codes have the same value exactly if they are the same, or are GRPCError and
-- SessionAlreadyGranted in either order.
code_value_collision :
    (a b : StatusCode)
    → (code_value a ≡ code_value b) ↔ (
        (a ≡ b)
        ⊎ ((a ≡ grpc_error) × (b ≡ session_already_granted))
        ⊎ ((a ≡ session_already_granted) × (b ≡ grpc_error)))
unfolding code_value
code_value_collision a b = ((λ h. ground arith), (λ h. ground arith))
