-- ===== src/Runtime/Handle.antt =====
-- src/runtime/RequestHandle.cpp, include/crossa/runtime/RequestHandle.h and
-- include/crossa/runtime/result/CrossaState.h: the shared lifecycle of one request, its atomic
-- operations, and the terminal states.
use crossa.Prelude.{Bool, true, false, Bytes}

-- `CrossaErrorCode`
pub data ErrorCode : Type 0 where
  http_status timeout connection tls invalid_json response_type_mismatch cancellation runtime :
      ErrorCode

-- The code and the message of a `CrossaError`.
pub record CrossaError : Type 0 where
  pub code : ErrorCode
  pub message : Bytes

-- getCode() == CrossaErrorCode::Cancellation
unfoldable pub is_cancellation : CrossaError → Bool
is_cancellation error = elim error.code [ cancellation ↦ true | _ ↦ false ]

-- `RequestHandle::Lifecycle`
pub data Lifecycle : Type 0 where
  active cancellation_requested completed : Lifecycle

-- Whether the exchange was made, and the lifecycle after it.
abbrev pub Exchange : Type 0
Exchange = Bool × Lifecycle

-- `cancel`
unfoldable pub cancel : Lifecycle → Exchange
cancel active = (true, cancellation_requested)
cancel cancellation_requested = (false, cancellation_requested)
cancel completed = (false, completed)

-- `isCancellationRequested`
unfoldable pub is_cancellation_requested : Lifecycle → Bool
is_cancellation_requested active = false
is_cancellation_requested cancellation_requested = true
is_cancellation_requested completed = false

-- `tryComplete`
unfoldable pub try_complete : Lifecycle → Exchange
try_complete active = (true, completed)
try_complete cancellation_requested = (false, cancellation_requested)
try_complete completed = (false, completed)

-- The first exchange of `completeCancellation`, from `CancellationRequested`.
unfoldable pub complete_requested : Lifecycle → Exchange
complete_requested active = (false, active)
complete_requested cancellation_requested = (true, completed)
complete_requested completed = (false, completed)

-- The second exchange of `completeCancellation`, from `Active`.
unfoldable pub complete_active : Lifecycle → Exchange
complete_active active = (true, completed)
complete_active cancellation_requested = (false, cancellation_requested)
complete_active completed = (false, completed)

-- `CrossaState`: its kind is the constructor.
pub data CrossaState {ℓ} (A : Type ℓ) : Type ℓ where
  success : A → CrossaState A
  failure : CrossaError → CrossaState A
  cancelled : CrossaState A

-- `CrossaState::failed`
unfoldable pub failed {ℓ} : {A : Type ℓ} → CrossaError → CrossaState A
unfolding is_cancellation
failed error = elim (is_cancellation error) [ true ↦ cancelled | false ↦ failure error ]
