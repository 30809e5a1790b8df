-- ===== src/ApprovalApi/State.antt =====
-- The state of the handlers of crates/niuma-api/src/handlers/approval.rs, and how they end early.
use niu_ma_notifier.Prelude.Text.{format}
use niu_ma_notifier.Prelude.{List, [], ◌∷◌, Result, ok, err}
use niu_ma_notifier.Models.{NiumaEvent}
use niu_ma_notifier.Store.{RuntimeState}
use niu_ma_notifier.StateMutation.{StateMutationService, append_events}
use niu_ma_notifier.Arbiter.{ApprovalArbiter}
use niu_ma_notifier.ApprovalApi.Answer.{ApiErrorCode, Response, fail}

-- Of the `AppState` of crates/niuma-api/src/state.rs what these handlers use. The store of the
-- service is the store of the state.
pub record AppState : Type 0 where
  pub mutation_service : StateMutationService
  pub approval_arbiter : ApprovalArbiter

abbrev pub store_of : AppState → RuntimeState
store_of state = state.mutation_service.store

abbrev pub with_store : AppState → RuntimeState → AppState
with_store state store = record state {
  mutation_service = record state.mutation_service { store = store };
}

unfoldable pub append : AppState → List NiumaEvent → AppState
append state events = record state {
  mutation_service = (append_events state.mutation_service events).0;
}

-- `match parse { Ok(value) => value, Err(message) => return fail }`, of the body and of a field.
module _ {A Data : Type 0} (state : AppState) where
  unfoldable pub parsed : Result A → (A → AppState × Response Data) → AppState × Response Data
  parsed (ok value) handle = handle value
  parsed (err error) handle =
      (state, fail 400 ApiErrorCode.parameter_format (format ("请求体无法解析：" ∷ error ∷ [])))

  unfoldable pub checked : Result A → (A → AppState × Response Data) → AppState × Response Data
  checked (ok value) handle = handle value
  checked (err message) handle = (state, fail 200 ApiErrorCode.business_validation message)
