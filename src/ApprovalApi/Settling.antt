-- ===== src/ApprovalApi/Settling.antt =====
-- The handlers that settle an approval request: what an answer says of the stored request, and that
-- an answer that is not an acceptance has changed nothing.
use niu_ma_notifier.Prelude.{
  String, ◌≡◌, refl, ap, sym, ◌∙◌, subst, ◌⊎◌, inl, inr, Bool, true, false, some, List, [], ◌∷◌,
  arith, find?, find?-holds, update_first, is_some_and, Bool-cases, Option-cases, Result, ok, err,
  option_eq, string_eq,
}
use niu_ma_notifier.Models.{DateTime, EventType, ApprovalRequest}
use niu_ma_notifier.Approval.{ApprovalMutationResult, is_open, has_id}
use niu_ma_notifier.Approval.Lifecycle.{◌⟶◌}
use niu_ma_notifier.Approval.Frame.{
  Operation, decides, returns, resolves, change_of, change_of-IsLawful, perform, changed,
  perform_found, perform_missing, found_after,
}
use niu_ma_notifier.Store.{
  RuntimeState, store_requests, approval_request, decide_approval, return_approval_to_codex,
  resolve_approval_in_tool,
}
use niu_ma_notifier.StateMutation.{append_events}
use niu_ma_notifier.ApprovalApi.Kept.{append_kept}
use niu_ma_notifier.ApprovalApi.{
  AppState, store_of, append, Response, succeed, fail, ApprovalAnswer, approval_response, parsed,
  checked, find_stored, notify_relay, parse_approval_decision, required_trimmed,
  trim_optional_string, answer_mutation, Relay, ApprovalDecisionBody, ApprovalReturnBody,
  ApprovalToolResolvedBody, post_approval_decision, post_approval_return_to_codex,
  post_approval_tool_resolved,
}

-- The calls that settle a request, with the outcome of parsing their bodies.
pub data Settling : Type 0 where
  decision : Relay → Result ApprovalDecisionBody → Settling
  return_to_tool : Result ApprovalReturnBody → Settling
  tool_resolved : Result ApprovalToolResolvedBody → Settling

unfoldable pub settle :
    AppState → Settling → DateTime → DateTime → AppState × Response ApprovalAnswer
settle state (decision relay body) now event_at =
    post_approval_decision state relay body now event_at
settle state (return_to_tool body) now event_at =
    post_approval_return_to_codex state body now event_at
settle state (tool_resolved body) now event_at = post_approval_tool_resolved state body now event_at

-- The answer says that the request was accepted.
unfoldable pub was_accepted : Response ApprovalAnswer → Bool
was_accepted response =
    is_some_and response.payload (λ answer. is_some_and answer.accepted (λ accepted. accepted))

-- What a call may come to: nothing, without an acceptance; or an accepted move of a stored request.
abbrev pub Outcome : AppState → AppState × Response ApprovalAnswer → Type 0
Outcome state (after, response) =
    ((after ≡ state) × (was_accepted response ≡ false))
    ⊎ ((answer : ApprovalAnswer) × (r : ApprovalRequest) × (q : ApprovalRequest) × (response.payload
          ≡ some answer)
        × (answer.accepted ≡ some true)
        × (approval_request (store_of state) answer.request_id ≡ some r)
        × (approval_request (store_of after) answer.request_id ≡ some q)
        × (q.status ≡ answer.status)
        × (is_open r.status ≡ true)
        × (r.status ⟶ q.status))

parsed-Outcome :
    {A : Type 0} (state : AppState) (body : Result A)
    (handle : A → AppState × Response ApprovalAnswer)
    → ((value : A) → Outcome state (handle value))
    → Outcome state (parsed state body handle)
unfolding parsed fail was_accepted
parsed-Outcome state (ok value) handle h = h value
parsed-Outcome state (err error) handle h = inl (refl, refl)

checked-Outcome :
    {A : Type 0} (state : AppState) (result : Result A)
    (handle : A → AppState × Response ApprovalAnswer)
    → ((value : A) → Outcome state (handle value))
    → Outcome state (checked state result handle)
unfolding checked fail was_accepted
checked-Outcome state (ok value) handle h = h value
checked-Outcome state (err message) handle h = inl (refl, refl)

-- An operation that refuses leaves the list as it is.
changed_refused :
    (op : Operation) (id : String) (requests : List ApprovalRequest) (r : ApprovalRequest)
    → find? (has_id id) requests ≡ some r
    → (change_of op r).accepted ≡ false
    → changed op id requests ≡ requests
unfolding find? update_first
changed_refused op id [] r h k = refl
changed_refused op id (x ∷ xs) r h k = elim (Bool-cases (has_id id x)) [
  | inl e ↦
      let i : x ≡ r = ground (arith, e, h) in
      rw (e, update_first)
        (ap (λ y. y ∷ xs)
          ((change_of-IsLawful op).refusal x
            (subst (λ y. (change_of op y).accepted ≡ false) (sym i) k)))
  | inr e ↦
      rw (e, update_first) (ap (λ ys. x ∷ ys) (changed_refused op id xs r (ground (arith, e, h)) k))
]

-- The call of the store for an operation.
abbrev store_call : AppState → Operation → String → RuntimeState × Result ApprovalMutationResult
store_call state op id =
    store_requests (store_of state) (perform op (store_of state).state.approval_requests id)

answer_mutation-Outcome :
    (state : AppState) (op : Operation) (id : String) (event_type : ApprovalRequest → EventType)
    (now : DateTime)
    → Outcome state (answer_mutation state (store_call state op id) event_type now)
unfolding answer_mutation approval_request append append_events succeed fail was_accepted
    approval_response
answer_mutation-Outcome state op id event_type now =
    let requests = (store_of state).state.approval_requests in
    elim (Option-cases (find? (has_id id) requests)) [
      | inl e ↦ rw (perform_missing op requests id e) (inl (refl, refl))
      | inr (r, e) ↦ elim (Bool-cases (change_of op r).accepted) [
        | inl a ↦
            let i =
              (change_of-IsLawful op).identity r
              ∙ (string_eq.decides r.id id).0 (find?-holds (has_id id) requests e) in
            rw (perform_found op requests id r e, a)
              (inr (
                approval_response (change_of op r).request (some true),
                r,
                (change_of op r).request,
                refl,
                refl,
                ap (λ k. find? (has_id k) requests) i ∙ e,
                ap (find? (has_id (change_of op r).request.id)) (append_kept _ _)
                    ∙ ap (λ k. find? (has_id k) (changed op id requests)) i
                    ∙ found_after op requests id r e,
                refl,
                ground (arith, a, (change_of-IsLawful op).final r),
                (change_of-IsLawful op).moves r,
              ))
        | inr a ↦
            rw (perform_found op requests id r e, a, changed_refused op id requests r e a)
              (inl (refl, refl))
      ]
    ]

-- A call of the three handlers that settle a request either changes nothing and says no acceptance,
-- be it for a bad body, a bad field, a missing request, a relay that fails or a request that is
-- settled already; or it says an acceptance, and then the request it names was open and is now
-- stored with the status that the answer gives, moved along the state machine.
pub settle-Outcome :
    (state : AppState) (call : Settling) (now event_at : DateTime)
    → Outcome state (settle state call now event_at)
unfolding settle post_approval_decision post_approval_return_to_codex post_approval_tool_resolved
    decide_approval return_approval_to_codex resolve_approval_in_tool perform
settle-Outcome state (decision relay body) now event_at = parsed-Outcome state body _ (λ b.
    checked-Outcome state (parse_approval_decision b.decision) _ (λ d.
      checked-Outcome state (required_trimmed b.request_id "request_id") _ (λ id.
        checked-Outcome state (required_trimmed b.decided_by "decided_by") _ (λ by.
          checked-Outcome state (required_trimmed b.decided_source "decided_source") _ (λ source.
            checked-Outcome state (find_stored state id) _ (λ existing.
              checked-Outcome state (notify_relay relay existing d) _ (λ sent.
                answer_mutation-Outcome state
                  (decides d by source (trim_optional_string b.reason) now) id _ event_at)))))))
settle-Outcome state (return_to_tool body) now event_at = parsed-Outcome state body _ (λ b.
    checked-Outcome state (required_trimmed b.request_id "request_id") _ (λ id.
      checked-Outcome state (required_trimmed b.returned_by "returned_by") _ (λ by.
        checked-Outcome state (required_trimmed b.reason "reason") _ (λ reason.
          answer_mutation-Outcome state (returns by "timeout" reason now) id _ event_at))))
settle-Outcome state (tool_resolved body) now event_at = parsed-Outcome state body _ (λ b.
    checked-Outcome state (required_trimmed b.request_id "request_id") _ (λ id.
      checked-Outcome state (required_trimmed b.resolved_by "resolved_by") _ (λ by.
        answer_mutation-Outcome state (resolves by (trim_optional_string b.reason) now) id _
          event_at)))
