-- ===== src/ApprovalApi/Candidates.antt =====
-- Which request an event of the Claude Code watcher settles, and what a relay's request is merged into.
use niu_ma_notifier.Prelude.{
  ℕ, String, ◌≡◌, refl, subst, ◌⊎◌, inl, inr, Bool, true, not, ◌&&◌, is_some, Option, none, some,
  option_beq_iff, find?-holds, List, [], ◌∷◌, arith, All, find?, retain, Bool-cases, Option-cases,
  option_eq, ◌==◌, string_eq,
}
use niu_ma_notifier.Models.{ToolId, tool_eq, ApprovalStatus, NiumaEvent, ApprovalRequest}
use niu_ma_notifier.Store.{RuntimeState}
use niu_ma_notifier.ApprovalApi.{
  is_claude_candidate, is_unsettled, only_one, candidate_by_call, choose_candidate,
  claude_watcher_resolution_candidate, approval_request_id_from_resolve_key,
}
use niu_ma_notifier.Prelude.Slices.{skip}
use niu_ma_notifier.Sessions.{first?}
use niu_ma_notifier.Sessions.Listing.{All-retain, places}

module _ {A : Type 0} (P : A → Type 0) where
  find?-All : (p : A → Bool) (xs : List A) (x : A) → All P xs → find? p xs ≡ some x → P x
  unfolding find?
  find?-All p [] x h e = absurd (ground arith)
  find?-All p (y ∷ ys) x h e = elim (Bool-cases (p y)) [
    | inl g ↦ subst P (ground (arith, g, e)) h.0
    | inr g ↦ find?-All p ys x h.1 (ground (arith, g, e))
  ]

  retain-All : (p : A → Bool) (xs : List A) → All P xs → All P (retain p xs)
  unfolding retain
  retain-All p [] h = h
  retain-All p (y ∷ ys) h = elim (Bool-cases (p y)) [
    | inl g ↦ rw (g, retain) (h.0, retain-All p ys h.1)
    | inr g ↦ rw (g, retain) (retain-All p ys h.1)
  ]

  only_one-All : (xs : List A) (x : A) → All P xs → only_one xs ≡ some x → P x
  only_one-All [] x h e = absurd (ground arith)
  only_one-All (y ∷ []) x h e = subst P (ground (arith, e)) h.0
  only_one-All (y ∷ z ∷ ys) x h e = absurd (ground (arith, e))

module _ (P : ApprovalRequest → Type 0) where
  by_call-All :
      (id : String) (rs : List ApprovalRequest) (r : ApprovalRequest)
      → All P rs
      → candidate_by_call id rs ≡ some r
      → P r
  unfolding candidate_by_call
  by_call-All id rs r h e =
      by_exact (retain (λ (q : ApprovalRequest). q.tool_call_id == some id) rs) refl
    where
      by_exact :
          (xs : List ApprovalRequest)
          → retain (λ (q : ApprovalRequest). q.tool_call_id == some id) rs ≡ xs
          → P r
      by_exact [] g = only_one-All P _ r (retain-All P _ rs h) (rw (g, candidate_by_call) at e)
      by_exact (x ∷ xs) g =
          only_one-All P (x ∷ xs) r (subst (λ ys. All P ys) g (retain-All P _ rs h))
            (rw (g, candidate_by_call) at e)

  choose-All :
      (event : NiumaEvent) (rs : List ApprovalRequest) (r : ApprovalRequest)
      → All P rs
      → choose_candidate event rs ≡ some r
      → P r
  unfolding choose_candidate
  choose-All event rs r h e =
      elim (Option-cases (approval_request_id_from_resolve_key event.attention_resolve_key)) [
        | inr (id, g) ↦ find?-All P _ rs r h (rw (g, choose_candidate) at e)
        | inl g ↦ elim (Option-cases event.tool_call_id) [
          | inr (id, k) ↦ by_call-All id rs r h (rw (g, k, choose_candidate) at e)
          | inl k ↦ only_one-All P rs r h (rw (g, k, choose_candidate) at e)
        ]
      ]

-- What picks the request: the id that the event's key names, or else the id of the tool's call, or
-- else that there is no other request.
abbrev pub Picks : Option String → Option String → List ApprovalRequest → ApprovalRequest → Type 0
Picks (some id) call candidates request = request.id ≡ id
Picks none (some call) candidates request =
    (request.tool_call_id ≡ some call) ⊎ (request.tool_call_id ≡ none)
Picks none none candidates request = candidates ≡ request ∷ []

only_one_lem : {A : Type 0} (xs : List A) (x : A) → only_one xs ≡ some x → xs ≡ x ∷ []
only_one_lem [] x h = absurd (ground arith)
only_one_lem (y ∷ []) x h = ground arith
only_one_lem (y ∷ z ∷ ys) x h = absurd (ground arith)

by_call-Picks :
    (call : String) (rs : List ApprovalRequest) (r : ApprovalRequest)
    → candidate_by_call call rs ≡ some r
    → (r.tool_call_id ≡ some call) ⊎ (r.tool_call_id ≡ none)
unfolding candidate_by_call
by_call-Picks call rs r e =
    by_exact (retain (λ (q : ApprovalRequest). q.tool_call_id == some call) rs) refl
  where
    by_exact :
        (xs : List ApprovalRequest)
        → retain (λ (q : ApprovalRequest). q.tool_call_id == some call) rs ≡ xs
        → (r.tool_call_id ≡ some call) ⊎ (r.tool_call_id ≡ none)
    by_exact [] g =
        let without =
          only_one-All (λ (q : ApprovalRequest). not (is_some q.tool_call_id) ≡ true) _ r
            (All-retain (λ (q : ApprovalRequest). not (is_some q.tool_call_id)) rs)
            (rw (g, candidate_by_call) at e) in
        inr (ground arith)
    by_exact (x ∷ xs) g = inl (
        (option_beq_iff r.tool_call_id (some call)).0 (
          only_one-All (λ (q : ApprovalRequest). (q.tool_call_id == some call) ≡ true) (x ∷ xs) r
            (subst (λ ys. All (λ (q : ApprovalRequest). (q.tool_call_id == some call) ≡ true) ys) g
              (All-retain (λ (q : ApprovalRequest). q.tool_call_id == some call) rs))
            (rw (g, candidate_by_call) at e)))

choose-Picks :
    (event : NiumaEvent) (rs : List ApprovalRequest) (r : ApprovalRequest)
    → choose_candidate event rs ≡ some r
    → Picks
        (approval_request_id_from_resolve_key event.attention_resolve_key)
        event.tool_call_id
        rs
        r
unfolding choose_candidate
choose-Picks event rs r e =
    elim (Option-cases (approval_request_id_from_resolve_key event.attention_resolve_key)) [
      | inr (id, g) ↦
          rw g ((string_eq.decides r.id id).0 (find?-holds _ rs (rw (g, choose_candidate) at e)))
      | inl g ↦ elim (Option-cases event.tool_call_id) [
        | inr (id, k) ↦ rw (g, k) (by_call-Picks id rs r (rw (g, k, choose_candidate) at e))
        | inl k ↦ rw (g, k) (only_one_lem rs r (rw (g, k, choose_candidate) at e))
      ]
    ]

both : (a b : Bool) → (a && b) ≡ true → (a ≡ true) × (b ≡ true)
both a b h = ground arith

candidate-open :
    (event : NiumaEvent) (request : ApprovalRequest)
    → is_claude_candidate event request ≡ true
    → (request.tool ≡ ToolId.claude_code)
      × (request.session_id ≡ event.session_id)
      × ((request.status ≡ ApprovalStatus.pending)
          ⊎ (request.status ≡ ApprovalStatus.returned_to_codex)
          ⊎ (request.status ≡ ApprovalStatus.returned_to_tool))
unfolding is_claude_candidate is_unsettled
candidate-open event request h =
    let (own_tool, rest) = both (request.tool == ToolId.claude_code) _ h in
    let (own_session, unsettled) = both (request.session_id == event.session_id) _ rest in
    (
      (tool_eq.decides request.tool ToolId.claude_code).0 own_tool,
      (string_eq.decides request.session_id event.session_id).0 own_session,
      by_status request.status unsettled,
    )
  where
    by_status :
        (status : ApprovalStatus)
        → is_unsettled status ≡ true
        → (status ≡ ApprovalStatus.pending)
          ⊎ (status ≡ ApprovalStatus.returned_to_codex)
          ⊎ (status ≡ ApprovalStatus.returned_to_tool)
    by_status ApprovalStatus.pending u = inl refl
    by_status ApprovalStatus.returned_to_codex u = inr (inl refl)
    by_status ApprovalStatus.returned_to_tool u = inr (inr refl)
    by_status ApprovalStatus.allowed u = absurd (ground arith)
    by_status ApprovalStatus.denied u = absurd (ground arith)
    by_status ApprovalStatus.resolved_in_tool u = absurd (ground arith)

pub claude_watcher_resolution_candidate_own :
    (store : RuntimeState) (event : NiumaEvent) (request : ApprovalRequest)
    → claude_watcher_resolution_candidate store event ≡ some request
    → ((n : ℕ) × (first? (skip n store.state.approval_requests) ≡ some request))
      × (request.tool ≡ ToolId.claude_code)
      × (request.session_id ≡ event.session_id)
      × ((request.status ≡ ApprovalStatus.pending)
          ⊎ (request.status ≡ ApprovalStatus.returned_to_codex)
          ⊎ (request.status ≡ ApprovalStatus.returned_to_tool))
      × Picks
          (approval_request_id_from_resolve_key event.attention_resolve_key)
          event.tool_call_id
          (retain (is_claude_candidate event) store.state.approval_requests)
          request
unfolding claude_watcher_resolution_candidate
claude_watcher_resolution_candidate_own store event request h =
    let facts =
      choose-All (λ q. is_claude_candidate event q ≡ true) event _ request
        (All-retain (is_claude_candidate event) store.state.approval_requests) chosen in
    let open_request = candidate-open event request facts in
    (
      choose-All (λ q. (n : ℕ) × (first? (skip n store.state.approval_requests) ≡ some q)) event _
          request (retain-All _ _ store.state.approval_requests (places _)) chosen,
      open_request.0,
      open_request.1,
      open_request.2,
      choose-Picks event _ request chosen,
    )
  where
    by_candidates :
        (rs : List ApprovalRequest)
        → retain (is_claude_candidate event) store.state.approval_requests ≡ rs
        → choose_candidate event rs ≡ some request
    by_candidates [] g = absurd (ground (arith, g, h))
    by_candidates (r ∷ rs) g = rw (g, claude_watcher_resolution_candidate) at h

    chosen :
        choose_candidate event (retain (is_claude_candidate event) store.state.approval_requests)
        ≡ some request
    chosen = by_candidates (retain (is_claude_candidate event) store.state.approval_requests) refl
