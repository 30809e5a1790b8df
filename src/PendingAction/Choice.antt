-- ===== src/PendingAction/Choice.antt =====
-- Which action `pending_action_for_session` gives to a client.
use niu_ma_notifier.Prelude.{
  ℕ, String, ◌≡◌, sym, ◌∙◌, subst, ◌⊎◌, ◌<◌, ◌≤◌, ltb, inl, inr, true, not, nat_eq, ◌&&◌, ◌||◌,
  Option, none, some, List, [], ◌∷◌, arith, any, find?, retain, filter_map, is_some, All,
  Bool-cases, Option-cases, string_eq, option_eq, ◌==◌,
}
use niu_ma_notifier.Prelude.Order.{not_greater}
use niu_ma_notifier.Prelude.Sort.{
  sort_by, sort_by-IsSorted, All-sort_by, IsSorted, All-of-sort_by, All-imp,
}
use niu_ma_notifier.Prelude.Slices.{skip}
use niu_ma_notifier.Models.{tool_eq, NiumaEvent, AttentionItem}
use niu_ma_notifier.ToolSession.{PendingAction, ToolSessionDetail}
use niu_ma_notifier.Store.{RuntimeState, main_state_input}
use niu_ma_notifier.Sessions.{first?, map_option}
use niu_ma_notifier.PendingAction.{
  is_waiting, is_empty, event_matches_detail, item_matches_detail, PendingActionCandidate,
  candidate_for_attention_item, candidate_order, candidates_for_session, pending_action_for_session,
}
use niu_ma_notifier.Sessions.Listing.{places}
use niu_ma_notifier.PendingAction.Candidates.{
  ranks, candidate_order-IsLawful, is_source, candidate_source, candidate_submittable,
  candidates-IsRanked, IsRanked,
}
use niu_ma_notifier.PendingAction.Chosen.{filter_map-All, filter_map_source, any-retain, first_of}

module _ {Value : Type 0} (json : List (String × String) → Value) where
  -- The candidate ranks above the other, or ranks like it and does not wait for less long.
  goes_before :
      (c d : PendingActionCandidate json)
      → IsRanked json c
      → IsRanked json d
      → not_greater (candidate_order json c d) ≡ true
      → (d.priority < c.priority)
        ⊎ ((d.priority ≡ c.priority) × (c.action.created_at ≤ d.action.created_at))
  goes_before c d r q h = elim (Bool-cases (ltb d.priority c.priority)) [
    | inl e ↦ inl (ground arith)
    | inr e ↦ inr (ground arith, ground arith)
  ]

  All-both :
      {A : Type 0} (P Q : A → Type 0) (xs : List A) → All P xs → All Q xs → All (λ x. P x × Q x) xs
  All-both P Q [] h k = tt
  All-both P Q (x ∷ xs) h k = ((h.0, k.0), All-both P Q xs h.1 k.1)

  -- The first of the sorted candidates has what all have, and goes before all.
  chosen :
      (P : PendingActionCandidate json → Type 0) (cs : List (PendingActionCandidate json))
      (action : PendingAction Value)
      → map_option
          (λ (c : PendingActionCandidate json). c.action)
          (first? (sort_by (candidate_order json) cs))
        ≡ some action
      → All P cs
      → (c : PendingActionCandidate json) × P c
        × (c.action ≡ action)
        × All (λ d. not_greater (candidate_order json c d) ≡ true) cs
  chosen P cs action h k =
      let sorted = sort_by (candidate_order json) cs in
      elim (Option-cases (first? sorted)) [
        | inl e ↦ absurd (ground (arith, e))
        | inr (c, e) ↦ (
          c,
          first_of P sorted c (All-sort_by (candidate_order json) P cs k) e,
          ground (arith, e, h),
          All-of-sort_by (candidate_order json) _ cs
              (before sorted (sort_by-IsSorted (candidate_order-IsLawful json) cs) c e),
        )
      ]
    where
      before :
          (xs : List (PendingActionCandidate json))
          → IsSorted (candidate_order json) xs
          → (c : PendingActionCandidate json) → first? xs ≡ some c
          → All (λ d. not_greater (candidate_order json c d) ≡ true) xs
      before [] s c e = absurd (ground arith)
      before (x ∷ xs) s c e =
          let i : x ≡ c = ground arith in
          subst (λ c. All (λ d. not_greater (candidate_order json c d) ≡ true) (x ∷ xs)) i
            (ground (arith, (candidate_order-IsLawful json).flip x x), s.0)

  -- The action that a client gets is that of one of the candidates of the session, and any other
  -- candidate has a lower priority or, of the same priority, does not wait for longer. A candidate
  -- with an actionable approval has the priority 40 and one with an actionable input 30; if it is not
  -- actionable, an approval has 40 or 20 and an input 30 or 10.
  pub pending_action_for_session_best :
      (runtime : RuntimeState) (detail : ToolSessionDetail Value) (action : PendingAction Value)
      → pending_action_for_session json runtime detail ≡ some action
      → (chosen : PendingActionCandidate json) × ((n : ℕ) × (first?
              (skip n (candidates_for_session json runtime detail))
            ≡ some chosen))
        × (chosen.action ≡ action)
        × All
            (λ (other : PendingActionCandidate json).
              (ranks other.action.action_type other.action.actionable other.priority ≡ true)
              × ((other.priority < chosen.priority)
                  ⊎ ((other.priority ≡ chosen.priority)
                      × (chosen.action.created_at ≤ other.action.created_at))))
            (candidates_for_session json runtime detail)
  unfolding pending_action_for_session
  pending_action_for_session_best runtime detail action h =
      let candidates = candidates_for_session json runtime detail in
      let all = candidates-IsRanked json runtime detail in
      let (c, p, e, before) =
        chosen (λ c. IsRanked json c × ((n : ℕ) × (first? (skip n candidates) ≡ some c))) candidates
          action h (All-both (IsRanked json) _ candidates all (places candidates)) in
      (
        c,
        p.1,
        e,
        All-imp candidates (λ d k. (k.0.0, goes_before c d p.0 k.0 k.1))
            (All-both (IsRanked json) _ candidates all before),
      )

  -- The action that a client gets stands for an item that waits, whose event, or the item itself
  -- where the event is not known, belongs to the session of the detail; and it is actionable exactly
  -- when it has a button or something to submit.
  pub pending_action_for_session_source :
      (runtime : RuntimeState) (detail : ToolSessionDetail Value) (action : PendingAction Value)
      → pending_action_for_session json runtime detail ≡ some action
      → (any
            (λ (item : AttentionItem).
              is_waiting item
              && ((action.source_event_id == some item.event_id)
                  && elim (find?
                      (λ (event : NiumaEvent). event.id == item.event_id)
                      (main_state_input runtime).public_events) [
                        | some event ↦ event_matches_detail event detail
                        | none ↦ item_matches_detail item detail
                      ]))
            runtime.state.attention_items
          ≡ true)
        × (action.actionable ≡ (not (is_empty action.actions) || is_some action.submit))
  unfolding pending_action_for_session candidates_for_session main_state_input
  pending_action_for_session_source runtime detail action h =
      let events = (main_state_input runtime).public_events in
      let waiting = retain is_waiting runtime.state.attention_items in
      let f : AttentionItem → Option (PendingActionCandidate json) =
        λ item. candidate_for_attention_item json events item detail in
      let (c, p, e, r) =
        chosen (λ c. any (λ item. is_source json events detail item c.action) waiting ≡ true)
          (filter_map f waiting) action h
          (filter_map_source f (λ item c. is_source json events detail item c.action) waiting
            (candidate_source json events detail)) in
      let (d, q, g, s) =
        chosen
          (λ c. c.action.actionable ≡ (not (is_empty c.action.actions) || is_some c.action.submit))
          (filter_map f waiting) action h
          (filter_map-All f _ waiting (candidate_submittable json events detail)) in
      (
        sym (
              any-retain is_waiting (λ item. is_source json events detail item action)
                runtime.state.attention_items)
            ∙ subst
                (λ action. any (λ item. is_source json events detail item action) waiting ≡ true) e
                p,
        subst
            (λ (action : PendingAction Value).
              action.actionable ≡ (not (is_empty action.actions) || is_some action.submit))
            g q,
      )
