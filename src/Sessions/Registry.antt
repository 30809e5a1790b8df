-- ===== src/Sessions/Registry.antt =====
-- What the registry of sessions keeps apart, and which runs it shows with a session's detail.
use niu_ma_notifier.Prelude.HashMap
use niu_ma_notifier.Prelude.HashMap.{get-insert, get-remove}
use niu_ma_notifier.Prelude.{
  ℕ, String, ◌≡◌, refl, subst, ◌⊎◌, inl, inr, true, ltb, leb, ◌||◌, option_eq, ◌&&◌, Option, some,
  List, [], ◌∷◌, map, arith, if◌then◌else◌, find?, retain, All, Bool-cases, Option-cases, string_eq,
  ◌==◌, Result, ok, err, ◌>>=◌,
}
use niu_ma_notifier.Prelude.Order.{
  IsLawful, not_greater, compare-IsLawful, on-IsLawful, then_by-IsLawful,
}
use niu_ma_notifier.Prelude.Sort.{All-imp, max_by_greatest, max_by-member}
use niu_ma_notifier.Models.{ToolId, tool_eq, status_eq, RuntimeStateStatus, RuntimeStateItem}
use niu_ma_notifier.ToolSession.{ToolSessionScope, scope_eq, ToolSessionListItem, ToolSessionDetail}
use niu_ma_notifier.Sessions.{
  map_option, belongs_to, normalized_session_id_for, Snapshots, adopt, replace_snapshot,
  canonical_tool_session_id, session_in, find_session, ToolSessionRegistry, own_detail, detail,
  detail_matches_runtime_session, runtime_for_detail, compare_runtime_priority,
  runtime_status_priority,
}
use niu_ma_notifier.Sessions.Listing.{All-retain}

found_adopted :
    (tool : ToolId) (session_id : String) (sessions : List ToolSessionListItem)
    → session_in session_id (some (map (adopt tool) sessions))
      ≡ map_option
          (adopt tool)
          (find? (λ (session : ToolSessionListItem). session.session_id == session_id) sessions)
unfolding session_in find? adopt
found_adopted tool session_id [] = refl
found_adopted tool session_id (s ∷ sessions) = elim (Bool-cases (s.session_id == session_id)) [
  | inl e ↦ rw e refl
  | inr e ↦ rw e (found_adopted tool session_id sessions)
]

-- After a tool's sessions are replaced, the registry finds for this tool the first reported session
-- with the id that is asked for, as the tool's own and under the canonical id, and for any other
-- tool what it found before.
pub find_session-replace_snapshot :
    (snapshots : Snapshots) (tool other : ToolId) (sessions : List ToolSessionListItem)
    (session_id : String)
    → find_session (replace_snapshot snapshots tool sessions) other session_id ≡ (
        if tool == other
        then map_option
            (λ (session : ToolSessionListItem). record session {
              tool = tool;
              id = canonical_tool_session_id tool session.session_id;
            })
            (find? (λ (session : ToolSessionListItem). session.session_id == session_id) sessions)
        else find_session snapshots other session_id)
unfolding find_session replace_snapshot adopt
find_session-replace_snapshot snapshots tool other sessions session_id =
    elim (Bool-cases (tool == other)) [
      | inl e ↦
          rw (get-insert snapshots tool (map (adopt tool) sessions) other, e)
            (found_adopted tool session_id sessions)
      | inr e ↦ rw (get-insert snapshots tool (map (adopt tool) sessions) other, e) refl
    ]

compare_runtime_priority-IsLawful : IsLawful compare_runtime_priority
compare_runtime_priority-IsLawful =
    then_by-IsLawful
      (on-IsLawful (λ (item : RuntimeStateItem). runtime_status_priority item.status)
        compare-IsLawful)
      (on-IsLawful (λ (item : RuntimeStateItem). item.last_activity_at) compare-IsLawful)

-- How urgent a status is.
abbrev pub urgency : RuntimeStateStatus → ℕ
urgency RuntimeStateStatus.stale = 0
urgency RuntimeStateStatus.idle = 1
urgency RuntimeStateStatus.completed = 2
urgency RuntimeStateStatus.running = 3
urgency RuntimeStateStatus.error = 4
urgency RuntimeStateStatus.waiting_input = 5
urgency RuntimeStateStatus.waiting_approval = 6

less_urgent :
    (other run : RuntimeStateItem)
    → not_greater (compare_runtime_priority other run) ≡ true
    → (ltb (urgency other.status) (urgency run.status)
        || ((other.status == run.status) && leb other.last_activity_at run.last_activity_at))
      ≡ true
unfolding runtime_status_priority
less_urgent other run h = ground arith

module _ {Value : Type 0} where
  own_detail_own :
      (tool : ToolId) (session_id : String) (d : ToolSessionDetail Value)
      (answer : Result (ToolSessionDetail Value))
      → (answer >>= own_detail Value tool session_id) ≡ ok d
      → (d.tool ≡ tool) × (d.session_id ≡ session_id)
  unfolding own_detail
  own_detail_own tool session_id d (err e) h = absurd (ground arith)
  own_detail_own tool session_id d (ok x) h = elim (Bool-cases (x.tool == tool)) [
    | inr e ↦ absurd (ground (arith, e))
    | inl e ↦ elim (Bool-cases (x.session_id == session_id)) [
      | inr g ↦ absurd (ground (arith, e, g))
      | inl g ↦
          let q : ok x ≡ ok d = ground (arith, e, g, h) in
          let k : x ≡ d = cc q in
          subst (λ (y : ToolSessionDetail Value). (y.tool ≡ tool) × (y.session_id ≡ session_id)) k
            ((tool_eq.decides x.tool tool).0 e, (string_eq.decides x.session_id session_id).0 g)
    ]
  ]

  -- A detail that the registry returns belongs to the tool and the session it was asked for, whatever
  -- the provider answers.
  pub detail_own :
      (registry : ToolSessionRegistry Value) (tool : ToolId) (session_id : String) (limit : ℕ)
      (cursor : Option String) (d : ToolSessionDetail Value)
      → detail Value registry tool session_id limit cursor ≡ ok d
      → (d.tool ≡ tool) × (d.session_id ≡ session_id)
  unfolding detail own_detail
  detail_own registry tool session_id limit cursor d h =
      elim (Option-cases (HashMap.get registry.detail_providers tool)) [
        | inl e ↦ absurd (ground (arith, e))
        | inr (provider, e) ↦
            own_detail_own tool session_id d (provider tool session_id limit cursor)
              (rw (e, detail) at h)
      ]

  -- What it takes for a run to be one of the conversation of a detail.
  conversation_of :
      (registry : ToolSessionRegistry Value) (d : ToolSessionDetail Value) (run : RuntimeStateItem)
      → detail_matches_runtime_session Value registry d run ≡ true
      → (run.session_id ≡ d.session_id)
        ⊎ ((id : String) × (session : ToolSessionListItem) × (d.normalized_session_id ≡ some id)
            × ((d.session_id == id || d.session_scope == some ToolSessionScope.main) ≡ true)
            × (find_session registry.snapshots d.tool run.session_id ≡ some session)
            × ((normalized_session_id_for session == id
                  || session.parent_session_id == some d.session_id)
                ≡ true))
  unfolding detail_matches_runtime_session belongs_to
  conversation_of registry d run h = elim (Bool-cases (run.session_id == d.session_id)) [
    | inl e ↦ inl ((string_eq.decides run.session_id d.session_id).0 e)
    | inr e ↦ elim (Option-cases d.normalized_session_id) [
      | inl n ↦ absurd (ground (arith, e, n, h))
      | inr (id, n) ↦ elim (Option-cases (find_session registry.snapshots d.tool run.session_id)) [
        | inl m ↦ absurd (ground (arith, e, n, m, h))
        | inr (session, m) ↦
            inr (id, session, n, ground (arith, e, n, m, h), m, ground (arith, e, n, m, h))
      ]
    ]
  ]

  -- The run that is shown with a detail is one of the tool, and of the session of the detail or, if
  -- the detail is that of a whole conversation or of its main session, of a known session of the
  -- conversation or of a subagent of the detail's session. Any other such run is less urgent, or of
  -- the same status and not active later; it is the more urgent to wait for an approval, to wait for
  -- an input, to have failed, to run, to be completed, to be idle and to be stale, in this order.
  pub runtime_for_detail_greatest :
      (registry : ToolSessionRegistry Value) (tool : ToolId) (d : ToolSessionDetail Value)
      (runtime_states : List RuntimeStateItem) (run : RuntimeStateItem)
      → runtime_for_detail Value registry tool d runtime_states ≡ some run
      → (run.tool ≡ tool)
        × ((run.session_id ≡ d.session_id)
            ⊎ ((id : String) × (session : ToolSessionListItem) × (d.normalized_session_id ≡ some id)
                × ((d.session_id == id || d.session_scope == some ToolSessionScope.main) ≡ true)
                × (find_session registry.snapshots d.tool run.session_id ≡ some session)
                × ((normalized_session_id_for session == id
                      || session.parent_session_id == some d.session_id)
                    ≡ true)))
        × All
            (λ (other : RuntimeStateItem).
              (ltb (urgency other.status) (urgency run.status)
                || ((other.status == run.status)
                    && leb other.last_activity_at run.last_activity_at))
              ≡ true)
            (retain
              (λ (item : RuntimeStateItem).
                (item.tool == tool) && detail_matches_runtime_session Value registry d item)
              runtime_states)
  unfolding runtime_for_detail
  runtime_for_detail_greatest registry tool d runtime_states run h =
      let own =
        max_by-member compare_runtime_priority
          (λ (item : RuntimeStateItem).
            (item.tool == tool) && detail_matches_runtime_session Value registry d item)
          _ run h (All-retain _ runtime_states) in
      (
        (tool_eq.decides run.tool tool).0 (ground (arith, own)),
        conversation_of registry d run (ground (arith, own)),
        All-imp _ (λ other k. less_urgent other run k)
            (max_by_greatest compare_runtime_priority-IsLawful _ run h),
      )
