-- ===== src/Store/Sweep.antt =====
-- `mark_stale_running_sessions_with_result`: what the sweep does to the runs.
use niu_ma_notifier.Prelude.{
  ℕ, ◌+◌, ◌≤◌, String, ◌≡◌, ◌≢◌, refl, ◌∙◌, ◌⊎◌, inl, inr, Bool, false, Option, none, some, List,
  [], ◌∷◌, map, arith, find?, any, retain, length, length-map, any-retain_mono, Bool-cases, All,
}
use niu_ma_notifier.Models.{
  ToolId, RuntimeStateStatus, EventType, DateTime, Duration, NiumaEvent, RuntimeStateItem,
  StoredState,
}
use niu_ma_notifier.Transitions.{
  same_run, runtime_matches, already_applied, status_from_event, new_runtime_state,
  refresh_runtime_state, upsert_runtime_state, clear_run, transition_for_status,
  apply_attention_transition,
}
use niu_ma_notifier.Transitions.Runs.{
  UniqueRuns, run_after, same_run_iff, find?-upsert_runtime_state_self,
}
use niu_ma_notifier.Store.{
  RuntimeState, event_already_applied, apply_event, stale_event, is_stale_session, sweep_loop,
  mark_stale_running_sessions_with_result,
}
use niu_ma_notifier.Store.Invariant.{IsValid, apply_event-IsValid, apply_event_isolated}

module _ (e : NiumaEvent) (stales : e.event_type ≡ EventType.session_staled) where
  stale_runtime :
      (st : StoredState)
      → (apply_event st e).runtime_states ≡ upsert_runtime_state st.runtime_states e
  unfolding apply_event apply_attention_transition transition_for_status status_from_event clear_run
  stale_runtime st = ground arith

  run_after_stale :
      (o : Option RuntimeStateItem) → (run_after e o).status ≡ RuntimeStateStatus.stale
  unfolding refresh_runtime_state new_runtime_state status_from_event
  run_after_stale none = ground arith
  run_after_stale (some x) = ground arith

-- The run has the item that it had, or it is stale.
abbrev pub KeptOrStale : ToolId → String → StoredState → StoredState → Type 0
KeptOrStale t s before after =
    (find? (runtime_matches t s) after.runtime_states
      ≡ find? (runtime_matches t s) before.runtime_states)
    ⊎ ((x : RuntimeStateItem) × (find? (runtime_matches t s) after.runtime_states ≡ some x)
        × (x.status ≡ RuntimeStateStatus.stale))

abbrev AllStale : List NiumaEvent → Type 0
AllStale = All (λ e. e.event_type ≡ EventType.session_staled)

stale_ne :
    (e : NiumaEvent)
    → e.event_type ≡ EventType.session_staled
    → e.event_type ≢ EventType.manual_dismissed
stale_ne e h m = ground arith

module _ (t : ToolId) (s : String) where
  apply_stale :
      (st : StoredState) (e : NiumaEvent)
      → e.event_type ≡ EventType.session_staled
      → KeptOrStale t s st (apply_event st e)
  apply_stale st e h = elim (Bool-cases (same_run e.tool e.session_id t s)) [
    | inr other ↦ inl (apply_event_isolated st e t s other (λ m. stale_ne e h m)).0
    | inl same ↦
        let (f, g) = same_run_iff e.tool e.session_id t s same in
        let o = find? (runtime_matches e.tool e.session_id) st.runtime_states in
        inr (
          run_after e o,
          rw (stale_runtime e h st, ← f, ← g) (find?-upsert_runtime_state_self e st.runtime_states),
          run_after_stale e h o,
        )
  ]

  trans_stale :
      (a b c : StoredState) → KeptOrStale t s a b → KeptOrStale t s b c → KeptOrStale t s a c
  trans_stale a b c h (inr k) = inr k
  trans_stale a b c (inl h) (inl k) = inl (k ∙ h)
  trans_stale a b c (inr (x, h, q)) (inl k) = inr (x, k ∙ h, q)

  loop_stale :
      (r : RuntimeState) (st : StoredState) (n : ℕ) (es : List NiumaEvent)
      → AllStale es
      → KeptOrStale t s st (sweep_loop r st n es).1
  unfolding sweep_loop
  loop_stale r st n [] h = inl refl
  loop_stale r st n (e ∷ es) h = elim (Bool-cases (event_already_applied r st e)) [
    | inl skip ↦ rw skip (loop_stale r st n es h.1)
    | inr new ↦
        let r' : RuntimeState = record r { dedupe_keys = e.dedupe_key ∷ r.dedupe_keys } in
        let st' : StoredState = apply_event st e in
        rw new (
          trans_stale st st' (sweep_loop r' st' (n + 1) es).1 (apply_stale st e h.0)
            (loop_stale r' st' (n + 1) es h.1))
  ]

  loop_other :
      (r : RuntimeState) (st : StoredState) (n : ℕ) (es : List NiumaEvent)
      → AllStale es
      → All (λ e. same_run e.tool e.session_id t s ≡ false) es
      → find? (runtime_matches t s) (sweep_loop r st n es).1.runtime_states
        ≡ find? (runtime_matches t s) st.runtime_states
  unfolding sweep_loop
  loop_other r st n [] h o = refl
  loop_other r st n (e ∷ es) h o = elim (Bool-cases (event_already_applied r st e)) [
    | inl skip ↦ rw skip (loop_other r st n es h.1 o.1)
    | inr new ↦ rw new (
        loop_other (record r { dedupe_keys = e.dedupe_key ∷ r.dedupe_keys }) (apply_event st e)
          (n + 1) es h.1 o.1
        ∙ (apply_event_isolated st e t s o.0 (λ m. stale_ne e h.0 m)).0)
  ]

  none_of_unique :
      (p : RuntimeStateItem → Bool) (xs : List RuntimeStateItem) (x : RuntimeStateItem)
      → UniqueRuns xs
      → find? (runtime_matches t s) xs ≡ some x
      → p x ≡ false
      → any (runtime_matches t s) (retain p xs) ≡ false
  unfolding any find? retain
  none_of_unique p [] x u h q = refl
  none_of_unique p (y ∷ ys) x u h q = elim (Bool-cases (runtime_matches t s y)) [
    | inl m ↦
        let (f, g) = same_run_iff y.tool y.session_id t s m in
        let k : any (runtime_matches t s) ys ≡ false = rw (f, g) at u.0 in
        ground (arith, any-retain_mono (runtime_matches t s) p ys k)
    | inr m ↦ ground (arith, none_of_unique p ys x u.1)
  ]

  others_of_none :
      (now : DateTime) (xs : List RuntimeStateItem)
      → any (runtime_matches t s) xs ≡ false
      → All (λ e. same_run e.tool e.session_id t s ≡ false) (map (stale_event now) xs)
  unfolding any stale_event
  others_of_none now [] h = tt
  others_of_none now (x ∷ xs) h = (ground arith, others_of_none now xs (ground arith))

stale_events : (now : DateTime) (xs : List RuntimeStateItem) → AllStale (map (stale_event now) xs)
unfolding stale_event
stale_events now [] = tt
stale_events now (x ∷ xs) = (refl, stale_events now xs)

not_applied_state :
    (r : RuntimeState) (st : StoredState) (e : NiumaEvent)
    → event_already_applied r st e ≡ false
    → already_applied st e ≡ false
unfolding event_already_applied
not_applied_state r st e h = ground arith

loop-IsValid :
    (r : RuntimeState) (st : StoredState) (n : ℕ) (es : List NiumaEvent)
    → IsValid st
    → IsValid (sweep_loop r st n es).1
unfolding sweep_loop
loop-IsValid r st n [] v = v
loop-IsValid r st n (e ∷ es) v = elim (Bool-cases (event_already_applied r st e)) [
  | inl skip ↦ rw skip (loop-IsValid r st n es v)
  | inr new ↦ rw new (
      loop-IsValid _ (apply_event st e) (n + 1) es
        (apply_event-IsValid st e (not_applied_state r st e new) v))
]

loop_count :
    (r : RuntimeState) (st : StoredState) (n : ℕ) (es : List NiumaEvent)
    → (sweep_loop r st n es).2 ≤ n + length es
unfolding sweep_loop
loop_count r st n [] = omega arith
loop_count r st n (e ∷ es) = elim (Bool-cases (event_already_applied r st e)) [
  | inl skip ↦ rw skip (omega (arith, loop_count r st n es))
  | inr new ↦ rw new (
      omega (
        arith,
        loop_count (record r { dedupe_keys = e.dedupe_key ∷ r.dedupe_keys }) (apply_event st e)
            (n + 1) es,
      ))
]

loop_public :
    (r : RuntimeState) (st : StoredState) (n : ℕ) (es : List NiumaEvent)
    → (sweep_loop r st n es).0.public_events ≡ r.public_events
unfolding sweep_loop
loop_public r st n [] = refl
loop_public r st n (e ∷ es) = elim (Bool-cases (event_already_applied r st e)) [
  | inl skip ↦ rw skip (loop_public r st n es)
  | inr new ↦ rw new (
      loop_public (record r { dedupe_keys = e.dedupe_key ∷ r.dedupe_keys }) (apply_event st e)
        (n + 1) es)
]

module _ (r : RuntimeState) (now : DateTime) (timeout : Duration) where
  -- The sweep keeps the state valid.
  pub sweep-IsValid :
      IsValid r.state → IsValid (mark_stale_running_sessions_with_result r now timeout).0.state
  unfolding mark_stale_running_sessions_with_result
  sweep-IsValid v = loop-IsValid r r.state 0 _ v

  -- After a sweep every run has the item that it had, or is stale; at most as many runs were swept
  -- as had been running without activity for the timeout, and no event was made public.
  pub sweep_only_stales :
      let (after, result) = mark_stale_running_sessions_with_result r now timeout in
      ((t : ToolId) (s : String) → KeptOrStale t s r.state after.state)
      × (result.staled_count
          ≤ length (retain (is_stale_session now timeout) r.state.runtime_states))
      × (after.public_events ≡ r.public_events)
  unfolding mark_stale_running_sessions_with_result
  sweep_only_stales =
      let stale = retain (is_stale_session now timeout) r.state.runtime_states in
      let es = map (stale_event now) stale in
      (
        λ t s. loop_stale t s r r.state 0 es (stale_events now stale),
        omega (arith, loop_count r r.state 0 es, length-map (stale_event now) stale),
        loop_public r r.state 0 es,
      )

  -- In a valid state a run that is not running, or that was active within the timeout, is not
  -- touched by the sweep.
  pub sweep_keeps_active :
      (t : ToolId) (s : String) (x : RuntimeStateItem)
      → IsValid r.state
      → find? (runtime_matches t s) r.state.runtime_states ≡ some x
      → is_stale_session now timeout x ≡ false
      → find?
          (runtime_matches t s)
          (mark_stale_running_sessions_with_result r now timeout).0.state.runtime_states
        ≡ some x
  unfolding mark_stale_running_sessions_with_result
  sweep_keeps_active t s x v h q =
      let p = is_stale_session now timeout in
      let xs = retain p r.state.runtime_states in
      loop_other t s r r.state 0 (map (stale_event now) xs) (stale_events now xs)
        (others_of_none t s now xs (none_of_unique t s p r.state.runtime_states x v.runs h q))
      ∙ h
