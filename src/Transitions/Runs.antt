-- ===== src/Transitions/Runs.antt =====
-- The identity of a run, and the list of runtime states as a map from it.
use niu_ma_notifier.Prelude.{
  String, ◌≡◌, refl, sym, ◌∙◌, inl, inr, Bool, true, false, Option, none, some, List, [], ◌∷◌, ◌++◌,
  arith, eq_iff, any, find?, update_first, Bool-cases, Option-cases, is_some-find?, find?-holds,
  find?-append, find?-append_ne, find?-update_first, find?-update_first_ne, any-append,
  any-update_first,
}
use niu_ma_notifier.Models.{ToolId, tool_beq_iff, NiumaEvent, RuntimeStateItem}
use niu_ma_notifier.Transitions.{
  same_run, runtime_matches, refresh_runtime_state, new_runtime_state, upsert_runtime_state,
}

-- The test holds exactly of the same tool and the same session.
pub same_run_iff :
    (t : ToolId) (s : String) (u : ToolId) (r : String)
    → same_run t s u r ≡ true
    → (t ≡ u) × (s ≡ r)
unfolding same_run
same_run_iff t s u r h = ground (arith, tool_beq_iff t u, eq_iff s r)

pub same_run_refl : (t : ToolId) (s : String) → same_run t s t s ≡ true
unfolding same_run
same_run_refl t s = ground (arith, tool_beq_iff t t, eq_iff s s)

pub same_run_comm :
    (t : ToolId) (s : String) (u : ToolId) (r : String) → same_run t s u r ≡ same_run u r t s
unfolding same_run
same_run_comm t s u r = ground (arith, tool_beq_iff t u, tool_beq_iff u t, eq_iff s r, eq_iff r s)

-- Two runs that are the same as a third are the same.
pub same_run_trans :
    (t : ToolId) (s : String) (u : ToolId) (r : String) (v : ToolId) (q : String)
    → same_run t s u r ≡ true
    → same_run t s v q ≡ same_run u r v q
same_run_trans t s u r v q h = let (e, f) = same_run_iff t s u r h in rw (e, f)

-- No run has two items.
abbrev pub UniqueRuns : List RuntimeStateItem → Type 0
UniqueRuns [] = Unit {0}
UniqueRuns (x ∷ xs) = (any (runtime_matches x.tool x.session_id) xs ≡ false) × UniqueRuns xs

-- A change in place that leaves the run of an item keeps the runs unique.
pub update_first-UniqueRuns :
    (p : RuntimeStateItem → Bool) (f : RuntimeStateItem → RuntimeStateItem)
    (xs : List RuntimeStateItem)
    → ((x : RuntimeStateItem)
        → p x ≡ true
        → ((f x).tool ≡ x.tool) × ((f x).session_id ≡ x.session_id))
    → UniqueRuns xs
    → UniqueRuns (update_first p f xs)
unfolding update_first
update_first-UniqueRuns p f [] h u = tt
update_first-UniqueRuns p f (x ∷ xs) h u = elim (Bool-cases (p x)) [
  | inl e ↦ rw e (rw (h x e).0 (rw (h x e).1 u))
  | inr e ↦ rw e (
    any-update_first (runtime_matches x.tool x.session_id) p f xs (λ y k. rw ((h y k).0, (h y k).1))
        ∙ u.0,
    update_first-UniqueRuns p f xs h u.1,
  )
]

pub refresh_keeps_run :
    (e : NiumaEvent) (x : RuntimeStateItem)
    → runtime_matches e.tool e.session_id x ≡ true
    → ((refresh_runtime_state e x).tool ≡ x.tool)
      × ((refresh_runtime_state e x).session_id ≡ x.session_id)
unfolding refresh_runtime_state
refresh_keeps_run e x h = (sym (same_run_iff x.tool x.session_id e.tool e.session_id h).0, refl)

append-UniqueRuns :
    (xs : List RuntimeStateItem) (y : RuntimeStateItem)
    → any (runtime_matches y.tool y.session_id) xs ≡ false
    → UniqueRuns xs
    → UniqueRuns (xs ++ y ∷ [])
unfolding any
append-UniqueRuns [] y h u = (refl, tt)
append-UniqueRuns (x ∷ xs) y h u = (
  rw (any-append (runtime_matches x.tool x.session_id) xs (y ∷ []))
      (ground (arith, same_run_comm y.tool y.session_id x.tool x.session_id)),
  append-UniqueRuns xs y (ground arith) u.1,
)

-- One event keeps the runs unique.
pub upsert_runtime_state-UniqueRuns :
    (xs : List RuntimeStateItem) (e : NiumaEvent)
    → UniqueRuns xs
    → UniqueRuns (upsert_runtime_state xs e)
unfolding upsert_runtime_state new_runtime_state
upsert_runtime_state-UniqueRuns xs e u =
    elim (Bool-cases (any (runtime_matches e.tool e.session_id) xs)) [
      | inl h ↦
          rw h (update_first-UniqueRuns _ (refresh_runtime_state e) xs (refresh_keeps_run e) u)
      | inr h ↦ rw h (append-UniqueRuns xs (new_runtime_state e) h u)
    ]

-- The item of the event's run after the event, from the item before it.
abbrev pub run_after : NiumaEvent → Option RuntimeStateItem → RuntimeStateItem
run_after e none = new_runtime_state e
run_after e (some x) = refresh_runtime_state e x

refresh_matches :
    (e : NiumaEvent) (x : RuntimeStateItem) (t : ToolId) (s : String)
    → runtime_matches e.tool e.session_id x ≡ true
    → runtime_matches t s (refresh_runtime_state e x) ≡ same_run e.tool e.session_id t s
refresh_matches e x t s m =
    let (f, g) = refresh_keeps_run e x m in
    rw (f, g) (same_run_trans x.tool x.session_id e.tool e.session_id t s m)

module _ (e : NiumaEvent) (xs : List RuntimeStateItem) where
  own : RuntimeStateItem → Bool
  own = runtime_matches e.tool e.session_id

  -- A search for the event's run finds the refreshed item, or the new one.
  pub find?-upsert_runtime_state_self :
      find? (runtime_matches e.tool e.session_id) (upsert_runtime_state xs e)
      ≡ some (run_after e (find? (runtime_matches e.tool e.session_id) xs))
  unfolding upsert_runtime_state own
  find?-upsert_runtime_state_self = elim (Option-cases (find? own xs)) [
    | inl h ↦
        let k : any own xs ≡ false = ground (arith, is_some-find? own xs) in
        rw (k, h, find?-append own xs (new_runtime_state e ∷ []) k)
          (unfold find? new_runtime_state in rw (same_run_refl e.tool e.session_id))
    | inr (x, h) ↦
        let k : any own xs ≡ true = ground (arith, is_some-find? own xs) in
        rw (k, h)
          (find?-update_first own (refresh_runtime_state e) xs h (
            refresh_matches e x e.tool e.session_id (find?-holds own xs h)
            ∙ same_run_refl e.tool e.session_id))
  ]

  -- A search for any other run finds what it found before.
  pub find?-upsert_runtime_state_ne :
      (t : ToolId) (s : String)
      → same_run e.tool e.session_id t s ≡ false
      → find? (runtime_matches t s) (upsert_runtime_state xs e) ≡ find? (runtime_matches t s) xs
  unfolding upsert_runtime_state own
  find?-upsert_runtime_state_ne t s h = elim (Bool-cases (any own xs)) [
    | inl k ↦ rw k (
        find?-update_first_ne (runtime_matches t s) own (refresh_runtime_state e) xs
          (λ x m. same_run_trans x.tool x.session_id e.tool e.session_id t s m ∙ h)
          (λ x m. refresh_matches e x t s m ∙ h))
    | inr k ↦ rw k (
        find?-append_ne (runtime_matches t s) xs (new_runtime_state e ∷ [])
          (unfold any new_runtime_state in rw h))
  ]
