-- ===== src/Store/Append.antt =====
-- `append_events_with_result`: which events are applied, once, and what stays true.
use niu_ma_notifier.Prelude.{
  All, String, ◌≡◌, refl, sym, ap, subst, ◌∙◌, inl, inr, true, false, List, [], ◌∷◌, ◌++◌, arith,
  Bool-cases, string_eq,
}
use niu_ma_notifier.Models.{NiumaEvent}
use niu_ma_notifier.Store.{
  RuntimeState, AppendLoop, event_already_applied, append_applied, is_skipped, append_event_step,
  append_events_loop, start_loop, append_events_with_result, has_dedupe_key,
  trim_public_event_cache,
}
use niu_ma_notifier.Store.Invariant.{IsValid, apply_event-IsValid}

step-IsValid :
    (l : AppendLoop) (e : NiumaEvent) → IsValid l.state → IsValid (append_event_step l e).state
unfolding append_event_step append_applied is_skipped event_already_applied
step-IsValid l e v = elim (Bool-cases (is_skipped l e)) [
  | inl h ↦ rw h v
  | inr h ↦ rw h (apply_event-IsValid l.state e (ground arith) v)
]

loop-IsValid :
    (l : AppendLoop) (es : List NiumaEvent)
    → IsValid l.state
    → IsValid (append_events_loop l es).state
unfolding append_events_loop
loop-IsValid l [] v = v
loop-IsValid l (e ∷ es) v = loop-IsValid (append_event_step l e) es (step-IsValid l e v)

trim_state : (r : RuntimeState) → (trim_public_event_cache r).state ≡ r.state
unfolding trim_public_event_cache
trim_state r = ground arith

-- Appending any events keeps the stored state valid, and returns that state.
pub append_events-IsValid :
    (r : RuntimeState) (es : List NiumaEvent)
    → IsValid r.state
    → IsValid (append_events_with_result r es).0.state
      × ((append_events_with_result r es).1.state ≡ (append_events_with_result r es).0.state)
unfolding append_events_with_result
append_events-IsValid r es v =
    let l = append_events_loop (start_loop r) es in
    let e = trim_state (record l.runtime { state = l.state }) in
    (subst IsValid (sym e) (loop-IsValid (start_loop r) es v), sym e)

-- The keys of the applied events are new, each differs from the ones before it, and all are
-- remembered.
abbrev pub FreshKeys : List String → List NiumaEvent → Type 0
FreshKeys known [] = Unit {0}
FreshKeys known (e ∷ es) =
    (has_dedupe_key known e.dedupe_key ≡ false) × FreshKeys (e.dedupe_key ∷ known) es

-- The keys that are known after some events are applied.
unfoldable pub known_after : List String → List NiumaEvent → List String
known_after known [] = known
known_after known (e ∷ es) = known_after (e.dedupe_key ∷ known) es

FreshKeys-append :
    (known : List String) (xs : List NiumaEvent) (y : NiumaEvent)
    → FreshKeys known xs
    → has_dedupe_key (known_after known xs) y.dedupe_key ≡ false
    → FreshKeys known (xs ++ y ∷ [])
unfolding known_after
FreshKeys-append known [] y f h = (h, tt)
FreshKeys-append known (x ∷ xs) y f h = (f.0, FreshKeys-append (x.dedupe_key ∷ known) xs y f.1 h)

known_after-append :
    (known : List String) (xs : List NiumaEvent) (y : NiumaEvent)
    → known_after known (xs ++ y ∷ []) ≡ y.dedupe_key ∷ known_after known xs
unfolding known_after
known_after-append known [] y = refl
known_after-append known (x ∷ xs) y = known_after-append (x.dedupe_key ∷ known) xs y

record Tracks (known : List String) (l : AppendLoop) : Type 0 where
  fresh : FreshKeys known l.applied_events
  keys : l.runtime.dedupe_keys ≡ known_after known l.applied_events

step-Tracks :
    (known : List String) (l : AppendLoop) (e : NiumaEvent)
    → Tracks known l
    → Tracks known (append_event_step l e)
unfolding append_event_step append_applied is_skipped event_already_applied
step-Tracks known l e t = elim (Bool-cases (is_skipped l e)) [
  | inl h ↦ rw h t
  | inr h ↦ rw h (record {
    fresh = FreshKeys-append known l.applied_events e t.fresh (rw (← t.keys) (ground arith));
    keys = rw (known_after-append known l.applied_events e, t.keys);
  })
]

loop-Tracks :
    (known : List String) (l : AppendLoop) (es : List NiumaEvent)
    → Tracks known l
    → Tracks known (append_events_loop l es)
unfolding append_events_loop
loop-Tracks known l [] t = t
loop-Tracks known l (e ∷ es) t =
    loop-Tracks known (append_event_step l e) es (step-Tracks known l e t)

trim_keys : (r : RuntimeState) → (trim_public_event_cache r).dedupe_keys ≡ r.dedupe_keys
unfolding trim_public_event_cache
trim_keys r = ground arith

-- The applied events have pairwise distinct dedupe keys, none of them known before, and afterwards
-- the known keys are the old ones and theirs.
pub append_events_fresh :
    (r : RuntimeState) (es : List NiumaEvent)
    → let (after, result) = append_events_with_result r es in
      FreshKeys r.dedupe_keys result.applied_events
      × (after.dedupe_keys ≡ known_after r.dedupe_keys result.applied_events)
unfolding append_events_with_result known_after
append_events_fresh r es =
    let l = append_events_loop (start_loop r) es in
    let t : Tracks r.dedupe_keys l =
      loop-Tracks r.dedupe_keys (start_loop r) es (record { fresh = tt; keys = refl }) in
    (t.fresh, trim_keys (record l.runtime { state = l.state }) ∙ t.keys)

known_skipped :
    (l : AppendLoop) (e : NiumaEvent)
    → has_dedupe_key l.runtime.dedupe_keys e.dedupe_key ≡ true
    → append_event_step l e ≡ l
unfolding append_event_step is_skipped event_already_applied
known_skipped l e h = ground arith

loop_known :
    (l : AppendLoop) (es : List NiumaEvent)
    → All (λ e. has_dedupe_key l.runtime.dedupe_keys e.dedupe_key ≡ true) es
    → append_events_loop l es ≡ l
unfolding append_events_loop
loop_known l [] h = refl
loop_known l (e ∷ es) h = rw (known_skipped l e h.0) (loop_known l es h.1)

-- Events whose dedupe keys are all known are not applied again, and the state stays as it was.
pub append_known :
    (r : RuntimeState) (es : List NiumaEvent)
    → All (λ e. has_dedupe_key r.dedupe_keys e.dedupe_key ≡ true) es
    → let (after, result) = append_events_with_result r es in
      (result.applied_events ≡ []) × (after.state ≡ r.state) × (after.dedupe_keys ≡ r.dedupe_keys)
unfolding append_events_with_result
append_known r es h =
    let e = loop_known (start_loop r) es h in
    (
      ap (λ (l : AppendLoop). l.applied_events) e,
      trim_state _ ∙ ap (λ (l : AppendLoop). l.state) e,
      trim_keys _ ∙ ap (λ (l : AppendLoop). l.runtime.dedupe_keys) e,
    )
