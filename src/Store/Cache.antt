-- ===== src/Store/Cache.antt =====
-- The public event cache: the order of its events, its bound, and what trimming must keep.
use Prim.Native.String.{compare as compare_text}
use Prim.Native.String.compare
use text.Mathlib.Text.{is_le}
use niu_ma_notifier.Prelude.{
  ℕ, zero, suc, ◌+◌, ◌≤◌, String, ◌≡◌, refl, ap, ◌∙◌, Bool, true, false, not, ◌&&◌, ◌||◌, List, [],
  ◌∷◌, ◌++◌, arith, if◌then◌else◌, any, retain, take, length, ◌==◌, nat_eq, string_eq, any-append,
  length-append, retain-append, length-take-le, length-retain-le,
}
use niu_ma_notifier.Models.{NiumaEvent}
use niu_ma_notifier.Store.Events.{
  not_older, insert_event, sort_events_newest_first, main_state_event_ids,
}
use niu_ma_notifier.Store.{
  RuntimeState, max_public_event_cache_size, trim_step, trim_loop, trim_public_event_cache,
  public_recent_events,
}

text_total : (s t : String) → is_le (compare_text s t) ≡ false → is_le (compare_text t s) ≡ true
text_total String.[] String.[] h = refl
text_total String.[] (String.◌∷◌ d t) h = cc (rw (compare.nil-cons d t) at h)
text_total (String.◌∷◌ c s) String.[] h = rw (compare.nil-cons c s)
text_total (String.◌∷◌ c s) (String.◌∷◌ d t) h =
    let k = rw (compare.cons-cons c d s t) at h in
    rw (compare.cons-cons d c t s) (ground (arith, text_total s t))

-- Of two events one is not older than the other.
not_older_total : (a b : NiumaEvent) → not_older a b ≡ false → not_older b a ≡ true
unfolding not_older
not_older_total a b h = ground (arith, text_total b.id a.id)

-- Each event is not older than the next.
abbrev pub NewestFirst : List NiumaEvent → Type 0
NewestFirst [] = Unit {0}
NewestFirst (x ∷ []) = Unit {0}
NewestFirst (x ∷ y ∷ ys) = (not_older x y ≡ true) × NewestFirst (y ∷ ys)

insert-NewestFirst :
    (e : NiumaEvent) (es : List NiumaEvent) → NewestFirst es → NewestFirst (insert_event e es)
unfolding insert_event
insert-NewestFirst e [] h = tt
insert-NewestFirst e (x ∷ []) h = ground (arith, not_older_total e x)
insert-NewestFirst e (x ∷ y ∷ ys) h =
    ground (arith, not_older_total e x, insert-NewestFirst e (y ∷ ys) h.1)

sort-NewestFirst : (es : List NiumaEvent) → NewestFirst (sort_events_newest_first es)
unfolding sort_events_newest_first
sort-NewestFirst [] = tt
sort-NewestFirst (e ∷ es) = insert-NewestFirst e (sort_events_newest_first es) (sort-NewestFirst es)

module _ (p : NiumaEvent → Bool) where
  any-insert_event :
      (e : NiumaEvent) (es : List NiumaEvent) → any p (insert_event e es) ≡ (p e || any p es)
  unfolding any insert_event
  any-insert_event e [] = refl
  any-insert_event e (x ∷ xs) = ground (arith, any-insert_event e xs)

  any-sort : (es : List NiumaEvent) → any p (sort_events_newest_first es) ≡ any p es
  unfolding any sort_events_newest_first
  any-sort [] = refl
  any-sort (e ∷ es) =
      any-insert_event e (sort_events_newest_first es) ∙ ap (λ b. p e || b) (any-sort es)

  any-take : (n : ℕ) (es : List NiumaEvent) → any p (take n es) ≡ true → any p es ≡ true
  unfolding any
  any-take zero es h = ground arith
  any-take (suc n) [] h = h
  any-take (suc n) (x ∷ xs) h = ground (arith, any-take n xs)

take-NewestFirst : (n : ℕ) (es : List NiumaEvent) → NewestFirst es → NewestFirst (take n es)
take-NewestFirst zero es h = tt
take-NewestFirst (suc n) [] h = tt
take-NewestFirst (suc zero) (x ∷ xs) h = tt
take-NewestFirst (suc (suc n)) (x ∷ []) h = tt
take-NewestFirst (suc (suc n)) (x ∷ y ∷ ys) h = (h.0, take-NewestFirst (suc n) (y ∷ ys) h.1)

-- The recent events are at most `limit` and newest first, and whatever is true of one of them is
-- true of an event of the cache.
pub public_recent_events_lem :
    (r : RuntimeState) (limit : ℕ) (p : NiumaEvent → Bool)
    → (length (public_recent_events r limit) ≤ limit)
      × NewestFirst (public_recent_events r limit)
      × ((any p (public_recent_events r limit) && not (any p r.public_events)) ≡ false)
unfolding public_recent_events any
public_recent_events_lem r limit p = (
  ground (arith, length-take-le limit (sort_events_newest_first r.public_events)),
  ground (
    arith,
    take-NewestFirst limit (sort_events_newest_first r.public_events)
        (sort-NewestFirst r.public_events),
  ),
  ground (
    arith,
    λ (h : any p (take limit (sort_events_newest_first r.public_events)) ≡ true).
        any-take p limit (sort_events_newest_first r.public_events) h,
    any-sort p r.public_events,
  ),
)

module _ (active : List String) where
  abbrev pub is_active : NiumaEvent → Bool
  is_active event = any (λ id. id == event.id) active

  trim_loop-any :
      (p : NiumaEvent → Bool) (kept es : List NiumaEvent)
      → any p (trim_loop active kept es) ≡ true
      → (any p kept || any p es) ≡ true
  unfolding trim_loop any
  trim_loop-any p kept [] h = ground arith
  trim_loop-any p kept (e ∷ es) h = ground (
    arith,
    trim_loop-any p kept es,
    trim_loop-any p (kept ++ e ∷ []) es,
    any-append p kept (e ∷ []),
  )

  trim_loop_active :
      (p : NiumaEvent → Bool) (kept es : List NiumaEvent)
      → ((e : NiumaEvent) → p e ≡ true → is_active e ≡ true)
      → any p (trim_loop active kept es) ≡ (any p kept || any p es)
  unfolding trim_loop any
  trim_loop_active p kept [] h = ground arith
  trim_loop_active p kept (e ∷ es) h = ground (
    arith,
    h e,
    trim_loop_active p kept es h,
    trim_loop_active p (kept ++ e ∷ []) es h,
    any-append p kept (e ∷ []),
  )

  abbrev pub idle_length : List NiumaEvent → ℕ
  idle_length es = length (retain (λ e. not (is_active e)) es)

  idle_length-append :
      (kept : List NiumaEvent) (e : NiumaEvent)
      → idle_length (kept ++ e ∷ []) ≡ idle_length kept + (if is_active e then 0 else 1)
  unfolding retain
  idle_length-append kept e =
      rw
        (
          retain-append (λ e. not (is_active e)) kept (e ∷ []),
          length-append (retain (λ e. not (is_active e)) kept)
              (retain (λ e. not (is_active e)) (e ∷ [])),
        )
        (ground arith)

  idle_length-le : (kept : List NiumaEvent) → idle_length kept ≤ length kept
  idle_length-le kept = length-retain-le _ kept

  trim_step_length :
      (kept : List NiumaEvent) (e : NiumaEvent)
      → idle_length kept ≤ max_public_event_cache_size
      → idle_length (trim_step active kept e) ≤ max_public_event_cache_size
  unfolding trim_step
  trim_step_length kept e h = ground (arith, idle_length-append kept e, idle_length-le kept)

  trim_loop_length :
      (kept es : List NiumaEvent)
      → idle_length kept ≤ max_public_event_cache_size
      → idle_length (trim_loop active kept es) ≤ max_public_event_cache_size
  unfolding trim_loop
  trim_loop_length kept [] h = h
  trim_loop_length kept (e ∷ es) h =
      trim_loop_length (trim_step active kept e) es (trim_step_length kept e h)

-- How many cached events the main state does not refer to.
abbrev pub idle_events : RuntimeState → ℕ
idle_events r = idle_length (main_state_event_ids r.state) r.public_events

-- Trimming the cache leaves at most 200 events that the main state does not refer to. It keeps the
-- cached events that the main state refers to: a test `p` that only holds of such events finds one
-- exactly when it did before. It adds no event: a test `q` finds none that it did not find before.
pub trim_public_event_cache_lem :
    (r : RuntimeState) (p q : NiumaEvent → Bool)
    → ((e : NiumaEvent) → p e ≡ true → is_active (main_state_event_ids r.state) e ≡ true)
    → (idle_events (trim_public_event_cache r) ≤ max_public_event_cache_size)
      × (any p (trim_public_event_cache r).public_events ≡ any p r.public_events)
      × ((any q (trim_public_event_cache r).public_events && not (any q r.public_events)) ≡ false)
unfolding trim_public_event_cache any retain
trim_public_event_cache_lem r p q h =
    let active = main_state_event_ids r.state in
    let sorted = sort_events_newest_first r.public_events in
    (
      ground (
        arith,
        trim_loop_length active [] sorted (omega arith),
        length-retain-le (λ e. not (any (λ id. id == e.id) active)) r.public_events,
      ),
      ground (arith, trim_loop_active active p [] sorted h, any-sort p r.public_events),
      ground (arith, trim_loop-any active q [] sorted, any-sort q r.public_events),
    )
