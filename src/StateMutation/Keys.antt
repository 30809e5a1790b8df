-- ===== src/StateMutation/Keys.antt =====
-- The dedupe keys of a list of events: which are fresh and which are known after it.
use niu_ma_notifier.Prelude.{
  String, ◌≡◌, refl, inl, inr, true, List, [], ◌∷◌, ◌++◌, arith, any, Bool-cases, string_eq,
}
use niu_ma_notifier.Models.{NiumaEvent}
use niu_ma_notifier.Store.{has_dedupe_key}
use niu_ma_notifier.Store.Append.{FreshKeys, known_after}

-- All keys of the first list are in the second.
abbrev pub KnownIn : List String → List String → Type 0
KnownIn xs ys = (k : String) → has_dedupe_key xs k ≡ true → has_dedupe_key ys k ≡ true

known-cons :
    (known known' : List String) (k : String)
    → KnownIn known known'
    → KnownIn (k ∷ known) (k ∷ known')
unfolding any
known-cons known known' k sub j h = ground (arith, λ (g : has_dedupe_key known j ≡ true). sub j g)

pub FreshKeys-mono :
    (known known' : List String) (es : List NiumaEvent)
    → KnownIn known known'
    → FreshKeys known' es
    → FreshKeys known es
FreshKeys-mono known known' [] sub f = tt
FreshKeys-mono known known' (e ∷ es) sub f = (
  elim (Bool-cases (has_dedupe_key known e.dedupe_key)) [
    | inr h ↦ h
    | inl h ↦ ground (arith, sub e.dedupe_key h, f.0)
  ],
  FreshKeys-mono (e.dedupe_key ∷ known) (e.dedupe_key ∷ known') es
      (known-cons known known' e.dedupe_key sub) f.1,
)

pub FreshKeys-append :
    (known : List String) (xs ys : List NiumaEvent)
    → FreshKeys known xs
    → FreshKeys (known_after known xs) ys
    → FreshKeys known (xs ++ ys)
unfolding known_after
FreshKeys-append known [] ys f g = g
FreshKeys-append known (x ∷ xs) ys f g = (f.0, FreshKeys-append (x.dedupe_key ∷ known) xs ys f.1 g)

pub known_after-append :
    (known : List String) (xs ys : List NiumaEvent)
    → known_after known (xs ++ ys) ≡ known_after (known_after known xs) ys
unfolding known_after
known_after-append known [] ys = refl
known_after-append known (x ∷ xs) ys = known_after-append (x.dedupe_key ∷ known) xs ys

pub known_after_mono :
    (known known' : List String) (es : List NiumaEvent)
    → KnownIn known known'
    → KnownIn (known_after known es) (known_after known' es)
unfolding known_after
known_after_mono known known' [] sub = sub
known_after_mono known known' (e ∷ es) sub =
    known_after_mono (e.dedupe_key ∷ known) (e.dedupe_key ∷ known') es
      (known-cons known known' e.dedupe_key sub)
