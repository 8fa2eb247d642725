-- ===== src/Service/Masks.antt =====
-- The masks that the daemon asks for: their bounds, and what they let through.

use argusd.Base.{
  ℕ, ◌≤◌, ◌<◌, ◌≡◌, ap, inl, inr, true, Bool-cases, List, [], ◌∷◌, ◌++◌, Text, str_eq, bit_and,
  bit_or, arith,
}
use argusd.Base.Bits.{power, bit_or-lt, bit_and-bit_or, zero-bit_or}
use argusd.Inotify
use argusd.Watch.{has, aw_only_dir, aw_recursive, aw_follow}
use argusd.Service.Subject.{
  Subject, event_names, add_event, add_events, get_event_mask_from_subject, get_flags_from_subject,
}

-- Each mask of the table fits in 12 bits.
abbrev AllBelow : List (Text × ℕ) → Type 0
AllBelow [] = Unit {0}
AllBelow ((name, bits) ∷ names) = (bits < power 12) × AllBelow names

add_event-lt :
    (names : List (Text × ℕ)) (evt : Text) (mask : ℕ)
    → AllBelow names
    → mask < power 12
    → add_event names evt mask < power 12
unfolding add_event
add_event-lt [] evt mask h l = l
add_event-lt ((name, bits) ∷ names) evt mask h l = elim (Bool-cases (str_eq evt name)) [
  | inl e ↦ rw e (bit_or-lt 12 mask bits l h.0)
  | inr e ↦ rw e (add_event-lt names evt mask h.1 l)
]

event_names-AllBelow : AllBelow event_names
event_names-AllBelow = ground arith

add_events-lt :
    (events : List Text) (mask : ℕ) → mask < power 12 → add_events events mask < power 12
unfolding add_events
add_events-lt [] mask l = l
add_events-lt (evt ∷ events) mask l =
    add_events-lt events (add_event event_names evt mask)
      (add_event-lt event_names evt mask event_names-AllBelow l)

-- Whatever the names in a subject, its mask lies within IN_ALL_EVENTS.
pub get_event_mask_from_subject-le :
    (subject : Subject) → get_event_mask_from_subject subject ≤ Inotify.all_events
unfolding get_event_mask_from_subject
get_event_mask_from_subject-le subject = omega (arith, add_events-lt subject.event 0 (omega arith))

module _ (word : ℕ) where
  shares-left : (a b : ℕ) → bit_and word a ≤ bit_and word (bit_or a b)
  shares-left a b = omega (arith, bit_and-bit_or a b word)

  shares-right : (a b : ℕ) → bit_and word b ≤ bit_and word (bit_or a b)
  shares-right a b = omega (arith, bit_and-bit_or a b word)

  add_event-grows :
      (names : List (Text × ℕ)) (evt : Text) (mask : ℕ)
      → bit_and word mask ≤ bit_and word (add_event names evt mask)
  unfolding add_event
  add_event-grows [] evt mask = omega arith
  add_event-grows ((name, bits) ∷ names) evt mask = elim (Bool-cases (str_eq evt name)) [
    | inl e ↦ rw e (shares-left mask bits)
    | inr e ↦ rw e (add_event-grows names evt mask)
  ]

  add_event-alone :
      (names : List (Text × ℕ)) (evt : Text) (mask : ℕ)
      → bit_and word (add_event names evt 0) ≤ bit_and word (add_event names evt mask)
  unfolding add_event
  add_event-alone [] evt mask =
      omega (arith, shares-left 0 mask, ap (bit_and word) (zero-bit_or mask))
  add_event-alone ((name, bits) ∷ names) evt mask = elim (Bool-cases (str_eq evt name)) [
    | inl e ↦ rw e (omega (arith, shares-right mask bits, ap (bit_and word) (zero-bit_or bits)))
    | inr e ↦ rw e (add_event-alone names evt mask)
  ]

  add_events-grows :
      (events : List Text) (mask : ℕ) → bit_and word mask ≤ bit_and word (add_events events mask)
  unfolding add_events
  add_events-grows [] mask = omega arith
  add_events-grows (evt ∷ events) mask = omega (
    arith,
    add_event-grows event_names evt mask,
    add_events-grows events (add_event event_names evt mask),
  )

  add_events-asked :
      (xs ys : List Text) (evt : Text) (mask : ℕ)
      → bit_and word (add_event event_names evt 0)
        ≤ bit_and word (add_events (xs ++ (evt ∷ ys)) mask)
  unfolding add_events
  add_events-asked [] ys evt mask = omega (
    arith,
    add_event-alone event_names evt mask,
    add_events-grows ys (add_event event_names evt mask),
  )
  add_events-asked (x ∷ xs) ys evt mask = add_events-asked xs ys evt (add_event event_names x mask)

  -- A word that has a bit of the mask of one name alone has a bit of the mask of every subject
  -- that holds this name, at whatever place.
  pub get_event_mask_from_subject-asked :
      (subject : Subject) (xs ys : List Text) (evt : Text)
      → subject.event ≡ xs ++ (evt ∷ ys)
      → has word (add_event event_names evt 0) ≡ true
      → has word (get_event_mask_from_subject subject) ≡ true
  unfolding get_event_mask_from_subject has
  get_event_mask_from_subject-asked subject xs ys evt e h =
      ground
        (arith, add_events-asked xs ys evt 0, ap (λ events. bit_and word (add_events events 0)) e)

-- The three flags of a subject are the bits of its flags, each for itself, and no bit else is set.
pub get_flags_from_subject-bits :
    (subject : Subject)
    → (has (get_flags_from_subject subject) aw_only_dir ≡ subject.only_dir)
      × (has (get_flags_from_subject subject) aw_recursive ≡ subject.recursive)
      × (has (get_flags_from_subject subject) aw_follow ≡ subject.follow_move)
      × (get_flags_from_subject subject < 8)
unfolding get_flags_from_subject has
get_flags_from_subject-bits subject = ground arith
