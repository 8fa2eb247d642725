-- ===== src/Service/Labels.antt =====
-- The name that the log gives an event.
use argusd.Base.{
  ℕ, ◌<◌, ◌≡◌, refl, ap, inl, inr, true, Bool-cases, List, [], ◌∷◌, Text, length, bit_and, bit_or,
  arith, ◌==◌,
}
use argusd.Base.Bits.{bit_and-zero, bit_and-bit_or_upper, bit_and-ones}
use argusd.Inotify
use argusd.Watch.{has}
use argusd.Service.Subject.{Subject, get_event_mask_from_subject}
use argusd.Service.Log.{labels, label_of}
use argusd.Service.Masks.{get_event_mask_from_subject-le}

-- All the bits of a table.
abbrev all_bits : List (ℕ × Text) → ℕ
all_bits [] = 0
all_bits ((bit, label) ∷ rest) = bit_or bit (all_bits rest)

abbrev AllNamed : List (ℕ × Text) → Type 0
AllNamed [] = Unit {0}
AllNamed ((bit, label) ∷ rest) = (0 < length label) × AllNamed rest

all_labels : all_bits labels ≡ Inotify.all_events
all_labels = refl

labels-AllNamed : AllNamed labels
labels-AllNamed = ground arith

-- A mask that shares a bit with the table has a name.
label_of-named :
    (table : List (ℕ × Text)) (word : ℕ)
    → AllNamed table
    → 0 < bit_and word (all_bits table)
    → 0 < length (label_of table word)
unfolding label_of has
label_of-named [] word h l = absurd (omega (arith, bit_and-zero word))
label_of-named ((bit, label) ∷ rest) word h l = elim (Bool-cases (bit_and word bit == 0)) [
  | inr hit ↦ rw hit h.0
  | inl miss ↦
      rw miss (
        label_of-named rest word h.1
          (ground (arith, bit_and-bit_or_upper bit (all_bits rest) word)))
]

-- Every event that passes the mask of a subject has a name in the log.
pub label_of-asked :
    (subject : Subject) (word : ℕ)
    → has word (get_event_mask_from_subject subject) ≡ true
    → 0 < length (label_of labels word)
unfolding has
label_of-asked subject word h =
    let mask = get_event_mask_from_subject subject in
    label_of-named labels word labels-AllNamed (
      ground (
        arith,
        bit_and-ones 12 word mask (omega (arith, get_event_mask_from_subject-le subject)),
        ap (bit_and word) all_labels,
      ))
