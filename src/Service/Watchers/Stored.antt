-- ===== src/Service/Watchers/Stored.antt =====
-- The list of watchers as pointers that are stored once each.
use argusd.Base.{
  ℕ, suc, ◌<◌, ◌≡◌, refl, ap, inl, inr, ◌==◌, true, false, Bool-cases, List, [], ◌∷◌, ◌++◌, arith,
}
use argusd.Service.Watchers.{Handle, erase_watcher}

-- No entry of the list is the pointer `pointer`.
abbrev pub Without : ℕ → List (ℕ × Handle) → Type 0
Without pointer [] = Unit {0}
Without pointer ((p, handle) ∷ watchers) = ((p == pointer) ≡ false) × Without pointer watchers

erase_watcher-Without :
    (pointer : ℕ) (watchers : List (ℕ × Handle))
    → Without pointer watchers
    → erase_watcher pointer watchers ≡ watchers
unfolding erase_watcher
erase_watcher-Without pointer [] h = refl
erase_watcher-Without pointer ((p, handle) ∷ watchers) h =
    rw h.0 (ap (λ r. (p, handle) ∷ r) (erase_watcher-Without pointer watchers h.1))

pub erase_watcher-middle :
    (pointer : ℕ) (handle : Handle) (xs ys : List (ℕ × Handle))
    → Without pointer xs
    → Without pointer ys
    → erase_watcher pointer (xs ++ ((pointer, handle) ∷ ys)) ≡ xs ++ ys
unfolding erase_watcher
erase_watcher-middle pointer handle [] ys h k =
    let same : (pointer == pointer) ≡ true = ground arith in
    rw same (erase_watcher-Without pointer ys k)
erase_watcher-middle pointer handle ((p, h₁) ∷ xs) ys h k =
    rw h.0 (ap (λ r. (p, h₁) ∷ r) (erase_watcher-middle pointer handle xs ys h.1 k))

-- Each pointer is stored once, and is one that was given out.
abbrev pub Stored : ℕ → List (ℕ × Handle) → Type 0
Stored next [] = Unit {0}
Stored next ((p, handle) ∷ watchers) = (p < next) × Without p watchers × Stored next watchers

Without-append :
    (p next : ℕ) (handle : Handle) (watchers : List (ℕ × Handle))
    → p < next
    → Without p watchers
    → Without p (watchers ++ ((next, handle) ∷ []))
Without-append p next handle [] l h = (ground arith, tt)
Without-append p next handle ((q, x) ∷ watchers) l h =
    (h.0, Without-append p next handle watchers l h.1)

pub Stored-append :
    (next : ℕ) (handle : Handle) (watchers : List (ℕ × Handle))
    → Stored next watchers
    → Stored (suc next) (watchers ++ ((next, handle) ∷ []))
Stored-append next handle [] h = (omega arith, tt, tt)
Stored-append next handle ((p, x) ∷ watchers) h = (
  omega (arith, h.0),
  Without-append p next handle watchers h.0 h.1,
  Stored-append next handle watchers h.2,
)

Without-erase_watcher :
    (p pointer : ℕ) (watchers : List (ℕ × Handle))
    → Without p watchers
    → Without p (erase_watcher pointer watchers)
unfolding erase_watcher
Without-erase_watcher p pointer [] h = tt
Without-erase_watcher p pointer ((q, x) ∷ watchers) h = elim (Bool-cases (q == pointer)) [
  | inl hit ↦ rw hit (Without-erase_watcher p pointer watchers h.1)
  | inr miss ↦ rw miss (h.0, Without-erase_watcher p pointer watchers h.1)
]

pub Stored-erase_watcher :
    (next pointer : ℕ) (watchers : List (ℕ × Handle))
    → Stored next watchers
    → Stored next (erase_watcher pointer watchers)
unfolding erase_watcher
Stored-erase_watcher next pointer [] h = tt
Stored-erase_watcher next pointer ((q, x) ∷ watchers) h = elim (Bool-cases (q == pointer)) [
  | inl hit ↦ rw hit (Stored-erase_watcher next pointer watchers h.2)
  | inr miss ↦ rw miss (
    h.0,
    Without-erase_watcher q pointer watchers h.1,
    Stored-erase_watcher next pointer watchers h.2,
  )
]

Without-append_right : (p : ℕ) (xs ys : List (ℕ × Handle)) → Without p (xs ++ ys) → Without p ys
Without-append_right p [] ys h = h
Without-append_right p ((q, x) ∷ xs) ys h = Without-append_right p xs ys h.1

-- What is stored once is not stored before or after its place.
pub Stored-middle :
    (next p : ℕ) (handle : Handle) (xs ys : List (ℕ × Handle))
    → Stored next (xs ++ ((p, handle) ∷ ys))
    → Without p xs × Without p ys
Stored-middle next p handle [] ys h = (tt, h.1)
Stored-middle next p handle ((q, x) ∷ xs) ys h =
    let rest = Stored-middle next p handle xs ys h.2 in
    let other = (Without-append_right q xs ((p, handle) ∷ ys) h.1).0 in
    ((ground (arith, other), rest.0), rest.1)
