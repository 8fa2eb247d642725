-- ===== src/Service/Health/Refinement.antt =====
-- The health service implements a function from services to statuses.
use mathlib.Core.Path.{fun_ext}
use mathlib.Core.Bool.{true≢false}
use argusd.Base.{
  ◌≡◌, refl, sym, ap, subst, ◌∙◌, inl, inr, true, false, Bool-cases, Option, none, some, List, [],
  ◌∷◌, Text, str_eq, str_eq_iff, str_eq_refl, arith, if◌then◌else◌,
}
use argusd.Service.Health.{
  ServingStatus, serving, Statuses, find_status, assign_status, erase_status, Checked, ok,
  not_found, check, set_status, set_copies, set_all, clear_status, clear_all,
}

-- The calls of the service.
pub data Command : Type 0 where
  set_one : Text → ServingStatus → Command
  set_every : ServingStatus → Command
  clear_one : Text → Command
  clear_every : Command

unfoldable pub run : List Command → Statuses → Statuses
run [] statuses = statuses
run (set_one service status ∷ commands) statuses = run commands (set_status service status statuses)
run (set_every status ∷ commands) statuses = run commands (set_all status statuses)
run (clear_one service ∷ commands) statuses = run commands (clear_status service statuses)
run (clear_every ∷ commands) statuses = run commands (clear_all statuses)

-- What a service was set to, for each of them.
abbrev pub Table : Type 0
Table = Text → Option ServingStatus

abbrev pub update : Text → Option ServingStatus → Table → Table
update service status table key = if str_eq service key then status else table key

-- The same calls on a table; `set_every` leaves it as it is.
unfoldable pub run_table : List Command → Table → Table
run_table [] table = table
run_table (set_one service status ∷ commands) table =
    run_table commands (update service (some status) table)
run_table (set_every status ∷ commands) table = run_table commands table
run_table (clear_one service ∷ commands) table = run_table commands (update service none table)
run_table (clear_every ∷ commands) table = run_table commands (λ key. none)

-- What `Check` answers from a table.
abbrev pub answer : Table → Text → Checked
answer table [] = ok serving
answer table (c ∷ service) = elim (table (c ∷ service)) [ none ↦ not_found | some s ↦ ok s ]

-- No two entries have one key.
abbrev pub Keyed : Statuses → Type 0
Keyed [] = Unit {0}
Keyed ((key, status) ∷ rest) = (find_status rest key ≡ none) × Keyed rest

str_eq-other : (a b c : Text) → str_eq a b ≡ true → str_eq a c ≡ false → str_eq b c ≡ false
str_eq-other a b c h k = subst (λ x. str_eq x c ≡ false) ((str_eq_iff a b).0 h) k

str_eq-apart : (a b c : Text) → str_eq a b ≡ false → str_eq a c ≡ true → str_eq b c ≡ false
str_eq-apart a b c h k = elim (Bool-cases (str_eq b c)) [
  | inr e ↦ e
  | inl e ↦
      let same : str_eq a b ≡ true =
        (str_eq_iff a b).1 ((str_eq_iff a c).0 k ∙ sym ((str_eq_iff b c).0 e)) in
      absurd (true≢false (sym same ∙ h))
]

find_status-nil : find_status [] ≡ (λ key. none)
unfolding find_status
find_status-nil = refl

find_status-assign_status :
    (service : Text) (status : ServingStatus) (statuses : Statuses) (key : Text)
    → find_status (assign_status service status statuses) key
      ≡ update service (some status) (find_status statuses) key
unfolding find_status assign_status
find_status-assign_status service status [] key = refl
find_status-assign_status service status ((k, old) ∷ rest) key =
    elim (Bool-cases (str_eq k service)) [
      | inl same ↦ elim (Bool-cases (str_eq k key)) [
        | inl hit ↦
            let e : str_eq service key ≡ true =
              subst (λ x. str_eq x key ≡ true) ((str_eq_iff k service).0 same) hit in
            rw (same, hit, e, find_status)
        | inr miss ↦ rw (same, miss, str_eq-other k service key same miss, find_status)
      ]
      | inr apart ↦ elim (Bool-cases (str_eq k key)) [
        | inl hit ↦
            let e : str_eq service key ≡ false = str_eq-apart k service key apart hit in
            rw (apart, hit, e, find_status)
        | inr miss ↦
            rw (apart, miss, find_status) (find_status-assign_status service status rest key)
      ]
    ]

find_status-erase_status :
    (service : Text) (statuses : Statuses) (key : Text)
    → Keyed statuses
    → find_status (erase_status service statuses) key
      ≡ update service none (find_status statuses) key
unfolding find_status erase_status
find_status-erase_status service [] key h = ground arith
find_status-erase_status service ((k, old) ∷ rest) key h = elim (Bool-cases (str_eq k service)) [
  | inl same ↦ elim (Bool-cases (str_eq k key)) [
    | inl hit ↦
        let e : str_eq service key ≡ true =
          subst (λ x. str_eq x key ≡ true) ((str_eq_iff k service).0 same) hit in
        rw (same, hit, e) (ap (find_status rest) (sym ((str_eq_iff k key).0 hit)) ∙ h.0)
    | inr miss ↦ rw (same, miss, str_eq-other k service key same miss)
  ]
  | inr apart ↦ elim (Bool-cases (str_eq k key)) [
    | inl hit ↦ rw (apart, hit, str_eq-apart k service key apart hit, find_status)
    | inr miss ↦ rw (apart, miss, find_status) (find_status-erase_status service rest key h.1)
  ]
]

Keyed-assign_status :
    (service : Text) (status : ServingStatus) (statuses : Statuses)
    → Keyed statuses
    → Keyed (assign_status service status statuses)
unfolding assign_status find_status
Keyed-assign_status service status [] h = (refl, tt)
Keyed-assign_status service status ((k, old) ∷ rest) h = elim (Bool-cases (str_eq k service)) [
  | inl same ↦ rw same h
  | inr apart ↦ rw apart (
    find_status-assign_status service status rest k
        ∙ rw (str_eq-apart k service k apart (str_eq_refl k)) h.0,
    Keyed-assign_status service status rest h.1,
  )
]

Keyed-erase_status :
    (service : Text) (statuses : Statuses) → Keyed statuses → Keyed (erase_status service statuses)
unfolding erase_status find_status
Keyed-erase_status service [] h = tt
Keyed-erase_status service ((k, old) ∷ rest) h = elim (Bool-cases (str_eq k service)) [
  | inl same ↦ rw same h.1
  | inr apart ↦ rw apart (
    find_status-erase_status service rest k h.1
        ∙ rw (str_eq-apart k service k apart (str_eq_refl k)) h.0,
    Keyed-erase_status service rest h.1,
  )
]

-- `SetAll` changes nothing, whatever the status.
pub set_all-same :
    (status : ServingStatus) (statuses : Statuses) → set_all status statuses ≡ statuses
unfolding set_all set_copies
set_all-same status [] = refl
set_all-same status ((key, old) ∷ rest) = ap (λ r. (key, old) ∷ r) (set_all-same status rest)

check-answer :
    (statuses : Statuses) (service : Text)
    → check service statuses ≡ answer (find_status statuses) service
unfolding check
check-answer statuses [] = refl
check-answer statuses (c ∷ service) = refl

run-run_table :
    (commands : List Command) (statuses : Statuses) (table : Table)
    → Keyed statuses
    → find_status statuses ≡ table
    → find_status (run commands statuses) ≡ run_table commands table
unfolding run run_table set_status clear_status clear_all
run-run_table [] statuses table h e = e
run-run_table (set_one service status ∷ commands) statuses table h e =
    run-run_table commands (assign_status service status statuses) _
      (Keyed-assign_status service status statuses h)
      (fun_ext (find_status-assign_status service status statuses)
        ∙ ap (update service (some status)) e)
run-run_table (set_every status ∷ commands) statuses table h e =
    ap (λ s. find_status (run commands s)) (set_all-same status statuses)
    ∙ run-run_table commands statuses table h e
run-run_table (clear_one service ∷ commands) statuses table h e =
    run-run_table commands (erase_status service statuses) _ (Keyed-erase_status service statuses h)
      (fun_ext (λ key. find_status-erase_status service statuses key h)
        ∙ ap (update service none) e)
run-run_table (clear_every ∷ commands) statuses table h e =
    run-run_table commands [] _ tt (find_status-nil)

-- After any calls on a map with one entry for each key, `Check` answers as from the function that
-- the same calls update: SERVING for the empty name, NOT_FOUND for a service that was not set or
-- was cleared, and the status that was set last. `SetAll` leaves this function as it is.
pub check-run :
    (commands : List Command) (statuses : Statuses) (service : Text)
    → Keyed statuses
    → check service (run commands statuses)
      ≡ answer (run_table commands (find_status statuses)) service
check-run commands statuses service h =
    check-answer (run commands statuses) service
    ∙ ap (λ t. answer t service) (run-run_table commands statuses (find_status statuses) h refl)
