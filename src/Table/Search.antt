-- ===== src/Table/Search.antt =====
-- `find_cached_slot` reads nothing of a watch but its pid and sid.
use argusd.Base.{
  ℕ, zero, suc, ◌≡◌, refl, sym, ap, ◌∙◌, inl, inr, ℤ, pos, int_eq, ◌&&◌, Option, Option-cases, none,
  some, List, [], ◌∷◌, get_elem?, set, get_elem?-set_self, get_elem?-set_ne, get_elem?-lt,
  if◌then◌else◌, arith, ◌==◌, Bool-cases,
}
use argusd.Watch.{Watch}
use argusd.Os.{Os}
use argusd.Table.{World, find_slot_from, find_cached_slot}
use argusd.Table.Slots.{Valid, IsTable}
use argusd.Base.{length, ◌++◌, get_elem?-total, get_elem?-append_left}

module _ (pid sid : ℤ) (heap : List Watch) (p : ℕ) (u v : Watch) where
  -- `v` may take the place of `u`, the watch at `p`.
  pub record Replaces : Type 0 where
    pub at : get_elem? heap p ≡ some u
    pub same_pid : v.pid ≡ u.pid
    pub same_sid : v.sid ≡ u.sid

  -- One cell, whatever the search of the rest gives.
  abbrev cell_result : Option Watch → ℕ → Option ℤ → Option ℤ
  cell_result none i rest = none
  cell_result (some watch) i rest =
      if int_eq watch.pid pid && int_eq watch.sid sid then some (pos i) else rest

  cell_result-set :
      (q i : ℕ) (rest : Option ℤ)
      → Replaces
      → cell_result (get_elem? (set heap p v) q) i rest ≡ cell_result (get_elem? heap q) i rest
  cell_result-set q i rest r = elim (Bool-cases (q == p)) [
    | inl same ↦
        let e : p ≡ q = ground (arith, same) in
        let new_ : get_elem? (set heap p v) q ≡ some v =
          ap (get_elem? (set heap p v)) (sym e)
          ∙ get_elem?-set_self heap p v (get_elem?-lt heap p r.at) in
        let old : get_elem? heap q ≡ some u = ap (get_elem? heap) (sym e) ∙ r.at in
        rw (new_, old, r.same_pid, r.same_sid)
    | inr other ↦
        ap (λ o. cell_result o i rest)
          (get_elem?-set_ne heap p q v (λ same. ground (arith, same, other)))
  ]

  find_slot_from_step :
      (h : List Watch) (n q i : ℕ) (cells : List (Option ℕ))
      → find_slot_from h pid sid (suc n) (some q ∷ cells) i
        ≡ cell_result (get_elem? h q) i (find_slot_from h pid sid n cells (suc i))
  unfolding find_slot_from
  find_slot_from_step h n q i cells = elim (Option-cases (get_elem? h q)) [
    | inl e ↦ rw (e, find_slot_from)
    | inr (watch, e) ↦ rw (e, find_slot_from)
  ]

  find_slot_from-set :
      (n : ℕ) (cells : List (Option ℕ)) (i : ℕ)
      → Replaces
      → find_slot_from (set heap p v) pid sid n cells i ≡ find_slot_from heap pid sid n cells i
  unfolding find_slot_from
  find_slot_from-set zero cells i r = refl
  find_slot_from-set (suc n) [] i r = refl
  find_slot_from-set (suc n) (none ∷ cells) i r = find_slot_from-set n cells (suc i) r
  find_slot_from-set (suc n) (some q ∷ cells) i r =
      find_slot_from_step (set heap p v) n q i cells
      ∙ cell_result-set q i (find_slot_from (set heap p v) pid sid n cells (suc i)) r
      ∙ ap (cell_result (get_elem? heap q) i) (find_slot_from-set n cells (suc i) r)
      ∙ sym (find_slot_from_step heap n q i cells)

module _ (os : Os) where
  -- A watch may be replaced by one with the same pid and sid, and the system may change.
  pub find_cached_slot-set :
      (w : World os) (p : ℕ) (u v : Watch) (sys : os.State) (pid sid : ℤ)
      → get_elem? w.heap p ≡ some u
      → v.pid ≡ u.pid
      → v.sid ≡ u.sid
      → find_cached_slot os (record w { heap = set w.heap p v; sys = sys }) pid sid
        ≡ find_cached_slot os w pid sid
  unfolding find_cached_slot
  find_cached_slot-set w p u v sys pid sid at a b =
      find_slot_from-set pid sid w.heap p u v w.wlcachec w.wlcache 0
        (record { at = at; same_pid = a; same_sid = b })

find_slot_from-append :
    (pid sid : ℤ) (heap more : List Watch) (n : ℕ) (cells : List (Option ℕ)) (i : ℕ)
    → Valid (length heap) cells
    → find_slot_from (heap ++ more) pid sid n cells i ≡ find_slot_from heap pid sid n cells i
unfolding find_slot_from
find_slot_from-append pid sid heap more zero cells i v = refl
find_slot_from-append pid sid heap more (suc n) [] i v = refl
find_slot_from-append pid sid heap more (suc n) (none ∷ cells) i v = absurd v
find_slot_from-append pid sid heap more (suc n) (some q ∷ cells) i v =
    let (watch, e) = get_elem?-total heap q v.0 in
    let rest = find_slot_from-append pid sid heap more n cells (suc i) v.1 in
    rw (get_elem?-append_left heap more q v.0, e, find_slot_from, rest)

-- A watch that no cell leads to is not found.
pub find_cached_slot-append :
    (os : Os) (w : World os) (more : List Watch) (pid sid : ℤ)
    → IsTable w
    → find_cached_slot os (record w { heap = w.heap ++ more }) pid sid
      ≡ find_cached_slot os w pid sid
unfolding find_cached_slot
find_cached_slot-append os w more pid sid t =
    find_slot_from-append pid sid w.heap more w.wlcachec w.wlcache 0 t.valid
