-- ===== src/Service/Watchers/Find.antt =====
-- Which watcher a request finds, and what creating and destroying do to that.

use argusd.Base.{
  ℕ, ◌≡◌, refl, sym, ap, ◌∙◌, inl, inr, ℤ, int_eq_refl, Bool, true, false, ◌&&◌, Bool-cases, none,
  some, List, [], ◌∷◌, ◌++◌, Text, str_eq, str_eq_refl, append_assoc, arith,
}
use argusd.Service.Watchers.{
  Config, Handle, has_pid, found_pid, find_argusd_watcher_by_pids, response_of,
}

-- Of the pids of a request the last one decides; the ones before it do not matter.
pub found_pid-last :
    (pids : List ℤ) (last : ℤ) (handle_pids : List ℤ) (found : Bool)
    → found_pid (pids ++ (last ∷ [])) handle_pids found ≡ has_pid handle_pids last
unfolding found_pid
found_pid-last [] last handle_pids found = refl
found_pid-last (pid ∷ pids) last handle_pids found =
    found_pid-last pids last handle_pids (has_pid handle_pids pid)

has_pid-middle : (xs ys : List ℤ) (pid : ℤ) → has_pid (xs ++ (pid ∷ ys)) pid ≡ true
unfolding has_pid
has_pid-middle [] ys pid = rw (int_eq_refl pid)
has_pid-middle (x ∷ xs) ys pid = ground (arith, has_pid-middle xs ys pid)

found_pid-all : (xs pids : List ℤ) → found_pid pids (xs ++ pids) true ≡ true
unfolding found_pid
found_pid-all xs [] = refl
found_pid-all xs (pid ∷ pids) = rw (has_pid-middle xs pids pid) (
    ap (λ h. found_pid pids h true) (sym (append_assoc xs (pid ∷ []) pids))
    ∙ found_pid-all (xs ++ (pid ∷ [])) pids)

-- A request that has a pid finds the handle that was made from it.
found_pid-own : (pid : ℤ) (pids : List ℤ) → found_pid (pid ∷ pids) (pid ∷ pids) false ≡ true
unfolding found_pid
found_pid-own pid pids = rw (has_pid-middle [] pids pid) (found_pid-all (pid ∷ []) pids)

-- The test of the search.
is_watcher : Text → List ℤ → Handle → Bool
is_watcher node_name pids handle =
    str_eq handle.node_name node_name && found_pid pids handle.pids false

find_hit :
    (node_name : Text) (pids : List ℤ) (q : ℕ) (handle : Handle) (watchers : List (ℕ × Handle))
    → is_watcher node_name pids handle ≡ true
    → find_argusd_watcher_by_pids ((q, handle) ∷ watchers) node_name pids ≡ some (q, handle)
unfolding find_argusd_watcher_by_pids is_watcher
find_hit node_name pids q handle watchers h = rw h

find_miss :
    (node_name : Text) (pids : List ℤ) (q : ℕ) (handle : Handle) (watchers : List (ℕ × Handle))
    → is_watcher node_name pids handle ≡ false
    → find_argusd_watcher_by_pids ((q, handle) ∷ watchers) node_name pids
      ≡ find_argusd_watcher_by_pids watchers node_name pids
unfolding find_argusd_watcher_by_pids is_watcher
find_miss node_name pids q handle watchers h = rw h

own-is_watcher :
    (request : Config) (pid : ℤ) (pids : List ℤ)
    → is_watcher request.node_name (pid ∷ pids) (response_of request (pid ∷ pids)) ≡ true
unfolding is_watcher
own-is_watcher request pid pids = rw (str_eq_refl request.node_name, found_pid-own pid pids)

pub find-append_own :
    (watchers : List (ℕ × Handle)) (pointer : ℕ) (request : Config) (pid : ℤ) (pids : List ℤ)
    → find_argusd_watcher_by_pids watchers request.node_name (pid ∷ pids) ≡ none
    → find_argusd_watcher_by_pids
        (watchers ++ ((pointer, response_of request (pid ∷ pids)) ∷ []))
        request.node_name
        (pid ∷ pids)
      ≡ some (pointer, response_of request (pid ∷ pids))
find-append_own [] pointer request pid pids e =
    find_hit request.node_name (pid ∷ pids) pointer (response_of request (pid ∷ pids)) []
      (own-is_watcher request pid pids)
find-append_own ((q, handle) ∷ watchers) pointer request pid pids e =
    let node = request.node_name in
    elim (Bool-cases (is_watcher node (pid ∷ pids) handle)) [
      | inl hit ↦ let c = sym (find_hit node (pid ∷ pids) q handle watchers hit) ∙ e in cc
      | inr miss ↦
          find_miss node (pid ∷ pids) q handle _ miss
          ∙ find-append_own watchers pointer request pid pids
              (sym (find_miss node (pid ∷ pids) q handle watchers miss) ∙ e)
    ]
