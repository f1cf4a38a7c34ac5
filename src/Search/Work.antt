-- ===== src/Search/Work.antt =====
-- src/bz-search-engine.c: the division of the entry groups over the sub-tasks of query_task_fiber. A
-- guint is below 2^32, and its products and sums keep their wrap-around.
use mathlib.Core.List.{append-nil}
use native.Mathlib.Nat.{div-add-mod'}
use spacedbazaar.Common.{
  ℕ, zero, suc, ◌+◌, ◌-◌, ◌*◌, ◌/◌, ◌%◌, ◌<◌, List, [], ◌∷◌, ◌++◌, min, max, leb, if◌then◌else◌,
  ◌≡◌, refl, ◌∙◌, ap, arith, true, false,
}

abbrev pub guint_mod : ℕ
guint_mod = 4_294_967_296

-- `processors` is g_get_num_processors ().
unfoldable pub n_sub_tasks : ℕ → ℕ → ℕ
n_sub_tasks processors len = max 1 (min (len / 512) processors)

abbrev pub work_offset : ℕ → ℕ → ℕ → ℕ
work_offset n len i = i * (len / n) % guint_mod

abbrev pub work_length : ℕ → ℕ → ℕ → ℕ
work_length n len i = if leb (n - 1) i then (len / n + len % n) % guint_mod else len / n

-- The loop of query_sub_task_fiber: the indices at which it reads the groups.
abbrev pub visit : ℕ → ℕ → ℕ → List ℕ
visit offset i zero = []
visit offset i (suc rounds) = (offset + i) % guint_mod ∷ visit offset (i + 1) rounds

-- The sub-tasks from the i-th on, in the order in which their scores are put together.
abbrev pub visit_tasks : ℕ → ℕ → ℕ → ℕ → List ℕ
visit_tasks n len i zero = []
visit_tasks n len i (suc tasks) =
    visit (work_offset n len i) 0 (work_length n len i) ++ visit_tasks n len (i + 1) tasks

unfoldable pub query_visits : ℕ → ℕ → List ℕ
query_visits processors len = let n = n_sub_tasks processors len in visit_tasks n len 0 n

-- count numbers from a on.
abbrev pub upwards : ℕ → ℕ → List ℕ
upwards a zero = []
upwards a (suc count) = a ∷ upwards (a + 1) count

upwards-append : (a m n : ℕ) → upwards a m ++ upwards (a + m) n ≡ upwards a (m + n)
upwards-append a zero n =
    let e : a + 0 ≡ a = omega arith in let e' : 0 + n ≡ n = omega arith in rw (e, e') refl
upwards-append a (suc m) n =
    let e : a + suc m ≡ (a + 1) + m = omega arith in
    let e' : suc m + n ≡ suc (m + n) = omega arith in
    rw (e, e') (ap (λ l. a ∷ l) (upwards-append (a + 1) m n))

visit-upwards :
    (offset i rounds : ℕ)
    → offset + i + rounds < guint_mod
    → visit offset i rounds ≡ upwards (offset + i) rounds
visit-upwards offset i zero b = refl
visit-upwards offset i (suc rounds) b =
    let e : (offset + i) % guint_mod ≡ offset + i = omega (arith, b) in
    let e' : offset + (i + 1) ≡ offset + i + 1 = omega arith in
    rw e (
      ap (λ l. (offset + i) ∷ l)
        (visit-upwards offset (i + 1) rounds (omega (arith, b)) ∙ ap (λ a. upwards a rounds) e'))

visit_tasks-upwards :
    (n len i tasks : ℕ)
    → len < guint_mod
    → i + suc tasks ≡ n
    → i * (len / n) + (suc tasks * (len / n) + len % n) ≡ len
    → visit_tasks n len i (suc tasks) ≡ upwards (i * (len / n)) (suc tasks * (len / n) + len % n)
visit_tasks-upwards n len i zero b e t =
    let last : leb (n - 1) i ≡ true = ground (arith, e) in
    let o : i * (len / n) % guint_mod ≡ i * (len / n) = omega (arith, b, t) in
    let w : (len / n + len % n) % guint_mod ≡ len / n + len % n = omega (arith, b, t) in
    let c : 1 * (len / n) + len % n ≡ len / n + len % n = omega arith in
    let z : i * (len / n) + 0 ≡ i * (len / n) = omega arith in
    rw (last, o, w, c)
      (append-nil (visit (i * (len / n)) 0 (len / n + len % n))
        ∙ visit-upwards (i * (len / n)) 0 (len / n + len % n) (omega (arith, b, t))
        ∙ ap (λ a. upwards a (len / n + len % n)) z)
visit_tasks-upwards n len i (suc tasks) b e t =
    let p = len / n in
    let middle : leb (n - 1) i ≡ false = ground (arith, e) in
    let o : i * p % guint_mod ≡ i * p = omega (arith, b, t) in
    let z : i * p + 0 ≡ i * p = omega arith in
    let step : (i + 1) * p ≡ i * p + p = omega arith in
    let sum : p + (suc tasks * p + len % n) ≡ suc (suc tasks) * p + len % n = omega arith in
    let ih = visit_tasks-upwards n len (i + 1) tasks b (omega (arith, e)) (omega (arith, t)) in
    let here : visit (work_offset n len i) 0 (work_length n len i) ≡ upwards (i * p) p =
      rw (middle, o) (visit-upwards (i * p) 0 p (omega (arith, b, t)) ∙ ap (λ a. upwards a p) z) in
    ap (λ l. l ++ visit_tasks n len (i + 1) (suc tasks)) here
    ∙ ap (λ l. upwards (i * p) p ++ l) ih
    ∙ ap (λ a. upwards (i * p) p ++ upwards a (suc tasks * p + len % n)) step
    ∙ upwards-append (i * p) p (suc tasks * p + len % n)
    ∙ ap (upwards (i * p)) sum

n_sub_tasks-positive : (processors len : ℕ) → 0 < n_sub_tasks processors len
unfolding n_sub_tasks
n_sub_tasks-positive processors len = omega arith

-- However many processors there are, the sub-tasks of a query together read the groups at the
-- indices from 0 up to the number of groups, each once and in order, and none out of bounds; the
-- number of groups is a guint.
pub query_visits-upwards :
    (processors len : ℕ) → len < guint_mod → query_visits processors len ≡ upwards 0 len
unfolding query_visits
query_visits-upwards processors len b =
    all (n_sub_tasks processors len) (n_sub_tasks-positive processors len)
  where
    all : (n : ℕ) → 0 < n → visit_tasks n len 0 n ≡ upwards 0 len
    all zero h = absurd (omega (arith, h))
    all (suc m) h =
        let t : suc m * (len / suc m) + len % suc m ≡ len =
          omega (arith, div-add-mod' len (suc m)) in
        let z : 0 * (len / suc m) ≡ 0 = omega arith in
        visit_tasks-upwards (suc m) len 0 m b (omega arith) (omega (arith, t))
        ∙ ap (λ a. upwards a (suc m * (len / suc m) + len % suc m)) z
        ∙ ap (upwards 0) t
