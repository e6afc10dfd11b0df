-- ===== src/Audit/Canonical/Sorting.antt =====
-- The keys of a canonical object are sorted (apps/api/audit-service/internal/hasher/hasher.go), and
-- members with distinct keys may be inserted in any order.
use openllm_metrics.Prelude.{
  ◌≡◌, ◌≢◌, refl, Bool, true, false, List, [], ◌∷◌, arith, if◌then◌else◌, text_leb,
}
use openllm_metrics.Prelude.Maps.{text_leb_total, text_leb_antisymm, text_leb_trans}
use openllm_metrics.Audit.Canonical.{Member, insert, sort}

pub insert_comm :
    (m n : Member) (ms : List Member) → m.0 ≢ n.0 → insert m (insert n ms) ≡ insert n (insert m ms)
unfolding insert
insert_comm m n [] d = ground (arith, text_leb_total m.0 n.0, text_leb_antisymm m.0 n.0)
insert_comm m n (x ∷ ms) d = ground (
  arith,
  insert_comm m n ms,
  text_leb_total m.0 n.0,
  text_leb_antisymm m.0 n.0,
  text_leb_total m.0 x.0,
  text_leb_total n.0 x.0,
  text_leb_trans m.0 x.0 n.0,
  text_leb_trans n.0 x.0 m.0,
  text_leb_trans m.0 n.0 x.0,
  text_leb_trans n.0 m.0 x.0,
)

-- Sorted by key, each pair of neighbours in order.
unfoldable pub is_sorted : List Member → Bool
is_sorted [] = true
is_sorted (m ∷ []) = true
is_sorted (m ∷ n ∷ ms) = if text_leb m.0 n.0 then is_sorted (n ∷ ms) else false

insert-sorted :
    (m : Member) (ms : List Member) → is_sorted ms ≡ true → is_sorted (insert m ms) ≡ true
unfolding insert is_sorted
insert-sorted m [] h = refl
insert-sorted m (x ∷ []) h = ground (arith, text_leb_total m.0 x.0)
insert-sorted m (x ∷ y ∷ ms) h = ground (arith, text_leb_total m.0 x.0, insert-sorted m (y ∷ ms))

-- The sort orders the members by key.
pub sort-sorted : (ms : List Member) → is_sorted (sort ms) ≡ true
unfolding sort is_sorted
sort-sorted [] = refl
sort-sorted (m ∷ ms) = insert-sorted m (sort ms) (sort-sorted ms)
