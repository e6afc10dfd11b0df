-- ===== src/Notifier/Ledger/Keys.antt =====
-- The delivery table's key and its rows (apps/worker/notifier/internal/store/store.go).
use openllm_metrics.Prelude.{
  ℕ, ◌<◌, ◌≡◌, ◌≢◌, refl, ap, sym, ◌∙◌, Bool, false, Option, none, some, List, [], ◌∷◌, Text, ◌==◌,
  Bool-cases, inl, inr, arith,
}
use openllm_metrics.Notifier.Ledger.{
  Status, Delivery, Table, is_success, find, mark_row, mark_rows, mark_delivery,
}

unfoldable pub mark_found : ℕ → Status → Text → ℕ → Option Delivery → Option Delivery
mark_found id status e n none = none
mark_found id status e n (some d) = some (mark_row id status e n d)

pub mark_row-keys :
    (id : ℕ) (status : Status) (e : Text) (n : ℕ) (d : Delivery)
    → ((mark_row id status e n d).alert_event_id ≡ d.alert_event_id)
      × ((mark_row id status e n d).channel_id ≡ d.channel_id)
unfolding mark_row
mark_row-keys id status e n d = elim (Bool-cases (d.id == id)) [
  | inl h ↦ rw h (refl, refl)
  | inr h ↦ rw h (refl, refl)
]

pub find-mark_rows :
    (alert channel : Text) (id : ℕ) (status : Status) (e : Text) (n : ℕ) (ds : List Delivery)
    → find alert channel (mark_rows id status e n ds)
      ≡ mark_found id status e n (find alert channel ds)
unfolding find mark_rows mark_found
find-mark_rows alert channel id status e n [] = refl
find-mark_rows alert channel id status e n (d ∷ ds) =
    ground (arith, find-mark_rows alert channel id status e n ds, mark_row-keys id status e n d)

mark_row-id :
    (id : ℕ) (status : Status) (e : Text) (n : ℕ) (d : Delivery)
    → (mark_row id status e n d).id ≡ d.id
unfolding mark_row
mark_row-id id status e n d = elim (Bool-cases (d.id == id)) [
  | inl h ↦ rw h refl
  | inr h ↦ rw h refl
]

mark_row_self :
    (id : ℕ) (status : Status) (e : Text) (n : ℕ) (d : Delivery)
    → d.id ≡ id
    → (mark_row id status e n d).status ≡ status
unfolding mark_row
mark_row_self id status e n d h = elim (Bool-cases (d.id == id)) [
  | inl k ↦ rw k refl
  | inr k ↦ absurd (ground arith)
]

mark_row_other :
    (id : ℕ) (status : Status) (e : Text) (n : ℕ) (d : Delivery)
    → d.id ≢ id
    → mark_row id status e n d ≡ d
unfolding mark_row
mark_row_other id status e n d h = elim (Bool-cases (d.id == id)) [
  | inl k ↦ absurd (ground arith)
  | inr k ↦ rw k refl
]

unfoldable pub success_of : Option Delivery → Bool
success_of none = false
success_of (some d) = is_success d.status

-- An alert's row on a channel says that it was delivered.
unfoldable pub delivered : Text → Text → Table → Bool
unfolding success_of
delivered alert channel t = success_of (find alert channel t.rows)

-- Ids are below the next one, and no two keys share one.
pub record IsTable (t : Table) : Type 0 where
  pub fresh : (a c : Text) (d : Delivery) → find a c t.rows ≡ some d → d.id < t.next_id
  pub unique :
      (a c a' c' : Text) (d d' : Delivery)
      → find a c t.rows ≡ some d
      → find a' c' t.rows ≡ some d'
      → d.id ≡ d'.id
      → (a ≡ a') × (c ≡ c')

-- The row that a claim answered with.
pub record Holds (a c : Text) (id : ℕ) (t : Table) : Type 0 where
  pub row : Delivery
  pub found : find a c t.rows ≡ some row
  pub same_id : row.id ≡ id

found_before :
    (id : ℕ) (status : Status) (e : Text) (n : ℕ) (o : Option Delivery) (d : Delivery)
    → mark_found id status e n o ≡ some d
    → (d' : Delivery) × (o ≡ some d') × (d.id ≡ d'.id)
unfolding mark_found
found_before id status e n none d h = cc
found_before id status e n (some x) d h = (x, refl, sym (ap id_of h) ∙ mark_row-id id status e n x)
  where
    id_of : Option Delivery → ℕ
    id_of none = 0
    id_of (some y) = y.id

module _ (id : ℕ) (status : Status) (e : Text) (n : ℕ) (t : Table) where
  pub mark_delivery-IsTable : IsTable t → IsTable (mark_delivery id status e n t)
  unfolding mark_delivery
  mark_delivery-IsTable h =
      let before =
        λ (a c : Text) (d : Delivery) (k : find a c (mark_rows id status e n t.rows) ≡ some d).
          found_before id status e n (find a c t.rows) d
            (sym (find-mark_rows a c id status e n t.rows) ∙ k) in
      record {
        fresh = λ a c d k. let (x, f, i) = before a c d k in rw i (h.fresh a c x f);
        unique = λ a c a' c' d d' k k' l.
            let (x, f, i) = before a c d k in
            let (x', f', i') = before a' c' d' k' in h.unique a c a' c' x x' f f' (sym i ∙ l ∙ i');
      }

  pub marked-Holds :
      (a c : Text)
      → Holds a c id t
      → (k : Holds a c id (mark_delivery id status e n t)) × (k.row.status ≡ status)
  unfolding mark_delivery mark_found
  marked-Holds a c h = (
    record {
      row = mark_row id status e n h.row;
      found = find-mark_rows a c id status e n t.rows ∙ ap (mark_found id status e n) h.found;
      same_id = mark_row-id id status e n h.row ∙ h.same_id;
    },
    mark_row_self id status e n h.row h.same_id,
  )

  pub mark_delivery-Holds :
      (a c : Text) → Holds a c id t → Holds a c id (mark_delivery id status e n t)
  mark_delivery-Holds a c h = (marked-Holds a c h).0

  pub delivered-mark_self :
      (a c : Text)
      → Holds a c id t
      → delivered a c (mark_delivery id status e n t) ≡ is_success status
  unfolding delivered success_of mark_delivery mark_found
  delivered-mark_self a c h =
      ap success_of
        (find-mark_rows a c id status e n t.rows ∙ ap (mark_found id status e n) h.found)
      ∙ ap is_success (mark_row_self id status e n h.row h.same_id)

  mark_found_other :
      (o : Option Delivery)
      → ((d : Delivery) → o ≡ some d → d.id ≢ id)
      → mark_found id status e n o ≡ o
  unfolding mark_found
  mark_found_other none h = refl
  mark_found_other (some d) h = ap some (mark_row_other id status e n d (h d refl))

  pub delivered-mark_other :
      (a c a' c' : Text)
      → IsTable t
      → Holds a c id t
      → ¬ ((a ≡ a') × (c ≡ c'))
      → delivered a' c' (mark_delivery id status e n t) ≡ delivered a' c' t
  unfolding delivered success_of mark_delivery
  delivered-mark_other a c a' c' v h ne = ap success_of (
      find-mark_rows a' c' id status e n t.rows
      ∙ mark_found_other (find a' c' t.rows)
          (λ d k i. ne (v.unique a c a' c' h.row d h.found k (h.same_id ∙ sym i))))
