-- ===== src/Bridge/SqlStore/Rows.antt =====
-- The table under insert and update: which rows are there, and what a call can change in them.
use mathlib.Core.Option
use mathlib.Core.Path.{subst}
use lotor_go.Common.{
  ℕ, ◌≡◌, refl, ap, ◌∙◌, inl, inr, ◌⊎◌, true, not, ◌||◌, Option, none, some, List, [], ◌∷◌, map,
  if◌then◌else◌, Bool-cases, Option-cases, ltb, length, arith,
}
use lotor_go.Common.Bytes.{Bytes, bytes_eq_iff, bytes_eq_refl}
use lotor_go.Bridge.Platform.{Result, Platform}
use lotor_go.Bridge.Protocol.{maximum_input_bytes}
use lotor_go.Bridge.SqlStore.{
  Row, Fault, has_key, select, new_row, insert, open_or_same, matches, update, after_insert,
  reserve, completed, complete, valid_identity,
}

-- What `update` does to one row.
pub touch : Bytes → Bytes → Bytes → Bytes → Row → Row
touch namespace id digest raw r =
    if matches namespace id digest raw r then record r { result = some raw } else r

update-touch :
    (namespace id digest raw : Bytes) (rows : List Row)
    → (update namespace id digest raw rows).0 ≡ map (touch namespace id digest raw) rows
unfolding update touch
update-touch namespace id digest raw [] = refl
update-touch namespace id digest raw (r ∷ rows) =
    elim (Bool-cases (matches namespace id digest raw r)) [
      | inl e ↦ rw (e, update-touch namespace id digest raw rows)
      | inr e ↦ rw (e, update-touch namespace id digest raw rows)
    ]

has_key-touch :
    (n j namespace id digest raw : Bytes) (r : Row)
    → has_key n j (touch namespace id digest raw r) ≡ has_key n j r
unfolding touch has_key
has_key-touch n j namespace id digest raw r =
    elim (Bool-cases (matches namespace id digest raw r)) [ inl e ↦ rw e | inr e ↦ rw e ]

select-map_touch :
    (n j namespace id digest raw : Bytes) (rows : List Row)
    → select n j (map (touch namespace id digest raw) rows)
      ≡ Option.map (touch namespace id digest raw) (select n j rows)
unfolding select
select-map_touch n j namespace id digest raw [] = refl
select-map_touch n j namespace id digest raw (r ∷ rows) = elim (Bool-cases (has_key n j r)) [
  | inl e ↦ rw (has_key-touch n j namespace id digest raw r, e)
  | inr e ↦
      rw (has_key-touch n j namespace id digest raw r, e)
        (select-map_touch n j namespace id digest raw rows)
]

-- The row that a `select` finds after an update is the row that was there, touched.
pub select-update :
    (n j namespace id digest raw : Bytes) (rows : List Row)
    → select n j (update namespace id digest raw rows).0
      ≡ Option.map (touch namespace id digest raw) (select n j rows)
select-update n j namespace id digest raw rows =
    ap (select n j) (update-touch namespace id digest raw rows)
    ∙ select-map_touch n j namespace id digest raw rows

pub has_key_iff :
    (n j : Bytes) (r : Row) → has_key n j r ≡ true → (r.namespace ≡ n) × (r.operation_id ≡ j)
unfolding has_key
has_key_iff n j r h = ground (arith, bytes_eq_iff r.namespace n, bytes_eq_iff r.operation_id j)

-- An insert adds at most the row of its own key, and only if there is none.
pub select-insert :
    (n j namespace id digest : Bytes) (rows : List Row) (r : Row)
    → select n j rows ≡ some r
    → select n j (insert namespace id digest rows).0 ≡ some r
unfolding insert select
select-insert n j namespace id digest rows r h = elim (Option-cases (select namespace id rows)) [
  | inl missing ↦ elim (Bool-cases (has_key n j (new_row namespace id digest))) [
    | inl own ↦
        let (same_n, same_j) = has_key_iff n j (new_row namespace id digest) own in
        cc (missing, h, same_n, same_j)
    | inr other ↦ rw (missing, other, h)
  ]
  | inr (old, there) ↦ rw (there, h)
]

-- A row with a result is not changed by an update: one with other bytes does not match it.
touch_completed :
    (namespace id digest raw old : Bytes) (r : Row)
    → r.result ≡ some old
    → touch namespace id digest raw r ≡ r
unfolding touch matches open_or_same
touch_completed namespace id digest raw old r h = ground (arith, bytes_eq_iff old raw)

some_eq : (q r : Row) → some q ≡ some r → q ≡ r
some_eq q r e = cc

-- The open row of the operation takes the result.
pub touch_open :
    (namespace id digest raw : Bytes) (r : Row)
    → has_key namespace id r ≡ true
    → r.request_digest ≡ digest
    → r.result ≡ none
    → touch namespace id digest raw r ≡ record r { result = some raw }
unfolding touch matches open_or_same
touch_open namespace id digest raw r k d e = rw (k, d, bytes_eq_refl digest, e)

pub select-has_key :
    (n j : Bytes) (rows : List Row) (r : Row) → select n j rows ≡ some r → has_key n j r ≡ true
unfolding select
select-has_key n j [] r h = cc
select-has_key n j (q ∷ rows) r h = elim (Bool-cases (has_key n j q)) [
  | inl own ↦ subst (λ x. has_key n j x ≡ true) (some_eq q r (rw own at h)) own
  | inr other ↦ select-has_key n j rows r (rw other at h)
]

pub data Call : Type 0 where
  reserves : Fault → Bytes → Bytes → Call
  completes : Fault → Bytes → Bytes → Result → Call

module _ (platform : Platform) where
  -- One call on the table, by a store of any namespace.
  unfoldable pub call : Bytes × Call → List Row → List Row
  call (namespace, reserves fault id digest) rows =
      (reserve platform namespace fault id digest rows).1
  call (namespace, completes fault id digest r) rows =
      (complete platform namespace fault id digest r rows).1

  unfoldable pub calls : List (Bytes × Call) → List Row → List Row
  unfolding call
  calls [] rows = rows
  calls (c ∷ cs) rows = calls cs (call c rows)

  after_insert_rows :
      (namespace : Bytes) (fault : Fault) (id digest : Bytes) (rows rows' : List Row) (count : ℕ)
      → ((after_insert platform namespace fault id digest rows rows' count).1 ≡ rows)
        ⊎ ((after_insert platform namespace fault id digest rows rows' count).1 ≡ rows')
  unfolding after_insert
  after_insert_rows namespace fault id digest rows rows' count = ground arith

  pub reserve_rows :
      (namespace : Bytes) (fault : Fault) (id digest : Bytes) (rows : List Row)
      → ((reserve platform namespace fault id digest rows).1 ≡ rows)
        ⊎ ((reserve platform namespace fault id digest rows).1
            ≡ (insert namespace id digest rows).0)
  unfolding reserve
  reserve_rows namespace fault id digest rows = elim (Bool-cases (valid_identity id digest)) [
    | inl good ↦ rw good (
        after_insert_rows namespace fault id digest rows (insert namespace id digest rows).0
          (insert namespace id digest rows).1)
    | inr bad ↦ inl (rw bad)
  ]

  completed_rows :
      (namespace : Bytes) (fault : Fault) (id digest raw : Bytes) (rows : List Row)
      → ((completed platform namespace fault id digest (some raw) rows).1 ≡ rows)
        ⊎ ((completed platform namespace fault id digest (some raw) rows).1
            ≡ (update namespace id digest raw rows).0)
  unfolding completed
  completed_rows namespace fault id digest raw rows = ground arith

  pub complete_rows :
      (namespace : Bytes) (fault : Fault) (id digest : Bytes) (r : Result) (rows : List Row)
      → ((complete platform namespace fault id digest r rows).1 ≡ rows)
        ⊎ ((raw : Bytes) × ((complete platform namespace fault id digest r rows).1
              ≡ (update namespace id digest raw rows).0))
  unfolding complete
  complete_rows namespace fault id digest r rows =
      elim (Bool-cases
        (not (valid_identity id digest) || ltb maximum_input_bytes (length r.output))) [
          | inl bad ↦ inl (rw bad)
          | inr good ↦ rw good (marshalled (platform.marshal_result r))
        ]
    where
      marshalled :
          (o : Option Bytes)
          → ((completed platform namespace fault id digest o rows).1 ≡ rows)
            ⊎ ((raw : Bytes) × ((completed platform namespace fault id digest o rows).1
                  ≡ (update namespace id digest raw rows).0))
      marshalled none = inl (unfold completed in refl)
      marshalled (some raw) = elim (completed_rows namespace fault id digest raw rows) [
        | inl same ↦ inl same
        | inr changed ↦ inr (raw, changed)
      ]

  -- One call leaves a row that has a result as it is.
  call_completed :
      (c : Bytes × Call) (n j old : Bytes) (rows : List Row) (r : Row)
      → select n j rows ≡ some r
      → r.result ≡ some old
      → select n j (call c rows) ≡ some r
  unfolding call
  call_completed (namespace, reserves fault id digest) n j old rows r h e =
      elim (reserve_rows namespace fault id digest rows) [
        | inl same ↦ rw same h
        | inr grown ↦ rw grown (select-insert n j namespace id digest rows r h)
      ]
  call_completed (namespace, completes fault id digest x) n j old rows r h e =
      elim (complete_rows namespace fault id digest x rows) [
        | inl same ↦ rw same h
        | inr (raw, changed) ↦
            rw (changed, select-update n j namespace id digest raw rows, h)
              (ap some (touch_completed namespace id digest raw old r e))
      ]

  -- Once an operation has a result, no sequence of calls by any stores on the table, with any
  -- faults, changes or removes its row: the first result stays.
  pub calls_completed :
      (cs : List (Bytes × Call)) (n j old : Bytes) (rows : List Row) (r : Row)
      → select n j rows ≡ some r
      → r.result ≡ some old
      → select n j (calls cs rows) ≡ some r
  unfolding calls
  calls_completed [] n j old rows r h e = h
  calls_completed (c ∷ cs) n j old rows r h e =
      calls_completed cs n j old (call c rows) r (call_completed c n j old rows r h e) e
