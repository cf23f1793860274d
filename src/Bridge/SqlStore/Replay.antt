-- ===== src/Bridge/SqlStore/Replay.antt =====
-- What a caller of the journal sees where the database has no faults: conflicts, operations in
-- progress, and the replay of a completed result.
use lotor_go.Common.{
  ◌/◌, ◌≤◌, ◌<◌, ◌≡◌, refl, ap, ◌∙◌, ◌≢◌, inl, inr, true, false, none, some, List, [], ◌∷◌,
  Bool-cases, ltb, le→ltb, length, arith,
}
use lotor_go.Common.Bytes.{Bytes, bytes_eq_iff, bytes_eq_refl, bytes_eq_ne}
use lotor_go.Bridge.Platform.{Result, Platform}
use lotor_go.Bridge.Protocol.{conflict, in_progress, maximum_input_bytes, maximum_body_bytes}
use lotor_go.Bridge.Journal.{fresh, stored, refused}
use lotor_go.Bridge.SqlStore.{
  Row, Fault, answered, has_key, select, new_row, inserted, insert, open_or_same, matches, update,
  canonical, read_result, answer, selected, after_insert, reserve, completed, complete,
  valid_identity,
}
use lotor_go.Bridge.SqlStore.Rows.{touch_open, select-has_key, select-update, has_key_iff}

-- A call on which the database has no fault.
abbrev pub no_fault : Fault
no_fault = record { statement = answered; rows_affected_fails = false; query_fails = false }

-- The primary key: no two rows with one namespace and operation.
abbrev pub IsKeyed : List Row → Type 0
IsKeyed [] = Unit
IsKeyed (r ∷ rows) = (select r.namespace r.operation_id rows ≡ none) × IsKeyed rows

update_missing :
    (namespace id digest raw : Bytes) (rows : List Row)
    → select namespace id rows ≡ none
    → (update namespace id digest raw rows).1 ≡ 0
unfolding select update matches
update_missing namespace id digest raw [] h = refl
update_missing namespace id digest raw (r ∷ rows) h =
    ground (arith, update_missing namespace id digest raw rows)

-- With the primary key an update counts one row at most.
update_one :
    (namespace id digest raw : Bytes) (rows : List Row) (r : Row)
    → IsKeyed rows
    → select namespace id rows ≡ some r
    → r.request_digest ≡ digest
    → r.result ≡ none
    → (update namespace id digest raw rows).1 ≡ 1
unfolding select update matches open_or_same
update_one namespace id digest raw (q ∷ rows) r (k, ks) h d e =
    elim (Bool-cases (has_key namespace id q)) [
      | inl own ↦
          let (same_n, same_i) = has_key_iff namespace id q own in
          let missing : select namespace id rows ≡ none = rw (← same_n, ← same_i) k in
          ground (
            arith,
            bytes_eq_iff r.request_digest digest,
            update_missing namespace id digest raw rows missing,
          )
      | inr other ↦ rw other (update_one namespace id digest raw rows r ks (rw other at h) d e)
    ]
update_one namespace id digest raw [] r k h d e = cc

module _ (platform : Platform) where
  -- A changed input never gets the result of the first: the digest is bound to the operation.
  pub reserve_conflict :
      (namespace id digest : Bytes) (rows : List Row) (r : Row)
      → valid_identity id digest ≡ true
      → select namespace id rows ≡ some r
      → r.request_digest ≢ digest
      → reserve platform namespace no_fault id digest rows ≡ (refused conflict, rows)
  unfolding reserve insert inserted after_insert selected
  reserve_conflict namespace id digest rows r good there other =
      rw (good, there) (rw (there, bytes_eq_ne r.request_digest digest other))

  pub reserve_in_progress :
      (namespace id digest : Bytes) (rows : List Row) (r : Row)
      → valid_identity id digest ≡ true
      → select namespace id rows ≡ some r
      → r.request_digest ≡ digest
      → r.result ≡ none
      → reserve platform namespace no_fault id digest rows ≡ (refused in_progress, rows)
  unfolding reserve insert inserted after_insert selected answer
  reserve_in_progress namespace id digest rows r good there same null =
      rw (good, there) (rw (there, same, bytes_eq_refl digest, null))

  -- A result that JSON carries over unchanged, and that fits the limits of the journal.
  pub record IsStorable (x : Result) (raw : Bytes) : Type 0 where
    pub marshalled : platform.marshal_result x ≡ some raw
    pub restored : platform.unmarshal_result raw ≡ some x
    pub compacted : platform.compact x.output ≡ some x.output
    pub output_bounded : length x.output ≤ maximum_input_bytes
    pub not_empty : 0 < length raw
    pub raw_bounded : length raw ≤ maximum_body_bytes / 2

  read_result_canonical :
      (x : Result)
      → platform.compact x.output ≡ some x.output
      → length x.output ≤ maximum_input_bytes
      → read_result platform (some x) ≡ stored x
  unfolding read_result canonical
  read_result_canonical x e h = rw e (ground arith)

  reads_back :
      (x : Result) (raw digest : Bytes) (r : Row)
      → IsStorable x raw
      → r.request_digest ≡ digest
      → r.result ≡ some raw
      → selected platform digest (some r) ≡ stored x
  unfolding selected answer
  reads_back x raw digest r s d e =
      rw (d, bytes_eq_refl digest, e, s.restored)
        (ground
          (arith, s.not_empty, s.raw_bounded, read_result_canonical x s.compacted s.output_bounded))

  stored_again :
      (namespace id digest : Bytes) (x : Result) (raw : Bytes) (rows : List Row) (r : Row)
      → valid_identity id digest ≡ true
      → select namespace id rows ≡ some r
      → r.request_digest ≡ digest
      → r.result ≡ some raw
      → IsStorable x raw
      → reserve platform namespace no_fault id digest rows ≡ (stored x, rows)
  unfolding reserve insert inserted after_insert
  stored_again namespace id digest x raw rows r good there same e s =
      rw (good, there) (rw (there, reads_back x raw digest r s same e))

  pub reserve-complete :
      (namespace id digest : Bytes) (x : Result) (raw : Bytes) (rows : List Row) (r : Row)
      → valid_identity id digest ≡ true
      → IsKeyed rows
      → select namespace id rows ≡ some r
      → r.request_digest ≡ digest
      → r.result ≡ none
      → IsStorable x raw
      → (rows' : List Row) × (complete platform namespace no_fault id digest x rows ≡ (none, rows'))
        × (reserve platform namespace no_fault id digest rows' ≡ (stored x, rows'))
  unfolding complete completed
  reserve-complete namespace id digest x raw rows r good keyed there same null s =
      let rows' = (update namespace id digest raw rows).0 in
      let found : select namespace id rows' ≡ some (record r { result = some raw }) =
        select-update namespace id namespace id digest raw rows
        ∙ rw there (
            ap some (
              touch_open namespace id digest raw r (select-has_key namespace id rows r there) same
                null)) in
      (
        rows',
        completes_it,
        stored_again namespace id digest x raw rows' (record r { result = some raw }) good found
            same refl s,
      )
    where
      big : ltb maximum_input_bytes (length x.output) ≡ false
      big = le→ltb _ _ s.output_bounded

      small : ltb (maximum_body_bytes / 2) (length raw) ≡ false
      small = le→ltb _ _ s.raw_bounded

      one : (update namespace id digest raw rows).1 ≡ 1
      one = update_one namespace id digest raw rows r keyed there same null

      completes_it :
          complete platform namespace no_fault id digest x rows
          ≡ (none, (update namespace id digest raw rows).0)
      completes_it = rw (good, big, s.marshalled) (rw (small, one))

  -- An operation without a row is handed out, and gets an open row.
  pub reserve_new :
      (namespace id digest : Bytes) (rows : List Row)
      → valid_identity id digest ≡ true
      → select namespace id rows ≡ none
      → reserve platform namespace no_fault id digest rows
        ≡ (fresh, new_row namespace id digest ∷ rows)
  unfolding reserve insert inserted after_insert
  reserve_new namespace id digest rows good missing = rw (good, missing)
