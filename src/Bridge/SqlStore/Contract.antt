-- ===== src/Bridge/SqlStore/Contract.antt =====
-- The table implements the journal's contract: an operation is handed out at most once, whatever
-- faults the database has.
use mathlib.Core.Option
use mathlib.Core.Bool.{false≢true}
use lotor_go.Common.{
  ℕ, ◌≡◌, refl, ◌∙◌, ◌≢◌, inl, inr, Bool, true, false, Option, none, some, List, ◌∷◌, Bool-cases,
  Option-cases, arith,
}
use lotor_go.Common.Bytes.{Bytes, bytes_eq_refl}
use lotor_go.Bridge.Platform.{Result, Platform}
use lotor_go.Bridge.Protocol.{Error}
use lotor_go.Bridge.Journal.{Reserved, fresh, refused, Journal}
use lotor_go.Bridge.SqlStore.{
  Row, Fault, has_key, select, new_row, inserted, insert, canonical, read_result, answer, selected,
  after_insert, reserve, complete, valid_identity,
}
use lotor_go.Bridge.SqlStore.Rows.{reserve_rows, complete_rows, select-insert, select-update}

abbrev pub is_some {ℓ} : {A : Type ℓ} → Option A → Bool
is_some none = false
is_some (some a) = true

-- The operation has a row.
abbrev pub Taken : Bytes → Bytes → List Row → Type 0
Taken namespace id rows = is_some (select namespace id rows) ≡ true

pub select_new :
    (namespace id digest : Bytes) (rows : List Row)
    → select namespace id (new_row namespace id digest ∷ rows) ≡ some (new_row namespace id digest)
unfolding select has_key
select_new namespace id digest rows = rw (bytes_eq_refl namespace, bytes_eq_refl id)

module _ (platform : Platform) where
  canonical-ne_fresh : (o : Option Bytes) (r : Result) → canonical platform o r ≢ fresh
  unfolding canonical
  canonical-ne_fresh o r = ground arith

  read_result-ne_fresh : (o : Option Result) → read_result platform o ≢ fresh
  unfolding read_result
  read_result-ne_fresh none e = cc
  read_result-ne_fresh (some r) e = ground (arith, canonical-ne_fresh (platform.compact r.output) r)

  answer-ne_fresh : (o : Option Bytes) → answer platform o ≢ fresh
  unfolding answer
  answer-ne_fresh none e = cc
  answer-ne_fresh (some raw) e =
      ground (arith, read_result-ne_fresh (platform.unmarshal_result raw))

  selected-ne_fresh : (digest : Bytes) (o : Option Row) → selected platform digest o ≢ fresh
  unfolding selected
  selected-ne_fresh digest none e = cc
  selected-ne_fresh digest (some r) e = ground (arith, answer-ne_fresh r.result)

  after_insert_fresh :
      (namespace : Bytes) (fault : Fault) (id digest : Bytes) (rows rows' : List Row) (count : ℕ)
      → (after_insert platform namespace fault id digest rows rows' count).0 ≡ fresh
      → (count ≡ 1) × ((after_insert platform namespace fault id digest rows rows' count).1 ≡ rows')
  unfolding after_insert
  after_insert_fresh namespace fault id digest rows rows' count e =
      ground (arith, selected-ne_fresh digest (select namespace id rows'))

  insert_one :
      (namespace id digest : Bytes) (rows : List Row)
      → (insert namespace id digest rows).1 ≡ 1
      → (select namespace id rows ≡ none)
        × ((insert namespace id digest rows).0 ≡ new_row namespace id digest ∷ rows)
  unfolding insert inserted
  insert_one namespace id digest rows e = ground arith

  -- A new reservation is handed out only where there was no row, and it leaves one.
  pub reserve_fresh :
      (namespace : Bytes) (fault : Fault) (id digest : Bytes) (rows : List Row)
      → (reserve platform namespace fault id digest rows).0 ≡ fresh
      → (select namespace id rows ≡ none)
        × ((reserve platform namespace fault id digest rows).1 ≡ new_row namespace id digest ∷ rows)
  unfolding reserve
  reserve_fresh namespace fault id digest rows e = elim (Bool-cases (valid_identity id digest)) [
    | inl good ↦
        let rows' = (insert namespace id digest rows).0 in
        let count = (insert namespace id digest rows).1 in
        let (one, table) =
          after_insert_fresh namespace fault id digest rows rows' count (rw good at e) in
        let (missing, grown) = insert_one namespace id digest rows one in
        (missing, rw good (table ∙ grown))
    | inr bad ↦ cc (bad_fresh bad)
  ]
    where
      bad_fresh :
          valid_identity id digest ≡ false
          → ◌≡◌ {A = Reserved} (refused lotor_go.Bridge.Protocol.invalid) fresh
      bad_fresh bad = rw bad at e

  keeps_insert :
      (namespace id digest other : Bytes) (rows : List Row)
      → Taken namespace other rows
      → Taken namespace other (insert namespace id digest rows).0
  keeps_insert namespace id digest other rows h =
      elim (Option-cases (select namespace other rows)) [
        | inl gone ↦ absurd (false≢true (rw gone at h))
        | inr (r, there) ↦ rw (select-insert namespace other namespace id digest rows r there)
      ]

  is_some-map :
      (f : Row → Row) (o : Option Row) → is_some o ≡ true → is_some (Option.map f o) ≡ true
  is_some-map f none h = h
  is_some-map f (some r) h = refl

  pub keeps_complete :
      (namespace : Bytes) (fault : Fault) (id digest other : Bytes) (r : Result) (rows : List Row)
      → Taken namespace other rows
      → Taken namespace other (complete platform namespace fault id digest r rows).1
  keeps_complete namespace fault id digest other r rows h =
      elim (complete_rows platform namespace fault id digest r rows) [
        | inl same ↦ rw same h
        | inr (raw, changed) ↦
            rw (changed, select-update namespace other namespace id digest raw rows)
              (is_some-map _ (select namespace other rows) h)
      ]

  pub keeps_reserve :
      (namespace : Bytes) (fault : Fault) (id digest other : Bytes) (rows : List Row)
      → Taken namespace other rows
      → Taken namespace other (reserve platform namespace fault id digest rows).1
  keeps_reserve namespace fault id digest other rows h =
      elim (reserve_rows platform namespace fault id digest rows) [
        | inl same ↦ rw same h
        | inr grown ↦ rw grown (keeps_insert namespace id digest other rows h)
      ]

  pub not-Taken :
      (namespace id : Bytes) (rows : List Row)
      → select namespace id rows ≡ none
      → ¬ (Taken namespace id rows)
  not-Taken namespace id rows e h = false≢true (rw e at h)

  -- The table of one namespace is a journal in the sense of the runtime.
  abbrev pub sql_journal : Bytes → Journal (List Row) Fault
  sql_journal namespace = record {
    reserve = reserve platform namespace;
    complete = complete platform namespace;
    Taken = Taken namespace;
    fresh_untaken = λ f id digest rows e.
        not-Taken namespace id rows (reserve_fresh namespace f id digest rows e).0;
    fresh_taken = λ f id digest rows e.
        rw ((reserve_fresh namespace f id digest rows e).1, select_new namespace id digest rows);
    reserve_keeps = keeps_reserve namespace;
    complete_keeps = keeps_complete namespace;
  }
