-- ===== src/Bridge/SqlStore.antt =====
-- bridge/sqlstore/postgres.go: the journal as rows of one table. A statement can fail on the way
-- back, so that its effect is there and its result is not.
pub mod Rows
pub mod Contract
pub mod Replay
pub mod Digest
use lotor_go.Common.{
  ℕ, zero, suc, ◌+◌, ◌-◌, ◌*◌, ◌/◌, ◌%◌, ◌^◌, Bool, true, false, not, ◌&&◌, ◌||◌, Option, none,
  some, List, [], ◌∷◌, ltb, leb, ◌==◌, if◌then◌else◌, length, all,
}
use lotor_go.Common.Bytes.{Bytes, bytes_eq}
use lotor_go.Bridge.Platform.{Result, Platform}
use lotor_go.Bridge.Protocol.{
  Error, invalid, unavailable, conflict, in_progress, maximum_input_bytes, maximum_body_bytes,
}
use lotor_go.Bridge.Journal.{Reserved, fresh, stored, refused}

pub record Row : Type 0 where
  pub namespace : Bytes
  pub operation_id : Bytes
  pub request_digest : Bytes
  -- SQL null is `none`
  pub result : Option Bytes

-- An error of `ExecContext`: whether the statement had its effect.
pub data Statement : Type 0 where
  answered : Statement
  lost : Bool → Statement

pub record Fault : Type 0 where
  pub statement : Statement
  pub rows_affected_fails : Bool
  pub query_fails : Bool

-- `hex.DecodeString` and `hex.EncodeToString`.
hex_value : ℕ → Option ℕ
hex_value c =
    if leb b'0' c && leb c b'9'
    then some (c - b'0')
    else if leb b'a' c && leb c b'f'
    then some (c - b'a' + 10)
    else if leb b'A' c && leb c b'F'
    then some (c - b'A' + 10)
    else none

join_hex : Option ℕ → Option ℕ → Option Bytes → Option Bytes
join_hex (some x) (some y) (some rest) = some ((x * 16 + y) ∷ rest)
join_hex _ _ _ = none

unfoldable pub hex_decode : Bytes → Option Bytes
unfolding hex_value join_hex
hex_decode [] = some []
hex_decode (c ∷ []) = none
hex_decode (c ∷ d ∷ s) = join_hex (hex_value c) (hex_value d) (hex_decode s)

hex_char : ℕ → ℕ
hex_char x = if ltb x 10 then b'0' + x else b'a' + (x - 10)

hex_encode : Bytes → Bytes
unfolding hex_char
hex_encode [] = []
hex_encode (b ∷ s) = hex_char (b / 16) ∷ hex_char (b % 16) ∷ hex_encode s

unfoldable pub refused_rune : ℕ → Bool
refused_rune c = leb c 32 || leb 127 c

-- `strings.IndexFunc(value, refused) == -1`.
unfoldable pub no_index : Bytes → Bool
unfolding refused_rune
no_index [] = true
no_index (c ∷ s) = if refused_rune c then false else no_index s

unfoldable pub identifier : Bytes → ℕ → Bool
unfolding no_index
identifier value maximum = not (bytes_eq value []) && leb (length value) maximum && no_index value

unfoldable pub hex_digest : Option Bytes → Bytes → Bool
unfolding hex_encode
hex_digest none digest = false
hex_digest (some decoded) digest = length decoded == 32 && bytes_eq (hex_encode decoded) digest

unfoldable pub valid_identity : Bytes → Bytes → Bool
unfolding identifier hex_digest hex_decode
valid_identity operation_id digest =
    identifier operation_id 513 && hex_digest (hex_decode digest) digest

unfoldable pub has_key : Bytes → Bytes → Row → Bool
has_key namespace id r = bytes_eq r.namespace namespace && bytes_eq r.operation_id id

unfoldable pub select : Bytes → Bytes → List Row → Option Row
unfolding has_key
select namespace id [] = none
select namespace id (r ∷ rows) = if has_key namespace id r then some r else select namespace id rows

abbrev pub new_row : Bytes → Bytes → Bytes → Row
new_row namespace id digest = record {
  namespace = namespace;
  operation_id = id;
  request_digest = digest;
  result = none;
}

-- `insert … on conflict (namespace, operation_id) do nothing`: the table, and the rows affected.
inserted : Option Row → Row → List Row → List Row × ℕ
inserted none r rows = (r ∷ rows, 1)
inserted (some _) r rows = (rows, 0)

pub insert : Bytes → Bytes → Bytes → List Row → List Row × ℕ
unfolding inserted
insert namespace id digest rows =
    inserted (select namespace id rows) (new_row namespace id digest) rows

-- `result is null or result = raw`
open_or_same : Option Bytes → Bytes → Bool
open_or_same none raw = true
open_or_same (some old) raw = bytes_eq old raw

matches : Bytes → Bytes → Bytes → Bytes → Row → Bool
unfolding open_or_same
matches namespace id digest raw r =
    has_key namespace id r && (bytes_eq r.request_digest digest && open_or_same r.result raw)

-- `update … set result = raw where …`
pub update : Bytes → Bytes → Bytes → Bytes → List Row → List Row × ℕ
unfolding matches
update namespace id digest raw [] = ([], 0)
update namespace id digest raw (r ∷ rows) =
    let (rest, count) = update namespace id digest raw rows in
    if matches namespace id digest raw r
    then (record r { result = some raw } ∷ rest, count + 1)
    else (r ∷ rest, count)

module _ (platform : Platform) where
  open platform use {marshal_result, compact, unmarshal_result}

  canonical : Option Bytes → Result → Reserved
  canonical none r = refused unavailable
  canonical (some output) r =
      if ltb maximum_input_bytes (length output)
      then refused unavailable
      else stored (record r { output = output })

  read_result : Option Result → Reserved
  unfolding canonical
  read_result none = refused unavailable
  read_result (some r) = if length r.output == 0 then stored r else canonical (compact r.output) r

  -- What the result of the selected row says.
  answer : Option Bytes → Reserved
  unfolding read_result
  answer none = refused in_progress
  answer (some raw) =
      if length raw == 0
      then refused in_progress
      else if ltb maximum_body_bytes (length raw)
      then refused unavailable
      else read_result (unmarshal_result raw)

  selected : Bytes → Option Row → Reserved
  unfolding answer
  selected digest none = refused unavailable
  selected digest (some r) =
      if not (bytes_eq r.request_digest digest) then refused conflict else answer r.result

  -- Behind the insert, with the table and the count that it gave.
  after_insert : Bytes → Fault → Bytes → Bytes → List Row → List Row → ℕ → Reserved × List Row
  after_insert namespace fault id digest rows rows' count = elim (fault.statement) [
    | lost applied ↦ (refused unavailable, if applied then rows' else rows)
    | answered ↦
        if fault.rows_affected_fails
        then (refused unavailable, rows')
        else if count == 1
        then (fresh, rows')
        else if fault.query_fails
        then (refused unavailable, rows')
        else (selected digest (select namespace id rows'), rows')
  ]

  pub reserve : Bytes → Fault → Bytes → Bytes → List Row → Reserved × List Row
  reserve namespace fault id digest rows =
      if not (valid_identity id digest)
      then (refused invalid, rows)
      else (let (rows', count) = insert namespace id digest rows in
          after_insert namespace fault id digest rows rows' count)

  completed : Bytes → Fault → Bytes → Bytes → Option Bytes → List Row → Option Error × List Row
  unfolding update
  completed namespace fault id digest none rows = (some invalid, rows)
  completed namespace fault id digest (some raw) rows =
      if ltb (maximum_body_bytes / 2) (length raw)
      then (some invalid, rows)
      else (let (rows', count) = update namespace id digest raw rows in
          elim (fault.statement) [
            | lost applied ↦ (some unavailable, if applied then rows' else rows)
            | answered ↦
                if fault.rows_affected_fails
                then (some unavailable, rows')
                else if count == 1
                then (none, rows')
                else (some conflict, rows')
          ])

  pub complete : Bytes → Fault → Bytes → Bytes → Result → List Row → Option Error × List Row
  unfolding completed valid_identity
  complete namespace fault id digest r rows =
      if not (valid_identity id digest) || ltb maximum_input_bytes (length r.output)
      then (some invalid, rows)
      else completed namespace fault id digest (marshal_result r) rows
