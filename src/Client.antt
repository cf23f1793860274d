-- ===== src/Client.antt =====
-- lotor/client.go: one connection. `do` sends a request and waits for the frame of its number; the
-- read loop takes frames off the bytes that arrive and gives each to the request that waits for it.
pub mod Requests
pub mod Results
pub mod Total
pub mod Correlation
pub mod Drain
pub mod Stream
pub mod SubjectKeys
pub mod Sharing
mod Tests
use lotor_go.Common.{
  ℕ, zero, suc, ◌+◌, ◌^◌, ◌%◌, Bool, true, false, not, ◌&&◌, ◌||◌, Option, none, some, List, [],
  ◌∷◌, ◌++◌, ltb, ◌==◌, if◌then◌else◌, length, drop,
}
use lotor_go.Common.Bytes.{Bytes, bytes_eq}
use lotor_go.Common.Int.{ℤ, pos, negsuc}
use lotor_go.Wire.Numbers.{uint64_to_int64}
use lotor_go.Wire.Values.{
  Value, null, bool, u64, i64, str, addr, bytes, list, map, Values, nil, cons, Entries, end, entry,
  count,
}
use lotor_go.Wire.Frames.{
  Frame, frame_req, frame_resp, frame_event, status_err, encode_frame, complete, incomplete,
  crashed, out_of_fuel, decode_frame, Decoded,
}

-- `asStr`, `asNum` and `asBool`.
abbrev pub as_str : Value → Bytes
as_str (str s) = s
as_str (addr s) = s
as_str _ = []

abbrev pub as_num : Value → ℤ
as_num (u64 n) = pos (uint64_to_int64 n)
as_num (i64 n) = n
as_num _ = pos 0

abbrev pub as_bool : Value → Bool
as_bool (bool b) = b
as_bool _ = false

-- The field `U64`, which only that kind sets.
abbrev pub raw_u64 : Value → ℕ
raw_u64 (u64 n) = n
raw_u64 _ = 0

-- `a[i]`: `none` is the panic of an index that is out of range.
unfoldable pub arg : ℕ → Values → Option Value
arg i nil = none
arg zero (cons v vs) = some v
arg (suc i) (cons v vs) = arg i vs

pub data Failure : Type 0 where
  lwp_error : ℕ → Bytes → Failure
  connection_closed : Failure
  invalid_code : Failure

-- What the channel of a request holds.
pub data Slot : Type 0 where
  waiting : Slot
  delivered : Frame → Slot
  closed : Slot

-- `pend` has the requests that a response can still reach, `channels` what each `do` reads.
pub record Client : Type 0 where
  pub pend : List ℕ
  pub channels : List (ℕ × Slot)
  pub next_id : ℕ
  pub subs : List Bytes

-- The events handed to handlers, as watch ids.
pub record Loop : Type 0 where
  pub client : Client
  pub buffer : Bytes
  pub events : List Bytes

unfoldable pub mem : ℕ → List ℕ → Bool
mem id [] = false
mem id (j ∷ ids) = j == id || mem id ids

unfoldable pub remove : ℕ → List ℕ → List ℕ
remove id [] = []
remove id (j ∷ ids) = let rest = remove id ids in if j == id then rest else j ∷ rest

unfoldable pub put_slot : ℕ → Slot → List (ℕ × Slot) → List (ℕ × Slot)
put_slot id s [] = []
put_slot id s ((j, t) ∷ slots) = if j == id then (j, s) ∷ slots else (j, t) ∷ put_slot id s slots

unfoldable pub get_slot : ℕ → List (ℕ × Slot) → Option Slot
get_slot id [] = none
get_slot id ((j, t) ∷ slots) = if j == id then some t else get_slot id slots

has_sub : Bytes → List Bytes → Bool
has_sub id [] = false
has_sub id (j ∷ subs) = bytes_eq j id || has_sub id subs

-- `do` up to the write: the number of the request and its frame.
pub new_request : ℕ → Values → Client → ℕ × Frame × Client
new_request opcode args c =
    let id = (c.next_id + 1) % 2 ^ 32 in
    (
      id,
      record { args = args; typ = frame_req; flags = 0; req_id = id; opcode = opcode },
      record c {
        next_id = id;
        pend = id ∷ remove id c.pend;
        channels = (id, waiting) ∷ c.channels;
      },
    )

-- A failed write.
pub unregister : ℕ → Client → Client
unregister id c = record c { pend = remove id c.pend }

-- The result of `do`: arguments, an error, or a panic of `f.args[0]`.
pub data Outcome : Type 0 where
  answered : Values → Outcome
  failed : Failure → Outcome
  panics : Outcome

error_of : ℤ → Bytes → Outcome
error_of (negsuc n) message = failed invalid_code
error_of (pos n) message = if ltb 65535 n then failed invalid_code else failed (lwp_error n message)

-- The second argument, where there is one.
message_of : Values → Bytes
message_of nil = []
message_of (cons v vs) = as_str v

error_reply : Values → Outcome
unfolding error_of message_of
error_reply nil = panics
error_reply (cons code rest) = error_of (as_num code) (message_of rest)

-- What `do` makes of the slot; `none` while it waits.
pub reply : Slot → Option Outcome
unfolding error_reply
reply waiting = none
reply closed = some (failed connection_closed)
reply (delivered f) =
    if f.opcode == status_err then some (error_reply f.args) else some (answered f.args)

-- A response frame.
pub deliver : Frame → Client → Client
deliver f c =
    if mem f.req_id c.pend
    then record c {
      pend = remove f.req_id c.pend;
      channels = put_slot f.req_id (delivered f) c.channels;
    }
    else c

-- The watch id of an event: its fifth argument.
watch_of : Values → Option Bytes
watch_of (cons _ (cons _ (cons _ (cons _ (cons watch _))))) = some (as_str watch)
watch_of _ = none

call_watch : Option Bytes → Client → List Bytes → List Bytes
unfolding has_sub
call_watch none c events = events
call_watch (some watch) c events = if has_sub watch c.subs then watch ∷ events else events

-- `dispatchEvent`: the watch id that is called, if a handler is there.
dispatch_event : Frame → Client → List Bytes → List Bytes
unfolding watch_of call_watch
dispatch_event f c events = call_watch (watch_of f.args) c events

pub handle : Frame → Loop → Loop
unfolding dispatch_event
handle f l =
    if f.typ == frame_resp
    then record l { client = deliver f l.client }
    else if f.typ == frame_event
    then record l { events = dispatch_event f l.client l.events }
    else l

-- The inner loop of `readLoop`: `none` is a panic of the decoder. Every frame takes four bytes, so
-- that fuel of the buffer's length and one is enough.
taken : Loop → (Loop → Option Loop) → Decoded → Option Loop
unfolding handle
taken l more incomplete = some l
taken l more out_of_fuel = some l
taken l more crashed = none
taken l more (complete f consumed) = more (handle f (record l { buffer = drop consumed l.buffer }))

pub drain : ℕ → ℕ → Loop → Option Loop
unfolding taken
drain slice_limit zero l = some l
drain slice_limit (suc fuel) l =
    taken l (drain slice_limit fuel) (decode_frame slice_limit l.buffer)

-- A read of some bytes.
pub receive : ℕ → Bytes → Loop → Option Loop
unfolding drain
receive slice_limit chunk l =
    drain slice_limit (suc (length (l.buffer ++ chunk))) (record l { buffer = l.buffer ++ chunk })

close_slots : List ℕ → List (ℕ × Slot) → List (ℕ × Slot)
close_slots [] slots = slots
close_slots (id ∷ ids) slots = close_slots ids (put_slot id closed slots)

-- A read error: every request that waits is told.
pub disconnect : Client → Client
unfolding close_slots
disconnect c = record c { pend = []; channels = close_slots c.pend c.channels }

-- `Watch` behind its response, and `Unwatch` before its request.
pub subscribe : Bytes → Client → Client
subscribe id c = record c { subs = id ∷ c.subs }

unsubscribed : Bytes → List Bytes → List Bytes
unsubscribed id [] = []
unsubscribed id (j ∷ subs) =
    let rest = unsubscribed id subs in if bytes_eq j id then rest else j ∷ rest

pub unsubscribe : Bytes → Client → Client
unfolding unsubscribed
unsubscribe id c = record c { subs = unsubscribed id c.subs }
