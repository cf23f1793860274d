-- ===== src/Bridge/Runtime/Serve/Retry.antt =====
-- A retry of a completed invocation, over the SQL journal: the first request calls the handler
-- and stores its result, the second is answered from the journal.
use lotor_go.Common.{◌≡◌, refl, ◌∙◌, true, false, Option, none, some, List, ◌∷◌}
use lotor_go.Common.Bytes.{Bytes, ascii, bytes_eq}
use lotor_go.Bridge.Platform.{Function, Authorization, Result, Platform}
use lotor_go.Bridge.Journal.{Journal, Reserved, fresh, stored}
use lotor_go.Bridge.SqlStore.{Row, Fault, select, valid_identity, new_row, reserve, complete}
use lotor_go.Bridge.SqlStore.Contract.{sql_journal, select_new}
use lotor_go.Bridge.SqlStore.Replay.{no_fault, IsKeyed, IsStorable, reserve_new, reserve-complete}
use lotor_go.Bridge.Runtime.{Runtime, Handler, find_handler}
use lotor_go.Bridge.Runtime.Admission.{Request, Env, go, grant_active, authorize}
use lotor_go.Bridge.Runtime.Serve.{
  World, finish, identity_of, semantic, base_result, execute, with_output, compacted, completed,
  run, start, resume, reserved, invoke, dispatch, serve,
}

identity_eq :
    (runtime : Runtime) (a a' : Authorization)
    → a'.id ≡ a.id
    → identity_of runtime a' ≡ identity_of runtime a
unfolding identity_of
identity_eq runtime a a' same = rw same

module _ (platform : Platform) where
  -- The result that a call of the handler leads to.
  abbrev pub result_of : {F : Type 0} → Env F → Option Handler → Authorization → Bytes → Result
  result_of env handler a raw =
      let output = (execute env handler a).0 in
      with_output platform output (compacted platform output)
        (record (base_result platform a raw env.result_now) { completed_at = env.done_now })

  -- An invocation that passed every check up to the journal, on a database with no faults.
  pub record IsReady (runtime : Runtime) (env : Env Fault) (r : Request) (a : Authorization)
      (raw json : Bytes) : Type 0 where
    pub authorized : authorize platform runtime env r ≡ go (a, raw)
    pub is_invocation : bytes_eq a.kind (ascii "challenge") ≡ false
    pub marshalled : platform.marshal_authorization (semantic a) ≡ some json
    pub still_active : grant_active env.second_cancelled env.second_now a ≡ true
    pub reserves_well : env.reserve_fault ≡ no_fault
    pub completes_well : env.complete_fault ≡ no_fault

  module _ (namespace : Bytes) where
    abbrev store : Journal (List Row) Fault
    store = sql_journal platform namespace

    -- The request as far as the journal's answer.
    serve_reserved :
        (runtime : Runtime) (env : Env Fault) (r : Request) (a : Authorization) (raw json : Bytes)
        (w : World (List Row)) (reply : Reserved) (rows : List Row)
        → IsReady runtime env r a raw json
        → reserve platform namespace no_fault
            (identity_of runtime a)
            (platform.sha256_hex json)
            w.journal
          ≡ (reply, rows)
        → serve platform store runtime env r w
          ≡ resume platform store runtime env a raw
              (identity_of runtime a)
              (platform.sha256_hex json)
              (record { journal = rows; runs = w.runs })
              reply
    unfolding serve dispatch invoke reserved
    serve_reserved runtime env r a raw json w reply rows ready e = rw (
      ready.authorized, ready.is_invocation, ready.marshalled, ready.reserves_well, e,
      ready.still_active,
    )

    start-some :
        (runtime : Runtime) (env : Env Fault) (a : Authorization) (raw id digest : Bytes)
        (w : World (List Row)) (o : Option Function) (f : Function)
        → o ≡ some f
        → start platform store runtime env a raw id digest w o
          ≡ run platform store runtime env a raw id digest w (find_handler f runtime.functions)
    unfolding start
    start-some runtime env a raw id digest w o f e = rw e

    -- A call of the handler whose result the journal takes.
    run_stored :
        (runtime : Runtime) (env : Env Fault) (a : Authorization) (raw id digest : Bytes)
        (w : World (List Row)) (o : Option Handler) (h : Handler) (rows : List Row)
        → o ≡ some h
        → env.cancelled_before ≡ false
        → env.complete_fault ≡ no_fault
        → complete platform namespace no_fault id digest (result_of env (some h) a raw) w.journal
          ≡ (none, rows)
        → run platform store runtime env a raw id digest w o ≡ (
          finish platform runtime (result_of env (some h) a raw),
          record { journal = rows; runs = id ∷ w.runs },
        )
    unfolding run completed execute
    run_stored runtime env a raw id digest w o h rows e on well done = rw (e, well, done) (rw on)

    resume_first :
        (runtime : Runtime) (env : Env Fault) (a : Authorization) (raw id digest : Bytes)
        (w : World (List Row)) (f : Function) (h : Handler) (rows : List Row)
        → a.function ≡ some f
        → find_handler f runtime.functions ≡ some h
        → env.cancelled_before ≡ false
        → env.complete_fault ≡ no_fault
        → complete platform namespace no_fault id digest (result_of env (some h) a raw) w.journal
          ≡ (none, rows)
        → resume platform store runtime env a raw id digest w fresh ≡ (
          finish platform runtime (result_of env (some h) a raw),
          record { journal = rows; runs = id ∷ w.runs },
        )
    unfolding resume
    resume_first runtime env a raw id digest w f h rows named there on well done =
        start-some runtime env a raw id digest w a.function f named
        ∙ run_stored runtime env a raw id digest w (find_handler f runtime.functions) h rows there
            on well done

    resume_again :
        (runtime : Runtime) (env : Env Fault) (a : Authorization) (raw id digest : Bytes)
        (w : World (List Row)) (x : Result)
        → resume platform store runtime env a raw id digest w (stored x) ≡ (
          finish platform runtime (record x { authorization_digest = platform.sha256_hex raw }),
          w,
        )
    unfolding resume
    resume_again runtime env a raw id digest w x = refl

    -- The first of two requests for the same operation calls the handler and answers with its
    -- result. The second, with a fresh grant that differs at most in its times, is answered with
    -- the stored result bound to the new grant; it calls no handler and leaves the table alone.
    -- The database has no faults, and the result is one that the journal can store.
    pub serve_retry :
        (runtime : Runtime) (env env' : Env Fault) (r r' : Request) (a a' : Authorization)
        (raw raw' json code : Bytes) (rows : List Row) (runs : List Bytes) (f : Function)
        (h : Handler)
        → IsReady runtime env r a raw json
        → IsReady runtime env' r' a' raw' json
        → a'.id ≡ a.id
        → a.function ≡ some f
        → find_handler f runtime.functions ≡ some h
        → env.cancelled_before ≡ false
        → valid_identity (identity_of runtime a) (platform.sha256_hex json) ≡ true
        → select namespace (identity_of runtime a) rows ≡ none
        → IsKeyed rows
        → IsStorable platform (result_of env (some h) a raw) code
        → (rows' : List Row) × (serve platform store runtime env r
              (record { journal = rows; runs = runs })
            ≡ (
              finish platform runtime (result_of env (some h) a raw),
              record { journal = rows'; runs = identity_of runtime a ∷ runs },
            ))
          × (serve platform store runtime env' r'
                (record { journal = rows'; runs = identity_of runtime a ∷ runs })
              ≡ (
                finish platform runtime (record (result_of env (some h) a raw) {
                  authorization_digest = platform.sha256_hex raw';
                }),
                record { journal = rows'; runs = identity_of runtime a ∷ runs },
              ))
    serve_retry runtime env env' r r' a a' raw raw' json code rows runs f h ready ready' same named
          there on good missing keyed storable =
        let id = identity_of runtime a in
        let digest = platform.sha256_hex json in
        let row : Row = new_row namespace id digest in
        let (rows', done, again) =
          reserve-complete platform namespace id digest (result_of env (some h) a raw) code
            (row ∷ rows) row good (missing, keyed) (select_new namespace id digest rows) refl refl
            storable in
        (
          rows',
          serve_reserved runtime env r a raw json (record { journal = rows; runs = runs }) fresh
                (row ∷ rows) ready (reserve_new platform namespace id digest rows good missing)
              ∙ resume_first runtime env a raw id digest
                  (record { journal = row ∷ rows; runs = runs }) f h rows' named there on
                  ready.completes_well done,
          serve_reserved runtime env' r' a' raw' json (record { journal = rows'; runs = id ∷ runs })
                (stored (result_of env (some h) a raw)) rows' ready'
                (same_identity runtime a a' same digest rows' again)
              ∙ resume_again runtime env' a' raw' (identity_of runtime a') digest
                  (record { journal = rows'; runs = id ∷ runs }) (result_of env (some h) a raw),
        )
      where
        same_identity :
            (runtime : Runtime) (a a' : Authorization)
            → a'.id ≡ a.id
            → (digest : Bytes) (rows' : List Row) {reply : Reserved × List Row}
            → reserve platform namespace no_fault (identity_of runtime a) digest rows' ≡ reply
            → reserve platform namespace no_fault (identity_of runtime a') digest rows' ≡ reply
        same_identity runtime a a' same digest rows' e = rw (identity_eq runtime a a' same) e
