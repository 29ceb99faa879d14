-- ===== src/Db/Run/Overlap.antt =====
-- Client calls while a snapshot is at its file calls: `writeSnapshot` releases `db.mu` between what
-- it does in memory and what it does on the disk.
use medb.Base.{
  ℕ, ◌≡◌, refl, ap, sym, ◌∙◌, Option, Option-cases, Bool-cases, some, none, if◌then◌else◌, true,
  List, [], ◌∷◌, arith, Bytes, false, inl, inr,
}
use medb.Result.{closed, Error, Result, ok, err, Result-cases}
use medb.Store.{op_set, Record, get_doc}
use medb.Codec.{Codec}
use medb.Snapshot.{Plan, capture, flush}
use medb.Disk.{Disk}
use medb.Db.{Db, write, read, enqueue, check_doc_size, take_snapshot}
use medb.Collection.{Typed, update_with, update_doc}

-- Under the lock: the marks are cleared, and the plan is made.
unfoldable pub begin_snapshot : Codec → Db → Result Plan × Db
begin_snapshot c db = (
  capture c db.store.dirty db.store.colls,
  record db { store = record { colls = db.store.colls; dirty = [] } },
)

-- After it: the file calls, the size and the worker's error.
unfoldable pub finish_snapshot : Result Plan → Db → Db
finish_snapshot (err e) db = record db { run_err = some e }
finish_snapshot (ok plan) db =
    let (r, d) = flush plan db.disk in
    elim r [
      | ok _ ↦ record db { disk = d; size = 0 }
      | err e ↦ record db { disk = d; run_err = some e }
    ]

-- A call of a client that may come meanwhile: a write, an update of a collection of `T` documents, a
-- read, or `Close`. A call that writes is taken up to its wait for the commit, and `Close` up to its wait
-- for the worker.
pub data ClientCall {ℓ} (T : Type ℓ) : Type ℓ where
  call_write : Record → ClientCall T
  call_update : Typed T → Bytes → Bytes → (T → Option (Result T)) → ClientCall T
  call_read : Bytes → Bytes → ClientCall T
  call_close : ClientCall T

-- Its answer: the commit to wait for or an error (none for a panic of the caller's function), or what
-- was read.
pub data ClientAnswer : Type 0 where
  applied : Result ℕ → ClientAnswer
  updated : Option (Result ℕ) → ClientAnswer
  found : Result Bytes → ClientAnswer
  closing : Option Error → ClientAnswer

unfoldable pub client_call {ℓ} : {T : Type ℓ} → Codec → ClientCall T → Db → ClientAnswer × Db
client_call c (call_write rec) db = let (r, db') = write c rec db in (applied r, db')
client_call c (call_update t name id fn) db =
    let (r, db') = update_doc t name c id fn db in (updated r, db')
client_call c (call_read name id) db = (found (read name id db), db)
client_call c call_close db =
    if db.is_closed
    then (closing (some closed), db)
    else (closing none, record db { is_closed = true })

-- A sequence of calls, and what each of them returned.
unfoldable pub calls {ℓ} : {T : Type ℓ} → Codec → List (ClientCall T) → Db → List ClientAnswer × Db
unfolding client_call
calls c [] db = ([], db)
calls c (k ∷ ks) db =
    let (r, db') = client_call c k db in let (rs, db'') = calls c ks db' in (r ∷ rs, db'')

take_snapshot-finish :
    (c : Codec) (db : Db)
    → take_snapshot c db ≡ finish_snapshot (begin_snapshot c db).0 (begin_snapshot c db).1
unfolding take_snapshot begin_snapshot finish_snapshot
take_snapshot-finish c db = ground arith

-- The fields that the file calls change.
abbrev placed : Disk × ℕ × Option Error → Db → Db
placed (d, n, e) db = record db { disk = d; size = n; run_err = e }

abbrev effect : Result Plan → Disk → ℕ → Option Error → Disk × ℕ × Option Error
effect (err x) d n e = (d, n, some x)
effect (ok plan) d n e =
    let (r, d') = flush plan d in elim r [ ok _ ↦ (d', 0, e) | err x ↦ (d', n, some x) ]

finish_snapshot-placed :
    (p : Result Plan) (db : Db)
    → finish_snapshot p db ≡ placed (effect p db.disk db.size db.run_err) db
unfolding finish_snapshot
finish_snapshot-placed (err x) db = refl
finish_snapshot-placed (ok plan) db = elim (Result-cases (flush plan db.disk).0) [
  | inl (_, e) ↦ rw (finish_snapshot, effect, e)
  | inr (x, e) ↦ rw (finish_snapshot, effect, e)
]

-- A write neither reads nor changes these fields.
write-placed :
    (c : Codec) (rec : Record) (t : Disk × ℕ × Option Error) (db : Db)
    → write c rec (placed t db) ≡ ((write c rec db).0, placed t (write c rec db).1)
unfolding write enqueue
write-placed c rec (d, n, e) db = elim (Option-cases (c.marshal_record rec)) [
  | inl fails ↦ rw (write, fails)
  | inr (buf, enc) ↦ elim (Bool-cases db.is_closed) [
    | inl shut ↦ rw (write, enc, shut)
    | inr live ↦ elim (Option-cases db.commit) [
      | inl idle ↦ rw (write, enc, live, enqueue, idle)
      | inr (id, open') ↦ rw (write, enc, live, enqueue, open')
    ]
  ]
]

module _ {ℓ} {T : Type ℓ} (c : Codec) where
  -- Nor does the end of an update, or the whole of it.
  update_with-placed :
      (t : Typed T) (name id : Bytes) (v : T) (p : Disk × ℕ × Option Error) (db : Db)
      → update_with t name c id v (placed p db)
        ≡ ((update_with t name c id v db).0, placed p (update_with t name c id v db).1)
  unfolding update_with enqueue
  update_with-placed t name id v (d, n, e) db = elim (Option-cases (t.marshal v)) [
    | inl fails ↦ rw (update_with, fails)
    | inr (out, enc) ↦ elim (Result-cases (check_doc_size out db)) [
      | inr (x, large) ↦
          let large' : check_doc_size out (placed (d, n, e) db) ≡ err x =
            unfold check_doc_size in large in
          rw (update_with, enc, large, large')
      | inl (_, fits) ↦
          let fits' : check_doc_size out (placed (d, n, e) db) ≡ ok tt =
            unfold check_doc_size in fits in
          let rec : Record = record { op = op_set; coll = name; id = id; doc = out } in
          elim (Option-cases (c.marshal_record rec)) [
            | inl fails ↦ rw (update_with, enc, fits, fits', fails)
            | inr (buf, logged) ↦ elim (Option-cases db.commit) [
              | inl idle ↦ rw (update_with, enc, fits, fits', logged, enqueue, idle)
              | inr (id', open') ↦ rw (update_with, enc, fits, fits', logged, enqueue, open')
            ]
          ]
    ]
  ]

  update_doc_runs :
      (t : Typed T) (name id : Bytes) (fn : T → Option (Result T)) (db : Db) (raw : Bytes)
      (v v' : T)
      → db.is_closed ≡ false
      → get_doc name id db.store.colls ≡ some raw
      → t.unmarshal raw ≡ some v
      → fn v ≡ some (ok v')
      → update_doc t name c id fn db
        ≡ (some (update_with t name c id v' db).0, (update_with t name c id v' db).1)
  unfolding update_doc
  update_doc_runs t name id fn db raw v v' live there dec e = ground arith

  update_doc-placed :
      (t : Typed T) (name id : Bytes) (fn : T → Option (Result T)) (p : Disk × ℕ × Option Error)
      (db : Db)
      → update_doc t name c id fn (placed p db)
        ≡ ((update_doc t name c id fn db).0, placed p (update_doc t name c id fn db).1)
  unfolding update_doc
  update_doc-placed t name id fn p db = elim (Bool-cases db.is_closed) [
    | inl shut ↦ rw (update_doc, shut)
    | inr live ↦ elim (Option-cases (get_doc name id db.store.colls)) [
      | inl absent ↦ rw (update_doc, live, absent)
      | inr (raw, there) ↦ elim (Option-cases (t.unmarshal raw)) [
        | inl broken ↦ rw (update_doc, live, there, broken)
        | inr (v, dec) ↦ elim (Option-cases (fn v)) [
          | inl panics ↦ rw (update_doc, live, there, dec, panics)
          | inr (err x, e) ↦ rw (update_doc, live, there, dec, e)
          | inr (ok v', e) ↦
              update_doc_runs t name id fn (placed p db) raw v v' live there dec e
              ∙ ap (λ r. (some r.0, r.1)) (update_with-placed t name id v' p db)
              ∙ sym (
                  ap (λ r. (r.0, placed p r.1))
                    (update_doc_runs t name id fn db raw v v' live there dec e))
        ]
      ]
    ]
  ]

  client_call-placed :
      (k : ClientCall T) (p : Disk × ℕ × Option Error) (db : Db)
      → client_call c k (placed p db) ≡ ((client_call c k db).0, placed p (client_call c k db).1)
  unfolding client_call read
  client_call-placed (call_write rec) p db = ap (λ r. (applied r.0, r.1)) (write-placed c rec p db)
  client_call-placed (call_update t name id fn) p db =
      ap (λ r. (updated r.0, r.1)) (update_doc-placed t name id fn p db)
  client_call-placed (call_read name id) p db = refl
  client_call-placed call_close (d, n, e) db = elim (Bool-cases db.is_closed) [
    | inl shut ↦ rw (client_call, shut)
    | inr live ↦ rw (client_call, live)
  ]

  -- The fields of a database that a call leaves alone.
  client_call-fields :
      (k : ClientCall T) (db : Db)
      → ((client_call c k db).1.disk ≡ db.disk)
        × ((client_call c k db).1.size ≡ db.size)
        × ((client_call c k db).1.run_err ≡ db.run_err)
  unfolding client_call write enqueue update_doc update_with check_doc_size
  client_call-fields (call_write rec) db = (ground arith, ground arith, ground arith)
  client_call-fields (call_update t name id fn) db = (ground arith, ground arith, ground arith)
  client_call-fields (call_read name id) db = (refl, refl, refl)
  client_call-fields call_close db = (ground arith, ground arith, ground arith)

  client_call-finish_snapshot :
      (k : ClientCall T) (p : Result Plan) (db : Db)
      → client_call c k (finish_snapshot p db)
        ≡ ((client_call c k db).0, finish_snapshot p (client_call c k db).1)
  client_call-finish_snapshot k p db =
      let (disk, size, error) = client_call-fields k db in
      ap (client_call c k) (finish_snapshot-placed p db)
      ∙ client_call-placed k (effect p db.disk db.size db.run_err) db
      ∙ ap (λ t. ((client_call c k db).0, t))
          (sym (finish_snapshot-placed p (client_call c k db).1 ∙ same disk size error))
    where
      same :
          {d d' : Disk} {n n' : ℕ} {e e' : Option Error}
          → d' ≡ d
          → n' ≡ n
          → e' ≡ e
          → placed (effect p d' n' e') (client_call c k db).1
            ≡ placed (effect p d n e) (client_call c k db).1
      same hd hn he = rw (hd, hn, he)

  calls-finish_snapshot :
      (ks : List (ClientCall T)) (p : Result Plan) (db : Db)
      → calls c ks (finish_snapshot p db) ≡ ((calls c ks db).0, finish_snapshot p (calls c ks db).1)
  unfolding calls
  calls-finish_snapshot [] p db = refl
  calls-finish_snapshot (k ∷ ks) p db =
      rw (calls, client_call-finish_snapshot k p db)
        (rw (calls-finish_snapshot ks p (client_call c k db).1))

  -- Writes, updates, reads and the start of `Close` that come between what a snapshot does in memory and its file
  -- calls get the same answers, and leave the same database, as when they come after the whole snapshot.
  pub calls-take_snapshot :
      (ks : List (ClientCall T)) (db : Db)
      → let (p, begun) = begin_snapshot c db in
        let (answers, db') = calls c ks begun in
        calls c ks (take_snapshot c db) ≡ (answers, finish_snapshot p db')
  calls-take_snapshot ks db =
      ap (calls c ks) (take_snapshot-finish c db)
      ∙ calls-finish_snapshot ks (begin_snapshot c db).0 (begin_snapshot c db).1
