-- ===== src/Server/Init/Calls.antt =====
-- What a `Set` of `initializeAuth` (cmd/medb/auth.go) and the wait for its commit do to the
-- collections, and how a run may end.
use medb.Base.{
  ◌≡◌, refl, ap, sym, ◌∙◌, inl, inr, ℕ, false, Option-cases, none, some, [], ◌∷◌, arith, Bytes,
  bytes_eq, bytes_eq_refl, lookup, lookup-insert, insert, if◌then◌else◌,
}
use medb.Result.{ok, err, not_found, Error, Result-cases}
use medb.Store.{op_set, Record, Colls, docs_of, get_doc, apply}
use medb.Codec.{Codec}
use medb.Db.{Db, read, write, check_doc_size, write_log, write_snapshot, take_snapshot, on_notify}
use medb.Db.Run.{outcome}
use medb.Collection.{Typed, get, set_doc}
use medb.Collection.Writes.{set_doc_inv, write_applied}
use medb.Server.{Host}
use medb.Server.Auth.{AuthStore}
use medb.Server.Init.{
  Init, Ending, done, stops, aborted, draws_on, waits_on, write_failed, set_and_wait, ◌>>=◌,
}

-- The worker settles commits; it leaves the documents and the mark of a closed database alone.
pub record IsWorker (worker : Db → Db) : Type 0 where
  pub same_colls : (db : Db) → (worker db).store.colls ≡ db.store.colls
  pub same_closed : (db : Db) → (worker db).is_closed ≡ db.is_closed

write_snapshot-colls :
    (c : Codec) (db : Db)
    → ((write_snapshot c db).store.colls ≡ db.store.colls)
      × ((write_snapshot c db).is_closed ≡ db.is_closed)
unfolding write_snapshot take_snapshot
write_snapshot-colls c db = (ground arith, ground arith)

pub on_notify-IsWorker : (c : Codec) → IsWorker (on_notify c)
unfolding on_notify write_log
on_notify-IsWorker c = record {
  same_colls = λ db. let (colls, _) = write_snapshot-colls c (write_log db) in ground arith;
  same_closed = λ db. let (_, live) = write_snapshot-colls c (write_log db) in ground arith;
}

abbrev pub put_colls : Bytes → Bytes → Bytes → Colls → Colls
put_colls name id raw colls = insert name (insert id raw (docs_of name colls)) colls

pub docs_of-put_colls :
    (name id raw : Bytes) (colls : Colls) (coll : Bytes)
    → docs_of coll (put_colls name id raw colls)
      ≡ (if bytes_eq name coll then insert id raw (docs_of name colls) else docs_of coll colls)
unfolding docs_of
docs_of-put_colls name id raw colls coll =
    ground (arith, lookup-insert name coll (insert id raw (docs_of name colls)) colls)

module _ {ℓ} {T : Type ℓ} (t : Typed T) (name : Bytes) where
  set_doc-colls :
      (c : Codec) (id : Bytes) (doc : T) (db : Db) (commit : ℕ)
      → (set_doc t name c id doc db).0 ≡ ok commit
      → (raw : Bytes) × (t.marshal doc ≡ some raw)
        × ((set_doc t name c id doc db).1.is_closed ≡ false)
        × ((set_doc t name c id doc db).1.store.colls ≡ put_colls name id raw db.store.colls)
  set_doc-colls c id doc db commit e =
      let (raw, enc, _, same) = set_doc_inv t c name id doc db commit e in
      let rec : Record = record { op = op_set; coll = name; id = id; doc = raw } in
      let (_, live, store) = write_applied c rec db commit (sym (ap (λ p. p.0) same) ∙ e) in
      (raw, enc, rw same live, rw (same, store) (unfold apply in refl))

  set_doc_refused :
      (c : Codec) (id : Bytes) (doc : T) (db : Db) (e : Error)
      → (set_doc t name c id doc db).0 ≡ err e
      → (set_doc t name c id doc db).1 ≡ db
  unfolding set_doc check_doc_size write
  set_doc_refused c id doc db e h = ground arith

  -- Reading a collection with no document, and with one.
  pub get_absent :
      (id : Bytes) (db : Db)
      → db.is_closed ≡ false
      → docs_of name db.store.colls ≡ []
      → get t name id db ≡ err not_found
  unfolding get read get_doc lookup
  get_absent id db live none_there = ground arith

  pub get_only :
      (id raw : Bytes) (v : T) (db : Db)
      → db.is_closed ≡ false
      → docs_of name db.store.colls ≡ (id, raw) ∷ []
      → t.unmarshal raw ≡ some v
      → get t name id db ≡ ok v
  unfolding get read get_doc lookup
  get_only id raw v db live one dec = ground (arith, bytes_eq_refl id)

-- How a failed or endless run may end, and what a run that ends well has made of the database.
abbrev pub Ends {ℓ} : {A : Type ℓ} → (A → Db → Type 0) → (Db → Type 0) → Ending A × Db → Type 0
Ends Q R (done x, db) = Q x db
Ends Q R (stops (write_failed e), db) = R db
Ends Q R (stops _, db) = ⊥
Ends Q R (aborted, db) = R db
Ends Q R (draws_on, db) = R db
Ends Q R (waits_on, db) = R db

-- The rule for one step after another.
pub Ends-bind {ℓ κ} :
    {A : Type ℓ} {B : Type κ} (Q : A → Db → Type 0) (Q' : B → Db → Type 0) (R : Db → Type 0)
    (m : Init A) (f : A → Init B) (db : Db)
    → Ends Q R (m db)
    → ((x : A) (db' : Db) → Q x db' → Ends Q' R (f x db'))
    → Ends Q' R ((m >>= f) db)
Ends-bind {A = A} {B = B} Q Q' R m f db h k = go (m db) h
  where
    go :
        (r : Ending A × Db)
        → Ends Q R r
        → Ends Q' R (elim r.0 [
          | done x ↦ f x r.1
          | stops e ↦ (stops e, r.1)
          | aborted ↦ (aborted, r.1)
          | draws_on ↦ (draws_on, r.1)
          | waits_on ↦ (waits_on, r.1)
        ])
    go (done x, db') h = k x db' h
    go (stops (write_failed e), db') h = h
    go (aborted, db') h = h
    go (draws_on, db') h = h
    go (waits_on, db') h = h
    go (stops x, db') h = absurd h

pub Ends-map {ℓ} :
    {A : Type ℓ} (Q Q' : A → Db → Type 0) (R : Db → Type 0) (r : Ending A × Db)
    → Ends Q R r
    → ((x : A) (db : Db) → Q x db → Q' x db)
    → Ends Q' R r
Ends-map Q Q' R (done x, db) h k = k x db h
Ends-map Q Q' R (stops (write_failed e), db) h k = h
Ends-map Q Q' R (aborted, db) h k = h
Ends-map Q Q' R (draws_on, db) h k = h
Ends-map Q Q' R (waits_on, db) h k = h
Ends-map Q Q' R (stops x, db) h k = absurd h

module _ {ℓ} {T : Type ℓ} (h : Host) (a : AuthStore) (c : Codec) {worker : Db → Db}
    (works : IsWorker worker) (t : Typed T) (name : Bytes) (Q R : Db → Type 0)
    (weaken : (db : Db) → Q db → R db) where
  -- A `Set` and its wait: the document is written when it ends well, and may be or not otherwise.
  pub set_and_wait-Ends :
      (id : Bytes) (doc : T) (db : Db)
      → R db
      → ((raw : Bytes) (db' : Db)
          → t.marshal doc ≡ some raw
          → db'.is_closed ≡ false
          → db'.store.colls ≡ put_colls name id raw db.store.colls
          → Q db')
      → Ends (λ _. Q) R (set_and_wait h a c worker t name id doc db)
  unfolding set_and_wait
  set_and_wait-Ends id doc db before after = elim (Result-cases (set_doc t name c id doc db).0) [
    | inr (e, refused) ↦
        rw (set_and_wait, refused, set_doc_refused t name c id doc db e refused) before
    | inl (commit, accepted) ↦
        let (raw, enc, live, colls) = set_doc-colls t name c id doc db commit accepted in
        let db' = (set_doc t name c id doc db).1 in
        let fine =
          after raw (worker db') enc (works.same_closed db' ∙ live)
            (works.same_colls db' ∙ colls) in
        elim (Option-cases (outcome commit (worker db').settled)) [
          | inl waiting ↦ rw (set_and_wait, accepted, waiting) (weaken (worker db') fine)
          | inr (none, told) ↦ rw (set_and_wait, accepted, told) fine
          | inr (some e, told) ↦ rw (set_and_wait, accepted, told) (weaken (worker db') fine)
        ]
  ]
