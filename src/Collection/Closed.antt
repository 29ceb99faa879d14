-- ===== src/Collection/Closed.antt =====
-- What a closed database answers.
use medb.Base.{◌≡◌, true, false, Option, some, [], Bytes, arith}
use medb.Result.{Result, err, closed}
use medb.Store.{op_del}
use medb.Codec.{Codec}
use medb.Db.{Db, write, read}
use medb.Db.Run.{close_db}
use medb.Collection.{Typed, collections, get, update_doc, delete_doc, has, count, all_docs, seq_end}

-- After `Close`, reads, updates and deletes return ErrClosed (a delete whose record can be encoded),
-- `Has` is false, `Count` is zero, `All` and `Collections` list nothing, and a second `Close` returns
-- ErrClosed.
pub closed_answers {ℓ} :
    {T : Type ℓ} (c : Codec) (t : Typed T) (db : Db) (name id buf : Bytes)
    (fn : T → Option (Result T))
    → db.is_closed ≡ true
    → c.marshal_record (record { op = op_del; coll = name; id = id; doc = [] }) ≡ some buf
    → (get t name id db ≡ err closed)
      × (update_doc t name c id fn db ≡ (some (err closed), db))
      × (delete_doc t name c id db ≡ (err closed, db))
      × (has name id db ≡ false)
      × (count name db ≡ 0)
      × (all_docs t name db ≡ seq_end)
      × (collections db ≡ [])
      × (close_db c db ≡ (some closed, db))
unfolding get update_doc delete_doc has count all_docs collections close_db read write
closed_answers c t db name id buf fn shut enc = (
  ground arith,
  ground arith,
  ground arith,
  ground arith,
  ground arith,
  ground arith,
  ground arith,
  ground arith,
)
