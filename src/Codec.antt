-- ===== src/Codec.antt =====
-- The use of encoding/json: how records and collections become bytes and come back. The codec is a
-- parameter of the model, and `JsonLaws` says what the program relies on.
pub mod Sample
use medb.Base.{◌≡◌, ◌≢◌, ◌<◌, ◌⊎◌, true, Option, some, [], All, Bytes, lookup, length}
use medb.Name.{valid_name}
use medb.Store.{op_set, op_del, op_drop, Record, Docs}

pub record Codec : Type 0 where
  -- json.Marshal and json.Unmarshal of a `record`
  pub marshal_record : Record → Option Bytes
  pub unmarshal_record : Bytes → Option Record
  -- json.Marshal and json.Unmarshal of a `map[string]json.RawMessage`
  pub marshal_docs : Docs → Option Bytes
  pub unmarshal_docs : Bytes → Option Docs

abbrev pub NoNewline : Bytes → Type 0
NoNewline = All (λ c. c ≢ b'\n')

-- The records that come back from the log: a valid name, which `C` and `Drop` check, an id that JSON
-- keeps (`IsText`, valid UTF-8), which the server checks and `Set`, `Delete` and `Update` do not, and a
-- document in the form that json.Marshal gives it (`IsJson`, compact) just where one is set.
abbrev pub IsWire : (IsText IsJson : Bytes → Type 0) → Record → Type 0
IsWire IsText IsJson r =
    (valid_name r.coll ≡ true)
    × IsText r.id
    × ((r.op ≡ op_set) × IsJson r.doc
        ⊎ (r.op ≡ op_del) × (r.doc ≡ [])
        ⊎ (r.op ≡ op_drop) × (r.doc ≡ []))

-- What is encoded comes back; no encoding of a record has a newline; no document is empty.
pub record JsonLaws (c : Codec) (IsText IsJson : Bytes → Type 0) : Type 0 where
  pub record_back :
      (r : Record) (b : Bytes)
      → IsWire IsText IsJson r
      → c.marshal_record r ≡ some b
      → c.unmarshal_record b ≡ some r
  pub record_line :
      (r : Record) (b : Bytes) → IsWire IsText IsJson r → c.marshal_record r ≡ some b → NoNewline b
  pub docs_back :
      (d : Docs) (b : Bytes)
      → ((i v : Bytes) → lookup i d ≡ some v → IsText i × IsJson v)
      → c.marshal_docs d ≡ some b
      → (d' : Docs) × (c.unmarshal_docs b ≡ some d') × ((i : Bytes) → lookup i d' ≡ lookup i d)
  pub json_filled : (v : Bytes) → IsJson v → 0 < length v
