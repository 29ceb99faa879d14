-- ===== src/Server/Body/Tests.antt =====
-- A body with one member, and one that is too long.
use medb.Base.{
  ◌≡◌, refl, ◌≤◌, true, false, not, some, is_some, [], ◌∷◌, any_of, Map, Bytes, bytes, bytes_eq,
  insert, keys, length, lookup,
}
use medb.Db.Opening.{negsuc}
use medb.Server.Fields.{good, check_fields}
use medb.Server.Sample.{host}
use medb.Server.Unicode.{valid_json_unicode}
use medb.Server.Handlers.{read_object}
use medb.Server.Body.{Incoming, BodyReader, collect, decode_body, spell, AreDistinct}
use medb.Server.Body.Accepted.{read_object_lem}

abbrev one : Map Bytes
one = (bytes "id", bytes "7") ∷ []

abbrev reader : BodyReader
reader = record { media_type = λ b. some b; valid_json = λ b. true; decode = λ b. some (spell one) }

abbrev request : Bytes → Incoming
request sent = record {
  content_encoding = [];
  content_type = bytes "application/json";
  content_length = negsuc 0;
  sent = sent;
  broken = false;
}

abbrev body : Bytes
body = bytes "{\"id\":7}"

accepted :
    read_object (bytes "id" ∷ []) (bytes "id" ∷ []) (decode_body host reader 9 (request body))
    ≡ good one
unfolding read_object decode_body bytes_eq valid_json_unicode spell collect insert lookup
    check_fields
accepted = refl

read_object_lem_example :
    ((◌≡◌ {A = Bytes} [] [])
      × (some (bytes "application/json") ≡ some (bytes "application/json"))
      × (length body ≤ 9)
      × (false ≡ false)
      × (true ≡ true)
      × (valid_json_unicode body ≡ some true)
      × (true ≡ true))
    × ((ms : Map Bytes) × (some (spell one) ≡ some (spell ms))
        × AreDistinct (keys ms)
        × ((name : Bytes) → lookup name one ≡ lookup name ms))
    × (any_of (λ name. not (any_of (λ n. bytes_eq n name) (bytes "id" ∷ []))) (keys one) ≡ false)
    × (any_of (λ name. not (is_some (lookup name one))) (bytes "id" ∷ []) ≡ false)
read_object_lem_example =
    read_object_lem host reader (bytes "id" ∷ []) (bytes "id" ∷ []) 9 (request body) one accepted
