-- ===== src/Codexmsg/Jsonrpc.antt =====
-- codexmsg/jsonrpc.go: request ids and the messages of the daemon.
use harness_transport.Go.Json.{number, quote, object}
use harness_transport.Prelude.Int.{ℤ, pos, negsuc}
use harness_transport.Prelude.{
  ℕ, Bool, true, false, Bytes, [], ◌∷◌, ◌++◌, Option, none, some, codes, is_empty, if◌then◌else◌,
  ◌==◌,
}

-- `RequestID`
pub record RequestId : Type 0 where
  pub num : ℤ
  pub str : Bytes
  pub is_id : Bool

-- `IntID`
unfoldable pub int_id : ℕ → RequestId
int_id n = record { num = pos n; str = codes ""; is_id = true }

-- `MarshalJSON` of an id: the string or the number that it is.
unfoldable pub marshal_id : RequestId → Bytes
marshal_id r = if is_empty r.str then number r.num else quote r.str

starts_with_quote : Bytes → Bool
starts_with_quote [] = false
starts_with_quote (c ∷ _) = c == b'"'

-- `UnmarshalJSON` of an id, into one that was not set: `as_text` and `as_number` are `json.Unmarshal`
-- into a string and into a number.
unfoldable pub unmarshal_id : (Bytes → Option Bytes) → (Bytes → Option ℤ) → Bytes → Option RequestId
unfolding starts_with_quote
unmarshal_id as_text as_number b =
    if starts_with_quote b
    then elim (as_text b) [
      | none ↦ none
      | some s ↦ some (record { num = pos 0; str = s; is_id = true })
    ]
    else elim (as_number b) [
      | none ↦ none
      | some n ↦ some (record { num = n; str = []; is_id = true })
    ]

-- `key`
unfoldable pub key : RequestId → Bytes
key r = if is_empty r.str then codes "n:" ++ number r.num else codes "s:" ++ r.str

pub record RpcError : Type 0 where
  pub code : ℤ
  pub message : Bytes
  pub data_of : Bytes

-- `Message`, with the raw JSON of its parts.
pub record Message : Type 0 where
  pub id : Option RequestId
  pub method : Bytes
  pub params : Bytes
  pub result : Bytes
  pub error : Option RpcError

-- The id of a message that answers a request (`IsResponse`).
unfoldable pub response_id : Message → Option RequestId
response_id m = if is_empty m.method then m.id else none

-- `(*Error).Error`
unfoldable pub rpc_text : RpcError → Bytes
rpc_text e =
    codes "app server error "
    ++ (number e.code
        ++ (codes ": "
            ++ (e.message
                ++ (if is_empty e.data_of then [] else codes " (" ++ (e.data_of ++ codes ")")))))

-- An error value: the daemon's, one that wraps another behind its own text, or any other by its text.
pub data Failure : Type 0 where
  rpc : RpcError → Failure
  wrapped : Bytes → Failure → Failure
  plain : Bytes → Failure

-- `Error()`
unfoldable pub failure_text : Failure → Bytes
failure_text (rpc e) = rpc_text e
failure_text (wrapped lead f) = lead ++ (codes ": " ++ failure_text f)
failure_text (plain t) = t

-- `asError`: the first daemon's error of the chain.
unfoldable pub as_error : Failure → Option RpcError
as_error (rpc e) = some e
as_error (wrapped _ f) = as_error f
as_error (plain _) = none

abbrev pub code_invalid_request : ℤ
code_invalid_request = negsuc 32599

abbrev pub code_method_not_found : ℤ
code_method_not_found = negsuc 32600

abbrev pub code_internal_error : ℤ
code_internal_error = negsuc 32602

abbrev pub code_overloaded : ℤ
code_overloaded = negsuc 32000

-- Equality with `CodeMethodNotFound`.
unfoldable pub is_code_method_not_found : ℤ → Bool
is_code_method_not_found (pos n) = false
is_code_method_not_found (negsuc n) = n == 32600

unfoldable pub is_method_not_found : Failure → Bool
is_method_not_found f = elim (as_error f) [
  | none ↦ false
  | some e ↦ is_code_method_not_found e.code
]

-- `String` of an id.
unfoldable pub id_text : RequestId → Bytes
id_text r = if is_empty r.str then number r.num else r.str

-- `json.Marshal` of a `Request`; `params` is JSON, left out where it is empty.
unfoldable pub marshal_request : RequestId → Bytes → Bytes → Bytes
marshal_request id method params = object (
    (quote (codes "id"), marshal_id id)
    ∷ (quote (codes "method"), quote method)
    ∷ (if is_empty params then [] else (quote (codes "params"), params) ∷ []))
