-- ===== src/Backend/Api.antt =====
-- What pkg/backend calls of the OpenBao API client and of Go's crypto packages: parameters of its
-- model. `S` is the state of the remote server.
use est_service.Prelude.{Bool, List, Option, Result, String, if◌then◌else◌, none, some, ℕ, ◌==◌}
use est_service.Backend.{Health}

-- The values of requests and replies: interface{}.
mutual
  pub data Json : Type 0 where
    text : String → Json
    flag : Bool → Json
    texts : List String → Json
    table : Fields → Json

  pub data Fields : Type 0 where
    end : Fields
    field : String → Json → Fields → Fields

-- An entry of a map.
unfoldable pub entry : String → Fields → Option Json
entry key end = none
entry key (field name value rest) = if name == key then some value else entry key rest

-- `value.(string)` and `value.(map[string]interface{})`
abbrev pub as_text : Option Json → Option String
as_text none = none
as_text (some (text s)) = some s
as_text (some (flag b)) = none
as_text (some (texts ss)) = none
as_text (some (table fields)) = none

abbrev pub as_object : Option Json → Option Fields
as_object none = none
as_object (some (text s)) = none
as_object (some (flag b)) = none
as_object (some (texts ss)) = none
as_object (some (table fields)) = some fields

-- api.Secret: its data, and the client token of its `Auth`; `none` where these are nil.
pub record Secret : Type 0 where
  pub contents : Option Fields
  pub client_token : Option String

-- api.AuthMount
pub record AuthMount : Type 0 where
  pub kind : String
  pub accessor : String

-- The requests of one client, which carry its token: Logical() with Write, Read, Delete and ReadRaw
-- (and the reading of its body), Sys() with Health and ListAuth, Token() with RenewSelf. A reply of
-- Write, Read and RenewSelf may be nil. `cloned` is the error of Clone, `now` is
-- UnixNano, and Health gets the timeout of its context in seconds, if it has one.
pub record Api (S : Type 0) : Type 0 where
  pub write : String → String → Option Fields → S → Result (Option Secret) × S
  pub read : String → String → S → Result (Option Secret) × S
  pub delete : String → String → S → Result (Option Secret) × S
  pub read_raw : String → String → S → Result (Result (List ℕ)) × S
  pub health : Option ℕ → String → S → Result Health × S
  pub list_auth : String → S → Result (List (String × AuthMount)) × S
  pub renew_self : String → S → Result (Option Secret) × S
  pub cloned : S → Result (Unit {0})
  pub now : S → ℕ
