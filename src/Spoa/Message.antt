-- ===== src/Spoa/Message.antt =====
-- src/spoa/message.h: the key-value arguments of a message.
use haproxy_spoa_firehol_mmd.Prelude.{List, [], ◌∷◌, ℕ, Option, none, some, if◌then◌else◌, bytes_eq}
use haproxy_spoa_firehol_mmd.Spoa.TypedData.{TypedData}

pub record Arg : Type 0 where
  pub name : List ℕ
  pub value : TypedData

pub record Message : Type 0 where
  pub name : List ℕ
  pub args : List Arg

-- `Message::get`: the first argument of that name; `none` is nullptr.
unfoldable pub get : List Arg → List ℕ → Option TypedData
get [] key = none
get (a ∷ args) key = if bytes_eq a.name key then some a.value else get args key
